-- ===== src/Config/Examples.antt =====
-- Configurations of internal/config/config.go from concrete environments.
use run_mesh.Base.{
  true, false, ◌||◌, ◌≡◌, refl, none, some, str_eq, if◌then◌else◌, ok, err, other, refuse_if, ◌>>=◌,
  arith,
}
use run_mesh.Base.Int.{pos}
use run_mesh.Workflow.Dag.{codes}
use run_mesh.Store.Db.{Env}
use run_mesh.Scheduler.Outbox.{publish_batch}
use run_mesh.Scheduler.Drain.{unlocked, accept, alone}
use run_mesh.Scheduler.Drain.Acks.{backlog}
use run_mesh.Scheduler.Examples.{waiting, two_events-IsQuiet, two_wait}
use run_mesh.RateLimit.Middleware.{middleware}
use run_mesh.Api.Response.{failure, success}
use run_mesh.Config.Env.{Parsers, Getenv, env_or, env_bool, env_duration, env_int}
use run_mesh.Config.Load.{Config, Parsed, parse, read_config, check, load}
use run_mesh.Config.Safe.{settings_of, load-publish_batch, load-middleware}

-- The variables that are needed outside of development.
abbrev getenv : Getenv
getenv key =
    if str_eq key "RUNMESH_INTERNAL_TOKEN"
      || (str_eq key "RUNMESH_OIDC_ISSUER"
          || (str_eq key "RUNMESH_OIDC_JWKS_URL" || str_eq key "RUNMESH_API_KEY_PEPPER"))
    then "set"
    else ""

abbrev parsers : Parsers
parsers = record {
  parse_bool = λ s. if str_eq s "true" then some true else none;
  parse_duration = λ s. err (other "time: invalid duration");
  atoi = λ s. err (other "invalid syntax");
}

abbrev parsed : Parsed
parsed = record {
  rate = pos 100;
  burst = pos 200;
  fail_open = false;
  lease = pos 30000000000;
  interval = pos 500000000;
  outbox_interval = pos 250000000;
  batch = pos 100;
  ttl = pos 30000000000;
  timeout = pos 10000000000;
  expiry = pos 900000000000;
}

abbrev production : Config
production = read_config parsers getenv parsed

loaded : load parsers getenv ≡ ok production
unfolding load parse check read_config env_or env_bool env_duration env_int refuse_if ◌>>=◌
loaded = refl

not_dev : production.dev_auth ≡ false
unfolding read_config env_bool
not_dev = refl

abbrev env : Env
env = record { now = 9; clock = 9; trace_parent = ""; new_uuid = λ n. n }

load-publish_batch_example :
    ((publish_batch (λ n. env) (settings_of production) unlocked accept alone 3 waiting).0
      ≡ some (ok tt))
    × (backlog
          (publish_batch
            (λ n. env)
            (settings_of production)
            unlocked
            accept
            alone
            3
            waiting).1.outbox
        ≡ 0)
load-publish_batch_example =
    load-publish_batch parsers getenv production (λ n. env) 3 waiting loaded two_events-IsQuiet
      (omega (arith, two_wait))

load-middleware_example :
    (middleware 200 production.rate_limit_fail_open
      (err (other "connection refused"))
      (success (tt {0}))).1
    ≡ failure 503 (codes "rate limiter unavailable")
load-middleware_example =
    load-middleware parsers getenv production 200 (other "connection refused") (success tt) loaded
      not_dev
