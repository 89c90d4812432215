-- ===== src/Config/Safe.antt =====
-- What a configuration that internal/config/config.go has loaded is good for.
use run_mesh.Base.{
  ℕ, ◌≤◌, ◌<◌, true, false, ◌&&◌, ◌||◌, not, ◌≡◌, some, str_eq, arith, Error, ok, err, Holds,
  Holds-bind, Holds-ok, refuse_if-eq-ok,
}
use run_mesh.Base.Int.{to_ℕ}
use run_mesh.Workflow.Dag.{codes}
use run_mesh.Store.Db.{Db, Env}
use run_mesh.Scheduler.Outbox.{Settings}
use run_mesh.RateLimit.Middleware.{middleware}
use run_mesh.Scheduler.Outbox.{publish_batch}
use run_mesh.Scheduler.Drain.{unlocked, accept, alone, IsTimely, IsQuiet, publish_batch-drains}
use run_mesh.Scheduler.Drain.Acks.{backlog}
use run_mesh.Api.Response.{Response, failure}
use run_mesh.Config.Env.{Parsers, Getenv}
use run_mesh.Config.Load.{Config, is_positive, reaches, check, read_config, load}

-- The settings that the scheduler's command gives to its service.
abbrev pub settings_of : Config → Settings
settings_of c = record {
  batch_size = c.outbox_batch_size;
  claim_ttl = c.outbox_claim_ttl;
  publish_timeout = c.outbox_publish_timeout;
}

-- What the checks leave.
pub record IsSafe (c : Config) : Type 0 where
  pub identity :
      c.dev_auth
        || (not (str_eq c.oidc_issuer "")
            && (not (str_eq c.oidc_jwks_url "")
                && (not (str_eq c.oidc_audience "") && not (str_eq c.api_key_pepper ""))))
      ≡ true
  pub closed : not c.dev_auth && c.rate_limit_fail_open ≡ false
  pub rate : 1 ≤ to_ℕ c.rate_limit_rate
  pub burst : 1 ≤ to_ℕ c.rate_limit_burst
  pub ttl : is_positive c.outbox_claim_ttl ≡ true
  pub timeout : is_positive c.outbox_publish_timeout ≡ true
  pub shorter : to_ℕ c.outbox_publish_timeout < to_ℕ c.outbox_claim_ttl

IsSafe-intro :
    (c : Config)
    → (not c.dev_auth
        && (str_eq c.oidc_issuer "" || (str_eq c.oidc_jwks_url "" || str_eq c.oidc_audience "")))
      ≡ false
    → (not c.dev_auth && str_eq c.api_key_pepper "") ≡ false
    → (not (is_positive c.rate_limit_rate) || not (is_positive c.rate_limit_burst)) ≡ false
    → (not (is_positive c.outbox_batch_size)
        || (not (is_positive c.outbox_claim_ttl)
            || (not (is_positive c.outbox_publish_timeout)
                || reaches c.outbox_publish_timeout c.outbox_claim_ttl)))
      ≡ false
    → (not c.dev_auth && c.rate_limit_fail_open) ≡ false
    → IsSafe c
IsSafe-intro c oidc pepper limits outbox closing = record {
  identity = ground arith;
  closed = closing;
  rate = ground arith;
  burst = ground arith;
  ttl = ground arith;
  timeout = ground arith;
  shorter = ground arith;
}

check-IsSafe : (c : Config) → Holds (λ _. IsSafe c) (check c)
unfolding check
check-IsSafe c = Holds-bind _ _ _ λ u₁ token. Holds-bind _ _ _ λ u₂ oidc.
    Holds-bind _ _ _ λ u₃ pepper. Holds-bind _ _ _ λ u₄ limits. Holds-bind _ _ _ λ u₅ outbox.
      Holds-bind _ _ _ λ u₆ closing. record {
        at = λ _ _.
            IsSafe-intro c (refuse_if-eq-ok _ _ oidc) (refuse_if-eq-ok _ _ pepper)
              (refuse_if-eq-ok _ _ limits) (refuse_if-eq-ok _ _ outbox)
              (refuse_if-eq-ok _ _ closing);
      }

-- A configuration that is loaded outside of development names an issuer, its keys, an audience and a
-- pepper, and does not let requests pass when the rate limiter fails; in any case the rate and the burst
-- are positive, and an event is claimed for longer than it may take to publish.
load-IsSafe : (parsers : Parsers) (getenv : Getenv) → Holds IsSafe (load parsers getenv)
unfolding load
load-IsSafe parsers getenv = Holds-bind _ _ _ λ v e.
    Holds-bind _ _ _
      λ u checked. Holds-ok _ ((check-IsSafe (read_config parsers getenv v)).at u checked)

load-IsTimely :
    (parsers : Parsers) (getenv : Getenv) (c : Config)
    → load parsers getenv ≡ ok c
    → IsTimely (settings_of c)
load-IsTimely parsers getenv c h =
    let safe = (load-IsSafe parsers getenv).at c h in
    let ttl = safe.ttl in let timeout = safe.timeout in let shorter = safe.shorter in ground arith

-- With the settings of any configuration that `Load` accepts, publishing ends without an error and leaves
-- no event unpublished, with a publisher that takes every event and no one else at work on the outbox,
-- provided that event ids are unique and that no event that waits is claimed. The fuel is enough if it is
-- above the number of events that wait.
pub load-publish_batch :
    (parsers : Parsers) (getenv : Getenv) (c : Config) (envs : ℕ → Env) (fuel : ℕ) (db : Db)
    → load parsers getenv ≡ ok c
    → IsQuiet db.outbox
    → backlog db.outbox < fuel
    → ((publish_batch envs (settings_of c) unlocked accept alone fuel db).0 ≡ some (ok tt))
      × (backlog (publish_batch envs (settings_of c) unlocked accept alone fuel db).1.outbox ≡ 0)
load-publish_batch parsers getenv c envs fuel db h quiet enough =
    publish_batch-drains envs (settings_of c) fuel db (load-IsTimely parsers getenv c h) quiet
      enough

-- Outside of development no request passes a rate limiter that cannot reach its store.
pub load-middleware :
    (parsers : Parsers) (getenv : Getenv) (c : Config) (burst : ℕ) (e : Error)
    (next : Response (Unit {0}))
    → load parsers getenv ≡ ok c
    → c.dev_auth ≡ false
    → (middleware burst c.rate_limit_fail_open (err e) next).1
      ≡ failure 503 (codes "rate limiter unavailable")
unfolding middleware
load-middleware parsers getenv c burst e next h production =
    let closed = ((load-IsSafe parsers getenv).at c h).closed in ground arith
