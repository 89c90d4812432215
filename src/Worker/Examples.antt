-- ===== src/Worker/Examples.antt =====
-- The worker at concrete inputs.
use run_mesh.Base.{ℕ, ◌==◌, ◌&&◌, ◌≡◌, refl, true, false, String, none, some, [], ◌∷◌}
use run_mesh.Workflow.State.{TaskStatus}
use run_mesh.Workflow.Dag.{codes}
use run_mesh.Lifecycle.Samples.{dispatched, env}
use run_mesh.Base.Tables.{exists, find?}
use run_mesh.Store.Leases.{run_of}
use run_mesh.Store.DeadLetter.{belongs, tenant_of}
use run_mesh.Auth.Text.{after_prefix, trim_space, trim_left, trim_right, text_eq}
use run_mesh.Auth.Authenticate.{Principal, authenticate_worker}
use run_mesh.Rpc.Status.{answer, missing, deny_if, ◌>>=◌}
use run_mesh.Rpc.Uploads.{authorize}
use run_mesh.Worker.Foreign.{execute-foreign}
use run_mesh.Worker.Calls.{Context, Runtime, Snapshot, Service, Web, give, failed, refused}
use run_mesh.Worker.Client.{Client, new_client, rpc_context}
use run_mesh.Worker.Execute.{Course, execute}
use run_mesh.Worker.Served.{World, Plane, credentials, served, web_of}
use run_mesh.Worker.Protocol.{noting, noting_web, IsProtocol, execute-IsProtocol}

-- Every value is a text.
abbrev pub runtime : Runtime String
runtime = record {
  text = λ s. s;
  flag = λ b. "true";
  number = λ n. "0";
  object = λ fields. "{}";
  marshal = λ value. some (codes value);
  unmarshal = λ raw. some [];
  unmarshal_error = λ raw. record { type_name = "*json.SyntaxError"; message = "" };
  is_struct = λ fields. true;
  show = λ value. "<nil>";
  show_id = λ id. "10";
  quote = λ s. s;
  upper = λ s. s;
  floor = λ value. none;
  sha256_hex = λ raw. "";
  show_raw = λ raw. "{}";
}

abbrev greeted : Snapshot String
greeted = record {
  id = 10;
  workflow_run_id = 1;
  task_key = "greet";
  handler = "examples.greet";
  status = TaskStatus.leased;
  attempt = 1;
  timeout_seconds = 300;
  input = [];
  input_artifact_uri = "";
}

-- A service that always answers.
abbrev willing : Service ℕ String
willing = record {
  lease = λ ctx id w. give greeted;
  start = λ ctx id w. give greeted;
  heartbeat = λ ctx id w. give (100, false);
  complete = λ ctx r. give greeted;
  fail = λ ctx id w f. give greeted;
  create_artifact_upload =
      λ ctx r. give (record { artifact = 1; upload_url = "http://minio"; headers = [] });
  complete_artifact_upload = λ ctx artifact w id. give "s3://runmesh/log";
  get_artifact_download = λ ctx uri w id. give "http://minio";
}

abbrev fine : {S : Type 0} → Web S
fine = record {
  put = λ ctx url headers bytes. give 200;
  get = λ ctx url. give (200, some []);
  post = λ ctx url authorization report. give 200;
}

abbrev client : Client
client = record {
  token = codes "secret";
  worker_id = "w1";
  http_base_url = codes "http://localhost:8080";
  has_error = false;
}

abbrev background : Context
background = record { is_done = false; authorization = [] }

abbrev short : Course
short = record { ticks = λ n. 2; is_late = λ n. false; is_woken = true }

execute-IsProtocol_example : IsProtocol (
    execute runtime
      (noting willing)
      (noting_web fine)
      client
      background
      short
      10
      (record { world = 0; log = [] }))
execute-IsProtocol_example = execute-IsProtocol runtime willing fine client background short 10 0

local_client :
    (new_client (λ t. false) (codes "grpc://localhost:7001/") [] "w").http_base_url
    ≡ codes "http://localhost:8080"
unfolding new_client
local_client = refl

abbrev dev : Principal
dev = record { tenant_id = 8; user_id = none; role = "admin"; kind = "development"; scopes = [] }

abbrev plane : Plane ℕ
plane = record {
  platform = record {
    is_uuid = λ t. true;
    uuid_of = λ t. none;
    show_uuid = λ id. [];
    encode = λ t. t;
    sha256 = λ t. "digest";
  };
  authenticator = record {
    config = record {
      dev = true;
      dev_principal = dev;
      dev_worker_token = codes "secret";
      tenant_claim = [];
      api_key_pepper = [];
    };
    verifier = none;
  };
  lease_duration = 30;
  objects = λ outside. none;
  envs = λ n. env;
}

abbrev world : World ℕ
world = record { db = dispatched; outside = 0; calls = 0 }

-- What the control plane takes the worker for.
abbrev caller : Principal
caller = record dev { scopes = "workers:execute" ∷ [] }

known : credentials plane (rpc_context client background) world ≡ answer (caller, dispatched)
unfolding authorize authenticate_worker ◌>>=◌ rpc_context after_prefix trim_space trim_left
    trim_right text_eq deny_if
known = refl

not_owned : exists (λ t. t.id == 10 && belongs dispatched 8 t) dispatched.tasks ≡ false
unfolding exists tenant_of run_of find?
not_owned = refl

execute-foreign_example :
    execute runtime (served plane runtime) (web_of fine) client background short 10 world
    ≡ (failed (refused missing), record { db = dispatched; outside = 0; calls = 1 })
execute-foreign_example =
    execute-foreign plane runtime fine client background 10 world caller dispatched short refl refl
      known not_owned
