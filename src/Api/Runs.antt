-- ===== src/Api/Runs.antt =====
-- The handlers of internal/api/server.go for runs, workers and the dead-letter list, but `getRun`, which
-- stands with the artifacts. `is_object` tells whether a text is a JSON object.
use run_mesh.Base.{ℕ, String, Bool, ◌||◌, not, Option, List, ◌++◌, str_eq, ltb, if◌then◌else◌}
use run_mesh.Base.Strings.{trim, len}
use run_mesh.Base.Int.{ℤ, pos}
use run_mesh.Workflow.Dag.{codes}
use run_mesh.Store.Db.{Db, Env, Run, TaskRun, Event, WorkerInfo}
use run_mesh.Store.CreateRun.{create_run}
use run_mesh.Store.Runs.{cancel_run, retry_run}
use run_mesh.Store.Reads.{list_runs, events}
use run_mesh.Store.Workers.{list_workers, worker_heartbeat}
use run_mesh.Store.DeadLetter.{dead_letter, replay_dead}
use run_mesh.Auth.Text.{Text}
use run_mesh.Auth.Tokens.{Platform}
use run_mesh.Auth.Authenticate.{Principal}
use run_mesh.Api.Response.{
  Response, success, ◌>>=◌, ◌>>◌, fail_if, or_handle, Decoded, decode, Answer, items,
}

pub record RunRequest : Type 0 where
  pub input : String
  pub input_artifact_id : Option ℕ

-- `header` is Idempotency-Key; the text in the answer is the header Location.
unfoldable pub create_run_handler :
    (String → Bool)
    → Platform
    → Env
    → Principal
    → ℕ
    → String
    → Decoded RunRequest
    → Db
    → Response (Answer (Text × Run))
unfolding trim len
create_run_handler is_object platform env p id header body db = do
  let key = trim header
  fail_if (str_eq key "" || ltb 200 (len key)) 400 "a valid Idempotency-Key header is required"
  req ← decode body
  let input = if str_eq req.input "" then "{}" else req.input
  fail_if (not (is_object input)) 422 "input must be a JSON object"
  made ← or_handle (create_run env p.tenant_id p.user_id id key input req.input_artifact_id db)
  let ((run, created), db') = made
  success
      (if created then 201 else 200, ((codes "/v1/runs/" ++ platform.show_uuid run.id, run), db'))

unfoldable pub list_runs_handler : Principal → Db → Response (Answer (List Run))
list_runs_handler p db = items (list_runs p.tenant_id (pos 50) db) db

unfoldable pub cancel_run_handler : Env → Principal → ℕ → Db → Response (Answer (Unit {0}))
unfolding or_handle
cancel_run_handler env p id db = do
  done ← or_handle (cancel_run env p.tenant_id p.user_id id db)
  success (204, done)

unfoldable pub retry_run_handler : Env → Principal → ℕ → Db → Response (Answer String)
unfolding or_handle
retry_run_handler env p id db = do
  done ← or_handle (retry_run env p.tenant_id p.user_id id db)
  success (202, ("RUNNING", done.1))

unfoldable pub events_handler : Principal → ℕ → Db → Response (Answer (List Event))
unfolding or_handle
events_handler p id db = do rows ← or_handle (events p.tenant_id id db); items rows db

unfoldable pub workers_handler : Principal → Db → Response (Answer (List WorkerInfo))
workers_handler p db = items (list_workers p.tenant_id db) db

unfoldable pub dead_letter_handler : Principal → Db → Response (Answer (List TaskRun))
dead_letter_handler p db = items (dead_letter db p.tenant_id) db

unfoldable pub replay_handler : Env → Principal → ℕ → Db → Response (Answer String)
unfolding or_handle
replay_handler env p id db = do
  done ← or_handle (replay_dead env p.tenant_id p.user_id id db)
  success (202, ("READY", done.1))

pub record WorkerBeat : Type 0 where
  pub handlers : List String
  pub active_tasks : ℤ
  pub metadata : String

unfoldable pub worker_heartbeat_handler :
    Env → Principal → String → Decoded WorkerBeat → Db → Response (Answer (Unit {0}))
worker_heartbeat_handler env p worker body db = do
  req ← decode body
  success (
    204,
    (tt, worker_heartbeat env p.tenant_id worker req.handlers req.active_tasks req.metadata db),
  )
