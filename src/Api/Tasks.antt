-- ===== src/Api/Tasks.antt =====
-- The handlers of internal/api/server.go that workers call for their tasks.
use run_mesh.Base.{ℕ, String, Bool, ◌&&◌, not, [], Option, str_eq}
use run_mesh.Store.Db.{Db, Env, TaskRun}
use run_mesh.Store.Leases.{lease_task, start_task, heartbeat_task}
use run_mesh.Store.Outcomes.{complete_task, fail_task, Failure}
use run_mesh.Store.DeadLetter.{task_belongs_to_tenant, active_task_lease_belongs_to_worker}
use run_mesh.Store.Artifacts.{get_artifact_by_uri}
use run_mesh.Rpc.Worker.{is_valid_artifact}
use run_mesh.Auth.Authenticate.{Principal}
use run_mesh.Api.Response.{
  Response, success, ◌>>=◌, ◌>>◌, fail_if, or_handle, Decoded, decode, Answer,
}

unfoldable pub authorize_task : Principal → Db → ℕ → Response (Unit {0})
unfolding or_handle
authorize_task p db task = or_handle (task_belongs_to_tenant db task p.tenant_id)

unfoldable pub authorize_active_task : Env → Principal → Db → ℕ → String → Response (Unit {0})
unfolding or_handle
authorize_active_task env p db task worker =
    or_handle (active_task_lease_belongs_to_worker env db task p.tenant_id worker)

pub record WorkerRequest : Type 0 where
  pub worker_id : String
  pub task_run_id : Option ℕ

abbrev need_worker : String → Response (Unit {0})
need_worker worker = fail_if (str_eq worker "") 400 "worker_id is required"

unfoldable pub lease :
    Env
    → ℕ
    → Principal
    → ℕ
    → Decoded WorkerRequest
    → Db
    → Response (Answer (TaskRun × Option String))
unfolding authorize_task
lease env lease_duration p task body db = do
  req ← decode body
  need_worker req.worker_id
  authorize_task p db task
  t ← or_handle (lease_task env task req.worker_id lease_duration db)
  success (200, t)

unfoldable pub start : Env → Principal → ℕ → Decoded WorkerRequest → Db → Response (Answer TaskRun)
unfolding authorize_task
start env p task body db = do
  req ← decode body
  need_worker req.worker_id
  authorize_task p db task
  t ← or_handle (start_task env task req.worker_id db)
  success (200, t)

unfoldable pub heartbeat :
    Env → ℕ → Principal → ℕ → Decoded WorkerRequest → Db → Response (Answer (ℕ × Bool))
unfolding authorize_task
heartbeat env lease_duration p task body db = do
  req ← decode body
  need_worker req.worker_id
  authorize_task p db task
  beat ← or_handle (heartbeat_task env task req.worker_id lease_duration db)
  success (200, beat)

pub record Completion : Type 0 where
  pub worker_id : String
  pub output : String
  pub output_artifact_uri : String

-- `configured` is `s.Artifacts != nil`.
unfoldable pub complete :
    Env → Bool → Principal → ℕ → Decoded Completion → Db → Response (Answer TaskRun)
unfolding authorize_task is_valid_artifact
complete env configured p task body db = do
  req ← decode body
  need_worker req.worker_id
  authorize_task p db task
  fail_if (not (str_eq req.output_artifact_uri "") && not configured) 503
      "artifact storage is not configured"
  fail_if
      (not (str_eq req.output_artifact_uri "")
        && not (
            is_valid_artifact "output" task
              (get_artifact_by_uri p.tenant_id req.output_artifact_uri db)))
      403 "invalid output artifact"
  t ← or_handle (complete_task env task req.worker_id req.output req.output_artifact_uri [] db)
  success (200, t)

pub record FailRequest : Type 0 where
  pub worker_id : String
  pub failure : Failure

unfoldable pub fail : Env → Principal → ℕ → Decoded FailRequest → Db → Response (Answer TaskRun)
unfolding authorize_task
fail env p task body db = do
  req ← decode body
  need_worker req.worker_id
  authorize_task p db task
  t ← or_handle (fail_task env task req.worker_id req.failure db)
  success (200, t)
