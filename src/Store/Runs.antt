-- ===== src/Store/Runs.antt =====
-- `CreateRun`, `CancelRun` and `RetryRun` of internal/storage/postgres.go.
use run_mesh.Base.{
  ℕ, suc, max, Bool, ◌&&◌, ◌||◌, Option, none, some, ◌==◌, if◌then◌else◌, Result, ok, not_found,
  conflict, ◌>>◌, refuse_if, not,
}
use run_mesh.Base.Tables.{exists, update_where}
use run_mesh.Workflow.State.{RunStatus, ready, dead, is, run_is}
use run_mesh.Store.Db.{Db, Env, Run, TaskRun, insert_audit}
use run_mesh.Store.Outcomes.{cancel_waiting}

-- `WHERE id=$1 AND tenant_id=$2`
abbrev pub owned_run : ℕ → ℕ → Run → Bool
owned_run tenant id r = r.id == id && r.tenant_id == tenant

-- `status NOT IN ('SUCCEEDED','FAILED','CANCELLED')`
abbrev pub is_open : RunStatus → Bool
is_open s =
    not (run_is s RunStatus.succeeded || run_is s RunStatus.failed || run_is s RunStatus.cancelled)

abbrev pub can_cancel : ℕ → ℕ → Run → Bool
can_cancel tenant id r = owned_run tenant id r && is_open r.status

unfoldable pub cancel_run : Env → ℕ → Option ℕ → ℕ → Db → Result (Unit {0} × Db)
cancel_run env tenant user id db = do
  refuse_if (not (exists (can_cancel tenant id) db.runs))
      (if exists (owned_run tenant id) db.runs then conflict else not_found)
  ok (
    tt,
    insert_audit tenant user "run.cancel" "workflow_run" id (record db {
      runs =
          update_where (can_cancel tenant id)
            (λ r. record r { status = RunStatus.cancelled; completed_at = some env.now }) db.runs;
      tasks = cancel_waiting env id db.tasks;
    }),
  )

-- `WHERE workflow_run_id=$1 AND status='DEAD'`
abbrev pub is_dead_in : ℕ → TaskRun → Bool
is_dead_in run t = t.workflow_run_id == run && is t.status dead

abbrev pub retry_row : Env → TaskRun → TaskRun
retry_row env t = record t {
  status = ready;
  available_at = env.now;
  maximum_attempts = max t.maximum_attempts (suc t.attempt_count);
  lease_owner = none;
  lease_expires_at = none;
  updated_at = env.now;
}

unfoldable pub retry_run : Env → ℕ → Option ℕ → ℕ → Db → Result (Unit {0} × Db)
retry_run env tenant user id db = do
  refuse_if (not (exists (owned_run tenant id) db.runs)) not_found
  refuse_if (not (exists (is_dead_in id) db.tasks)) conflict
  ok (
    tt,
    insert_audit tenant user "run.retry" "workflow_run" id (record db {
      tasks = update_where (is_dead_in id) (retry_row env) db.tasks;
      runs =
          update_where (λ r. r.id == id)
            (λ r. record r { status = RunStatus.running; completed_at = none }) db.runs;
    }),
  )
