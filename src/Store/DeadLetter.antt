-- ===== src/Store/DeadLetter.antt =====
-- `ReplayDead`, `DeadLetter`, `TaskBelongsToTenant` and `ActiveTaskLeaseBelongsToWorker` of
-- internal/storage/worker.go.
use run_mesh.Base.{
  ℕ, suc, String, Bool, false, ◌&&◌, Option, none, some, List, [], ◌∷◌, ◌==◌, ltb, leb, text_is,
  is_after, if◌then◌else◌, Result, ok, not_found, lease_lost, ◌>>=◌, ◌>>◌, refuse_if, or_fail, not,
}
use run_mesh.Base.Tables.{exists, select, update_where, order_by}
use run_mesh.Workflow.State.{
  TaskStatus, RunStatus, ready, blocked, dead, retry_wait, is, run_is, is_active,
}
use run_mesh.Store.Db.{Db, Env, TaskRun, Dependency, uuid, text, insert_event, insert_audit}
use run_mesh.Store.Leases.{run_of, task_with_run}
use run_mesh.Store.Outcomes.{unresolved}
use Prim.Native.Nat.{max}

-- The tenant of a task's run.
unfoldable pub tenant_of : Db → TaskRun → Option ℕ
tenant_of db t = elim (run_of db t.workflow_run_id) [ none ↦ none | some r ↦ some r.tenant_id ]

abbrev pub belongs : Db → ℕ → TaskRun → Bool
belongs db tenant t = elim (tenant_of db t) [ none ↦ false | some owner ↦ owner == tenant ]

unfoldable pub task_belongs_to_tenant : Db → ℕ → ℕ → Result (Unit {0})
task_belongs_to_tenant db task tenant =
    refuse_if (not (exists (λ t. t.id == task && belongs db tenant t) db.tasks)) not_found

unfoldable pub active_task_lease_belongs_to_worker : Env → Db → ℕ → ℕ → String → Result (Unit {0})
active_task_lease_belongs_to_worker env db task tenant worker = do
  found ← or_fail (task_with_run db (λ t. t.id == task)) not_found
  let (t, run) = found
  refuse_if (not (run.tenant_id == tenant)) not_found
  refuse_if
      (not (
        is_active t.status
        && (text_is t.lease_owner worker
            && (is_after t.lease_expires_at env.now && run_is run.status RunStatus.running))))
      lease_lost

-- The rows of the tenant's dead tasks, ORDER BY t.updated_at DESC.
unfoldable pub dead_letter : Db → ℕ → List TaskRun
dead_letter db tenant =
    order_by (λ a b. leb b.updated_at a.updated_at)
      (select (λ t. is t.status dead && belongs db tenant t) db.tasks)

-- The row of the task that is replayed.
abbrev pub replay_row : Env → TaskRun → TaskRun
replay_row env t = record t {
  status = ready;
  available_at = env.now;
  maximum_attempts = max t.maximum_attempts (suc t.attempt_count);
  updated_at = env.now;
}

-- The CASE that rebuilds the status of a cancelled task, over the tasks as the update finds them.
unfoldable pub rebuilt_status : Env → List Dependency → List TaskRun → TaskRun → TaskStatus
rebuilt_status env deps tasks t =
    if unresolved deps tasks t.id
    then blocked
    else if ltb env.now t.available_at
    then retry_wait
    else ready

abbrev pub rebuild_row : Env → List Dependency → List TaskRun → TaskRun → TaskRun
rebuild_row env deps tasks t = record t {
  status = rebuilt_status env deps tasks t;
  updated_at = env.now;
}

abbrev pub is_cancelled_in : ℕ → TaskRun → Bool
is_cancelled_in run t = t.workflow_run_id == run && is t.status TaskStatus.cancelled

-- `t.id=$1 AND r.tenant_id=$2 AND t.status='DEAD'`
abbrev pub can_replay : Db → ℕ → ℕ → TaskRun → Bool
can_replay db tenant task t = t.id == task && (is t.status dead && belongs db tenant t)

unfoldable pub replay_dead : Env → ℕ → Option ℕ → ℕ → Db → Result (Unit {0} × Db)
replay_dead env tenant user task db = do
  found ← or_fail (task_with_run db (can_replay db tenant task)) not_found
  let (t, run) = found
  let tasks₁ = update_where (λ x. x.id == task) (replay_row env) db.tasks
  ok (
    tt,
    insert_audit tenant user "task.replay" "task_run" task (
        insert_event env "task_run" task "task.replayed"
          (("workflow_run_id", uuid t.workflow_run_id)
            ∷ ("task_run_id", uuid task)
            ∷ ("task_key", text t.task_key)
            ∷ [])
          run.trace_parent
          (record db {
            runs =
                update_where (λ r. r.id == t.workflow_run_id && run_is r.status RunStatus.failed)
                  (λ r. record r { status = RunStatus.running; completed_at = none }) db.runs;
            tasks =
                update_where (is_cancelled_in t.workflow_run_id) (rebuild_row env db.deps tasks₁)
                  tasks₁;
          })),
  )
