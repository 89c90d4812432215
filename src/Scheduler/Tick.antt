-- ===== src/Scheduler/Tick.antt =====
-- `tick` and `recoverExpired` of internal/scheduler/scheduler.go. FOR UPDATE SKIP LOCKED leaves out
-- the rows that another transaction has locked: which these are is the argument `locked`.
use run_mesh.Base.{
  ℕ, String, Bool, true, false, ◌&&◌, ◌||◌, Option, none, some, List, [], ◌∷◌, ◌==◌, ltb, leb,
  is_due, if◌then◌else◌, not,
}
use run_mesh.Base.Int.{ℤ, pos, negsuc}
use run_mesh.Base.Tables.{exists, select, update_where, take}
use run_mesh.Workflow.State.{
  TaskStatus, RunStatus, ready, dispatching, dead, retry_wait, is, is_active,
}
use run_mesh.Store.Db.{Db, Env, Run, TaskRun, Payload, uuid, number, text, insert_event}
use run_mesh.Store.Leases.{run_of, is_attempt}
use run_mesh.Store.Outcomes.{failure_status, available_after, end_run, fail_row}

-- `UPDATE task_runs SET status='READY' ... WHERE status='RETRY_WAIT' AND available_at<=now()`
abbrev pub is_released : Env → TaskRun → Bool
is_released env t = is t.status retry_wait && leb t.available_at env.now

abbrev pub release_row : Env → TaskRun → TaskRun
release_row env t = record t { status = ready; updated_at = env.now }

unfoldable pub release_retries : Env → Db → Db
release_retries env db = record db {
  tasks = update_where (is_released env) (release_row env) db.tasks;
}

-- The struct `expired`, with the rest of the row.
pub record Expired : Type 0 where
  pub id : ℕ
  pub run_id : ℕ
  pub key : String
  pub run_status : RunStatus
  pub attempt : ℕ
  pub max : ℕ

-- `t.status IN ('LEASED','RUNNING') AND t.lease_expires_at<=now()`, of the rows that are not locked.
abbrev pub has_expired : Env → (ℕ → Bool) → TaskRun → Bool
has_expired env locked t =
    is_active t.status && (is_due t.lease_expires_at env.now && not (locked t.id))

-- The rows of the join, for the tasks that the WHERE has picked.
unfoldable pub scan_expired : Db → List TaskRun → List Expired
unfolding run_of
scan_expired db [] = []
scan_expired db (t ∷ ts) =
    let rest = scan_expired db ts in
    elim (run_of db t.workflow_run_id) [
      | none ↦ rest
      | some r ↦
          record {
            id = t.id;
            run_id = t.workflow_run_id;
            key = t.task_key;
            run_status = r.status;
            attempt = t.attempt_count;
            max = t.maximum_attempts;
          }
          ∷ rest
    ]

abbrev pub expired_status : Expired → TaskStatus
expired_status e = failure_status e.run_status true e.attempt e.max

abbrev expired_event : TaskStatus → String
expired_event s =
    if is s TaskStatus.cancelled
    then "task.cancelled"
    else if is s retry_wait
    then "task.retry_wait"
    else "task.dead"

-- `INSERT INTO outbox_events(...) SELECT ... FROM workflow_runs WHERE id=$4`
unfoldable pub event_with_trace : Option Run → Env → ℕ → String → Payload → Db → Db
event_with_trace none env task event payload db = db
event_with_trace (some r) env task event payload db =
    insert_event env "task_run" task event payload r.trace_parent db

unfoldable pub insert_event_of_run : Env → ℕ → ℕ → String → Payload → Db → Db
unfolding event_with_trace
insert_event_of_run env task run event payload db =
    event_with_trace (run_of db run) env task event payload db

-- The body of the loop.
unfoldable pub recover_one : Env → Expired → Db → Db
recover_one env e db =
    let status = expired_status e in
    let available = available_after env status e.attempt in
    let db₁ =
      insert_event_of_run env e.id e.run_id (expired_event status)
        (("workflow_run_id", uuid e.run_id)
          ∷ ("task_run_id", uuid e.id)
          ∷ ("task_key", text e.key)
          ∷ ("attempt", number e.attempt)
          ∷ ("available_at", number available)
          ∷ ("error_type", text "LeaseExpired")
          ∷ [])
        (record db {
          tasks = update_where (λ t. t.id == e.id) (fail_row env status available) db.tasks;
          attempts =
              update_where (is_attempt e.id e.attempt)
                (λ a. record a {
                  ended_at = some env.now;
                  exit_status = some status;
                  error_type = some "LeaseExpired";
                  error_message = some "worker heartbeat lease expired";
                })
                db.attempts;
        }) in
    record db₁ {
      runs = if is status dead then end_run env e.run_id RunStatus.failed db₁.runs else db₁.runs;
    }

unfoldable pub recover_each : Env → List Expired → Db → Db
unfolding recover_one
recover_each env [] db = db
recover_each env (e ∷ es) db = recover_each env es (recover_one env e db)

unfoldable pub recover_expired : Env → (ℕ → Bool) → Db → Db
unfolding recover_each
recover_expired env locked db =
    recover_each env (scan_expired db (take 100 (select (has_expired env locked) db.tasks))) db

-- `a.priority > b.priority`, for Go's int.
abbrev higher : ℤ → ℤ → Bool
higher (pos m) (pos n) = ltb n m
higher (pos m) (negsuc n) = true
higher (negsuc m) (pos n) = false
higher (negsuc m) (negsuc n) = ltb m n

-- ORDER BY t.priority DESC, t.available_at
abbrev pub comes_before : TaskRun → TaskRun → Bool
comes_before a b =
    higher a.priority b.priority
    || (not (higher b.priority a.priority) && leb a.available_at b.available_at)

insert_sorted : TaskRun → List TaskRun → List TaskRun
insert_sorted t [] = t ∷ []
insert_sorted t (u ∷ us) = if comes_before t u then t ∷ u ∷ us else u ∷ insert_sorted t us

unfoldable pub order_ready : List TaskRun → List TaskRun
unfolding insert_sorted
order_ready [] = []
order_ready (t ∷ ts) = insert_sorted t (order_ready ts)

abbrev pub is_dispatchable : Env → (ℕ → Bool) → TaskRun → Bool
is_dispatchable env locked t =
    is t.status ready && (leb t.available_at env.now && not (locked t.id))

-- `WHERE id=$1 AND status='READY'`
abbrev pub is_ready_task : ℕ → TaskRun → Bool
is_ready_task id t = t.id == id && is t.status ready

abbrev pub dispatch_row : Env → TaskRun → TaskRun
dispatch_row env t = record t { status = dispatching; updated_at = env.now }

-- The trace of a task's run, `COALESCE(r.trace_parent,'')`.
abbrev trace_of : Db → TaskRun → String
trace_of db t = elim (run_of db t.workflow_run_id) [ none ↦ "" | some r ↦ r.trace_parent ]

-- The body of the dispatch loop: a row that is no longer READY is passed over.
unfoldable pub dispatch_one : Env → TaskRun → Db → Db
dispatch_one env t db =
    if exists (is_ready_task t.id) db.tasks
    then insert_event env "task_run" t.id "task.dispatch"
        (("task_run_id", uuid t.id)
          ∷ ("workflow_run_id", uuid t.workflow_run_id)
          ∷ ("task_key", text t.task_key)
          ∷ ("handler", text t.handler)
          ∷ [])
        (trace_of db t)
        (record db { tasks = update_where (is_ready_task t.id) (dispatch_row env) db.tasks })
    else db

unfoldable pub dispatch_each : Env → List TaskRun → Db → Db
unfolding dispatch_one
dispatch_each env [] db = db
dispatch_each env (t ∷ ts) db = dispatch_each env ts (dispatch_one env t db)

unfoldable pub dispatch_ready : Env → (ℕ → Bool) → Db → Db
unfolding dispatch_each
dispatch_ready env locked db =
    dispatch_each env (take 100 (order_ready (select (is_dispatchable env locked) db.tasks))) db
