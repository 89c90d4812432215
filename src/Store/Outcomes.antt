-- ===== src/Store/Outcomes.antt =====
-- `CompleteTask` and `FailTask` of internal/storage/worker.go.
use run_mesh.Base.{
  ℕ, ◌+◌, String, Bool, ◌&&◌, none, some, List, [], ◌∷◌, str_eq, ◌==◌, ltb, text_is, if◌then◌else◌,
  Result, ok, lease_lost, ◌>>=◌, ◌>>◌, refuse_if, or_fail, not,
}
use run_mesh.Base.Tables.{exists, select, update_where}
use run_mesh.Workflow.State.{
  TaskStatus, RunStatus, ready, blocked, dead, retry_wait, is, run_is, is_waiting, retry_delay,
}
use run_mesh.Store.Db.{
  Db, Env, Run, TaskRun, Dependency, uuid, number, text, insert_event, null_if_empty,
}
use run_mesh.Store.Leases.{task_with_run, is_attempt, holds_lease, holds_active_lease}

-- `EXISTS(... d.task_run_id=id AND upstream.status<>'SUCCEEDED')` over task_dependencies d JOIN
-- task_runs upstream ON upstream.id=d.depends_on_task_run_id.
unfoldable pub unresolved : List Dependency → List TaskRun → ℕ → Bool
unresolved deps tasks id =
    exists
      (λ d.
        d.task_run_id == id
        && exists (λ u. u.id == d.depends_on_task_run_id && not (is u.status TaskStatus.succeeded))
            tasks)
      deps

-- `EXISTS(SELECT 1 FROM task_dependencies d WHERE d.task_run_id=id AND d.depends_on_task_run_id=up)`
unfoldable pub depends_directly : List Dependency → ℕ → ℕ → Bool
depends_directly deps id up =
    exists (λ d. d.task_run_id == id && d.depends_on_task_run_id == up) deps

abbrev pub succeed_row : Env → String → String → TaskRun → TaskRun
succeed_row env output artifact_uri t = record t {
  status = TaskStatus.succeeded;
  output = some output;
  output_artifact_uri = null_if_empty artifact_uri;
  lease_expires_at = none;
  updated_at = env.now;
}

-- The WHERE of the update that unblocks the children of `up`, over the tasks as it finds them.
abbrev pub unblocks : List Dependency → List TaskRun → ℕ → ℕ → TaskRun → Bool
unblocks deps tasks run up child =
    child.workflow_run_id == run
    && (is child.status blocked
        && (depends_directly deps child.id up && not (unresolved deps tasks child.id)))

abbrev pub ready_row : Env → TaskRun → TaskRun
ready_row env t = record t { status = ready; available_at = env.now; updated_at = env.now }

-- One `task.ready` event for each child.
unfoldable pub ready_events : Env → ℕ → List TaskRun → Db → Db
unfolding insert_event
ready_events env run [] db = db
ready_events env run (c ∷ children) db = ready_events env run children (
    insert_event env "task_run" c.id "task.ready"
      (("workflow_run_id", uuid run)
        ∷ ("task_run_id", uuid c.id)
        ∷ ("task_key", text c.task_key)
        ∷ [])
      env.trace_parent db)

-- `SELECT count(*) ... WHERE workflow_run_id=$1 AND status<>'SUCCEEDED'` is 0.
unfoldable pub all_succeeded : ℕ → List TaskRun → Bool
all_succeeded run tasks =
    not (exists (λ t. t.workflow_run_id == run && not (is t.status TaskStatus.succeeded)) tasks)

-- `UPDATE workflow_runs SET status=...,completed_at=now() WHERE id=$1 AND status='RUNNING'`
abbrev pub end_run : Env → ℕ → RunStatus → List Run → List Run
end_run env run status =
    update_where (λ r. r.id == run && run_is r.status RunStatus.running)
      (λ r. record r { status = status; completed_at = some env.now })

abbrev first_or_empty : List String → String
first_or_empty [] = ""
first_or_empty (uri ∷ rest) = uri

unfoldable pub complete_task :
    Env → ℕ → String → String → String → List String → Db → Result (TaskRun × Db)
unfolding ready_events
complete_task env task worker given artifact_uri log_artifact_uris db = do
  let output = if str_eq given "" then "{}" else given
  found ← or_fail (task_with_run db (holds_lease env TaskStatus.running task worker)) lease_lost
  let (held, run) = found
  refuse_if (not (run_is run.status RunStatus.running)) lease_lost
  let t = succeed_row env output artifact_uri held
  let tasks₁ =
      update_where (holds_lease env TaskStatus.running task worker)
        (succeed_row env output artifact_uri) db.tasks
  let attempts =
      update_where (is_attempt t.id t.attempt_count)
        (λ a. record a {
          ended_at = some env.now;
          exit_status = some TaskStatus.succeeded;
          artifact_uri = null_if_empty artifact_uri;
          log_artifact_uri = null_if_empty (first_or_empty log_artifact_uris);
        })
        db.attempts
  let children = select (unblocks db.deps tasks₁ t.workflow_run_id t.id) tasks₁
  let tasks₂ = update_where (unblocks db.deps tasks₁ t.workflow_run_id t.id) (ready_row env) tasks₁
  let db₁ =
      insert_event env "task_run" t.id "task.succeeded"
        (("workflow_run_id", uuid t.workflow_run_id)
          ∷ ("task_run_id", uuid t.id)
          ∷ ("task_key", text t.task_key)
          ∷ ("attempt", number t.attempt_count)
          ∷ [])
        env.trace_parent
        (ready_events env t.workflow_run_id children
          (record db { tasks = tasks₂; attempts = attempts }))
  ok (
    t,
    record db₁ {
      runs =
          if all_succeeded t.workflow_run_id tasks₂
          then end_run env t.workflow_run_id RunStatus.succeeded db₁.runs
          else db₁.runs;
    },
  )

pub record Failure : Type 0 where
  pub retryable : Bool
  pub error_type : String
  pub error_message : String
  pub trace_id : String

-- The status that a failed attempt leads to.
unfoldable pub failure_status : RunStatus → Bool → ℕ → ℕ → TaskStatus
failure_status run retryable attempt max =
    if run_is run RunStatus.cancelled
    then TaskStatus.cancelled
    else if retryable && ltb attempt max
    then retry_wait
    else dead

-- When the task may run again: after the backoff if it is retried.
abbrev pub available_after : Env → TaskStatus → ℕ → ℕ
available_after env status attempt =
    if is status retry_wait then env.clock + retry_delay attempt else env.clock

abbrev pub fail_row : Env → TaskStatus → ℕ → TaskRun → TaskRun
fail_row env status available t = record t {
  status = status;
  available_at = available;
  lease_owner = none;
  lease_expires_at = none;
  updated_at = env.now;
}

abbrev pub cancel_row : Env → TaskRun → TaskRun
cancel_row env t = record t { status = TaskStatus.cancelled; updated_at = env.now }

-- `UPDATE task_runs SET status='CANCELLED' ... WHERE workflow_run_id=$1 AND status IN (...)`
abbrev pub cancel_waiting : Env → ℕ → List TaskRun → List TaskRun
cancel_waiting env run =
    update_where (λ t. t.workflow_run_id == run && is_waiting t.status) (cancel_row env)

abbrev failure_event : TaskStatus → String
failure_event status =
    if is status dead
    then "task.dead"
    else if is status TaskStatus.cancelled
    then "task.cancelled"
    else "task.retry_wait"

unfoldable pub fail_task : Env → ℕ → String → Failure → Db → Result (TaskRun × Db)
fail_task env task worker f db = do
  found ← or_fail (task_with_run db (holds_active_lease env task worker)) lease_lost
  let (held, run) = found
  let status = failure_status run.status f.retryable held.attempt_count held.maximum_attempts
  let available = available_after env status held.attempt_count
  let tasks₁ =
      update_where (λ t. t.id == task && text_is t.lease_owner worker)
        (fail_row env status available) db.tasks
  let attempts =
      update_where (is_attempt task held.attempt_count)
        (λ a. record a {
          ended_at = some env.now;
          exit_status = some status;
          error_type = some f.error_type;
          error_message = some f.error_message;
          trace_id = null_if_empty f.trace_id;
        })
        db.attempts
  let tasks₂ = if is status dead then cancel_waiting env held.workflow_run_id tasks₁ else tasks₁
  let runs =
      if is status dead then end_run env held.workflow_run_id RunStatus.failed db.runs else db.runs
  ok (
    fail_row env status available held,
    insert_event env "task_run" task (failure_event status)
        (("workflow_run_id", uuid held.workflow_run_id)
          ∷ ("task_run_id", uuid task)
          ∷ ("task_key", text held.task_key)
          ∷ ("attempt", number held.attempt_count)
          ∷ ("error_type", text f.error_type)
          ∷ ("error_message", text f.error_message)
          ∷ ("available_at", number available)
          ∷ [])
        env.trace_parent (record db { tasks = tasks₂; runs = runs; attempts = attempts }),
  )
