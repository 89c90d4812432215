-- ===== src/Store/Leases.antt =====
-- `LeaseTask`, `StartTask` and `HeartbeatTask` of internal/storage/worker.go. A transaction maps the
-- tables to its result and the new tables; an error stands for a rollback, which changes nothing.
use run_mesh.Base.{
  ℕ, suc, ◌+◌, String, Bool, ◌&&◌, Option, none, some, List, [], ◌∷◌, ◌++◌, ◌==◌, text_is, is_after,
  is_null, if◌then◌else◌, Result, ok, err, lease_lost, other, ◌>>=◌, ◌>>◌, refuse_if, or_fail, not,
}
use run_mesh.Base.Tables.{find?, exists, update_where}
use run_mesh.Workflow.State.{TaskStatus, RunStatus, dispatching, leased, is, run_is, is_active}
use run_mesh.Store.Db.{Db, Env, Run, TaskRun, TaskAttempt, uuid, number, text, insert_event}

-- `SELECT ... FROM workflow_runs WHERE id=$1`
unfoldable pub run_of : Db → ℕ → Option Run
unfolding find?
run_of db id = find? (λ r. r.id == id) db.runs

-- The row of a task that some WHERE picks, joined with its run.
unfoldable pub task_with_run : Db → (TaskRun → Bool) → Option (TaskRun × Run)
task_with_run db p = elim (find? p db.tasks) [
  | none ↦ none
  | some t ↦ elim (run_of db t.workflow_run_id) [ none ↦ none | some r ↦ some (t, r) ]
]

-- INSERT INTO task_attempts, whose UNIQUE (task_run_id, attempt_number) may refuse the row.
unfoldable pub insert_attempt : TaskAttempt → List TaskAttempt → Result (List TaskAttempt)
insert_attempt a attempts =
    if exists (λ b. b.task_run_id == a.task_run_id && b.attempt_number == a.attempt_number) attempts
    then err (other "duplicate key value violates unique constraint (SQLSTATE 23505)")
    else ok (attempts ++ a ∷ [])

-- `WHERE task_run_id=$1 AND attempt_number=$2`
abbrev pub is_attempt : ℕ → ℕ → TaskAttempt → Bool
is_attempt task attempt a = a.task_run_id == task && a.attempt_number == attempt

-- `WHERE id=$1 AND status='DISPATCHING'`
abbrev pub can_lease : ℕ → TaskRun → Bool
can_lease task t = t.id == task && is t.status dispatching

abbrev pub lease_row : Env → String → ℕ → TaskRun → TaskRun
lease_row env worker lease t = record t {
  status = leased;
  lease_owner = some worker;
  lease_expires_at = some (env.clock + lease);
  attempt_count = suc t.attempt_count;
  updated_at = env.now;
}

-- The result is the leased row and the artifact that holds the run's input.
unfoldable pub lease_task : Env → ℕ → String → ℕ → Db → Result ((TaskRun × Option String) × Db)
lease_task env task worker lease db = do
  found ← or_fail (find? (can_lease task) db.tasks) lease_lost
  let t = lease_row env worker lease found
  run ← or_fail (run_of db t.workflow_run_id) (other "no rows in result set")
  attempts ← insert_attempt (first_attempt t) db.attempts
  ok (
    (t, run.input_artifact_uri),
    insert_event env "task_run" t.id "task.leased"
        (("workflow_run_id", uuid t.workflow_run_id)
          ∷ ("task_run_id", uuid t.id)
          ∷ ("task_key", text t.task_key)
          ∷ ("worker_id", text worker)
          ∷ ("attempt", number t.attempt_count)
          ∷ [])
        env.trace_parent
        (record db {
          tasks = update_where (can_lease task) (lease_row env worker lease) db.tasks;
          attempts = attempts;
        }),
  )
  where
    first_attempt : TaskRun → TaskAttempt
    first_attempt t = record {
      task_run_id = t.id;
      attempt_number = t.attempt_count;
      worker_id = worker;
      scheduled_at = t.available_at;
      executing_at = none;
      started_at = env.now;
      ended_at = none;
      exit_status = none;
      error_type = none;
      error_message = none;
      trace_id = none;
      artifact_uri = none;
      log_artifact_uri = none;
    }

-- `id=$1 AND status='...' AND lease_owner=$2 AND lease_expires_at>now()`
abbrev pub holds_lease : Env → TaskStatus → ℕ → String → TaskRun → Bool
holds_lease env s task worker t =
    t.id == task
    && (is t.status s && (text_is t.lease_owner worker && is_after t.lease_expires_at env.now))

-- `id=$1 AND status IN ('LEASED','RUNNING') AND lease_owner=$2 AND lease_expires_at>now()`
abbrev pub holds_active_lease : Env → ℕ → String → TaskRun → Bool
holds_active_lease env task worker t =
    t.id == task
    && (is_active t.status && (text_is t.lease_owner worker && is_after t.lease_expires_at env.now))

abbrev pub start_row : Env → TaskRun → TaskRun
start_row env t = record t { status = TaskStatus.running; updated_at = env.now }

unfoldable pub start_task : Env → ℕ → String → Db → Result (TaskRun × Db)
start_task env task worker db = do
  found ← or_fail (task_with_run db (holds_lease env leased task worker)) lease_lost
  let (t, run) = found
  refuse_if (not (run_is run.status RunStatus.running)) lease_lost
  ok (
    start_row env t,
    record db {
      tasks = update_where (holds_lease env leased task worker) (start_row env) db.tasks;
      attempts =
          update_where (λ a. is_attempt t.id t.attempt_count a && is_null a.executing_at)
            (λ a. record a { executing_at = some env.now }) db.attempts;
    },
  )

abbrev pub renew_row : Env → ℕ → TaskRun → TaskRun
renew_row env lease t = record t {
  lease_expires_at = some (env.clock + lease);
  updated_at = env.now;
}

-- The result is the new expiry, and whether the run has been cancelled.
unfoldable pub heartbeat_task : Env → ℕ → String → ℕ → Db → Result ((ℕ × Bool) × Db)
heartbeat_task env task worker lease db = do
  found ← or_fail (task_with_run db (holds_active_lease env task worker)) lease_lost
  let (t, run) = found
  ok (
    (env.clock + lease, run_is run.status RunStatus.cancelled),
    record db {
      tasks = update_where (holds_active_lease env task worker) (renew_row env lease) db.tasks;
    },
  )
