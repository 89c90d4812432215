-- ===== src/Lifecycle/Samples.antt =====
-- A small database for the runs at concrete inputs: two tasks of one run, one waiting for the other.
use run_mesh.Base.{
  ℕ, ◌+◌, String, ◌≡◌, refl, Option, none, some, [], ◌∷◌, Result, ok, err, ◌>>=◌, or_fail,
  refuse_if, arith,
}
use run_mesh.Base.Int.{pos}
use run_mesh.Base.Tables.{find?, exists, update_where}
use run_mesh.Workflow.State.{TaskStatus, RunStatus, blocked, ready, dispatching, leased, dead}
use run_mesh.Store.Db.{Db, Env, Run, TaskRun, empty_db, insert_event}
use run_mesh.Store.Leases.{run_of, task_with_run, insert_attempt, lease_task}
use run_mesh.Store.Outcomes.{complete_task}
use run_mesh.Lifecycle.Rows.{UniqueIds}

abbrev pub env : Env
env = record { now = 100; clock = 100; trace_parent = ""; new_uuid = λ n. 1000 + n }

abbrev pub task : ℕ → TaskStatus → TaskRun
task id status = record {
  id = id;
  workflow_run_id = 1;
  task_key = "extract";
  handler = "etl";
  status = status;
  priority = pos 0;
  available_at = 50;
  attempt_count = 0;
  maximum_attempts = 3;
  timeout_seconds = 300;
  lease_owner = none;
  lease_expires_at = none;
  input = "{}";
  output = none;
  output_artifact_uri = none;
  created_at = 10;
  updated_at = 10;
}

-- A task at its last attempt, in the hands of a worker.
abbrev pub held_task : ℕ → TaskStatus → TaskRun
held_task id status = record (task id status) {
  attempt_count = 3;
  lease_owner = some "w1";
  lease_expires_at = some 200;
}

abbrev pub run : RunStatus → Run
run status = record {
  id = 1;
  tenant_id = 7;
  workflow_definition_id = 5;
  workflow_version = 1;
  status = status;
  input = "{}";
  input_artifact_uri = none;
  idempotency_key = "k";
  trace_parent = "";
  started_at = some 10;
  completed_at = none;
  created_at = 10;
}

-- Task 11 depends on task 10.
abbrev pub db_of : RunStatus → TaskRun → TaskRun → Db
db_of status a b = record empty_db {
  runs = run status ∷ [];
  tasks = a ∷ b ∷ [];
  deps = record { workflow_run_id = 1; task_run_id = 11; depends_on_task_run_id = 10 } ∷ [];
}

abbrev pub db_after : {A : Type 0} → Result (A × Db) → Db
db_after (ok (a, db)) = db
db_after (err e) = empty_db

abbrev pub task_after : Result (TaskRun × Db) → TaskRun
task_after (ok (t, db)) = t
task_after (err e) = task 0 dead

pub unique_example : UniqueIds (task 10 ready ∷ task 11 blocked ∷ [])
unique_example = ((λ e. absurd (omega arith), tt), (tt, tt))

abbrev pub dispatched : Db
dispatched = db_of RunStatus.running (task 10 dispatching) (task 11 blocked)

abbrev pub leased_pair : (TaskRun × Option String)
leased_pair = (
  record (task 10 leased) {
    attempt_count = 1;
    lease_owner = some "w1";
    lease_expires_at = some 130;
    updated_at = 100;
  },
  none,
)

pub leased_example :
    lease_task env 10 "w1" 30 dispatched
    ≡ ok (leased_pair, db_after (lease_task env 10 "w1" 30 dispatched))
unfolding lease_task or_fail ◌>>=◌ find? run_of insert_attempt exists update_where insert_event
leased_example = refl

abbrev pub held : Db
held = db_of RunStatus.running (held_task 10 TaskStatus.running) (task 11 blocked)

pub completed_example :
    complete_task env 10 "w1" "" "" [] held
    ≡ ok (
      task_after (complete_task env 10 "w1" "" "" [] held),
      db_after (complete_task env 10 "w1" "" "" [] held),
    )
unfolding complete_task task_with_run or_fail ◌>>=◌ refuse_if find? run_of exists update_where
    insert_event
completed_example = refl
