-- ===== src/Lifecycle/Step.antt =====
-- The tasks and runs that exist as a state machine: a step is one committed transaction that updates rows
-- of task_runs, or one round of a loop of the scheduler that does. Transactions that add a run, those of
-- `CreateRun` and of the schedules, are no steps here: Lifecycle/Creation has them.
use run_mesh.Base.{ℕ, String, Bool, ◌≡◌, Option, List, ok, true}
use run_mesh.Base.Tables.{All}
use run_mesh.Workflow.State.{is_active}
use run_mesh.Store.Db.{Db, Env, TaskRun}
use run_mesh.Store.Leases.{lease_task, start_task, heartbeat_task}
use run_mesh.Store.Outcomes.{Failure, complete_task, fail_task}
use run_mesh.Store.Runs.{cancel_run, retry_run}
use run_mesh.Store.DeadLetter.{replay_dead}
use run_mesh.Scheduler.Tick.{release_retries, Expired, recover_one, dispatch_one}

-- The row that was read as expired is as it was read.
pub record IsCurrent (db : Db) (e : Expired) : Type 0 where
  pub rows :
      All
        (λ t.
          t.id ≡ e.id
          → (is_active t.status ≡ true)
            × (t.attempt_count ≡ e.attempt)
            × (t.maximum_attempts ≡ e.max))
        db.tasks

-- What workers and the scheduler do, and the cancellation of a run.
pub data WorkStep (db db' : Db) : Type 0 where
  lease :
      (env : Env) (task : ℕ) (worker : String) (duration : ℕ) (r : TaskRun × Option String)
      → lease_task env task worker duration db ≡ ok (r, db')
      → WorkStep db db'
  start :
      (env : Env) (task : ℕ) (worker : String) (r : TaskRun)
      → start_task env task worker db ≡ ok (r, db')
      → WorkStep db db'
  heartbeat :
      (env : Env) (task : ℕ) (worker : String) (duration : ℕ) (r : ℕ × Bool)
      → heartbeat_task env task worker duration db ≡ ok (r, db')
      → WorkStep db db'
  complete :
      (env : Env) (task : ℕ) (worker output uri : String) (logs : List String) (r : TaskRun)
      → complete_task env task worker output uri logs db ≡ ok (r, db')
      → WorkStep db db'
  fail :
      (env : Env) (task : ℕ) (worker : String) (f : Failure) (r : TaskRun)
      → fail_task env task worker f db ≡ ok (r, db')
      → WorkStep db db'
  cancel :
      (env : Env) (tenant : ℕ) (user : Option ℕ) (run : ℕ) (u : Unit {0})
      → cancel_run env tenant user run db ≡ ok (u, db')
      → WorkStep db db'
  release : (env : Env) → release_retries env db ≡ db' → WorkStep db db'
  recover :
      (env : Env) (e : Expired) → IsCurrent db e → recover_one env e db ≡ db' → WorkStep db db'
  dispatch : (env : Env) (t : TaskRun) → dispatch_one env t db ≡ db' → WorkStep db db'

-- What an operator does to a run that has failed.
pub data RepairStep (db db' : Db) : Type 0 where
  retry :
      (env : Env) (tenant : ℕ) (user : Option ℕ) (run : ℕ) (u : Unit {0})
      → retry_run env tenant user run db ≡ ok (u, db')
      → RepairStep db db'
  replay :
      (env : Env) (tenant : ℕ) (user : Option ℕ) (task : ℕ) (u : Unit {0})
      → replay_dead env tenant user task db ≡ ok (u, db')
      → RepairStep db db'

pub data Step (db db' : Db) : Type 0 where
  work : WorkStep db db' → Step db db'
  repair : RepairStep db db' → Step db db'

pub data Reach (db : Db) : Db → Type 0 where
  here : Reach db db
  next : {db₁ db₂ : Db} → Reach db db₁ → Step db₁ db₂ → Reach db db₂
