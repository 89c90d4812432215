-- ===== src/Lifecycle/Effects.antt =====
-- What a transaction that commits has found, and what it has left of each table.
pub mod Outcomes
pub mod Runs
pub mod Scheduler
use run_mesh.Base.{
  ℕ, suc, ◌+◌, String, Bool, true, false, ◌≡◌, refl, Option, none, some, List, [], ◌∷◌, Error,
  Result, ok, err, Holds, Holds-bind, Holds-ok, or_fail, or_fail-eq-ok, refuse_if-eq-ok, ◌>>=◌,
  arith, not,
}
use run_mesh.Base.Tables.{find?, update_where}
use run_mesh.Workflow.State.{RunStatus, TaskStatus, run_is, leased}
use run_mesh.Store.Db.{Db, Env, Run, TaskRun, insert_event}
use run_mesh.Store.Leases.{
  lease_task, start_task, heartbeat_task, can_lease, lease_row, run_of, task_with_run, holds_lease,
  holds_active_lease, start_row, renew_row,
}

-- `tasks` has become `after`, and the dependencies and the runs are as they were.
pub record OnlyTasks (db : Db) (after : List TaskRun) (db' : Db) : Type 0 where
  pub tasks : db'.tasks ≡ after
  pub deps : db'.deps ≡ db.deps
  pub runs : db'.runs ≡ db.runs

pub record LeaseEffect (env : Env) (task : ℕ) (worker : String) (lease : ℕ) (db : Db)
    (r : (TaskRun × Option String) × Db) : Type 0 where
  pub held : TaskRun
  pub found : find? (can_lease task) db.tasks ≡ some held
  pub returned : r.0.0 ≡ lease_row env worker lease held
  pub after : OnlyTasks db (update_where (can_lease task) (lease_row env worker lease) db.tasks) r.1

pub lease_task-effect :
    (env : Env) (task : ℕ) (worker : String) (lease : ℕ) (db : Db)
    → Holds (LeaseEffect env task worker lease db) (lease_task env task worker lease db)
unfolding lease_task insert_event
lease_task-effect env task worker lease db = Holds-bind _ _ _ λ held found.
    Holds-bind _ _ _ λ run _. Holds-bind _ _ _ λ attempts _. Holds-ok _ (record {
      held = held;
      found = or_fail-eq-ok _ _ found;
      returned = refl;
      after = record { tasks = refl; deps = refl; runs = refl };
    })

pub task_with_run-eq-some :
    (db : Db) (p : TaskRun → Bool) (t : TaskRun) (r : Run)
    → task_with_run db p ≡ some (t, r)
    → (find? p db.tasks ≡ some t) × (run_of db t.workflow_run_id ≡ some r)
unfolding task_with_run
task_with_run-eq-some db p t r h = ground arith

pub not-false : (b : Bool) → not b ≡ false → b ≡ true
not-false b h = ground arith

-- The row and the run that a fenced transaction has found.
pub record Fenced (db : Db) (p : TaskRun → Bool) (held : TaskRun) (run : Run) : Type 0 where
  pub row : find? p db.tasks ≡ some held
  pub its_run : run_of db held.workflow_run_id ≡ some run

pub Fenced-or_fail :
    (db : Db) (p : TaskRun → Bool) (e : Error) (found : TaskRun × Run)
    → or_fail (task_with_run db p) e ≡ ok found
    → Fenced db p found.0 found.1
Fenced-or_fail db p e (t, r) h =
    let (row, its_run) = task_with_run-eq-some db p t r (or_fail-eq-ok _ _ h) in
    record { row = row; its_run = its_run }

pub record StartEffect (env : Env) (task : ℕ) (worker : String) (db : Db) (r : TaskRun × Db)
    : Type 0 where
  pub held : TaskRun
  pub run : Run
  pub fenced : Fenced db (holds_lease env leased task worker) held run
  pub running : run_is run.status RunStatus.running ≡ true
  pub returned : r.0 ≡ start_row env held
  pub after :
      OnlyTasks db (update_where (holds_lease env leased task worker) (start_row env) db.tasks) r.1

pub start_task-effect :
    (env : Env) (task : ℕ) (worker : String) (db : Db)
    → Holds (StartEffect env task worker db) (start_task env task worker db)
unfolding start_task
start_task-effect env task worker db = Holds-bind _ _ _ λ found e. Holds-bind _ _ _ λ _ is_open.
    Holds-ok _ (record {
      held = found.0;
      run = found.1;
      fenced = Fenced-or_fail _ _ _ found e;
      running = not-false _ (refuse_if-eq-ok _ _ is_open);
      returned = refl;
      after = record { tasks = refl; deps = refl; runs = refl };
    })

pub record HeartbeatEffect (env : Env) (task : ℕ) (worker : String) (lease : ℕ) (db : Db)
    (r : (ℕ × Bool) × Db) : Type 0 where
  pub held : TaskRun
  pub run : Run
  pub fenced : Fenced db (holds_active_lease env task worker) held run
  pub cancelled : r.0.1 ≡ run_is run.status RunStatus.cancelled
  pub after :
      OnlyTasks db
        (update_where (holds_active_lease env task worker) (renew_row env lease) db.tasks)
        r.1

pub heartbeat_task-effect :
    (env : Env) (task : ℕ) (worker : String) (lease : ℕ) (db : Db)
    → Holds (HeartbeatEffect env task worker lease db) (heartbeat_task env task worker lease db)
unfolding heartbeat_task
heartbeat_task-effect env task worker lease db = Holds-bind _ _ _ λ found e. Holds-ok _ (record {
  held = found.0;
  run = found.1;
  fenced = Fenced-or_fail _ _ _ found e;
  cancelled = refl;
  after = record { tasks = refl; deps = refl; runs = refl };
})
