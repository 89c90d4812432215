-- ===== src/Lifecycle/Effects/Outcomes.antt =====
-- The effects of `CompleteTask` and `FailTask`.
use run_mesh.Base.{
  ℕ, String, true, ◌&&◌, ◌≡◌, refl, List, [], ◌∷◌, Holds, Holds-bind, Holds-ok, refuse_if-eq-ok,
  str_eq, text_is, ◌==◌, if◌then◌else◌,
}
use run_mesh.Base.Tables.{update_where}
use run_mesh.Workflow.State.{RunStatus, TaskStatus, run_is, is, dead}
use run_mesh.Store.Db.{Db, Env, Run, TaskRun, insert_event}
use run_mesh.Store.Leases.{holds_lease, holds_active_lease}
use run_mesh.Store.Outcomes.{
  Failure, complete_task, fail_task, succeed_row, fail_row, unblocks, ready_row, ready_events,
  all_succeeded, end_run, cancel_waiting, failure_status, available_after,
}
use run_mesh.Lifecycle.Effects.{Fenced, Fenced-or_fail, not-false}

-- The events of the children leave the rows alone.
module _ (env : Env) (run : ℕ) where
  tasks-ready_events :
      (children : List TaskRun) (db : Db) → (ready_events env run children db).tasks ≡ db.tasks
  unfolding ready_events
  tasks-ready_events [] db = refl
  tasks-ready_events (c ∷ children) db = tasks-ready_events children _

  deps-ready_events :
      (children : List TaskRun) (db : Db) → (ready_events env run children db).deps ≡ db.deps
  unfolding ready_events
  deps-ready_events [] db = refl
  deps-ready_events (c ∷ children) db = deps-ready_events children _

  runs-ready_events :
      (children : List TaskRun) (db : Db) → (ready_events env run children db).runs ≡ db.runs
  unfolding ready_events
  runs-ready_events [] db = refl
  runs-ready_events (c ∷ children) db = runs-ready_events children _

module _ (env : Env) (task : ℕ) (worker given artifact_uri : String) where
  abbrev pub stored_output : String
  stored_output = if str_eq given "" then "{}" else given

  -- The tasks after the first update, and after the second.
  abbrev pub succeeded_tasks : Db → List TaskRun
  succeeded_tasks db =
      update_where (holds_lease env TaskStatus.running task worker)
        (succeed_row env stored_output artifact_uri) db.tasks

  abbrev pub completed_tasks : Db → TaskRun → List TaskRun
  completed_tasks db held =
      update_where (unblocks db.deps (succeeded_tasks db) held.workflow_run_id held.id)
        (ready_row env) (succeeded_tasks db)

  pub record CompleteEffect (db : Db) (r : TaskRun × Db) : Type 0 where
    pub held : TaskRun
    pub run : Run
    pub fenced : Fenced db (holds_lease env TaskStatus.running task worker) held run
    pub running : run_is run.status RunStatus.running ≡ true
    pub returned : r.0 ≡ succeed_row env stored_output artifact_uri held
    pub tasks : r.1.tasks ≡ completed_tasks db held
    pub deps : r.1.deps ≡ db.deps
    pub runs : r.1.runs ≡ (
        if all_succeeded held.workflow_run_id (completed_tasks db held)
        then end_run env held.workflow_run_id RunStatus.succeeded db.runs
        else db.runs)

  pub complete_task-effect :
      (logs : List String) (db : Db)
      → Holds (CompleteEffect db) (complete_task env task worker given artifact_uri logs db)
  unfolding complete_task insert_event
  complete_task-effect logs db = Holds-bind _ _ _ λ found e. Holds-bind _ _ _ λ _ is_open.
      Holds-ok _ (record {
        held = found.0;
        run = found.1;
        fenced = Fenced-or_fail _ _ _ found e;
        running = not-false _ (refuse_if-eq-ok _ _ is_open);
        returned = refl;
        tasks = rw tasks-ready_events;
        deps = rw deps-ready_events;
        runs = rw runs-ready_events;
      })

module _ (env : Env) (task : ℕ) (worker : String) (f : Failure) where
  abbrev pub ended_status : TaskRun → Run → TaskStatus
  ended_status held run =
      failure_status run.status f.retryable held.attempt_count held.maximum_attempts

  abbrev pub ended_row : TaskRun → Run → TaskRun → TaskRun
  ended_row held run =
      fail_row env (ended_status held run)
        (available_after env (ended_status held run) held.attempt_count)

  -- The tasks after the update of the row, and after the cancellation of what waits.
  abbrev pub ended_tasks : Db → TaskRun → Run → List TaskRun
  ended_tasks db held run =
      update_where (λ t. t.id == task && text_is t.lease_owner worker) (ended_row held run) db.tasks

  pub record FailEffect (db : Db) (r : TaskRun × Db) : Type 0 where
    pub held : TaskRun
    pub run : Run
    pub fenced : Fenced db (holds_active_lease env task worker) held run
    pub returned : r.0 ≡ ended_row held run held
    pub tasks : r.1.tasks ≡ (
        if is (ended_status held run) dead
        then cancel_waiting env held.workflow_run_id (ended_tasks db held run)
        else ended_tasks db held run)
    pub deps : r.1.deps ≡ db.deps
    pub runs : r.1.runs ≡ (
        if is (ended_status held run) dead
        then end_run env held.workflow_run_id RunStatus.failed db.runs
        else db.runs)

  pub fail_task-effect : (db : Db) → Holds (FailEffect db) (fail_task env task worker f db)
  unfolding fail_task insert_event
  fail_task-effect db = Holds-bind _ _ _ λ found e. Holds-ok _ (record {
    held = found.0;
    run = found.1;
    fenced = Fenced-or_fail _ _ _ found e;
    returned = refl;
    tasks = refl;
    deps = refl;
    runs = refl;
  })
