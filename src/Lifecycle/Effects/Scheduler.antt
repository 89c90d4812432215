-- ===== src/Lifecycle/Effects/Scheduler.antt =====
-- The effects of the rounds of the scheduler.
use run_mesh.Base.{
  ℕ, String, Bool, false, ◌≡◌, refl, sym, ap, Option, none, some, List, [], ◌∷◌, ◌==◌,
  if◌then◌else◌, Bool-cases, inl, inr, ||_false,
}
use run_mesh.Base.Tables.{exists, update_where}
use run_mesh.Workflow.State.{is, dead, RunStatus}
use run_mesh.Store.Db.{Db, Env, Run, TaskRun, insert_event, Payload}
use run_mesh.Store.Leases.{run_of}
use run_mesh.Store.Outcomes.{fail_row, available_after, end_run}
use run_mesh.Scheduler.Tick.{
  Expired, expired_status, recover_one, release_retries, dispatch_one, release_row, dispatch_row,
  is_released, is_ready_task, insert_event_of_run, event_with_trace,
}
use run_mesh.Lifecycle.Effects.{OnlyTasks}

pub release_retries-effect :
    (env : Env) (db : Db)
    → OnlyTasks db
        (update_where (is_released env) (release_row env) db.tasks)
        (release_retries env db)
unfolding release_retries
release_retries-effect env db = record { tasks = refl; deps = refl; runs = refl }

-- An update that no row fits changes nothing.
pub update_where_none :
    (p : TaskRun → Bool) (f : TaskRun → TaskRun) (xs : List TaskRun)
    → exists p xs ≡ false
    → update_where p f xs ≡ xs
unfolding exists update_where
update_where_none p f [] h = refl
update_where_none p f (x ∷ xs) h =
    let (here, rest) = ||_false (p x) (exists p xs) h in
    rw here (ap (◌∷◌ x) (update_where_none p f xs rest))

pub dispatch_one-effect :
    (env : Env) (t : TaskRun) (db : Db)
    → OnlyTasks db
        (update_where (is_ready_task t.id) (dispatch_row env) db.tasks)
        (dispatch_one env t db)
dispatch_one-effect env t db = elim (Bool-cases (exists (is_ready_task t.id) db.tasks)) [
  | inl some_ready ↦ record {
    tasks = unfold dispatch_one insert_event in rw some_ready;
    deps = unfold dispatch_one insert_event in rw some_ready;
    runs = unfold dispatch_one insert_event in rw some_ready;
  }
  | inr none_ready ↦ record {
    tasks =
        unfold dispatch_one in
        rw none_ready
          (sym (update_where_none (is_ready_task t.id) (dispatch_row env) db.tasks none_ready));
    deps = unfold dispatch_one in rw none_ready;
    runs = unfold dispatch_one in rw none_ready;
  }
]

module _ (env : Env) (task : ℕ) (event : String) (payload : Payload) (db : Db) where
  tasks-event : (r : Option Run) → (event_with_trace r env task event payload db).tasks ≡ db.tasks
  unfolding event_with_trace insert_event
  tasks-event none = refl
  tasks-event (some r) = refl

  deps-event : (r : Option Run) → (event_with_trace r env task event payload db).deps ≡ db.deps
  unfolding event_with_trace insert_event
  deps-event none = refl
  deps-event (some r) = refl

  runs-event : (r : Option Run) → (event_with_trace r env task event payload db).runs ≡ db.runs
  unfolding event_with_trace insert_event
  runs-event none = refl
  runs-event (some r) = refl

  module _ (run : ℕ) where
    tasks-event_of_run : (insert_event_of_run env task run event payload db).tasks ≡ db.tasks
    unfolding insert_event_of_run
    tasks-event_of_run = tasks-event (run_of db run)

    deps-event_of_run : (insert_event_of_run env task run event payload db).deps ≡ db.deps
    unfolding insert_event_of_run
    deps-event_of_run = deps-event (run_of db run)

    runs-event_of_run : (insert_event_of_run env task run event payload db).runs ≡ db.runs
    unfolding insert_event_of_run
    runs-event_of_run = runs-event (run_of db run)

pub record RecoverEffect (env : Env) (e : Expired) (db db' : Db) : Type 0 where
  pub tasks :
      db'.tasks
      ≡ update_where
          (λ t. t.id == e.id)
          (fail_row env (expired_status e) (available_after env (expired_status e) e.attempt))
          db.tasks
  pub deps : db'.deps ≡ db.deps
  pub runs : db'.runs ≡ (
      if is (expired_status e) dead then end_run env e.run_id RunStatus.failed db.runs else db.runs)

pub recover_one-effect :
    (env : Env) (e : Expired) (db : Db) → RecoverEffect env e db (recover_one env e db)
unfolding recover_one
recover_one-effect env e db = record {
  tasks = rw tasks-event_of_run;
  deps = rw deps-event_of_run;
  runs = rw runs-event_of_run;
}
