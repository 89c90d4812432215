-- ===== src/Lifecycle/Advance.antt =====
-- Every step of the workers and the scheduler moves tasks along the map `transitions`.
use run_mesh.Base.{
  ℕ, String, Bool, true, ◌&&◌, ◌≡◌, refl, sym, subst, ◌∙◌, inl, inr, some, List, arith, text_is,
  ◌==◌, if◌then◌else◌, ==_iff,
}
use run_mesh.Base.Tables.{All, find?, find?-All, update_where}
use run_mesh.Workflow.State.{TaskStatus, RunStatus, can_transition, is, is_active, dead}
use run_mesh.Store.Db.{Db, Env, TaskRun}
use run_mesh.Store.Leases.{can_lease, lease_row, holds_active_lease}
use run_mesh.Store.Outcomes.{cancel_waiting, fail_row, failure_status, available_after}
use run_mesh.Scheduler.Tick.{
  Expired, expired_status, release_row, dispatch_row, is_released, is_ready_task,
}
use run_mesh.Lifecycle.Rows.{
  Rows, UniqueIds, OnlyRow, find?-OnlyRow, All-imp, All-trivial, Rows-update,
}
use run_mesh.Lifecycle.Effects.{lease_task-effect, start_task-effect, heartbeat_task-effect}
use run_mesh.Lifecycle.Effects.Outcomes.{complete_task-effect, fail_task-effect}
use run_mesh.Lifecycle.Effects.Scheduler.{
  release_retries-effect, recover_one-effect, dispatch_one-effect,
}
use run_mesh.Lifecycle.Effects.Runs.{cancel_run-effect}
use run_mesh.Lifecycle.Transitions.{
  Advances, update-Advances, lease_row-Advances, start_row-Advances, cancel_row-Advances,
  failure_status-transition, complete-Advances, dead-Advances, fail-Advances,
}
use run_mesh.Lifecycle.Step.{
  WorkStep, lease, start, heartbeat, complete, fail, cancel, release, recover, dispatch,
}

abbrev Moves : List TaskRun → List TaskRun → Type 0
Moves = Rows Advances

-- The tasks of a step, by the equation that its effect gives.
moved : (xs ys zs : List TaskRun) → zs ≡ ys → Moves xs ys → Moves xs zs
moved xs ys zs e m = subst (Moves xs) (sym e) m

-- An update that ends active rows with a status of a failed attempt, and cancels what waits if it
-- is for good.
ended-Moves :
    (env : Env) (p : TaskRun → Bool) (run : RunStatus) (retryable : Bool)
    (attempt max available id : ℕ) (xs : List TaskRun)
    → All (λ x. p x ≡ true → is_active x.status ≡ true) xs
    → let status = failure_status run retryable attempt max in
      let ended = update_where p (fail_row env status available) xs in
      Moves xs (if is status dead then cancel_waiting env id ended else ended)
ended-Moves env p run retryable attempt max available id xs h =
    go (failure_status run retryable attempt max) refl
  where
    allowed :
        (s : TaskStatus)
        → failure_status run retryable attempt max ≡ s
        → All (λ x. p x ≡ true → can_transition x.status s ≡ true) xs
    allowed s e =
        All-imp (λ x. p x ≡ true → is_active x.status ≡ true)
          (λ x. p x ≡ true → can_transition x.status s ≡ true) xs
          (λ x active hit.
            subst (λ u. can_transition x.status u ≡ true) e
              (failure_status-transition x.status run retryable attempt max (active hit)))
          h

    go :
        (s : TaskStatus)
        → failure_status run retryable attempt max ≡ s
        → let ended = update_where p (fail_row env s available) xs in
          Moves xs (if is s dead then cancel_waiting env id ended else ended)
    go dead e = dead-Advances env p available id xs (allowed dead e)
    go s e = fail-Advances env p s available xs (allowed s e)

-- The row that a WHERE with the id `task` has picked is the only one with that id.
only_task :
    (db : Db) (task : ℕ) (p : TaskRun → Bool) (q : TaskRun → Bool) (held : TaskRun)
    → find? p db.tasks ≡ some held
    → UniqueIds db.tasks
    → held.id ≡ task
    → is_active held.status ≡ true
    → ((x : TaskRun) → q x ≡ true → x.id ≡ task)
    → All (λ x. q x ≡ true → is_active x.status ≡ true) db.tasks
only_task db task p q held found unique same active by_id =
    All-imp (OnlyRow held) (λ x. q x ≡ true → is_active x.status ≡ true) db.tasks
      (λ x only hit.
        subst (λ (y : TaskRun). is_active y.status ≡ true) (sym (only (by_id x hit ∙ sym same)))
          active)
      (find?-OnlyRow p db.tasks held found unique)

held_active :
    (env : Env) (task : ℕ) (worker : String) (held : TaskRun)
    → holds_active_lease env task worker held ≡ true
    → (held.id ≡ task) × (is_active held.status ≡ true)
held_active env task worker held h = ground arith

module _ (env : Env) where
  release_row-Advances : (t : TaskRun) → is_released env t ≡ true → Advances t (release_row env t)
  unfolding can_transition
  release_row-Advances t h = ground arith

  dispatch_row-Advances :
      (id : ℕ) (t : TaskRun) → is_ready_task id t ≡ true → Advances t (dispatch_row env t)
  unfolding can_transition
  dispatch_row-Advances id t h = ground arith

  recovered-Advances :
      (e : Expired) (t : TaskRun)
      → (t.id ≡ e.id
          → (is_active t.status ≡ true)
            × (t.attempt_count ≡ e.attempt)
            × (t.maximum_attempts ≡ e.max))
      → (t.id == e.id) ≡ true
      → Advances t
          (fail_row env (expired_status e) (available_after env (expired_status e) e.attempt) t)
  recovered-Advances e t current hit =
      let (active, _, _) = current ((==_iff t.id e.id).0 hit) in
      (
        refl,
        refl,
        inr (failure_status-transition t.status e.run_status true e.attempt e.max active),
      )

All-Advances :
    (p : TaskRun → Bool) (f : TaskRun → TaskRun) (xs : List TaskRun)
    → All (λ x. p x ≡ true → Advances x (f x)) xs
    → Rows Advances xs (update_where p f xs)
All-Advances p f xs h =
    Rows-update Advances (λ x. p x ≡ true → Advances x (f x)) p f xs h
      λ x moves. ground (arith, moves)

-- Every committed transaction of a worker or the scheduler, and every cancellation of a run, leaves
-- each task where it was or moves it by one transition that the map `transitions` allows; tasks are
-- neither added nor removed. Task ids are unique, and a recovered row is as it was read when its
-- lease was found expired.
pub WorkStep-Advances :
    {db db' : Db} → UniqueIds db.tasks → WorkStep db db' → Rows Advances db.tasks db'.tasks
WorkStep-Advances {db} {db'} unique (lease env task worker duration r h) =
    let e = (lease_task-effect env task worker duration db).at (r, db') h in
    moved db.tasks _ db'.tasks e.after.tasks (
      update-Advances (can_lease task) (lease_row env worker duration) db.tasks
        (lease_row-Advances env worker task duration))
WorkStep-Advances {db} {db'} unique (start env task worker r h) =
    let e = (start_task-effect env task worker db).at (r, db') h in
    moved db.tasks _ db'.tasks e.after.tasks
      (update-Advances _ _ db.tasks (start_row-Advances env worker task))
WorkStep-Advances {db} {db'} unique (heartbeat env task worker duration r h) =
    let e = (heartbeat_task-effect env task worker duration db).at (r, db') h in
    moved db.tasks _ db'.tasks e.after.tasks
      (update-Advances _ _ db.tasks (λ x _. (refl, refl, inl refl)))
WorkStep-Advances {db} {db'} unique (complete env task worker output uri logs r h) =
    let e = (complete_task-effect env task worker output uri logs db).at (r, db') h in
    moved db.tasks _ db'.tasks e.tasks
      (complete-Advances env task worker _ uri db.deps _ _ _ db.tasks)
WorkStep-Advances {db} {db'} unique (fail env task worker f r h) =
    let e = (fail_task-effect env task worker f db).at (r, db') h in
    let (same, active) =
      held_active env task worker e.held
        (find?-All (λ _. Unit {0}) _ db.tasks e.held e.fenced.row (All-trivial db.tasks)).0 in
    moved db.tasks _ db'.tasks e.tasks (
      ended-Moves env (λ t. t.id == task && text_is t.lease_owner worker) e.run.status f.retryable
        e.held.attempt_count e.held.maximum_attempts _ e.held.workflow_run_id db.tasks
        (only_task db task _ _ e.held e.fenced.row unique same active λ x hit. ground arith))
WorkStep-Advances {db} {db'} unique (cancel env tenant user run u h) =
    let e = (cancel_run-effect env tenant user run db).at (u, db') h in
    moved db.tasks _ db'.tasks e.tasks (update-Advances _ _ db.tasks (cancel_row-Advances env run))
WorkStep-Advances {db} {db'} unique (release env h) =
    subst (λ (d : Db). Rows Advances db.tasks d.tasks) h
      (moved db.tasks _ _ (release_retries-effect env db).tasks
        (update-Advances (is_released env) (release_row env) db.tasks (release_row-Advances env)))
WorkStep-Advances {db} {db'} unique (recover env e current h) =
    subst (λ (d : Db). Rows Advances db.tasks d.tasks) h
      (moved db.tasks _ _ (recover_one-effect env e db).tasks (
        All-Advances (λ t. t.id == e.id) _ db.tasks
          (All-imp _ _ db.tasks (recovered-Advances env e) current.rows)))
WorkStep-Advances {db} {db'} unique (dispatch env t h) =
    subst (λ (d : Db). Rows Advances db.tasks d.tasks) h
      (moved db.tasks _ _ (dispatch_one-effect env t db).tasks (
        update-Advances (is_ready_task t.id) (dispatch_row env) db.tasks
          (dispatch_row-Advances env t.id)))
