-- ===== src/Lifecycle/Invariant/Budgets.antt =====
-- Every step but a replay of DEAD tasks keeps the attempts of each task within its maximum.
use run_mesh.Base.{
  Bool, Bool-cases, inl, inr, some, List, [], ◌∷◌, subst, ◌<◌, ℕ, String, true, ◌&&◌, ◌≡◌, refl,
  sym, ap, ◌∙◌, Option, ok, arith, str_eq, text_is, ◌==◌, ==_iff, if◌then◌else◌,
}
use run_mesh.Base.Tables.{find?, find?-All, update_where}
use run_mesh.Store.Db.{Db, Env, TaskRun}
use run_mesh.Lifecycle.Rows.{OnlyRow, find?-OnlyRow, All-trivial}
use run_mesh.Lifecycle.Effects.{lease_task-effect, start_task-effect, heartbeat_task-effect}
use run_mesh.Lifecycle.Effects.Outcomes.{complete_task-effect, fail_task-effect}
use run_mesh.Lifecycle.Effects.Runs.{cancel_run-effect, retry_run-effect}
use run_mesh.Lifecycle.Effects.Scheduler.{
  release_retries-effect, recover_one-effect, dispatch_one-effect,
}
use run_mesh.Lifecycle.Step.{
  WorkStep, lease, start, heartbeat, complete, fail, cancel, release, recover, dispatch,
}
use run_mesh.Lifecycle.Invariant.{BudgetIsValid}
use run_mesh.Lifecycle.Invariant.Rows
use run_mesh.Lifecycle.Invariant.Tables.{
  Table, Table-update, Table-update_all, become, Table-cancel_if,
}
use run_mesh.Store.Outcomes.{available_after, failure_status}
use run_mesh.Scheduler.Tick.{expired_status}
use run_mesh.Store.Runs.{retry_run, retry_row, is_dead_in}
use run_mesh.Workflow.State.{is, dead, ready}

task_picked :
    (task : ℕ) (worker : String) (x : TaskRun)
    → (x.id == task && text_is x.lease_owner worker) ≡ true
    → x.id ≡ task
task_picked task worker x h = ground arith

-- Every committed transaction of a worker or the scheduler, and every cancellation of a run, keeps
-- task ids unique and keeps each task within its maximum of attempts, with one left if it waits to
-- run, provided that this held before. A recovered row is as it was read when its lease was found
-- expired.
pub WorkStep-Budget :
    {db db' : Db} → WorkStep db db' → Table BudgetIsValid db.tasks → Table BudgetIsValid db'.tasks
WorkStep-Budget {db} {db'} (lease env task worker duration r h) t =
    let e = (lease_task-effect env task worker duration db).at (r, db') h in
    become BudgetIsValid _ _ e.after.tasks (
      Table-update_all BudgetIsValid _ _ db.tasks (λ x. (refl, refl))
        (Rows.lease_row-Budget env worker task duration) t)
WorkStep-Budget {db} {db'} (start env task worker r h) t =
    let e = (start_task-effect env task worker db).at (r, db') h in
    become BudgetIsValid _ _ e.after.tasks (
      Table-update_all BudgetIsValid _ _ db.tasks (λ x. (refl, refl))
        (λ x b hit. (b.0, λ h. absurd (cc))) t)
WorkStep-Budget {db} {db'} (heartbeat env task worker duration r h) t =
    let e = (heartbeat_task-effect env task worker duration db).at (r, db') h in
    become BudgetIsValid _ _ e.after.tasks
      (Table-update_all BudgetIsValid _ _ db.tasks (λ x. (refl, refl)) (λ x b _. b) t)
WorkStep-Budget {db} {db'} (complete env task worker output uri logs r h) t =
    let e = (complete_task-effect env task worker output uri logs db).at (r, db') h in
    become BudgetIsValid _ _ e.tasks (
      Table-update_all BudgetIsValid _ _ _ (λ x. (refl, refl))
        (λ x v hit. Rows.ready_row-Budget env x v (ground arith))
        (Table-update_all BudgetIsValid _ _ db.tasks (λ x. (refl, refl))
          (λ x b _.
            Rows.succeed_row-Budget env worker (if str_eq output "" then "{}" else output) uri x b)
          t))
WorkStep-Budget {db} {db'} (fail env task worker f r h) (unique, budgets) =
    let e = (fail_task-effect env task worker f db).at (r, db') h in
    let picked : e.held.id ≡ task =
      let (hit, _) =
        find?-All (λ _. Unit {0}) _ db.tasks e.held e.fenced.row (All-trivial db.tasks) in
      ground arith in
    become BudgetIsValid _ _ e.tasks (
      Table-cancel_if BudgetIsValid env _ _ _ (λ x b _. Rows.cancel_row-Budget env x b)
        (Table-update BudgetIsValid (OnlyRow e.held) _ _ db.tasks
          (find?-OnlyRow _ db.tasks e.held e.fenced.row unique) (λ x. (refl, refl))
          (λ x b only hit.
            let same = only (task_picked task worker x hit ∙ sym picked) in
            Rows.fail_row-Budget env e.run.status f.retryable e.held.attempt_count
              e.held.maximum_attempts
              (available_after env
                (failure_status e.run.status f.retryable e.held.attempt_count
                  e.held.maximum_attempts)
                e.held.attempt_count)
              x b (ap (λ (y : TaskRun). y.attempt_count) same)
              (ap (λ (y : TaskRun). y.maximum_attempts) same))
          (unique, budgets)))
WorkStep-Budget {db} {db'} (cancel env tenant user run u h) t =
    let e = (cancel_run-effect env tenant user run db).at (u, db') h in
    become BudgetIsValid _ _ e.tasks (
      Table-cancel_if BudgetIsValid env run true db.tasks (λ x b _. Rows.cancel_row-Budget env x b)
        t)
WorkStep-Budget {db} {db'} (release env h) t =
    become BudgetIsValid _ _
      (ap (λ (d : Db). d.tasks) (sym h) ∙ (release_retries-effect env db).tasks)
      (Table-update_all BudgetIsValid _ _ db.tasks (λ x. (refl, refl)) (Rows.release_row-Budget env)
        t)
WorkStep-Budget {db} {db'} (recover env e current h) t =
    become BudgetIsValid _ _
      (ap (λ (d : Db). d.tasks) (sym h) ∙ (recover_one-effect env e db).tasks)
      (Table-update BudgetIsValid _ _ _ db.tasks current.rows (λ x. (refl, refl))
        (λ x b now hit.
          let (_, attempt, max) = now ((==_iff x.id e.id).0 hit) in
          Rows.fail_row-Budget env e.run_status true e.attempt e.max
            (available_after env (expired_status e) e.attempt) x b attempt max)
        t)
WorkStep-Budget {db} {db'} (dispatch env d h) t =
    become BudgetIsValid _ _
      (ap (λ (d : Db). d.tasks) (sym h) ∙ (dispatch_one-effect env d db).tasks)
      (Table-update_all BudgetIsValid _ _ db.tasks (λ x. (refl, refl))
        (Rows.dispatch_row-Budget env d.id) t)

-- What an UPDATE does to the row of a key that it leaves.
find?-update_where :
    (id : ℕ) (q : TaskRun → Bool) (f : TaskRun → TaskRun) (xs : List TaskRun) (x : TaskRun)
    → ((y : TaskRun) → (f y).id ≡ y.id)
    → find? (λ t. t.id == id) xs ≡ some x
    → q x ≡ true
    → find? (λ t. t.id == id) (update_where q f xs) ≡ some (f x)
unfolding find? update_where
find?-update_where id q f [] x same h hit = absurd (cc)
find?-update_where id q f (y ∷ ys) x same h hit =
    let kept : (if q y then f y else y).id ≡ y.id = elim (Bool-cases (q y)) [
      | inl set ↦ rw set (same y)
      | inr left ↦ rw left refl
    ] in
    elim (Bool-cases (y.id == id)) [
      | inl found ↦
          let is_x : y ≡ x = ground arith in
          let picked : q y ≡ true = ap q is_x ∙ hit in
          let row : (if q y then f y else y) ≡ f x = rw picked (ap f is_x) in
          rw (kept, found) (ap some row)
      | inr other ↦
          let rest = find?-update_where id q f ys x same (ground arith) hit in rw (kept, other) rest
    ]

-- After a retry of a FAILED run, a task of the run that was DEAD is READY with an attempt left, and every
-- task is within its maximum of attempts, with one left if it waits to run, provided that the latter
-- held before. The task is the first row with its id.
pub retry_run-revives :
    (env : Env) (tenant : ℕ) (user : Option ℕ) (run : ℕ) (db db' : Db) (id : ℕ) (x : TaskRun)
    → retry_run env tenant user run db ≡ ok (tt, db')
    → Table BudgetIsValid db.tasks
    → find? (λ t. t.id == id) db.tasks ≡ some x
    → x.workflow_run_id ≡ run
    → is x.status dead ≡ true
    → Table BudgetIsValid db'.tasks
      × ((y : TaskRun) × (find? (λ t. t.id == id) db'.tasks ≡ some y)
          × (is y.status ready ≡ true)
          × (y.attempt_count < y.maximum_attempts))
retry_run-revives env tenant user run db db' id x h t found of_run is_dead =
    let e = (retry_run-effect env tenant user run db).at (tt, db') h in
    (
      become BudgetIsValid _ _ e.tasks (
          Table-update_all BudgetIsValid _ _ db.tasks (λ x. (refl, refl))
            (λ x _ _. Rows.retry_row-Budget env x) t),
      (
        retry_row env x,
        subst (λ ts. find? (λ t. t.id == id) ts ≡ some (retry_row env x)) (sym e.tasks)
            (find?-update_where id (is_dead_in run) (retry_row env) db.tasks x (λ y. refl) found
              (ground arith)),
        refl,
        ground arith,
      ),
    )
