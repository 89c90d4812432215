-- ===== src/Lifecycle/Invariant/Ordering.antt =====
-- No step lets a task go before all that it depends on has succeeded.
use run_mesh.Base.{
  ℕ, Bool, true, false, ◌≡◌, refl, sym, ap, subst, ◌∙◌, List, arith, ==_iff, if◌then◌else◌,
}
use run_mesh.Base.Tables.{find?-All, update_where}
use run_mesh.Workflow.State.{is, dead, is_active}
use run_mesh.Store.Db.{Db, Env, TaskRun, Dependency}
use run_mesh.Store.Leases.{lease_row, start_row, renew_row, holds_active_lease}
use run_mesh.Store.Outcomes.{
  unresolved, available_after, failure_status, ready_row, cancel_row, cancel_waiting,
}
use run_mesh.Store.Runs.{retry_row}
use run_mesh.Store.DeadLetter.{replay_row, rebuild_row}
use run_mesh.Scheduler.Tick.{release_row, dispatch_row, expired_status}
use run_mesh.Lifecycle.Rows.{OnlyRow, find?-OnlyRow, All-trivial}
use run_mesh.Lifecycle.Effects.{lease_task-effect, start_task-effect, heartbeat_task-effect}
use run_mesh.Lifecycle.Effects.Outcomes.{complete_task-effect, fail_task-effect, succeeded_tasks}
use run_mesh.Lifecycle.Effects.Runs.{
  cancel_run-effect, retry_run-effect, replay_dead-effect, replayed_tasks,
}
use run_mesh.Lifecycle.Effects.Scheduler.{
  release_retries-effect, recover_one-effect, dispatch_one-effect,
}
use run_mesh.Lifecycle.Step.{
  WorkStep, RepairStep, Step, Reach, lease, start, heartbeat, complete, fail, cancel, release,
  recover, dispatch, retry, replay, work, repair, here, next,
}
use run_mesh.Lifecycle.Invariant.{IsOrdered, Stays}
use run_mesh.Lifecycle.Invariant.Gates.{Kept, update_where-Stays, succeed-Stays}
use run_mesh.Lifecycle.Invariant.Kept.{
  lease_row-Kept, start_row-Kept, renew_row-Kept, ready_row-Kept, cancel_row-Kept, release_row-Kept,
  dispatch_row-Kept, fail_row-Kept, from_dead, rebuild_row-Kept,
}

become :
    (deps deps' : List Dependency) (xs ys zs : List TaskRun)
    → deps' ≡ deps
    → zs ≡ ys
    → Stays deps xs ys
    → Stays deps' xs zs
become deps deps' xs ys zs same rows s =
    subst (λ d. Stays d xs zs) (sym same) (subst (Stays deps xs) (sym rows) s)

-- One update after another.
and_then :
    (deps : List Dependency) (xs ys zs : List TaskRun)
    → (IsOrdered deps ys → Stays deps ys zs)
    → Stays deps xs ys
    → Stays deps xs zs
and_then deps xs ys zs more (ordered, done) =
    let (ordered', done') = more ordered in (ordered', λ run h. done' run (done run h))

-- The same for every row that the update finds.
update_all :
    (deps : List Dependency) (p : TaskRun → Bool) (f : TaskRun → TaskRun) (xs : List TaskRun)
    → ((x : TaskRun) → p x ≡ true → Kept (unresolved deps xs) x (f x))
    → IsOrdered deps xs
    → Stays deps xs (update_where p f xs)
update_all deps p f xs keep o =
    update_where-Stays deps (λ _. Unit {0}) p f xs (All-trivial xs) (λ x _ hit. keep x hit) o

cancel_if :
    (env : Env) (deps : List Dependency) (run : ℕ) (b : Bool) (xs : List TaskRun)
    → IsOrdered deps xs
    → Stays deps xs (if b then cancel_waiting env run xs else xs)
cancel_if env deps run false xs o = (o, λ r h. h)
cancel_if env deps run true xs o =
    update_all deps _ (cancel_row env) xs
      (λ x hit. cancel_row-Kept env (unresolved deps xs) x (ground arith)) o

pub WorkStep-Stays :
    {db db' : Db} → WorkStep db db' → IsOrdered db.deps db.tasks → Stays db'.deps db.tasks db'.tasks
WorkStep-Stays {db} {db'} (lease env task worker duration r h) o =
    let e = (lease_task-effect env task worker duration db).at (r, db') h in
    become _ _ _ _ _ e.after.deps e.after.tasks (
      update_all db.deps _ (lease_row env worker duration) db.tasks
        (λ x hit. lease_row-Kept env (unresolved db.deps db.tasks) x task worker duration hit) o)
WorkStep-Stays {db} {db'} (start env task worker r h) o =
    let e = (start_task-effect env task worker db).at (r, db') h in
    become _ _ _ _ _ e.after.deps e.after.tasks (
      update_all db.deps _ (start_row env) db.tasks
        (λ x hit. start_row-Kept env (unresolved db.deps db.tasks) x task worker hit) o)
WorkStep-Stays {db} {db'} (heartbeat env task worker duration r h) o =
    let e = (heartbeat_task-effect env task worker duration db).at (r, db') h in
    become _ _ _ _ _ e.after.deps e.after.tasks (
      update_all db.deps _ (renew_row env duration) db.tasks
        (λ x hit. renew_row-Kept env (unresolved db.deps db.tasks) x duration) o)
WorkStep-Stays {db} {db'} (complete env task worker output uri logs r h) o =
    let e = (complete_task-effect env task worker output uri logs db).at (r, db') h in
    let rows₁ = succeeded_tasks env task worker output uri db in
    become _ _ _ _ _ e.deps e.tasks (
      and_then db.deps db.tasks rows₁ _
        (λ o₁.
          update_all db.deps _ (ready_row env) rows₁
            (λ x hit. ready_row-Kept env (unresolved db.deps rows₁) x (ground arith) (ground arith))
            o₁)
        (succeed-Stays _ _ db.deps db.tasks (λ x. (refl, refl, refl)) (λ x hit. ground arith) o))
WorkStep-Stays {db} {db'} (fail env task worker f r h) o =
    let e = (fail_task-effect env task worker f db).at (r, db') h in
    let (hit, _) =
      find?-All (λ _. Unit {0}) (holds_active_lease env task worker) db.tasks e.held e.fenced.row
        (All-trivial db.tasks) in
    let picked : (e.held.id ≡ task) × (is_active e.held.status ≡ true) = ground arith in
    become _ _ _ _ _ e.deps e.tasks (
      and_then db.deps db.tasks _ _ (cancel_if env db.deps _ _ _) (
        update_where-Stays db.deps (OnlyRow e.held) _ _ db.tasks
          (find?-OnlyRow _ db.tasks e.held e.fenced.row o.0)
          (λ x only hit'.
            let same_id : x.id ≡ task = ground arith in
            fail_row-Kept env (unresolved db.deps db.tasks) x e.run.status f.retryable
              e.held.attempt_count e.held.maximum_attempts
              (available_after env
                (failure_status e.run.status f.retryable e.held.attempt_count
                  e.held.maximum_attempts)
                e.held.attempt_count)
              (subst (λ (y : TaskRun). is_active y.status ≡ true)
                (sym (only (same_id ∙ sym picked.0))) picked.1))
          o))
WorkStep-Stays {db} {db'} (cancel env tenant user run u h) o =
    let e = (cancel_run-effect env tenant user run db).at (u, db') h in
    become _ _ _ _ _ e.deps e.tasks (cancel_if env db.deps run true db.tasks o)
WorkStep-Stays {db} {db'} (release env h) o =
    let e = release_retries-effect env db in
    become _ _ _ _ _ (ap (λ (d : Db). d.deps) (sym h) ∙ e.deps)
      (ap (λ (d : Db). d.tasks) (sym h) ∙ e.tasks)
      (update_all db.deps _ (release_row env) db.tasks
        (λ x hit. release_row-Kept env (unresolved db.deps db.tasks) x hit) o)
WorkStep-Stays {db} {db'} (recover env e current h) o =
    let effect = recover_one-effect env e db in
    become _ _ _ _ _ (ap (λ (d : Db). d.deps) (sym h) ∙ effect.deps)
      (ap (λ (d : Db). d.tasks) (sym h) ∙ effect.tasks)
      (update_where-Stays db.deps _ _ _ db.tasks current.rows
        (λ x now hit.
          fail_row-Kept env (unresolved db.deps db.tasks) x e.run_status true e.attempt e.max
            (available_after env (expired_status e) e.attempt) (now ((==_iff x.id e.id).0 hit)).0)
        o)
WorkStep-Stays {db} {db'} (dispatch env d h) o =
    let e = dispatch_one-effect env d db in
    become _ _ _ _ _ (ap (λ (d : Db). d.deps) (sym h) ∙ e.deps)
      (ap (λ (d : Db). d.tasks) (sym h) ∙ e.tasks)
      (update_all db.deps _ (dispatch_row env) db.tasks
        (λ x hit. dispatch_row-Kept env (unresolved db.deps db.tasks) x d.id hit) o)

pub RepairStep-Stays :
    {db db' : Db}
    → RepairStep db db'
    → IsOrdered db.deps db.tasks
    → Stays db'.deps db.tasks db'.tasks
RepairStep-Stays {db} {db'} (retry env tenant user run u h) o =
    let e = (retry_run-effect env tenant user run db).at (u, db') h in
    become _ _ _ _ _ e.deps e.tasks (
      update_all db.deps _ (retry_row env) db.tasks
        (λ x hit.
          from_dead env (unresolved db.deps db.tasks) x (retry_row env x) (refl, refl) refl
            (ground arith))
        o)
RepairStep-Stays {db} {db'} (replay env tenant user task u h) o =
    let e = (replay_dead-effect env tenant user task db).at (u, db') h in
    let picked : (e.held.id ≡ task) × (is e.held.status dead ≡ true) =
      let (hit, _) =
        find?-All (λ _. Unit {0}) _ db.tasks e.held e.fenced.row (All-trivial db.tasks) in
      ground arith in
    let rows₁ = replayed_tasks env tenant user task db in
    become _ _ _ _ _ e.deps e.tasks (
      and_then db.deps db.tasks rows₁ _
        (λ o₁.
          update_all db.deps _ (rebuild_row env db.deps rows₁) rows₁
            (λ x hit. rebuild_row-Kept env db.deps rows₁ x (ground arith)) o₁)
        (update_where-Stays db.deps (OnlyRow e.held) _ (replay_row env) db.tasks
          (find?-OnlyRow _ db.tasks e.held e.fenced.row o.0)
          (λ x only hit.
            from_dead env (unresolved db.deps db.tasks) x (replay_row env x) (refl, refl) refl
              (subst (λ (y : TaskRun). is y.status dead ≡ true)
                (sym (only ((==_iff x.id task).0 hit ∙ sym picked.0))) picked.1))
          o))

pub Step-Stays :
    {db db' : Db} → Step db db' → IsOrdered db.deps db.tasks → Stays db'.deps db.tasks db'.tasks
Step-Stays (work s) o = WorkStep-Stays s o
Step-Stays (repair s) o = RepairStep-Stays s o

-- After any sequence of committed transactions, operators' retries and replays included, task ids are
-- unique and every task that is neither BLOCKED nor CANCELLED depends only on tasks that have SUCCEEDED,
-- provided that this holds at the start.
pub Reach-IsOrdered :
    {db db' : Db} → Reach db db' → IsOrdered db.deps db.tasks → IsOrdered db'.deps db'.tasks
Reach-IsOrdered here o = o
Reach-IsOrdered (next r s) o = (Step-Stays s (Reach-IsOrdered r o)).0
