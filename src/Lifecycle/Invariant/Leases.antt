-- ===== src/Lifecycle/Invariant/Leases.antt =====
-- Every step keeps task ids unique and leases as they should be.
use run_mesh.Base.{true, ◌≡◌, refl, sym, ap, subst, ◌∙◌, arith, str_eq, ==_iff, if◌then◌else◌}
use run_mesh.Base.Tables.{find?-All}
use run_mesh.Workflow.State.{is, dead}
use run_mesh.Store.Db.{Db, TaskRun}
use run_mesh.Lifecycle.Rows.{OnlyRow, find?-OnlyRow, All-trivial}
use run_mesh.Lifecycle.Effects.{lease_task-effect, start_task-effect, heartbeat_task-effect}
use run_mesh.Lifecycle.Effects.Outcomes.{complete_task-effect, fail_task-effect}
use run_mesh.Lifecycle.Effects.Runs.{cancel_run-effect, retry_run-effect, replay_dead-effect}
use run_mesh.Lifecycle.Effects.Scheduler.{
  release_retries-effect, recover_one-effect, dispatch_one-effect,
}
use run_mesh.Lifecycle.Step.{
  WorkStep, RepairStep, Step, lease, start, heartbeat, complete, fail, cancel, release, recover,
  dispatch, retry, replay, work, repair,
}
use run_mesh.Lifecycle.Invariant.{LeaseIsValid}
use run_mesh.Lifecycle.Invariant.Rows
use run_mesh.Lifecycle.Invariant.Tables.{
  Table, Table-update, Table-update_all, become, Table-cancel_if,
}
use run_mesh.Lifecycle.Effects.Runs.{replayed_tasks}
use run_mesh.Store.Outcomes.{available_after, failure_status}
use run_mesh.Scheduler.Tick.{expired_status}

pub WorkStep-Lease :
    {db db' : Db} → WorkStep db db' → Table LeaseIsValid db.tasks → Table LeaseIsValid db'.tasks
WorkStep-Lease {db} {db'} (lease env task worker duration r h) t =
    let e = (lease_task-effect env task worker duration db).at (r, db') h in
    become LeaseIsValid _ _ e.after.tasks (
      Table-update_all LeaseIsValid _ _ db.tasks (λ x. (refl, refl))
        (λ x _ _. Rows.lease_row-Lease env worker duration x) t)
WorkStep-Lease {db} {db'} (start env task worker r h) t =
    let e = (start_task-effect env task worker db).at (r, db') h in
    become LeaseIsValid _ _ e.after.tasks (
      Table-update_all LeaseIsValid _ _ db.tasks (λ x. (refl, refl))
        (Rows.start_row-Lease env worker task) t)
WorkStep-Lease {db} {db'} (heartbeat env task worker duration r h) t =
    let e = (heartbeat_task-effect env task worker duration db).at (r, db') h in
    become LeaseIsValid _ _ e.after.tasks (
      Table-update_all LeaseIsValid _ _ db.tasks (λ x. (refl, refl))
        (Rows.renew_row-Lease env worker task duration) t)
WorkStep-Lease {db} {db'} (complete env task worker output uri logs r h) t =
    let e = (complete_task-effect env task worker output uri logs db).at (r, db') h in
    become LeaseIsValid _ _ e.tasks (
      Table-update_all LeaseIsValid _ _ _ (λ x. (refl, refl))
        (λ x v hit. Rows.ready_row-Lease env x v (ground arith))
        (Table-update_all LeaseIsValid _ _ db.tasks (λ x. (refl, refl))
          (λ x _ _.
            Rows.succeed_row-Lease env worker (if str_eq output "" then "{}" else output) uri x)
          t))
WorkStep-Lease {db} {db'} (fail env task worker f r h) t =
    let e = (fail_task-effect env task worker f db).at (r, db') h in
    become LeaseIsValid _ _ e.tasks (
      Table-cancel_if LeaseIsValid env _ _ _ (Rows.cancel_row-Lease env) (
        Table-update_all LeaseIsValid _ _ db.tasks (λ x. (refl, refl))
          (λ x _ _.
            Rows.fail_row-Lease env e.run.status f.retryable e.held.attempt_count
              e.held.maximum_attempts
              (available_after env
                (failure_status e.run.status f.retryable e.held.attempt_count
                  e.held.maximum_attempts)
                e.held.attempt_count)
              x)
          t))
WorkStep-Lease {db} {db'} (cancel env tenant user run u h) t =
    let e = (cancel_run-effect env tenant user run db).at (u, db') h in
    become LeaseIsValid _ _ e.tasks
      (Table-cancel_if LeaseIsValid env run true db.tasks (Rows.cancel_row-Lease env) t)
WorkStep-Lease {db} {db'} (release env h) t =
    become LeaseIsValid _ _
      (ap (λ (d : Db). d.tasks) (sym h) ∙ (release_retries-effect env db).tasks)
      (Table-update_all LeaseIsValid _ _ db.tasks (λ x. (refl, refl)) (Rows.release_row-Lease env)
        t)
WorkStep-Lease {db} {db'} (recover env e current h) t =
    become LeaseIsValid _ _ (ap (λ (d : Db). d.tasks) (sym h) ∙ (recover_one-effect env e db).tasks)
      (Table-update_all LeaseIsValid _ _ db.tasks (λ x. (refl, refl))
        (λ x _ _.
          Rows.fail_row-Lease env e.run_status true e.attempt e.max
            (available_after env (expired_status e) e.attempt) x)
        t)
WorkStep-Lease {db} {db'} (dispatch env d h) t =
    become LeaseIsValid _ _
      (ap (λ (d : Db). d.tasks) (sym h) ∙ (dispatch_one-effect env d db).tasks)
      (Table-update_all LeaseIsValid _ _ db.tasks (λ x. (refl, refl))
        (Rows.dispatch_row-Lease env d.id) t)

pub RepairStep-Lease :
    {db db' : Db} → RepairStep db db' → Table LeaseIsValid db.tasks → Table LeaseIsValid db'.tasks
RepairStep-Lease {db} {db'} (retry env tenant user run u h) t =
    let e = (retry_run-effect env tenant user run db).at (u, db') h in
    become LeaseIsValid _ _ e.tasks (
      Table-update_all LeaseIsValid _ _ db.tasks (λ x. (refl, refl))
        (λ x _ _. Rows.retry_row-Lease env x) t)
RepairStep-Lease {db} {db'} (replay env tenant user task u h) (unique, leases) =
    let e = (replay_dead-effect env tenant user task db).at (u, db') h in
    let picked : (e.held.id ≡ task) × (is e.held.status dead ≡ true) =
      let (hit, _) =
        find?-All (λ _. Unit {0}) _ db.tasks e.held e.fenced.row (All-trivial db.tasks) in
      ground arith in
    become LeaseIsValid _ _ e.tasks (
      Table-update_all LeaseIsValid _ _ _ (λ x. (refl, refl))
        (λ x v hit.
          Rows.rebuild_row-Lease env db.deps (replayed_tasks env tenant user task db) x v
            (ground arith))
        (Table-update LeaseIsValid (OnlyRow e.held) _ _ db.tasks
          (find?-OnlyRow _ db.tasks e.held e.fenced.row unique) (λ x. (refl, refl))
          (λ x v only hit. Rows.replay_row-Lease env x v (
            subst (λ (y : TaskRun). is y.status dead ≡ true)
              (sym (only ((==_iff x.id task).0 hit ∙ sym picked.0))) picked.1))
          (unique, leases)))

-- Every committed transaction keeps task ids unique, and keeps a lease expiry on exactly the tasks that
-- are LEASED or RUNNING, each of which has an owner: operators' retries and replays included.
pub Step-Lease :
    {db db' : Db} → Step db db' → Table LeaseIsValid db.tasks → Table LeaseIsValid db'.tasks
Step-Lease (work s) t = WorkStep-Lease s t
Step-Lease (repair s) t = RepairStep-Lease s t
