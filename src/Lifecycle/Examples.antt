-- ===== src/Lifecycle/Examples.antt =====
-- A small database at work: runs at concrete inputs.
use run_mesh.Base.{
  str_eq, eq_iff, String, true, false, ◌≡◌, ◌≢◌, refl, none, [], ok, err, lease_lost, conflict,
  ◌>>=◌, or_fail, refuse_if, ◌==◌, ◌&&◌, arith, some, ◌<◌,
}
use run_mesh.Base.Tables.{All, find?, exists, update_where}
use run_mesh.Workflow.State.{TaskStatus, RunStatus, dead, run_is, is, ready}
use run_mesh.Store.Db.{Db, TaskRun, insert_event, insert_audit}
use run_mesh.Store.Leases.{run_of, task_with_run, lease_task}
use run_mesh.Store.Outcomes.{
  complete_task, fail_task, Failure, failure_status, all_succeeded, unresolved,
}
use run_mesh.Store.Runs.{cancel_run, retry_run, can_cancel}
use run_mesh.Store.DeadLetter.{is_cancelled_in}
use run_mesh.Lifecycle.Rows.{Rows, UniqueIds}
use run_mesh.Lifecycle.Transitions.{Advances}
use run_mesh.Lifecycle.Step.{Reach, work, here, next, lease, complete}
use run_mesh.Lifecycle.Advance.{WorkStep-Advances}
use run_mesh.Lifecycle.Fencing.{
  IsShut, lease_task-IsShut, lease_task-once, complete_task-IsShut, fail_task-IsShut,
}
use run_mesh.Lifecycle.Ending.{IsIdle, cancel_run-ends, fail_task-dead}
use run_mesh.Lifecycle.Stuck.{retry_run-never_succeeds, still}
use run_mesh.Lifecycle.Invariant.{BudgetIsValid, IsOrdered, IsDone}
use run_mesh.Lifecycle.Invariant.Ordering.{Reach-IsOrdered}
use run_mesh.Lifecycle.Invariant.Completion.{Reach-IsDone}
use run_mesh.Lifecycle.Invariant.Tables.{Table}
use run_mesh.Lifecycle.Invariant.Budgets.{WorkStep-Budget, retry_run-revives}
use run_mesh.Lifecycle.Samples.{
  completed_example, db_after, db_of, dispatched, env, held, leased_example, leased_pair, task,
  task_after, unique_example,
}

abbrev rival : String
rival = "w2"

abbrev owner : String
owner = "w1"

other_worker : rival ≢ owner
other_worker e =
    let same : str_eq rival owner ≡ true = (eq_iff rival owner).1 e in absurd (ground arith)

lease_task-IsShut_example : IsShut 10 "w2" (db_after (lease_task env 10 "w1" 30 dispatched))
lease_task-IsShut_example =
    lease_task-IsShut env 10 "w1" 30 leased_pair dispatched
      (db_after (lease_task env 10 "w1" 30 dispatched)) unique_example leased_example "w2"
      other_worker

lease_task-once_example :
    lease_task env 10 "w1" 60 (db_after (lease_task env 10 "w1" 30 dispatched)) ≡ err lease_lost
lease_task-once_example =
    lease_task-once env 10 "w1" 30 leased_pair dispatched
      (db_after (lease_task env 10 "w1" 30 dispatched)) unique_example leased_example env "w1" 60

complete_task-IsShut_example : IsShut 10 "w1" (db_after (complete_task env 10 "w1" "" "" [] held))
complete_task-IsShut_example =
    complete_task-IsShut env 10 "w1" "" "" [] (task_after (complete_task env 10 "w1" "" "" [] held))
      held (db_after (complete_task env 10 "w1" "" "" [] held)) unique_example completed_example
      "w1"

abbrev crash : Failure
crash = record { retryable = true; error_type = "Crash"; error_message = "boom"; trace_id = "" }

failed_example :
    fail_task env 10 "w1" crash held
    ≡ ok
        (task_after (fail_task env 10 "w1" crash held), db_after (fail_task env 10 "w1" crash held))
unfolding fail_task failure_status task_with_run or_fail ◌>>=◌ find? run_of update_where
    insert_event
failed_example = refl

fail_task-IsShut_example : IsShut 10 "w1" (db_after (fail_task env 10 "w1" crash held))
fail_task-IsShut_example =
    fail_task-IsShut env 10 "w1" crash (task_after (fail_task env 10 "w1" crash held)) held
      (db_after (fail_task env 10 "w1" crash held)) unique_example failed_example "w1"

dead_example : (task_after (fail_task env 10 "w1" crash held)).status ≡ dead
unfolding fail_task failure_status task_with_run or_fail ◌>>=◌ find? run_of
dead_example = refl

fail_task-dead_example :
    All
      (IsIdle (task_after (fail_task env 10 "w1" crash held)).workflow_run_id)
      (db_after (fail_task env 10 "w1" crash held)).tasks
    × ((exists
          (λ x.
            x.id == (task_after (fail_task env 10 "w1" crash held)).workflow_run_id
            && run_is x.status RunStatus.running)
          (db_after (fail_task env 10 "w1" crash held)).runs)
        ≡ false)
fail_task-dead_example =
    fail_task-dead env 10 "w1" crash (task_after (fail_task env 10 "w1" crash held)) held
      (db_after (fail_task env 10 "w1" crash held)) failed_example dead_example

abbrev leased_by : Db → Db
leased_by db = db_after (lease_task env 10 "w1" 30 db)

WorkStep-Advances_example : Rows Advances dispatched.tasks (leased_by dispatched).tasks
WorkStep-Advances_example =
    WorkStep-Advances {db = dispatched} {db' = leased_by dispatched} unique_example
      (lease env 10 "w1" 30 leased_pair leased_example)

WorkStep-Budget_example : Table BudgetIsValid (leased_by dispatched).tasks
WorkStep-Budget_example =
    WorkStep-Budget {db = dispatched} {db' = leased_by dispatched}
      (lease env 10 "w1" 30 leased_pair leased_example)
      (unique_example, (((omega arith, λ _. omega arith), ((omega arith, λ _. omega arith), tt))))

cancelled_example :
    cancel_run env 7 none 1 dispatched ≡ ok (tt, db_after (cancel_run env 7 none 1 dispatched))
unfolding cancel_run ◌>>=◌ refuse_if exists update_where insert_audit
cancelled_example = refl

cancel_run-ends_example :
    All (IsIdle 1) (db_after (cancel_run env 7 none 1 dispatched)).tasks
    × (exists (can_cancel 7 1) (db_after (cancel_run env 7 none 1 dispatched)).runs ≡ false)
    × (cancel_run env 7 none 1 (db_after (cancel_run env 7 none 1 dispatched)) ≡ err conflict)
cancel_run-ends_example =
    cancel_run-ends env env 7 none none 1 dispatched (db_after (cancel_run env 7 none 1 dispatched))
      cancelled_example

-- What the failure of task 10 leaves: a dead task and its cancelled child.
abbrev failed : Db
failed =
    db_of RunStatus.failed (record (task 10 dead) { attempt_count = 3 })
      (task 11 TaskStatus.cancelled)

retried_example : retry_run env 7 none 1 failed ≡ ok (tt, db_after (retry_run env 7 none 1 failed))
unfolding retry_run ◌>>=◌ refuse_if exists update_where insert_audit
retried_example = refl

abbrev dead_task : TaskRun
dead_task = record (task 10 dead) { attempt_count = 3 }

dead_found : find? (λ t. t.id == 10) failed.tasks ≡ some dead_task
unfolding find?
dead_found = refl

retry_run-revives_example :
    Table BudgetIsValid (db_after (retry_run env 7 none 1 failed)).tasks
    × ((y : TaskRun) × (find? (λ t. t.id == 10) (db_after (retry_run env 7 none 1 failed)).tasks
          ≡ some y)
        × (is y.status ready ≡ true)
        × (y.attempt_count < y.maximum_attempts))
retry_run-revives_example =
    retry_run-revives env 7 none 1 failed (db_after (retry_run env 7 none 1 failed)) 10 dead_task
      retried_example
      (unique_example, ((omega arith, λ h. absurd (cc)), ((omega arith, λ h. absurd (cc)), tt)))
      dead_found refl refl

retried_unique : UniqueIds (db_after (retry_run env 7 none 1 failed)).tasks
unfolding retry_run ◌>>=◌ refuse_if exists update_where insert_audit
retried_unique = unique_example

some_cancelled : exists (is_cancelled_in 1) failed.tasks ≡ true
unfolding exists
some_cancelled = refl

retry_run-never_succeeds_example :
    all_succeeded 1 (db_after (retry_run env 7 none 1 failed)).tasks ≡ false
retry_run-never_succeeds_example =
    retry_run-never_succeeds env 7 none 1 failed (db_after (retry_run env 7 none 1 failed))
      (db_after (retry_run env 7 none 1 failed)) retried_example some_cancelled retried_unique still

abbrev completing : Db
completing = db_after (complete_task env 10 "w1" "" "" [] held)

-- Task 10 succeeds, and task 11, which depends on it, becomes READY.
completion : Reach held completing
completion = next {db₁ = held} {db₂ = completing} here (
    work (
      complete env 10 "w1" "" "" [] (task_after (complete_task env 10 "w1" "" "" [] held))
        completed_example))

held-IsOrdered : IsOrdered held.deps held.tasks
unfolding unresolved exists
held-IsOrdered = (unique_example, ((λ h. refl), ((λ h. absurd (cc)), tt)))

Reach-IsOrdered_example : IsOrdered completing.deps completing.tasks
Reach-IsOrdered_example = Reach-IsOrdered {db = held} {db' = completing} completion held-IsOrdered

Reach-IsDone_example : IsDone completing.tasks completing.runs
Reach-IsDone_example =
    Reach-IsDone {db = held} {db' = completing} completion held-IsOrdered ((λ h. absurd (cc)), tt)
