-- ===== src/Lifecycle/Invariant.antt =====
-- What holds of the rows of task_runs between two transactions.
pub mod Updates
pub mod Rows
pub mod Tables
pub mod Leases
pub mod Budgets
pub mod Gates
pub mod Kept
pub mod Ordering
pub mod Completion
use run_mesh.Base.{Bool, true, false, not, ◌||◌, ◌≡◌, ◌≤◌, ◌<◌, List, is_null, ℕ}
use run_mesh.Base.Tables.{All}
use run_mesh.Workflow.State.{TaskStatus, RunStatus, is, is_active, is_waiting, run_is, blocked}
use run_mesh.Store.Outcomes.{unresolved, all_succeeded}
use run_mesh.Lifecycle.Rows.{UniqueIds}
use run_mesh.Store.Db.{Db, Run, TaskRun, Dependency}

-- A lease stands on a task exactly while it is leased or running, and then it has an owner.
abbrev pub LeaseIsValid : TaskRun → Type 0
LeaseIsValid t =
    (is_null t.lease_expires_at ≡ not (is_active t.status))
    × (is_active t.status ≡ true → is_null t.lease_owner ≡ false)

-- A task has at most its maximum of attempts, and one left if it waits to run.
abbrev pub BudgetIsValid : TaskRun → Type 0
BudgetIsValid t =
    (t.attempt_count ≤ t.maximum_attempts)
    × (is_waiting t.status ≡ true → t.attempt_count < t.maximum_attempts)

-- Neither blocked nor cancelled.
abbrev pub is_let_go : TaskStatus → Bool
is_let_go s = not (is s blocked || is s TaskStatus.cancelled)

-- `waits id` tells whether the task has a dependency that has not succeeded.
abbrev pub Gate : (ℕ → Bool) → TaskRun → Type 0
Gate waits t = is_let_go t.status ≡ true → waits t.id ≡ false

-- Task ids are unique, and a task is let go only when all that it depends on have succeeded.
abbrev pub IsOrdered : List Dependency → List TaskRun → Type 0
IsOrdered deps tasks = UniqueIds tasks × All (Gate (unresolved deps tasks)) tasks

-- The same after an update of the tasks, and a run whose tasks have all succeeded is still such a run.
abbrev pub Stays : List Dependency → List TaskRun → List TaskRun → Type 0
Stays deps xs ys =
    IsOrdered deps ys × ((run : ℕ) → all_succeeded run xs ≡ true → all_succeeded run ys ≡ true)

-- A run has SUCCEEDED only if all its tasks have.
abbrev pub IsDone : List TaskRun → List Run → Type 0
IsDone tasks runs =
    All (λ r. run_is r.status RunStatus.succeeded ≡ true → all_succeeded r.id tasks ≡ true) runs

-- A task is let go only when what it depends on has succeeded, and a run succeeds only with all its tasks.
abbrev pub IsSound : Db → Type 0
IsSound db = IsOrdered db.deps db.tasks × IsDone db.tasks db.runs
