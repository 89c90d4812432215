-- ===== src/Lifecycle/Invariant/Rows.antt =====
-- Each update of a row keeps its lease and its attempts as they should be.
use run_mesh.Base.{ℕ, max, String, Bool, true, ◌≡◌, refl, List, arith}
use run_mesh.Workflow.State.{TaskStatus, RunStatus, is, is_waiting, blocked, leased, dead}
use run_mesh.Store.Db.{Env, TaskRun, Dependency}
use run_mesh.Store.Leases.{
  can_lease, lease_row, holds_lease, holds_active_lease, start_row, renew_row,
}
use run_mesh.Store.Outcomes.{succeed_row, ready_row, cancel_row, fail_row, failure_status}
use run_mesh.Store.Runs.{retry_row}
use run_mesh.Store.DeadLetter.{replay_row, rebuild_row, rebuilt_status}
use run_mesh.Scheduler.Tick.{is_released, release_row, is_ready_task, dispatch_row}
use run_mesh.Lifecycle.Invariant.{LeaseIsValid, BudgetIsValid}

module _ (env : Env) (worker : String) where
  pub lease_row-Lease : (lease : ℕ) (t : TaskRun) → LeaseIsValid (lease_row env worker lease t)
  lease_row-Lease lease t = (refl, λ _. refl)

  pub lease_row-Budget :
      (task lease : ℕ) (t : TaskRun)
      → BudgetIsValid t
      → can_lease task t ≡ true
      → BudgetIsValid (lease_row env worker lease t)
  lease_row-Budget task lease t b h = ground arith

  pub start_row-Lease :
      (task : ℕ) (t : TaskRun)
      → LeaseIsValid t
      → holds_lease env leased task worker t ≡ true
      → LeaseIsValid (start_row env t)
  start_row-Lease task t v h = ground arith

  pub renew_row-Lease :
      (task lease : ℕ) (t : TaskRun)
      → LeaseIsValid t
      → holds_active_lease env task worker t ≡ true
      → LeaseIsValid (renew_row env lease t)
  renew_row-Lease task lease t v h = ground arith

  pub succeed_row-Lease :
      (output uri : String) (t : TaskRun) → LeaseIsValid (succeed_row env output uri t)
  succeed_row-Lease output uri t = (refl, λ h. absurd (cc))

  pub succeed_row-Budget :
      (output uri : String) (t : TaskRun)
      → BudgetIsValid t
      → BudgetIsValid (succeed_row env output uri t)
  succeed_row-Budget output uri t b = (b.0, λ h. absurd (cc))

module _ (env : Env) where
  pub ready_row-Lease :
      (t : TaskRun) → LeaseIsValid t → is t.status blocked ≡ true → LeaseIsValid (ready_row env t)
  ready_row-Lease t v h = ground arith

  pub ready_row-Budget :
      (t : TaskRun) → BudgetIsValid t → is t.status blocked ≡ true → BudgetIsValid (ready_row env t)
  ready_row-Budget t b h = ground arith

  pub cancel_row-Lease :
      (t : TaskRun) → LeaseIsValid t → is_waiting t.status ≡ true → LeaseIsValid (cancel_row env t)
  cancel_row-Lease t v h = ground arith

  pub cancel_row-Budget : (t : TaskRun) → BudgetIsValid t → BudgetIsValid (cancel_row env t)
  cancel_row-Budget t b = (b.0, λ h. absurd (cc))

  pub release_row-Lease :
      (t : TaskRun) → LeaseIsValid t → is_released env t ≡ true → LeaseIsValid (release_row env t)
  release_row-Lease t v h = ground arith

  pub release_row-Budget :
      (t : TaskRun) → BudgetIsValid t → is_released env t ≡ true → BudgetIsValid (release_row env t)
  release_row-Budget t b h = ground arith

  pub dispatch_row-Lease :
      (id : ℕ) (t : TaskRun)
      → LeaseIsValid t
      → is_ready_task id t ≡ true
      → LeaseIsValid (dispatch_row env t)
  dispatch_row-Lease id t v h = ground arith

  pub dispatch_row-Budget :
      (id : ℕ) (t : TaskRun)
      → BudgetIsValid t
      → is_ready_task id t ≡ true
      → BudgetIsValid (dispatch_row env t)
  dispatch_row-Budget id t b h = ground arith

  pub fail_row-Lease :
      (run : RunStatus) (retryable : Bool) (attempt max available : ℕ) (t : TaskRun)
      → LeaseIsValid (fail_row env (failure_status run retryable attempt max) available t)
  unfolding failure_status
  fail_row-Lease run retryable attempt max available t = ground arith

  pub fail_row-Budget :
      (run : RunStatus) (retryable : Bool) (attempt max available : ℕ) (t : TaskRun)
      → BudgetIsValid t
      → t.attempt_count ≡ attempt
      → t.maximum_attempts ≡ max
      → BudgetIsValid (fail_row env (failure_status run retryable attempt max) available t)
  unfolding failure_status
  fail_row-Budget run retryable attempt max available t b same same_max = ground arith

  pub retry_row-Lease : (t : TaskRun) → LeaseIsValid (retry_row env t)
  retry_row-Lease t = (refl, λ h. absurd (cc))

  pub retry_row-Budget : (t : TaskRun) → BudgetIsValid (retry_row env t)
  retry_row-Budget t = ground arith

  pub replay_row-Lease :
      (t : TaskRun) → LeaseIsValid t → is t.status dead ≡ true → LeaseIsValid (replay_row env t)
  replay_row-Lease t v h = ground arith

  pub rebuild_row-Lease :
      (deps : List Dependency) (tasks : List TaskRun) (t : TaskRun)
      → LeaseIsValid t
      → is t.status TaskStatus.cancelled ≡ true
      → LeaseIsValid (rebuild_row env deps tasks t)
  unfolding rebuilt_status
  rebuild_row-Lease deps tasks t v h = ground arith
