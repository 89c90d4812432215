-- ===== src/Lifecycle/Invariant/Kept.antt =====
-- Updates of single rows that keep a task waiting for what it depends on.
use run_mesh.Base.{ℕ, Bool, true, false, ◌≡◌, refl, List, arith}
use run_mesh.Workflow.State.{TaskStatus, is, dead, is_active, is_waiting, leased, blocked}
use run_mesh.Store.Db.{Env, TaskRun, Dependency}
use run_mesh.Store.Leases.{can_lease, lease_row, holds_lease, start_row, renew_row}
use run_mesh.Store.Outcomes.{unresolved, failure_status, ready_row, fail_row, cancel_row}
use run_mesh.Store.DeadLetter.{rebuild_row, rebuilt_status}
use run_mesh.Scheduler.Tick.{is_released, release_row, is_ready_task, dispatch_row}
use run_mesh.Lifecycle.Invariant.{is_let_go}
use run_mesh.Lifecycle.Invariant.Gates.{Kept}
use run_mesh.Lifecycle.Invariant.Updates.{SameTask}

module _ (waits : ℕ → Bool) (x y : TaskRun) where
  kept : SameTask x y → (is_let_go y.status ≡ true → is_let_go x.status ≡ true) → Kept waits x y
  kept same go = (same, λ g h. rw same.0 (g (go h)))

module _ (env : Env) (waits : ℕ → Bool) (x : TaskRun) where
  pub lease_row-Kept :
      (task : ℕ) (worker : _) (duration : ℕ)
      → can_lease task x ≡ true
      → Kept waits x (lease_row env worker duration x)
  lease_row-Kept task worker duration hit =
      kept waits x (lease_row env worker duration x) (refl, refl, ground arith) (λ h. ground arith)

  pub start_row-Kept :
      (task : ℕ) (worker : _)
      → holds_lease env leased task worker x ≡ true
      → Kept waits x (start_row env x)
  start_row-Kept task worker hit =
      kept waits x (start_row env x) (refl, refl, ground arith) (λ h. ground arith)

  pub renew_row-Kept : (duration : ℕ) → Kept waits x (renew_row env duration x)
  renew_row-Kept duration = kept waits x (renew_row env duration x) (refl, refl, refl) (λ h. h)

  pub ready_row-Kept :
      is x.status blocked ≡ true → waits x.id ≡ false → Kept waits x (ready_row env x)
  ready_row-Kept hit free = ((refl, refl, ground arith), λ g h. free)

  pub cancel_row-Kept : is_waiting x.status ≡ true → Kept waits x (cancel_row env x)
  cancel_row-Kept hit =
      kept waits x (cancel_row env x) (refl, refl, ground arith) (λ h. absurd (cc))

  pub release_row-Kept : is_released env x ≡ true → Kept waits x (release_row env x)
  release_row-Kept hit =
      kept waits x (release_row env x) (refl, refl, ground arith) (λ h. ground arith)

  pub dispatch_row-Kept : (id : ℕ) → is_ready_task id x ≡ true → Kept waits x (dispatch_row env x)
  dispatch_row-Kept id hit =
      kept waits x (dispatch_row env x) (refl, refl, ground arith) (λ h. ground arith)

  pub fail_row-Kept :
      (run : _) (retryable : Bool) (attempt max available : ℕ)
      → is_active x.status ≡ true
      → Kept waits x (fail_row env (failure_status run retryable attempt max) available x)
  unfolding failure_status
  fail_row-Kept run retryable attempt max available hit =
      kept waits x (fail_row env (failure_status run retryable attempt max) available x)
        (refl, refl, ground arith) (λ h. ground arith)

  pub from_dead :
      (y : TaskRun)
      → (y.id ≡ x.id) × (y.workflow_run_id ≡ x.workflow_run_id)
      → is y.status TaskStatus.succeeded ≡ false
      → is x.status dead ≡ true
      → Kept waits x y
  from_dead y same alive hit = kept waits x y (same.0, same.1, ground arith) (λ h. ground arith)

pub rebuild_row-Kept :
    (env : Env) (deps : List Dependency) (tasks : List TaskRun) (x : TaskRun)
    → is x.status TaskStatus.cancelled ≡ true
    → Kept (unresolved deps tasks) x (rebuild_row env deps tasks x)
unfolding rebuilt_status
rebuild_row-Kept env deps tasks x hit = ((refl, refl, ground arith), λ g h. ground arith)
