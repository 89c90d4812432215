-- ===== src/Lifecycle/Transitions.antt =====
-- The updates of internal/storage and internal/scheduler, row by row, against the map `transitions`.
use run_mesh.Base.{
  ℕ, String, Bool, true, ◌&&◌, ◌≡◌, ◌⊎◌, inl, inr, List, arith, ◌==◌, if◌then◌else◌, Bool-cases,
}
use run_mesh.Base.Tables.{All, update_where}
use run_mesh.Workflow.State.{
  TaskStatus, RunStatus, can_transition, is_active, is_waiting, leased, dead,
}
use run_mesh.Store.Db.{Env, TaskRun, Dependency}
use run_mesh.Store.Leases.{can_lease, lease_row, holds_lease, start_row}
use run_mesh.Store.Outcomes.{
  succeed_row, unblocks, ready_row, cancel_row, cancel_waiting, fail_row, failure_status,
}
use run_mesh.Lifecycle.Rows.{Rows, Rows-update, Rows-update₂, All-trivial}

-- The same task, whose status is the same or has moved along the map `transitions`.
abbrev pub Advances : TaskRun → TaskRun → Type 0
Advances t t' =
    (t'.id ≡ t.id)
    × (t'.workflow_run_id ≡ t.workflow_run_id)
    × ((t'.status ≡ t.status) ⊎ (can_transition t.status t'.status ≡ true))

-- An UPDATE advances the rows that its WHERE picks.
pub update-Advances :
    (p : TaskRun → Bool) (f : TaskRun → TaskRun) (xs : List TaskRun)
    → ((x : TaskRun) → p x ≡ true → Advances x (f x))
    → Rows Advances xs (update_where p f xs)
update-Advances p f xs h =
    Rows-update Advances (λ _. Unit {0}) p f xs (All-trivial xs) λ x _. ground (arith, h x)

module _ (env : Env) (worker : String) where
  pub lease_row-Advances :
      (task lease : ℕ) (t : TaskRun)
      → can_lease task t ≡ true
      → Advances t (lease_row env worker lease t)
  unfolding can_transition
  lease_row-Advances task lease t h = ground arith

  pub start_row-Advances :
      (task : ℕ) (t : TaskRun)
      → holds_lease env leased task worker t ≡ true
      → Advances t (start_row env t)
  unfolding can_transition
  start_row-Advances task t h = ground arith

pub cancel_row-Advances :
    (env : Env) (run : ℕ) (t : TaskRun)
    → (t.workflow_run_id == run && is_waiting t.status) ≡ true
    → Advances t (cancel_row env t)
unfolding can_transition
cancel_row-Advances env run t h = ground arith

-- A failed attempt ends an active task.
pub failure_status-transition :
    (s : TaskStatus) (run : RunStatus) (retryable : Bool) (attempt max : ℕ)
    → is_active s ≡ true
    → can_transition s (failure_status run retryable attempt max) ≡ true
unfolding can_transition failure_status
failure_status-transition s run retryable attempt max h = ground arith

-- Completion: the row that succeeds, and then the children that become ready.
pub complete-Advances :
    (env : Env) (task : ℕ) (worker output uri : String) (deps : List Dependency)
    (tasks₁ : List TaskRun) (run up : ℕ) (xs : List TaskRun)
    → Rows Advances xs (
        update_where (unblocks deps tasks₁ run up) (ready_row env) (
          update_where
            (holds_lease env TaskStatus.running task worker)
            (succeed_row env output uri)
            xs))
complete-Advances env task worker output uri deps tasks₁ run up xs =
    Rows-update₂ Advances (λ _. Unit {0}) (holds_lease env TaskStatus.running task worker)
      (unblocks deps tasks₁ run up) (succeed_row env output uri) (ready_row env) xs (All-trivial xs)
      λ x _. step x
  where
    step :
        (x : TaskRun)
        → let y =
            (if holds_lease env TaskStatus.running task worker x
              then succeed_row env output uri x
              else x) in
          Advances x (if unblocks deps tasks₁ run up y then ready_row env y else y)
    step x = elim (Bool-cases (holds_lease env TaskStatus.running task worker x)) [
      | inl hit ↦ rw hit (unfold can_transition in ground arith)
      | inr miss ↦ rw miss (unfold can_transition in ground arith)
    ]

-- Failure for good: the row whose lease is given up, and then what waits in its run.
pub dead-Advances :
    (env : Env) (p : TaskRun → Bool) (available run : ℕ) (xs : List TaskRun)
    → All (λ x. p x ≡ true → can_transition x.status dead ≡ true) xs
    → Rows Advances xs (cancel_waiting env run (update_where p (fail_row env dead available) xs))
dead-Advances env p available run xs h =
    Rows-update₂ Advances (λ x. p x ≡ true → can_transition x.status dead ≡ true) p
      (λ t. t.workflow_run_id == run && is_waiting t.status) (fail_row env dead available)
      (cancel_row env) xs h step
  where
    step :
        (x : TaskRun)
        → (p x ≡ true → can_transition x.status dead ≡ true)
        → let y = (if p x then fail_row env dead available x else x) in
          Advances x
            (if y.workflow_run_id == run && is_waiting y.status then cancel_row env y else y)
    step x moves = elim (Bool-cases (p x)) [
      | inl hit ↦ let moved = moves hit in rw hit (ground arith)
      | inr miss ↦ rw miss (unfold can_transition in ground arith)
    ]

-- Failure with another status.
pub fail-Advances :
    (env : Env) (p : TaskRun → Bool) (status : TaskStatus) (available : ℕ) (xs : List TaskRun)
    → All (λ x. p x ≡ true → can_transition x.status status ≡ true) xs
    → Rows Advances xs (update_where p (fail_row env status available) xs)
fail-Advances env p status available xs h =
    Rows-update Advances (λ x. p x ≡ true → can_transition x.status status ≡ true) p
      (fail_row env status available) xs h λ x moves. ground (arith, moves)
