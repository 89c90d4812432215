-- ===== src/Lifecycle/Ending.antt =====
-- The end of a run by `CancelRun`, or by a task that fails for good.
use run_mesh.Base.{
  ℕ, String, Bool, true, false, ◌&&◌, ◌≡◌, refl, sym, ap, subst, ◌∙◌, Option, some, List, [], ◌∷◌,
  ok, err, arith, ◌==◌, Bool-cases, inl, inr, if◌then◌else◌, ◌>>=◌, refuse_if, conflict,
}
use run_mesh.Base.Tables.{All, exists, update_where}
use run_mesh.Workflow.State.{RunStatus, is, is_waiting, dead, run_is}
use run_mesh.Store.Db.{Db, Env, Run, TaskRun}
use run_mesh.Store.Outcomes.{
  fail_task, Failure, cancel_waiting, cancel_row, failure_status, end_run,
}
use run_mesh.Store.Runs.{cancel_run, can_cancel, owned_run, is_open}
use run_mesh.Lifecycle.Rows.{All-trivial}
use run_mesh.Lifecycle.Effects.Outcomes.{fail_task-effect}
use run_mesh.Lifecycle.Effects.Runs.{cancel_run-effect}
use run_mesh.Lifecycle.Fencing.{All-where}

-- No task of the run waits to run.
abbrev pub IsIdle : ℕ → TaskRun → Type 0
IsIdle run t = (t.workflow_run_id == run && is_waiting t.status) ≡ false

idle : (env : Env) (run : ℕ) (xs : List TaskRun) → All (IsIdle run) (cancel_waiting env run xs)
idle env run xs =
    All-where (λ _. Unit {0}) (IsIdle run) (λ t. t.workflow_run_id == run && is_waiting t.status)
      (cancel_row env) xs step (All-trivial xs)
  where
    step :
        (x : TaskRun)
        → Unit {0}
        → IsIdle run
            (if x.workflow_run_id == run && is_waiting x.status then cancel_row env x else x)
    step x _ = elim (Bool-cases (x.workflow_run_id == run && is_waiting x.status)) [
      | inl hit ↦ rw hit (ground arith)
      | inr miss ↦ rw miss miss
    ]

-- What an UPDATE of runs does to a test of the rows.
exists-where :
    (p q q' : Run → Bool) (f : Run → Run) (rs : List Run)
    → ((r : Run) → q (if p r then f r else r) ≡ q' r)
    → exists q (update_where p f rs) ≡ exists q' rs
unfolding exists update_where
exists-where p q q' f [] h = refl
exists-where p q q' f (r ∷ rs) h = rw (h r, exists-where p q q' f rs h) refl

exists-never : (rs : List Run) → exists (λ _. false) rs ≡ false
unfolding exists
exists-never [] = refl
exists-never (r ∷ rs) = exists-never rs

exists-weaken :
    (p q : Run → Bool) (rs : List Run) → exists (λ r. p r && q r) rs ≡ true → exists p rs ≡ true
unfolding exists
exists-weaken p q [] h = absurd (cc)
exists-weaken p q (r ∷ rs) h = elim (Bool-cases (p r)) [
  | inl hit ↦ rw hit refl
  | inr miss ↦ rw miss (exists-weaken p q rs (ground arith))
]

module _ (env : Env) (tenant id : ℕ) (runs : List Run) where
  abbrev cancelled_runs : List Run
  cancelled_runs =
      update_where (can_cancel tenant id)
        (λ r. record r { status = RunStatus.cancelled; completed_at = some env.now }) runs

  none_open : exists (can_cancel tenant id) cancelled_runs ≡ false
  none_open =
      exists-where (can_cancel tenant id) (can_cancel tenant id) (λ _. false) _ runs
        (λ r. ground arith)
      ∙ exists-never runs

  same_owned : exists (owned_run tenant id) cancelled_runs ≡ exists (owned_run tenant id) runs
  same_owned =
      exists-where (can_cancel tenant id) (owned_run tenant id) (owned_run tenant id) _ runs
        (λ r. ground arith)

-- After a cancellation of a run none of its tasks is BLOCKED, READY, DISPATCHING or in RETRY_WAIT, the
-- run is not open any more, and a second cancellation ends in ErrConflict.
pub cancel_run-ends :
    (env env' : Env) (tenant : ℕ) (user user' : Option ℕ) (id : ℕ) (db db' : Db)
    → cancel_run env tenant user id db ≡ ok (tt, db')
    → All (IsIdle id) db'.tasks
      × (exists (can_cancel tenant id) db'.runs ≡ false)
      × (cancel_run env' tenant user' id db' ≡ err conflict)
cancel_run-ends env env' tenant user user' id db db' h =
    let e = (cancel_run-effect env tenant user id db).at (tt, db') h in
    let none_left : exists (can_cancel tenant id) db'.runs ≡ false =
      rw e.runs (none_open env tenant id db.runs) in
    let owned : exists (owned_run tenant id) db'.runs ≡ true =
      rw (e.runs, same_owned env tenant id db.runs)
        (exists-weaken (owned_run tenant id) (λ r. is_open r.status) db.runs e.found) in
    (
      subst (All (IsIdle id)) (sym e.tasks) (idle env id db.tasks),
      none_left,
      unfold cancel_run ◌>>=◌ refuse_if in rw (none_left, owned) refl,
    )

none_running :
    (env : Env) (id : ℕ) (runs : List Run)
    → exists
        (λ r. r.id == id && run_is r.status RunStatus.running)
        (end_run env id RunStatus.failed runs)
      ≡ false
none_running env id runs =
    exists-where _ (λ r. r.id == id && run_is r.status RunStatus.running) (λ _. false) _ runs
      (λ r. ground arith)
    ∙ exists-never runs

-- When a report of a failure leaves the task DEAD, no task of its run is BLOCKED, READY, DISPATCHING or
-- in RETRY_WAIT any more, and the run is not RUNNING any more.
pub fail_task-dead :
    (env : Env) (task : ℕ) (worker : String) (f : Failure) (r : TaskRun) (db db' : Db)
    → fail_task env task worker f db ≡ ok (r, db')
    → r.status ≡ dead
    → All (IsIdle r.workflow_run_id) db'.tasks
      × (exists (λ x. x.id == r.workflow_run_id && run_is x.status RunStatus.running) db'.runs
          ≡ false)
fail_task-dead env task worker f r db db' h is_dead =
    let e = (fail_task-effect env task worker f db).at (r, db') h in
    let same : r.workflow_run_id ≡ e.held.workflow_run_id =
      ap (λ (t : TaskRun). t.workflow_run_id) e.returned in
    let status =
      failure_status e.run.status f.retryable e.held.attempt_count e.held.maximum_attempts in
    let for_good : status ≡ dead = sym (ap (λ (t : TaskRun). t.status) e.returned) ∙ is_dead in
    let dies : is status dead ≡ true = rw for_good refl in
    (
      rw (same, e.tasks, dies) (idle env e.held.workflow_run_id _),
      rw (same, e.runs, dies) (none_running env e.held.workflow_run_id db.runs),
    )
