-- ===== src/Lifecycle/Stuck.antt =====
-- A cancelled task of a run that goes on.
use run_mesh.Base.{
  ℕ, Bool, true, false, not, ◌&&◌, ◌≡◌, ◌≢◌, refl, ap, Option, List, [], ◌∷◌, ok, arith, ◌==◌,
  Bool-cases, inl, inr, if◌then◌else◌,
}
use run_mesh.Base.Tables.{All, exists, update_where}
use run_mesh.Workflow.State.{TaskStatus, can_transition, is}
use run_mesh.Store.Db.{Db, Env, TaskRun}
use run_mesh.Store.Outcomes.{all_succeeded}
use run_mesh.Store.Runs.{retry_run, is_dead_in, retry_row}
use run_mesh.Store.DeadLetter.{is_cancelled_in}
use run_mesh.Lifecycle.Rows.{Rows, UniqueIds}
use run_mesh.Lifecycle.Effects.Runs.{retry_run-effect}
use run_mesh.Lifecycle.Transitions.{Advances}
use run_mesh.Lifecycle.Step.{WorkStep}
use run_mesh.Lifecycle.Advance.{WorkStep-Advances}

-- Workers, the scheduler and cancellations, one committed transaction after another.
pub data Works (db : Db) : Db → Type 0 where
  still : Works db db
  then_work : {db₁ db₂ : Db} → Works db db₁ → WorkStep db₁ db₂ → Works db db₂

stays_cancelled :
    (run : ℕ) (x y : TaskRun)
    → Advances x y
    → is_cancelled_in run x ≡ true
    → is_cancelled_in run y ≡ true
unfolding can_transition
stays_cancelled run x y (_, same_run, inl same) h = rw (same_run, same) h
stays_cancelled run x y (_, same_run, inr moved) h = ground arith

Rows-cancelled :
    (run : ℕ) (xs ys : List TaskRun)
    → Rows Advances xs ys
    → exists (is_cancelled_in run) xs ≡ true
    → exists (is_cancelled_in run) ys ≡ true
unfolding exists
Rows-cancelled run [] [] r h = h
Rows-cancelled run [] (y ∷ ys) r h = absurd r
Rows-cancelled run (x ∷ xs) [] r h = absurd r
Rows-cancelled run (x ∷ xs) (y ∷ ys) r h = elim (Bool-cases (is_cancelled_in run x)) [
  | inl hit ↦ rw (stays_cancelled run x y r.0 hit) refl
  | inr miss ↦
      let rest = Rows-cancelled run xs ys r.1 (ground arith) in
      elim (Bool-cases (is_cancelled_in run y)) [
        | inl hit ↦ rw hit refl
        | inr other ↦ rw other rest
      ]
]

exists-imp :
    (p q : TaskRun → Bool) (xs : List TaskRun)
    → ((x : TaskRun) → p x ≡ true → q x ≡ true)
    → exists p xs ≡ true
    → exists q xs ≡ true
unfolding exists
exists-imp p q [] f h = absurd (cc)
exists-imp p q (x ∷ xs) f h = elim (Bool-cases (p x)) [
  | inl hit ↦ rw (f x hit) refl
  | inr miss ↦
      let rest = exists-imp p q xs f (ground arith) in
      elim (Bool-cases (q x)) [ inl hit ↦ rw hit refl | inr other ↦ rw other rest ]
]

cancelled-blocks :
    (run : ℕ) (xs : List TaskRun)
    → exists (is_cancelled_in run) xs ≡ true
    → all_succeeded run xs ≡ false
unfolding all_succeeded
cancelled-blocks run xs h = ap not (
    exists-imp (is_cancelled_in run)
      (λ t. t.workflow_run_id == run && not (is t.status TaskStatus.succeeded)) xs
      (λ x cancelled. ground arith) h)

module _ (R : TaskRun → TaskRun → Type 0) (same : (x y : TaskRun) → R x y → y.id ≡ x.id) where
  ids-Rows :
      (i : ℕ) (xs ys : List TaskRun)
      → Rows R xs ys
      → All (λ x. x.id ≢ i) xs
      → All (λ y. y.id ≢ i) ys
  ids-Rows i [] [] r u = tt
  ids-Rows i [] (y ∷ ys) r u = absurd r
  ids-Rows i (x ∷ xs) [] r u = absurd r
  ids-Rows i (x ∷ xs) (y ∷ ys) r u = (rw (same x y r.0) u.0, ids-Rows i xs ys r.1 u.1)

  UniqueIds-Rows : (xs ys : List TaskRun) → Rows R xs ys → UniqueIds xs → UniqueIds ys
  UniqueIds-Rows [] [] r u = tt
  UniqueIds-Rows [] (y ∷ ys) r u = absurd r
  UniqueIds-Rows (x ∷ xs) [] r u = absurd r
  UniqueIds-Rows (x ∷ xs) (y ∷ ys) r u =
      (rw (same x y r.0) (ids-Rows x.id xs ys r.1 u.0), UniqueIds-Rows xs ys r.1 u.1)

Works-cancelled :
    (run : ℕ) {db db' : Db}
    → UniqueIds db.tasks
    → Works db db'
    → exists (is_cancelled_in run) db.tasks ≡ true
    → UniqueIds db'.tasks × (exists (is_cancelled_in run) db'.tasks ≡ true)
Works-cancelled run unique still h = (unique, h)
Works-cancelled run unique (then_work {db₁} {db₂} w s) h =
    let (unique₁, h₁) = Works-cancelled run unique w h in
    let rows = WorkStep-Advances unique₁ s in
    (
      UniqueIds-Rows Advances (λ x y a. a.0) db₁.tasks db₂.tasks rows unique₁,
      Rows-cancelled run db₁.tasks db₂.tasks rows h₁,
    )

retry-cancelled :
    (env : Env) (run : ℕ) (xs : List TaskRun)
    → exists (is_cancelled_in run) xs ≡ true
    → exists (is_cancelled_in run) (update_where (is_dead_in run) (retry_row env) xs) ≡ true
unfolding exists update_where
retry-cancelled env run [] h = h
retry-cancelled env run (x ∷ xs) h = elim (Bool-cases (is_cancelled_in run x)) [
  | inl hit ↦ let alive : is_dead_in run x ≡ false = ground arith in rw (alive, hit) refl
  | inr miss ↦
      let rest = retry-cancelled env run xs (ground arith) in
      elim (Bool-cases (is_cancelled_in run (if is_dead_in run x then retry_row env x else x))) [
        | inl hit ↦ rw hit refl
        | inr other ↦ rw other rest
      ]
]

-- After a retry of a run that has a CANCELLED task, whatever workers, the scheduler and
-- cancellations do, not all tasks of the run have succeeded, which is what CompleteTask asks for
-- before it ends a run as SUCCEEDED. Task ids are unique after the retry.
pub retry_run-never_succeeds :
    (env : Env) (tenant : ℕ) (user : Option ℕ) (run : ℕ) (db db₁ db₂ : Db)
    → retry_run env tenant user run db ≡ ok (tt, db₁)
    → exists (is_cancelled_in run) db.tasks ≡ true
    → UniqueIds db₁.tasks
    → Works db₁ db₂
    → all_succeeded run db₂.tasks ≡ false
retry_run-never_succeeds env tenant user run db db₁ db₂ h cancelled unique works =
    let e = (retry_run-effect env tenant user run db).at (tt, db₁) h in
    let kept : exists (is_cancelled_in run) db₁.tasks ≡ true =
      rw e.tasks (retry-cancelled env run db.tasks cancelled) in
    cancelled-blocks run db₂.tasks (Works-cancelled run unique works kept).1
