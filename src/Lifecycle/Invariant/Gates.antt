-- ===== src/Lifecycle/Invariant/Gates.antt =====
-- Updates after which a task is still let go only when what it depends on has succeeded.
use run_mesh.Base.{
  ℕ, Bool, true, false, not, ◌&&◌, ◌≡◌, ◌∙◌, refl, List, [], ◌∷◌, Bool-cases, inl, inr, ◌==◌,
  ||_false, arith,
}
use run_mesh.Base.Tables.{All, exists, update_where}
use run_mesh.Workflow.State.{TaskStatus, is}
use run_mesh.Store.Db.{TaskRun, Dependency}
use run_mesh.Store.Outcomes.{unresolved, all_succeeded}
use run_mesh.Lifecycle.Invariant.{is_let_go, Gate, IsOrdered, Stays}
use run_mesh.Lifecycle.Invariant.Updates.{
  SameTask, unresolved-update, all_succeeded-update, UniqueIds-update,
}

-- A row that changes into another keeps its place in the order.
abbrev pub Kept : (ℕ → Bool) → TaskRun → TaskRun → Type 0
Kept waits x y = SameTask x y × (Gate waits x → Gate waits y)

module _ (deps : List Dependency) (Q : TaskRun → Type 0) (p : TaskRun → Bool)
    (f : TaskRun → TaskRun) where
  rows_SameTask :
      (waits : ℕ → Bool) (xs : List TaskRun)
      → All Q xs
      → ((x : TaskRun) → Q x → p x ≡ true → Kept waits x (f x))
      → All (λ x. p x ≡ true → SameTask x (f x)) xs
  rows_SameTask waits [] q keep = tt
  rows_SameTask waits (x ∷ xs) q keep = (λ hit. (keep x q.0 hit).0, rows_SameTask waits xs q.1 keep)

  rows_ids :
      (waits : ℕ → Bool) (xs : List TaskRun)
      → All Q xs
      → ((x : TaskRun) → Q x → p x ≡ true → Kept waits x (f x))
      → All (λ x. p x ≡ true → ((f x).id ≡ x.id) × ((f x).workflow_run_id ≡ x.workflow_run_id)) xs
  rows_ids waits [] q keep = tt
  rows_ids waits (x ∷ xs) q keep =
      (λ hit. let s = (keep x q.0 hit).0 in (s.0, s.1), rows_ids waits xs q.1 keep)

  rows_Gate :
      (waits waits' : ℕ → Bool) (xs : List TaskRun)
      → All Q xs
      → ((id : ℕ) → waits' id ≡ waits id)
      → ((x : TaskRun) → Q x → p x ≡ true → Kept waits x (f x))
      → All (Gate waits) xs
      → All (Gate waits') (update_where p f xs)
  unfolding update_where
  rows_Gate waits waits' [] q same keep a = tt
  rows_Gate waits waits' (x ∷ xs) q same keep a = (
    (elim (Bool-cases (p x)) [
      | inl hit ↦ let g = (keep x q.0 hit).1 a.0 in rw hit (λ h. same (f x).id ∙ g h)
      | inr miss ↦ let g = a.0 in rw miss (λ h. same x.id ∙ g h)
    ]),
    rows_Gate waits waits' xs q.1 same keep a.1,
  )

  pub update_where-Stays :
      (xs : List TaskRun)
      → All Q xs
      → ((x : TaskRun) → Q x → p x ≡ true → Kept (unresolved deps xs) x (f x))
      → IsOrdered deps xs
      → Stays deps xs (update_where p f xs)
  update_where-Stays xs q keep (unique, gates) =
      let waits = unresolved deps xs in
      (
        (
          UniqueIds-update p f xs (rows_ids waits xs q keep) unique,
          rows_Gate waits (unresolved deps (update_where p f xs)) xs q
              (λ id. unresolved-update p f deps xs id (rows_SameTask waits xs q keep)) keep gates,
        ),
        λ run h. all_succeeded-update p f run xs (rows_SameTask waits xs q keep) ∙ h,
      )

-- What an UPDATE makes succeed is one dependency less to wait for.
module _ (p : TaskRun → Bool) (f : TaskRun → TaskRun) where
  abbrev Succeeds : Type 0
  Succeeds =
      (x : TaskRun)
      → ((f x).id ≡ x.id)
        × ((f x).workflow_run_id ≡ x.workflow_run_id)
        × (is (f x).status TaskStatus.succeeded ≡ true)

  waits_less :
      Succeeds
      → (up : ℕ) (xs : List TaskRun)
      → exists (λ u. u.id == up && not (is u.status TaskStatus.succeeded)) xs ≡ false
      → exists (λ u. u.id == up && not (is u.status TaskStatus.succeeded)) (update_where p f xs)
        ≡ false
  unfolding exists update_where
  waits_less done up [] h = refl
  waits_less done up (x ∷ xs) h =
      let (here, rest) =
        ||_false (x.id == up && not (is x.status TaskStatus.succeeded))
          (exists (λ u. u.id == up && not (is u.status TaskStatus.succeeded)) xs) h in
      let later = waits_less done up xs rest in
      let ends = (done x).2 in
      elim (Bool-cases (p x)) [
        | inl hit ↦ rw (hit, ends, later) (ground arith)
        | inr miss ↦ rw (miss, here, later) refl
      ]

  unresolved_less :
      Succeeds
      → (deps : List Dependency) (xs : List TaskRun) (id : ℕ) → unresolved deps xs id ≡ false
      → unresolved deps (update_where p f xs) id ≡ false
  unfolding unresolved exists
  unresolved_less done [] xs id h = refl
  unresolved_less done (d ∷ deps) xs id h =
      let waiting : List TaskRun → Bool =
        exists (λ u. u.id == d.depends_on_task_run_id && not (is u.status TaskStatus.succeeded)) in
      let (here, rest) = ||_false (d.task_run_id == id && waiting xs) (unresolved deps xs id) h in
      let later = unresolved_less done deps xs id rest in
      elim (Bool-cases (waiting xs)) [
        | inl some_wait ↦
            let elsewhere : (d.task_run_id == id) ≡ false = ground arith in
            rw (elsewhere, later) refl
        | inr none_waits ↦
            let less = waits_less done d.depends_on_task_run_id xs none_waits in
            rw (less, later) (ground arith)
      ]

  ids_kept :
      Succeeds
      → (xs : List TaskRun)
      → All (λ x. p x ≡ true → ((f x).id ≡ x.id) × ((f x).workflow_run_id ≡ x.workflow_run_id)) xs
  ids_kept done [] = tt
  ids_kept done (x ∷ xs) = (λ hit. ((done x).0, (done x).1), ids_kept done xs)

  gates_kept :
      Succeeds
      → ((x : TaskRun) → p x ≡ true → is_let_go x.status ≡ true)
      → (waits waits' : ℕ → Bool) (xs : List TaskRun)
      → ((id : ℕ) → waits id ≡ false → waits' id ≡ false)
      → All (Gate waits) xs
      → All (Gate waits') (update_where p f xs)
  unfolding update_where
  gates_kept done active waits waits' [] less a = tt
  gates_kept done active waits waits' (x ∷ xs) less a = (
    (elim (Bool-cases (p x)) [
      | inl hit ↦ let free = less x.id (a.0 (active x hit)) in rw hit (λ h. rw (done x).0 free)
      | inr miss ↦ let g = a.0 in rw miss (λ h. less x.id (g h))
    ]),
    gates_kept done active waits waits' xs less a.1,
  )

  done_more :
      Succeeds
      → (run : ℕ) (xs : List TaskRun) → all_succeeded run xs ≡ true
      → all_succeeded run (update_where p f xs) ≡ true
  unfolding all_succeeded exists update_where
  done_more done run [] h = refl
  done_more done run (x ∷ xs) h =
      let rest : all_succeeded run xs ≡ true = ground arith in
      let later = done_more done run xs rest in
      let ends = (done x).2 in
      elim (Bool-cases (p x)) [
        | inl hit ↦ rw (hit, ends) (ground arith)
        | inr miss ↦ rw miss (ground arith)
      ]

  pub succeed-Stays :
      (deps : List Dependency) (xs : List TaskRun)
      → Succeeds
      → ((x : TaskRun) → p x ≡ true → is_let_go x.status ≡ true)
      → IsOrdered deps xs
      → Stays deps xs (update_where p f xs)
  succeed-Stays deps xs done active (unique, gates) = (
    (
      UniqueIds-update p f xs (ids_kept done xs) unique,
      gates_kept done active (unresolved deps xs) (unresolved deps (update_where p f xs)) xs
          (unresolved_less done deps xs) gates,
    ),
    λ run h. done_more done run xs h,
  )
