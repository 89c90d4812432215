-- ===== src/Lifecycle/Invariant/Updates.antt =====
-- What an UPDATE that keeps the identity and the success of each row leaves true.
use run_mesh.Base.{
  ℕ, Bool, true, false, not, ◌&&◌, ◌≡◌, ◌≢◌, refl, ap, List, [], ◌∷◌, inl, inr, ◌⊎◌, Bool-cases,
  ◌==◌, if◌then◌else◌,
}
use run_mesh.Base.Tables.{All, exists, update_where}
use run_mesh.Workflow.State.{TaskStatus, is}
use run_mesh.Store.Db.{TaskRun, Dependency}
use run_mesh.Store.Outcomes.{unresolved, all_succeeded}
use run_mesh.Lifecycle.Rows.{UniqueIds, All-imp}

-- The same task, succeeded or not as before.
abbrev pub SameTask : TaskRun → TaskRun → Type 0
SameTask x y =
    (y.id ≡ x.id)
    × (y.workflow_run_id ≡ x.workflow_run_id)
    × (is y.status TaskStatus.succeeded ≡ is x.status TaskStatus.succeeded)

pub All-update {ℓ} :
    {A : Type ℓ} (P : A → Type 0) (p : A → Bool) (f : A → A) (xs : List A)
    → ((x : A) → P x → p x ≡ true → P (f x))
    → All P xs
    → All P (update_where p f xs)
unfolding update_where
All-update P p f [] h a = tt
All-update P p f (x ∷ xs) h a = (step (Bool-cases (p x)), All-update P p f xs h a.1)
  where
    step : (p x ≡ true) ⊎ (p x ≡ false) → P (if p x then f x else x)
    step (inl hit) = rw hit (h x a.0 hit)
    step (inr miss) = rw miss a.0

pub exists-cong {ℓ} :
    {A : Type ℓ} (p q : A → Bool) (xs : List A) → ((x : A) → p x ≡ q x) → exists p xs ≡ exists q xs
unfolding exists
exists-cong p q [] h = refl
exists-cong p q (x ∷ xs) h = rw (h x, exists-cong p q xs h)

module _ (p : TaskRun → Bool) (f : TaskRun → TaskRun) where
  pub exists-update :
      (q : TaskRun → Bool) (xs : List TaskRun)
      → All (λ x. p x ≡ true → q (f x) ≡ q x) xs
      → exists q (update_where p f xs) ≡ exists q xs
  unfolding exists update_where
  exists-update q [] h = refl
  exists-update q (x ∷ xs) h = elim (Bool-cases (p x)) [
    | inl hit ↦ rw (hit, h.0 hit, exists-update q xs h.1)
    | inr miss ↦ rw (miss, exists-update q xs h.1)
  ]

  abbrev Keeps : List TaskRun → Type 0
  Keeps xs = All (λ x. p x ≡ true → SameTask x (f x)) xs

  pub unresolved-update :
      (deps : List Dependency) (xs : List TaskRun) (id : ℕ)
      → Keeps xs
      → unresolved deps (update_where p f xs) id ≡ unresolved deps xs id
  unfolding unresolved
  unresolved-update deps xs id k = exists-cong _ _ deps λ d.
      ap (λ b. d.task_run_id == id && b)
        (exists-update _ xs (
          All-imp (λ x. p x ≡ true → SameTask x (f x)) _ xs
            (λ x same hit. let s = same hit in rw (s.0, s.2)) k))

  pub all_succeeded-update :
      (run : ℕ) (xs : List TaskRun)
      → Keeps xs
      → all_succeeded run (update_where p f xs) ≡ all_succeeded run xs
  unfolding all_succeeded
  all_succeeded-update run xs k = ap not (
      exists-update _ xs (
        All-imp (λ x. p x ≡ true → SameTask x (f x)) _ xs
          (λ x same hit. let s = same hit in rw (s.1, s.2)) k))

  -- Only the ids and the runs have to stay for the keys.
  abbrev KeepsIds : List TaskRun → Type 0
  KeepsIds xs =
      All (λ x. p x ≡ true → (((f x).id ≡ x.id) × ((f x).workflow_run_id ≡ x.workflow_run_id))) xs

  ids-ne-update :
      (i : ℕ) (xs : List TaskRun)
      → KeepsIds xs
      → All (λ y. y.id ≢ i) xs
      → All (λ y. y.id ≢ i) (update_where p f xs)
  unfolding update_where
  ids-ne-update i [] k u = tt
  ids-ne-update i (x ∷ xs) k u = (
    (elim (Bool-cases (p x)) [ inl hit ↦ rw (hit, (k.0 hit).0) u.0 | inr miss ↦ rw miss u.0 ]),
    ids-ne-update i xs k.1 u.1,
  )

  pub UniqueIds-update :
      (xs : List TaskRun) → KeepsIds xs → UniqueIds xs → UniqueIds (update_where p f xs)
  unfolding update_where
  UniqueIds-update [] k u = tt
  UniqueIds-update (x ∷ xs) k u = (
    (elim (Bool-cases (p x)) [
      | inl hit ↦ rw (hit, (k.0 hit).0) (ids-ne-update x.id xs k.1 u.0)
      | inr miss ↦ rw miss (ids-ne-update x.id xs k.1 u.0)
    ]),
    UniqueIds-update xs k.1 u.1,
  )
