-- ===== src/Lifecycle/Invariant/Tables.antt =====
-- Tables of tasks of whose rows a property holds, and the updates that keep it.
use run_mesh.Base.{
  ℕ, Bool, true, false, ◌≡◌, refl, sym, subst, List, [], ◌∷◌, arith, Bool-cases, inl, inr,
  if◌then◌else◌,
}
use run_mesh.Base.Tables.{All, update_where}
use run_mesh.Workflow.State.{is_waiting}
use run_mesh.Store.Db.{Env, TaskRun}
use run_mesh.Store.Outcomes.{cancel_waiting, cancel_row}
use run_mesh.Lifecycle.Rows.{UniqueIds, All-trivial}
use run_mesh.Lifecycle.Invariant.Updates.{UniqueIds-update}

-- Unique ids, and `P` of every row.
abbrev pub Table : (TaskRun → Type 0) → List TaskRun → Type 0
Table P xs = UniqueIds xs × All P xs

-- The same key.
abbrev pub IsSameRow : TaskRun → TaskRun → Type 0
IsSameRow x y = (y.id ≡ x.id) × (y.workflow_run_id ≡ x.workflow_run_id)

module _ (P Q : TaskRun → Type 0) (p : TaskRun → Bool) (f : TaskRun → TaskRun) where
  All-update_where :
      (xs : List TaskRun)
      → All Q xs
      → ((x : TaskRun) → P x → Q x → p x ≡ true → P (f x))
      → All P xs
      → All P (update_where p f xs)
  unfolding update_where
  All-update_where [] q h a = tt
  All-update_where (x ∷ xs) q h a = (
    (elim (Bool-cases (p x)) [ inl hit ↦ rw hit (h x a.0 q.0 hit) | inr miss ↦ rw miss a.0 ]),
    All-update_where xs q.1 h a.1,
  )

  keys_stay :
      ((x : TaskRun) → IsSameRow x (f x))
      → (xs : List TaskRun) → All (λ x. p x ≡ true → IsSameRow x (f x)) xs
  keys_stay h [] = tt
  keys_stay h (x ∷ xs) = (λ _. h x, keys_stay h xs)

  -- An UPDATE that keeps the keys keeps a table as it should be.
  pub Table-update :
      (xs : List TaskRun)
      → All Q xs
      → ((x : TaskRun) → IsSameRow x (f x))
      → ((x : TaskRun) → P x → Q x → p x ≡ true → P (f x))
      → Table P xs
      → Table P (update_where p f xs)
  Table-update xs q same h (u, a) =
      (UniqueIds-update p f xs (keys_stay same xs) u, All-update_where xs q h a)

-- The same, where nothing more is known of the rows.
pub Table-update_all :
    (P : TaskRun → Type 0) (p : TaskRun → Bool) (f : TaskRun → TaskRun) (xs : List TaskRun)
    → ((x : TaskRun) → IsSameRow x (f x))
    → ((x : TaskRun) → P x → p x ≡ true → P (f x))
    → Table P xs
    → Table P (update_where p f xs)
Table-update_all P p f xs same h t =
    Table-update P (λ _. Unit {0}) p f xs (All-trivial xs) same (λ x v _ hit. h x v hit) t

module _ (P : TaskRun → Type 0) where
  pub become : (xs ys : List TaskRun) → ys ≡ xs → Table P xs → Table P ys
  become xs ys e t = subst (Table P) (sym e) t

  -- What waits is cancelled if the status is for good.
  pub Table-cancel_if :
      (env : Env) (run : ℕ) (b : Bool) (xs : List TaskRun)
      → ((x : TaskRun) → P x → is_waiting x.status ≡ true → P (cancel_row env x))
      → Table P xs
      → Table P (if b then cancel_waiting env run xs else xs)
  Table-cancel_if env run false xs h t = t
  Table-cancel_if env run true xs h t =
      Table-update_all P _ (cancel_row env) xs (λ x. (refl, refl)) (λ x v hit. h x v (ground arith))
        t
