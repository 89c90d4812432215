-- ===== src/Lifecycle/Rows.antt =====
-- Tables whose rows are changed in place, and tables whose ids are unique.
use run_mesh.Base.{
  Bool, ◌≡◌, ◌≢◌, sym, subst, ap, ◌∙◌, inl, inr, some, List, [], ◌∷◌, map, arith, Bool-cases,
  if◌then◌else◌,
}
use run_mesh.Base.Tables.{All, find?, update_where}
use run_mesh.Store.Db.{TaskRun}

-- The same rows in the same order, each related to what it was.
abbrev pub Rows : (TaskRun → TaskRun → Type 0) → List TaskRun → List TaskRun → Type 0
Rows R [] [] = Unit
Rows R [] (y ∷ ys) = ⊥
Rows R (x ∷ xs) [] = ⊥
Rows R (x ∷ xs) (y ∷ ys) = R x y × Rows R xs ys

module _ (R : TaskRun → TaskRun → Type 0) where
  pub Rows-map :
      (P : TaskRun → Type 0) (g : TaskRun → TaskRun) (xs : List TaskRun)
      → All P xs
      → ((x : TaskRun) → P x → R x (g x))
      → Rows R xs (map g xs)
  Rows-map P g [] h r = tt
  Rows-map P g (x ∷ xs) h r = (r x h.0, Rows-map P g xs h.1 r)

  pub Rows-refl : ((x : TaskRun) → R x x) → (xs : List TaskRun) → Rows R xs xs
  Rows-refl r [] = tt
  Rows-refl r (x ∷ xs) = (r x, Rows-refl r xs)

-- The primary key of task_runs.
abbrev pub UniqueIds : List TaskRun → Type 0
UniqueIds [] = Unit
UniqueIds (x ∷ xs) = All (λ y. y.id ≢ x.id) xs × UniqueIds xs

-- The only row with the id of `t` is `t`.
abbrev pub OnlyRow : TaskRun → TaskRun → Type 0
OnlyRow t x = x.id ≡ t.id → x ≡ t

pub All-imp :
    (P Q : TaskRun → Type 0) (xs : List TaskRun) → ((x : TaskRun) → P x → Q x) → All P xs → All Q xs
All-imp P Q [] f h = tt
All-imp P Q (x ∷ xs) f h = (f x h.0, All-imp P Q xs f h.1)

find?-id-ne :
    (p : TaskRun → Bool) (xs : List TaskRun) (t x : TaskRun)
    → find? p xs ≡ some t
    → All (λ y. y.id ≢ x.id) xs
    → t.id ≢ x.id
unfolding find?
find?-id-ne p [] t x e h = absurd (cc)
find?-id-ne p (y ∷ ys) t x e h = elim (Bool-cases (p y)) [
  | inl hit ↦ let same : y ≡ t = ground arith in subst (λ z. z.id ≢ x.id) same h.0
  | inr miss ↦ find?-id-ne p ys t x (ground arith) h.1
]

-- A row that a SELECT finds is the only one with its id.
pub find?-OnlyRow :
    (p : TaskRun → Bool) (xs : List TaskRun) (t : TaskRun)
    → find? p xs ≡ some t
    → UniqueIds xs
    → All (OnlyRow t) xs
unfolding find?
find?-OnlyRow p [] t e u = tt
find?-OnlyRow p (x ∷ xs) t e u = elim (Bool-cases (p x)) [
  | inl hit ↦
      let same : x ≡ t = ground arith in
      (
        λ _. same,
        All-imp (λ y. y.id ≢ x.id) (OnlyRow t) xs
            (λ y other e'. absurd (other (e' ∙ ap (λ (z : TaskRun). z.id) (sym same)))) u.0,
      )
  | inr miss ↦
      let rest : find? p xs ≡ some t = ground arith in
      (λ e'. absurd (find?-id-ne p xs t x rest u.0 (sym e')), find?-OnlyRow p xs t rest u.1)
]

module _ (R : TaskRun → TaskRun → Type 0) where
  -- Two updates, one after the other.
  pub Rows-update₂ :
      (P : TaskRun → Type 0) (p q : TaskRun → Bool) (f g : TaskRun → TaskRun) (xs : List TaskRun)
      → All P xs
      → ((x : TaskRun) → P x → let y = (if p x then f x else x) in R x (if q y then g y else y))
      → Rows R xs (update_where q g (update_where p f xs))
  unfolding update_where
  Rows-update₂ P p q f g [] h r = tt
  Rows-update₂ P p q f g (x ∷ xs) h r = (r x h.0, Rows-update₂ P p q f g xs h.1 r)

  pub Rows-update :
      (P : TaskRun → Type 0) (p : TaskRun → Bool) (f : TaskRun → TaskRun) (xs : List TaskRun)
      → All P xs
      → ((x : TaskRun) → P x → R x (if p x then f x else x))
      → Rows R xs (update_where p f xs)
  unfolding update_where
  Rows-update P p f xs h r = Rows-map R P (λ x. if p x then f x else x) xs h r

pub All-trivial : (xs : List TaskRun) → All (λ _. Unit {0}) xs
All-trivial [] = tt
All-trivial (x ∷ xs) = (tt, All-trivial xs)
