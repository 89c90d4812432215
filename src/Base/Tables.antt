-- ===== src/Base/Tables.antt =====
-- Tables as lists of rows: what SELECT, EXISTS, UPDATE ... WHERE and LIMIT do to them.
use Prim.Native.Nat.{ℕ, zero, suc}
use mathlib.Core.Path.{◌≡◌, refl, sym, ap, subst}
use mathlib.Core.Logic.{inl, inr}
use mathlib.Core.Bool.{Bool, true, false, ◌||◌}
use mathlib.Core.Option.{Option, none, some}
use mathlib.Core.List.{List, [], ◌∷◌, ◌++◌, map}
use native.Mathlib.Omega.{arith}
use run_mesh.Base.Tests.{if◌then◌else◌, Bool-cases, ||_false}

-- A predicate by recursion computes to tuples, which the tactics read and build.
abbrev pub All {ℓ κ} : {A : Type ℓ} → (A → Type κ) → List A → Type κ
All P [] = Unit
All P (x ∷ xs) = P x × All P xs

module _ {ℓ} {A : Type ℓ} where
  abbrev pub length : List A → ℕ
  length [] = 0
  length (x ∷ xs) = suc (length xs)

  abbrev pub take : ℕ → List A → List A
  take zero xs = []
  take (suc n) [] = []
  take (suc n) (x ∷ xs) = x ∷ take n xs

  -- SELECT ... WHERE p, as the first row that `QueryRow` scans.
  unfoldable pub find? : (A → Bool) → List A → Option A
  find? p [] = none
  find? p (x ∷ xs) = if p x then some x else find? p xs

  -- SELECT ... WHERE p, as all rows.
  unfoldable pub select : (A → Bool) → List A → List A
  select p [] = []
  select p (x ∷ xs) = let rest = select p xs in if p x then x ∷ rest else rest

  -- EXISTS (SELECT 1 ... WHERE p).
  unfoldable pub exists : (A → Bool) → List A → Bool
  exists p [] = false
  exists p (x ∷ xs) = p x || exists p xs

  -- UPDATE ... SET f WHERE p.
  unfoldable pub update_where : (A → Bool) → (A → A) → List A → List A
  update_where p f = map (λ x. if p x then f x else x)

  -- ORDER BY, with the rows that tie in the order of the table.
  unfoldable pub insert_by : (A → A → Bool) → A → List A → List A
  insert_by before x [] = x ∷ []
  insert_by before x (y ∷ ys) =
      let rest = insert_by before x ys in if before x y then x ∷ y ∷ ys else y ∷ rest

  unfoldable pub order_by : (A → A → Bool) → List A → List A
  unfolding insert_by
  order_by before [] = []
  order_by before (x ∷ xs) = insert_by before x (order_by before xs)

module _ {ℓ κ} {A : Type ℓ} (P : A → Type κ) where
  pub All-map : (g : A → A) (xs : List A) → ((x : A) → P x → P (g x)) → All P xs → All P (map g xs)
  All-map g [] h a = tt
  All-map g (x ∷ xs) h a = (h x a.0, All-map g xs h a.1)

  pub All-append : (xs ys : List A) → All P xs → All P ys → All P (xs ++ ys)
  All-append [] ys hx hy = hy
  All-append (x ∷ xs) ys hx hy = (hx.0, All-append xs ys hx.1 hy)

  -- What a SELECT returns satisfies its WHERE and everything that all rows satisfy.
  pub find?-All :
      (p : A → Bool) (xs : List A) (a : A) → find? p xs ≡ some a → All P xs → (p a ≡ true) × P a
  unfolding find?
  find?-All p [] a e h = absurd (cc)
  find?-All p (x ∷ xs) a e h = elim (Bool-cases (p x)) [
    | inl hit ↦
        let same : x ≡ a = ground arith in (subst (λ y. p y ≡ true) same hit, subst P same h.0)
    | inr miss ↦ find?-All p xs a (ground arith) h.1
  ]

module _ {ℓ} {A : Type ℓ} where
  -- The first row of a SELECT is the first of any stricter one that it satisfies.
  pub find?-stricter :
      (p q : A → Bool) (xs : List A) (a : A)
      → ((x : A) → q x ≡ true → p x ≡ true)
      → find? p xs ≡ some a
      → q a ≡ true
      → find? q xs ≡ some a
  unfolding find?
  find?-stricter p q [] a le h good = absurd (cc)
  find?-stricter p q (x ∷ xs) a le h good = elim (Bool-cases (p x)) [
    | inl hit ↦
        let same : x ≡ a = ground arith in
        let here : q x ≡ true = subst (λ y. q y ≡ true) (sym same) good in rw (here, same) refl
    | inr miss ↦ elim (Bool-cases (q x)) [
      | inl both ↦ let p_x = le x both in absurd (ground arith)
      | inr alone ↦
          let rest : find? p xs ≡ some a = ground arith in
          rw alone (find?-stricter p q xs a le rest good)
    ]
  ]

  -- An UPDATE of rows that a SELECT finds, and still finds, changes its first row so.
  pub find?-update_where :
      (p q : A → Bool) (f : A → A) (xs : List A) (a : A)
      → ((x : A) → q x ≡ true → p x ≡ true)
      → ((x : A) → q x ≡ true → p (f x) ≡ true)
      → find? p xs ≡ some a
      → q a ≡ true
      → find? p (update_where q f xs) ≡ some (f a)
  unfolding find? update_where
  find?-update_where p q f [] a le keep h good = absurd (cc)
  find?-update_where p q f (x ∷ xs) a le keep h good = elim (Bool-cases (p x)) [
    | inl hit ↦
        let same : x ≡ a = ground arith in
        let here : q x ≡ true = subst (λ y. q y ≡ true) (sym same) good in
        rw (here, keep x here, same) refl
    | inr miss ↦ elim (Bool-cases (q x)) [
      | inl both ↦ let p_x = le x both in absurd (ground arith)
      | inr alone ↦
          let rest : find? p xs ≡ some a = ground arith in
          rw (alone, miss) (find?-update_where p q f xs a le keep rest good)
    ]
  ]

  -- A row after others that a SELECT does not find is the one that it finds.
  pub find?-last :
      (p : A → Bool) (xs : List A) (a : A)
      → exists p xs ≡ false
      → p a ≡ true
      → find? p (xs ++ a ∷ []) ≡ some a
  unfolding find? exists
  find?-last p [] a none_before good = rw good refl
  find?-last p (x ∷ xs) a none_before good =
      let (miss, rest) = ||_false (p x) (exists p xs) none_before in
      rw miss (find?-last p xs a rest good)

  pub exists-stricter :
      (p q : A → Bool) (xs : List A)
      → ((x : A) → q x ≡ true → p x ≡ true)
      → exists p xs ≡ false
      → exists q xs ≡ false
  unfolding exists
  exists-stricter p q [] le h = refl
  exists-stricter p q (x ∷ xs) le h =
      let (miss, rest) = ||_false (p x) (exists p xs) h in
      elim (Bool-cases (q x)) [
        | inl both ↦ let p_x = le x both in absurd (ground arith)
        | inr alone ↦ rw alone (exists-stricter p q xs le rest)
      ]

  -- An UPDATE that no row of a table matches changes the row after it at most.
  pub update_where-last :
      (q : A → Bool) (f : A → A) (xs : List A) (a : A)
      → exists q xs ≡ false
      → q a ≡ true
      → update_where q f (xs ++ a ∷ []) ≡ xs ++ f a ∷ []
  unfolding update_where exists
  update_where-last q f [] a none_before good = rw good refl
  update_where-last q f (x ∷ xs) a none_before good =
      let (miss, rest) = ||_false (q x) (exists q xs) none_before in
      rw miss (ap (λ rows. x ∷ rows) (update_where-last q f xs a rest good))
