-- ===== src/Lifecycle/Creation/Tables.antt =====
-- Tables with rows added at their end.
use run_mesh.Base.{Bool, false, ◌≡◌, ◌≢◌, refl, List, [], ◌∷◌, ◌++◌, arith}
use run_mesh.Base.Tables.{All, All-append, exists}
use run_mesh.Store.Db.{TaskRun}
use run_mesh.Lifecycle.Rows.{UniqueIds}

module _ {A B : Type 0} (P : A → B → Type 0) where
  -- For all rows of one table and all of another, in either order.
  pub All-swap :
      (xs : List A) (ys : List B) → All (λ y. All (λ x. P x y) xs) ys → All (λ x. All (P x) ys) xs
  All-swap [] ys h = tt
  All-swap (x ∷ xs) ys h = (firsts ys h, All-swap xs ys (rests ys h))
    where
      firsts : (ys : List B) → All (λ y. All (λ x. P x y) (x ∷ xs)) ys → All (P x) ys
      firsts [] h = tt
      firsts (y ∷ ys) h = (h.0.0, firsts ys h.1)

      rests :
          (ys : List B)
          → All (λ y. All (λ x. P x y) (x ∷ xs)) ys
          → All (λ y. All (λ x. P x y) xs) ys
      rests [] h = tt
      rests (y ∷ ys) h = (h.0.1, rests ys h.1)

module _ {A : Type 0} where
  pub exists-append :
      (p : A → Bool) (xs ys : List A)
      → exists p xs ≡ false
      → exists p ys ≡ false
      → exists p (xs ++ ys) ≡ false
  unfolding exists
  exists-append p [] ys h k = k
  exists-append p (x ∷ xs) ys h k = ground (arith, exists-append p xs ys)

  pub exists-none : (p : A → Bool) (xs : List A) → All (λ x. p x ≡ false) xs → exists p xs ≡ false
  unfolding exists
  exists-none p [] h = refl
  exists-none p (x ∷ xs) h = rw (h.0, exists-none p xs h.1) refl

  pub exists-append_none :
      (p : A → Bool) (xs ys : List A) → exists p ys ≡ false → exists p (xs ++ ys) ≡ exists p xs
  unfolding exists
  exists-append_none p [] ys h = h
  exists-append_none p (x ∷ xs) ys h = rw (exists-append_none p xs ys h) refl

  pub exists-same :
      (p q : A → Bool) (xs : List A) → All (λ x. p x ≡ q x) xs → exists p xs ≡ exists q xs
  unfolding exists
  exists-same p q [] h = refl
  exists-same p q (x ∷ xs) h = rw (h.0, exists-same p q xs h.1) refl

  pub All-weaken : (P Q : A → Type 0) (xs : List A) → ((x : A) → P x → Q x) → All P xs → All Q xs
  All-weaken P Q [] f h = tt
  All-weaken P Q (x ∷ xs) f h = (f x h.0, All-weaken P Q xs f h.1)

pub UniqueIds-append :
    (xs ys : List TaskRun)
    → UniqueIds xs
    → UniqueIds ys
    → All (λ x. All (λ y. y.id ≢ x.id) ys) xs
    → UniqueIds (xs ++ ys)
UniqueIds-append [] ys u v apart = v
UniqueIds-append (x ∷ xs) ys u v apart =
    (All-append (λ y. y.id ≢ x.id) xs ys u.0 apart.0, UniqueIds-append xs ys u.1 v apart.1)
