-- ===== src/Workflow/Dag/Fuel.antt =====
-- The fuel of `visit_all` suffices: each level of the recursion turns one more task grey.
use run_mesh.Base.{
  ℕ, zero, suc, ◌+◌, ◌≤◌, ◌<◌, String, ◌≡◌, ◌≢◌, refl, subst, sym, ◌⊎◌, inl, inr, List, [], ◌∷◌,
  Memᴰ, Bool, true, false, not, ◌||◌, ap, arith, ◌∙◌, text-cases, ◌==◌, if◌then◌else◌,
}
use run_mesh.Base.Tables.{length}
use run_mesh.Workflow.Model.{Tasks, depends_on, dependencies_of, keys, lookup, lookup-cons_ne}
use run_mesh.Workflow.Dag.{Colors, color, Visit, done, no_fuel, visit, visit_each, visit_all}
use run_mesh.Workflow.Dag.Steps.{
  color-cons_self, visit_each-eq-done, visit_each-eq-no_fuel, visit-eq-no_fuel, visit-eq-done,
}

-- The keys that no visit has entered yet.
abbrev is_fresh : ℕ → Bool
is_fresh c = not (c == 1 || c == 2)

abbrev unseen : Colors → List String → ℕ
unseen cs [] = 0
unseen cs (k ∷ ks) = (if is_fresh (color cs k) then 1 else 0) + unseen cs ks

unseen-nil : (ks : List String) → unseen [] ks ≡ length ks
unfolding color
unseen-nil [] = refl
unseen-nil (k ∷ ks) = omega (arith, unseen-nil ks)

-- No key becomes fresh again.
abbrev Darkens : Colors → Colors → Type 0
Darkens cs cs' = (k : String) → is_fresh (color cs' k) ≡ true → is_fresh (color cs k) ≡ true

unseen-le : (cs cs' : Colors) (ks : List String) → Darkens cs cs' → unseen cs' ks ≤ unseen cs ks
unseen-le cs cs' [] d = omega arith
unseen-le cs cs' (k ∷ ks) d = ground (arith, d k, unseen-le cs cs' ks d)

paint-Darkens : (k : String) (c : ℕ) (cs : Colors) → is_fresh c ≡ false → Darkens cs ((k, c) ∷ cs)
unfolding color
paint-Darkens k c cs h j q = ground arith

unseen-paint :
    (k : String) (c : ℕ) (cs : Colors) (ks : List String)
    → is_fresh c ≡ false
    → is_fresh (color cs k) ≡ true
    → Memᴰ k ks
    → unseen ((k, c) ∷ cs) ks < unseen cs ks
unseen-paint k c cs [] h w m = elim m [ ]
unseen-paint k c cs (j ∷ ks) h w (Memᴰ.head e) =
    let rest = unseen-le cs ((k, c) ∷ cs) ks (paint-Darkens k c cs h) in
    let now = subst (λ i. color ((k, c) ∷ cs) i ≡ c) e (color-cons_self k c cs) in
    let was = subst (λ i. is_fresh (color cs i) ≡ true) e w in ground arith
unseen-paint k c cs (j ∷ ks) h w (Memᴰ.tail m) =
    let rest = unseen-paint k c cs ks h w m in ground (arith, paint-Darkens k c cs h j)

keys-or-leaf : (ts : Tasks) (key : String) → Memᴰ key (keys ts) ⊎ (depends_on ts key ≡ [])
keys-or-leaf [] key = inr (unfold lookup in refl)
keys-or-leaf ((j, spec) ∷ ts) key = elim (text-cases j key) [
  | inl same ↦ inl (Memᴰ.head (sym same))
  | inr other ↦ elim (keys-or-leaf ts key) [
    | inl m ↦ inl (Memᴰ.tail m)
    | inr leaf ↦ inr (ap dependencies_of (lookup-cons_ne j key spec ts other) ∙ leaf)
  ]
]

module _ (tasks : Tasks) where
  abbrev Keeps : (String → Colors → Visit) → Type 0
  Keeps v = (key : String) (cs cs' : Colors) → v key cs ≡ done cs' → Darkens cs cs'

  visit_each-Keeps :
      (v : String → Colors → Visit) (ds : List String) (cs cs' : Colors)
      → Keeps v
      → visit_each v ds cs ≡ done cs'
      → Darkens cs cs'
  visit_each-Keeps v [] cs cs' s h k q =
      let e : cs ≡ cs' = unfold visit_each in cc in subst (Darkens cs) e (λ j r. r) k q
  visit_each-Keeps v (d ∷ ds) cs cs' s h k q =
      let (cs₁, first, rest) = visit_each-eq-done v d ds cs h in
      s d cs cs₁ first k (visit_each-Keeps v ds cs₁ cs' s rest k q)

  visit-Keeps : (fuel : ℕ) → Keeps (visit tasks fuel)
  visit-Keeps zero key cs cs' h = absurd (unfold visit in cc)
  visit-Keeps (suc fuel) key cs cs' h = elim (visit-eq-done tasks fuel key cs h) [
    | inl (black, e) ↦ subst (Darkens cs) e (λ k q. q)
    | inr (cs₁, inside, e, not_grey, not_black) ↦ subst (Darkens cs) e λ k q.
        paint-Darkens key 1 cs refl k (
          visit_each-Keeps (visit tasks fuel) (depends_on tasks key) ((key, 1) ∷ cs) cs₁
            (visit-Keeps fuel) inside k (paint-Darkens key 2 cs₁ refl k q))
  ]

  -- The visits from colors with fewer than `n` unseen tasks all end.
  abbrev Ends : (String → Colors → Visit) → ℕ → Type 0
  Ends v n = (key : String) (cs : Colors) → unseen cs (keys tasks) < n → v key cs ≢ no_fuel

  visit_each-Ends :
      (v : String → Colors → Visit) (n : ℕ) (ds : List String) (cs : Colors)
      → Keeps v
      → Ends v n
      → unseen cs (keys tasks) < n
      → visit_each v ds cs ≢ no_fuel
  visit_each-Ends v n [] cs s t h e = unfold visit_each in cc
  visit_each-Ends v n (d ∷ ds) cs s t h e = elim (visit_each-eq-no_fuel v d ds cs e) [
    | inl here ↦ t d cs h here
    | inr (cs₁, first, rest) ↦
        let fewer = unseen-le cs cs₁ (keys tasks) (s d cs cs₁ first) in
        visit_each-Ends v n ds cs₁ s t (omega arith) rest
  ]

  visit-Ends : (fuel : ℕ) → Ends (visit tasks fuel) fuel
  visit-Ends zero key cs h e = omega arith
  visit-Ends (suc fuel) key cs h e =
      let (inside, not_grey, not_black) = visit-eq-no_fuel tasks fuel key cs e in
      elim (keys-or-leaf tasks key) [
        | inl m ↦
            let fewer = unseen-paint key 1 cs (keys tasks) refl (ground arith) m in
            visit_each-Ends (visit tasks fuel) fuel (depends_on tasks key) ((key, 1) ∷ cs)
              (visit-Keeps fuel) (visit-Ends fuel) (omega arith) inside
        | inr leaf ↦
            unfold visit_each in
            cc
              (subst (λ ds. visit_each (visit tasks fuel) ds ((key, 1) ∷ cs) ≡ no_fuel) leaf inside)
      ]

length-keys : (tasks : Tasks) → length (keys tasks) ≡ length tasks
length-keys [] = refl
length-keys (t ∷ ts) = omega (arith, length-keys ts)

-- The last loop never runs out of fuel.
pub visit_all-ne-no_fuel : (tasks : Tasks) → visit_all tasks ≢ no_fuel
unfolding visit_all
visit_all-ne-no_fuel tasks =
    visit_each-Ends tasks (visit tasks (suc (length tasks))) (suc (length tasks)) (keys tasks) []
      (visit-Keeps tasks (suc (length tasks))) (visit-Ends tasks (suc (length tasks)))
      (omega (arith, unseen-nil (keys tasks), length-keys tasks))
