-- ===== src/Workflow/Dag/Cyclic.antt =====
-- What the search refuses has a cycle, and what it accepts has none.
use mathlib.Core.WellFounded.{Acc}
use run_mesh.Base.{
  ℕ, zero, suc, String, ◌≡◌, refl, subst, sym, ◌⊎◌, inl, inr, List, [], ◌∷◌, Memᴰ, arith, ◌∙◌,
  text-cases,
}
use run_mesh.Workflow.Model.{Tasks, depends_on, dependencies_of, keys, lookup, lookup-cons_ne}
use run_mesh.Workflow.Dag.{Colors, color, Visit, done, cyclic, visit, visit_each, visit_all}
use run_mesh.Base.Tables.{length}
use run_mesh.Workflow.Dag.Acyclic.{visit_all-Acc}
use run_mesh.Workflow.Dag.Steps.{
  Before, color-cons_self, color-cons_ne, visit_each-eq-done, visit_each-eq-cyclic, visit-eq-done,
  visit-eq-cyclic,
}

-- `a` depends on the index, directly or through other tasks.
pub data Needs (tasks : Tasks) (a : String) : String → Type 0 where
  direct : {b : String} → Before tasks b a → Needs tasks a b
  further : {b c : String} → Needs tasks a b → Before tasks c b → Needs tasks a c

module _ (tasks : Tasks) where
  abbrev Fades : (String → Colors → Visit) → Type 0
  Fades v =
      (key : String) (cs cs' : Colors)
      → v key cs ≡ done cs'
      → (g : String) → color cs' g ≡ 1
      → color cs g ≡ 1

  visit_each-Fades :
      (v : String → Colors → Visit) (ds : List String) (cs cs' : Colors)
      → Fades v
      → visit_each v ds cs ≡ done cs'
      → (g : String) → color cs' g ≡ 1
      → color cs g ≡ 1
  visit_each-Fades v [] cs cs' s h g q =
      let e : cs ≡ cs' = unfold visit_each in cc in subst (λ c. color c g ≡ 1) (sym e) q
  visit_each-Fades v (d ∷ ds) cs cs' s h g q =
      let (cs₁, first, rest) = visit_each-eq-done v d ds cs h in
      s d cs cs₁ first g (visit_each-Fades v ds cs₁ cs' s rest g q)

  two-ne-one : ◌≡◌ {A = ℕ} 2 1 → ⊥
  two-ne-one e = omega arith

  -- A visit that ends well leaves no new grey key behind.
  visit-Fades : (fuel : ℕ) → Fades (visit tasks fuel)
  visit-Fades zero key cs cs' h g q = absurd (unfold visit in cc)
  visit-Fades (suc fuel) key cs cs' h g q = elim (visit-eq-done tasks fuel key cs h) [
    | inl (black, e) ↦ subst (λ c. color c g ≡ 1) (sym e) q
    | inr (cs₁, inside, e, not_grey, not_black) ↦ elim (text-cases key g) [
      | inl same ↦ absurd (
          two-ne-one (
            sym (color-cons_self key 2 cs₁)
            ∙ subst (λ j. color ((key, 2) ∷ cs₁) j ≡ 1) (sym same)
                (subst (λ c. color c g ≡ 1) (sym e) q)))
      | inr other ↦
          sym (color-cons_ne key g 1 cs other)
          ∙ visit_each-Fades (visit tasks fuel) (depends_on tasks key) ((key, 1) ∷ cs) cs₁
              (visit-Fades fuel) inside g
              (sym (color-cons_ne key g 2 cs₁ other) ∙ subst (λ c. color c g ≡ 1) (sym e) q)
    ]
  ]

  -- The grey keys are the path that the search is on.
  abbrev OnPath : Colors → String → Type 0
  OnPath cs key = (g : String) → color cs g ≡ 1 → Needs tasks g key

  abbrev Finds : (String → Colors → Visit) → Type 0
  Finds v =
      (key : String) (cs : Colors) (k : String)
      → v key cs ≡ cyclic k
      → OnPath cs key
      → Needs tasks k k

  visit_each-Finds :
      (v : String → Colors → Visit) (ds : List String) (cs : Colors) (k : String)
      → Fades v
      → Finds v
      → visit_each v ds cs ≡ cyclic k
      → ((d : String) → Memᴰ d ds → OnPath cs d)
      → Needs tasks k k
  visit_each-Finds v [] cs k s f h p = absurd (unfold visit_each in cc)
  visit_each-Finds v (d ∷ ds) cs k s f h p = elim (visit_each-eq-cyclic v d ds cs h) [
    | inl here ↦ f d cs k here (p d (Memᴰ.head refl))
    | inr (cs₁, first, rest) ↦
        visit_each-Finds v ds cs₁ k s f rest (λ j m g q. p j (Memᴰ.tail m) g (s d cs cs₁ first g q))
  ]

  -- The key that the search refuses lies on a cycle.
  visit-Finds : (fuel : ℕ) → Finds (visit tasks fuel)
  visit-Finds zero key cs k h p = absurd (unfold visit in cc)
  visit-Finds (suc fuel) key cs k h p = elim (visit-eq-cyclic tasks fuel key cs h) [
    | inl (grey, e) ↦ subst (λ j. Needs tasks j j) e (p key grey)
    | inr inside ↦
        visit_each-Finds (visit tasks fuel) (depends_on tasks key) ((key, 1) ∷ cs) k
          (visit-Fades fuel) (visit-Finds fuel) inside
          λ d m g q. elim (text-cases key g) [
            | inl same ↦ direct (subst (λ j. Before tasks d j) same m)
            | inr other ↦ further (p g (sym (color-cons_ne key g 1 cs other) ∙ q)) m
          ]
  ]

  pub visit_all-Needs : (k : String) → visit_all tasks ≡ cyclic k → Needs tasks k k
  unfolding visit_all
  visit_all-Needs k h =
      visit_each-Finds (visit tasks (suc (length tasks))) (keys tasks) [] k
        (visit-Fades (suc (length tasks))) (visit-Finds (suc (length tasks))) h
        (λ d m g q. absurd (unfold color in omega arith))

  Needs-trans : {a b c : String} → Needs tasks a b → Needs tasks b c → Needs tasks a c
  Needs-trans n (direct m) = further n m
  Needs-trans n (further r m) = further (Needs-trans n r) m

  -- The first step of a chain.
  Needs-first :
      {a c : String}
      → Needs tasks a c
      → (b : String) × Before tasks b a × ((b ≡ c) ⊎ Needs tasks b c)
  Needs-first {a} {c} (direct m) = (c, m, inl refl)
  Needs-first {a} {c} (further n m) =
      let (b, first, rest) = Needs-first n in
      elim rest [
        | inl e ↦ (b, first, inr (direct (subst (Before tasks c) (sym e) m)))
        | inr r ↦ (b, first, inr (further r m))
      ]

  Acc-irreflexive : (k : String) → Acc (Before tasks) k → Needs tasks k k → ⊥
  Acc-irreflexive k (Acc.intro _ smaller) n =
      let (b, first, rest) = Needs-first n in
      elim rest [
        | inl e ↦ Acc-irreflexive b (smaller b first) (subst (λ j. Needs tasks j j) (sym e) n)
        | inr r ↦ Acc-irreflexive b (smaller b first) (further r first)
      ]

  -- A name that is no task has no dependencies.
  has_dependency-Mem : (ts : Tasks) (k d : String) → Memᴰ d (depends_on ts k) → Memᴰ k (keys ts)
  has_dependency-Mem [] k d m = absurd (unfold lookup in elim m [ ])
  has_dependency-Mem ((j, spec) ∷ ts) k d m = elim (text-cases j k) [
    | inl same ↦ Memᴰ.head (sym same)
    | inr other ↦ Memᴰ.tail (
        has_dependency-Mem ts k d
          (subst (λ o. Memᴰ d (dependencies_of o)) (lookup-cons_ne j k spec ts other) m))
  ]

  pub visit_all-acyclic :
      (cs : Colors) → visit_all tasks ≡ done cs → (k : String) → ¬ Needs tasks k k
  visit_all-acyclic cs h k n =
      let (b, first, rest) = Needs-first n in
      Acc-irreflexive k (visit_all-Acc tasks cs h k (has_dependency-Mem tasks k b first)) n
