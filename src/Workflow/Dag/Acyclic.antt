-- ===== src/Workflow/Dag/Acyclic.antt =====
-- What the search accepts is acyclic.
use mathlib.Core.WellFounded.{Acc}
use run_mesh.Base.{
  ℕ, zero, suc, String, ◌≡◌, ◌≢◌, subst, sym, inl, inr, List, [], ◌∷◌, Memᴰ, arith, ◌∙◌,
}
use run_mesh.Base.Tables.{length}
use run_mesh.Workflow.Model.{Tasks, depends_on, keys}
use run_mesh.Workflow.Dag.{Colors, color, Visit, done, visit, visit_each, visit_all}
use run_mesh.Workflow.Dag.Steps.{
  Before, color-cons_self, color-cons_ne, color-cons_cases, visit_each-eq-done, visit-eq-done,
}

module _ (tasks : Tasks) where
  -- Every chain of dependencies from a black key is finite.
  abbrev Blacks : Colors → Type 0
  Blacks cs = (k : String) → color cs k ≡ 2 → Acc (Before tasks) k

  abbrev Grows : Colors → Colors → Type 0
  Grows cs cs' = (k : String) → color cs k ≡ 2 → color cs' k ≡ 2

  -- What a visit that ends well establishes.
  abbrev Settles : (String → Colors → Visit) → Type 0
  Settles v =
      (key : String) (cs cs' : Colors)
      → v key cs ≡ done cs'
      → Blacks cs
      → Blacks cs' × Grows cs cs' × (color cs' key ≡ 2)

  visit_each-Settles :
      (v : String → Colors → Visit) (deps : List String) (cs cs' : Colors)
      → Settles v
      → visit_each v deps cs ≡ done cs'
      → Blacks cs
      → Blacks cs' × Grows cs cs' × ((d : String) → Memᴰ d deps → color cs' d ≡ 2)
  visit_each-Settles v [] cs cs' s h b =
      let e : cs ≡ cs' = unfold visit_each in cc in
      (subst Blacks e b, λ k q. subst (λ c. color c k ≡ 2) e q, λ d m. absurd (elim m [ ]))
  visit_each-Settles v (d ∷ ds) cs cs' s h b =
      let (cs₁, first, rest) = visit_each-eq-done v d ds cs h in
      let (b₁, g₁, at) = s d cs cs₁ first b in
      let (b₂, g₂, all) = visit_each-Settles v ds cs₁ cs' s rest b₁ in
      (
        b₂,
        λ k q. g₂ k (g₁ k q),
        λ j m. member (λ e. subst (λ i. color cs' i ≡ 2) (sym e) (g₂ d at)) (all j) m,
      )
    where
      member : {j : String} {P : Type 0} → (j ≡ d → P) → (Memᴰ j ds → P) → Memᴰ j (d ∷ ds) → P
      member here there (Memᴰ.head e) = here e
      member here there (Memᴰ.tail m) = there m

  -- A key turns black only after all its dependencies.
  blacken-Blacks :
      (key : String) (cs : Colors)
      → Blacks cs
      → ((d : String) → Before tasks d key → color cs d ≡ 2)
      → Blacks ((key, 2) ∷ cs)
  blacken-Blacks key cs b all k q = elim (color-cons_cases key k 2 cs) [
    | inl same ↦ subst (Acc (Before tasks)) same (Acc.intro key (λ d m. b d (all d m)))
    | inr other ↦ b k (sym other ∙ q)
  ]

  grey-Blacks : (key : String) (cs : Colors) → Blacks cs → color cs key ≢ 2 → Blacks ((key, 1) ∷ cs)
  grey-Blacks key cs b white k q = elim (color-cons_cases key k 1 cs) [
    | inl same ↦ absurd (
        one-ne-two
          (sym (color-cons_self key 1 cs) ∙ subst (λ j. color ((key, 1) ∷ cs) j ≡ 2) (sym same) q))
    | inr other ↦ b k (sym other ∙ q)
  ]
    where
      one-ne-two : ◌≡◌ {A = ℕ} 1 2 → ⊥
      one-ne-two e = omega arith

  visit-Settles : (fuel : ℕ) → Settles (visit tasks fuel)
  visit-Settles zero key cs cs' h b = absurd (unfold visit in cc)
  visit-Settles (suc fuel) key cs cs' h b = elim (visit-eq-done tasks fuel key cs h) [
    | inl (black, e) ↦ (
      subst Blacks e b,
      λ k q. subst (λ c. color c k ≡ 2) e q,
      subst (λ c. color c key ≡ 2) e black,
    )
    | inr (cs₁, inside, e, not_grey, not_black) ↦
        let (b₁, g₁, all) =
          visit_each-Settles (visit tasks fuel) (depends_on tasks key) ((key, 1) ∷ cs) cs₁
            (visit-Settles fuel) inside (grey-Blacks key cs b not_black) in
        (
          subst Blacks e (blacken-Blacks key cs₁ b₁ all),
          λ k q. subst (λ c. color c k ≡ 2) e (kept cs₁ k q not_black g₁),
          subst (λ c. color c key ≡ 2) e (color-cons_self key 2 cs₁),
        )
  ]
    where
      kept :
          (cs₁ : Colors) (k : String)
          → color cs k ≡ 2
          → color cs key ≢ 2
          → Grows ((key, 1) ∷ cs) cs₁
          → color ((key, 2) ∷ cs₁) k ≡ 2
      kept cs₁ k q white g = elim (color-cons_cases key k 2 cs₁) [
        | inl same ↦ absurd (white (subst (λ j. color cs j ≡ 2) (sym same) q))
        | inr other ↦
            other
            ∙ g k
                (color-cons_ne key k 1 cs (λ e. white (subst (λ j. color cs j ≡ 2) (sym e) q)) ∙ q)
      ]

  -- If the last loop ends without an error, every chain of dependencies from a task is finite.
  pub visit_all-Acc :
      (cs : Colors)
      → visit_all tasks ≡ done cs
      → (k : String) → Memᴰ k (keys tasks)
      → Acc (Before tasks) k
  unfolding visit_all
  visit_all-Acc cs h k m =
      let (b, g, all) =
        visit_each-Settles (visit tasks (suc (length tasks))) (keys tasks) [] cs
          (visit-Settles (suc (length tasks))) h (λ j q. absurd (unfold color in omega arith)) in
      b k (all k m)
