-- ===== src/Workflow/Dag/Steps.antt =====
-- How a visit of the depth-first search ends, one step at a time.
use run_mesh.Base.{ℕ, suc, String, ◌≡◌, ◌≢◌, ◌⊎◌, List, ◌∷◌, Memᴰ, arith, eq_iff, ◌==◌, false}
use run_mesh.Workflow.Model.{Tasks, depends_on}
use run_mesh.Workflow.Dag.{Colors, color, Visit, done, cyclic, no_fuel, visit, visit_each, finish}

-- `d` must succeed before `k` runs.
abbrev pub Before : Tasks → String → String → Type 0
Before tasks d k = Memᴰ d (depends_on tasks k)

pub color-cons_self : (k : String) (c : ℕ) (cs : Colors) → color ((k, c) ∷ cs) k ≡ c
unfolding color
color-cons_self k c cs = ground (arith, eq_iff k k)

pub color-cons_ne :
    (k j : String) (c : ℕ) (cs : Colors) → k ≢ j → color ((k, c) ∷ cs) j ≡ color cs j
unfolding color
color-cons_ne k j c cs h = ground (arith, eq_iff k j)

pub color-cons_cases :
    (k j : String) (c : ℕ) (cs : Colors) → (k ≡ j) ⊎ (color ((k, c) ∷ cs) j ≡ color cs j)
unfolding color
color-cons_cases k j c cs = ground (arith, eq_iff k j)

pub visit_each-eq-done :
    (v : String → Colors → Visit) (d : String) (ds : List String) (cs : Colors) {cs₂ : Colors}
    → visit_each v (d ∷ ds) cs ≡ done cs₂
    → (cs₁ : Colors) × (v d cs ≡ done cs₁) × (visit_each v ds cs₁ ≡ done cs₂)
unfolding visit_each
visit_each-eq-done v d ds cs h = ground arith

pub visit_each-eq-cyclic :
    (v : String → Colors → Visit) (d : String) (ds : List String) (cs : Colors) {k : String}
    → visit_each v (d ∷ ds) cs ≡ cyclic k
    → (v d cs ≡ cyclic k)
      ⊎ ((cs₁ : Colors) × (v d cs ≡ done cs₁) × (visit_each v ds cs₁ ≡ cyclic k))
unfolding visit_each
visit_each-eq-cyclic v d ds cs h = ground arith

module _ (tasks : Tasks) (fuel : ℕ) (key : String) (cs : Colors) where
  abbrev pub inner : Visit
  inner = visit_each (visit tasks fuel) (depends_on tasks key) ((key, 1) ∷ cs)

  pub visit-eq-done :
      {cs' : Colors}
      → visit tasks (suc fuel) key cs ≡ done cs'
      → ((color cs key ≡ 2) × (cs ≡ cs'))
        ⊎ ((cs₁ : Colors) × (inner ≡ done cs₁)
            × ((key, 2) ∷ cs₁ ≡ cs')
            × (color cs key ≢ 1)
            × (color cs key ≢ 2))
  unfolding visit finish
  visit-eq-done h = ground arith

  pub visit-eq-cyclic :
      {k : String}
      → visit tasks (suc fuel) key cs ≡ cyclic k
      → ((color cs key ≡ 1) × (key ≡ k)) ⊎ (inner ≡ cyclic k)
  unfolding visit finish
  visit-eq-cyclic h = ground arith

  pub visit-eq-no_fuel :
      visit tasks (suc fuel) key cs ≡ no_fuel
      → (inner ≡ no_fuel) × ((color cs key == 1) ≡ false) × ((color cs key == 2) ≡ false)
  unfolding visit finish
  visit-eq-no_fuel h = ground arith

pub visit_each-eq-no_fuel :
    (v : String → Colors → Visit) (d : String) (ds : List String) (cs : Colors)
    → visit_each v (d ∷ ds) cs ≡ no_fuel
    → (v d cs ≡ no_fuel) ⊎ ((cs₁ : Colors) × (v d cs ≡ done cs₁) × (visit_each v ds cs₁ ≡ no_fuel))
unfolding visit_each
visit_each-eq-no_fuel v d ds cs h = ground arith
