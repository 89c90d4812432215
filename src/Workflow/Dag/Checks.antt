-- ===== src/Workflow/Dag/Checks.antt =====
-- The checks of the first loop of `ValidateDAG`, against what they mean.
use run_mesh.Base.{
  ℕ, ◌≤◌, String, ◌≡◌, ◌≢◌, refl, subst, sym, inl, inr, List, [], ◌∷◌, Memᴰ, true, false, none,
  arith, eq_iff, str_eq, text-cases, is_null,
}
use run_mesh.Base.Int.{ℤ, pos, negsuc}
use run_mesh.Base.Tables.{All, exists}
use run_mesh.Workflow.Model.{Tasks, TaskSpec, keys, lookup, lookup-cons_ne}
use run_mesh.Workflow.Dag.{check_deps, matches_task_key}

abbrev pub Distinct {ℓ} : {A : Type ℓ} → List A → Type ℓ
Distinct [] = Unit
Distinct (x ∷ xs) = (¬ Memᴰ x xs) × Distinct xs

-- `0 <= v <= n`.
abbrev pub Within : ℤ → ℕ → Type 0
Within (pos m) n = m ≤ n
Within (negsuc m) n = ⊥

-- What a task of the map `tasks` has to satisfy by itself.
pub record IsValidTask (tasks : Tasks) (key : String) (spec : TaskSpec) : Type 0 where
  pub named : matches_task_key key ≡ true
  pub handled : matches_task_key spec.handler ≡ true
  pub attempts : Within spec.maximum_attempts 100
  pub timeout : Within spec.timeout_seconds 86400
  pub known : All (λ d. (d ≢ key) × Memᴰ d (keys tasks)) spec.depends_on
  pub distinct : Distinct spec.depends_on

pub All-Mem {ℓ κ} : {A : Type ℓ} (P : A → Type κ) (xs : List A) (a : A) → All P xs → Memᴰ a xs → P a
All-Mem P [] a h m = elim m [ ]
All-Mem P (x ∷ xs) a h (Memᴰ.head e) = subst P (sym e) h.0
All-Mem P (x ∷ xs) a h (Memᴰ.tail m) = All-Mem P xs a h.1 m

pub All-of-Mem {ℓ κ} :
    {A : Type ℓ} (P : A → Type κ) (xs : List A) → ((a : A) → Memᴰ a xs → P a) → All P xs
All-of-Mem P [] h = tt
All-of-Mem P (x ∷ xs) h = (h x (Memᴰ.head refl), All-of-Mem P xs (λ a m. h a (Memᴰ.tail m)))

seen-Mem : (d : String) (seen : List String) → exists (λ s. str_eq s d) seen ≡ false → ¬ Memᴰ d seen
unfolding exists
seen-Mem d [] h m = elim m [ ]
seen-Mem d (s ∷ seen) h (Memᴰ.head e) = ground (arith, eq_iff s d, e)
seen-Mem d (s ∷ seen) h (Memᴰ.tail m) = seen-Mem d seen (ground arith) m

Mem-seen :
    (d : String) (seen : List String) → (¬ Memᴰ d seen) → exists (λ s. str_eq s d) seen ≡ false
unfolding exists
Mem-seen d [] h = refl
Mem-seen d (s ∷ seen) h =
    let rest = Mem-seen d seen (λ m. h (Memᴰ.tail m)) in
    let other : s ≢ d = λ e. h (Memᴰ.head (sym e)) in ground (arith, eq_iff s d)

lookup-Mem : (d : String) (tasks : Tasks) → is_null (lookup d tasks) ≡ false → Memᴰ d (keys tasks)
lookup-Mem d [] h = absurd (unfold lookup in cc)
lookup-Mem d ((k, spec) ∷ tasks) h = elim (text-cases k d) [
  | inl same ↦ Memᴰ.head (sym same)
  | inr other ↦
      Memᴰ.tail (
        lookup-Mem d tasks (subst (λ o. is_null o ≡ false) (lookup-cons_ne k d spec tasks other) h))
]

Mem-lookup : (d : String) (tasks : Tasks) → Memᴰ d (keys tasks) → is_null (lookup d tasks) ≡ false
unfolding lookup
Mem-lookup d [] m = elim m [ ]
Mem-lookup d ((k, spec) ∷ tasks) (Memᴰ.head e) = ground (arith, eq_iff k d, e)
Mem-lookup d ((k, spec) ∷ tasks) (Memᴰ.tail m) = ground (arith, Mem-lookup d tasks m)

module _ (tasks : Tasks) (key : String) where
  abbrev Passes : List String → String → Type 0
  Passes seen d = (d ≢ key) × Memᴰ d (keys tasks) × (¬ Memᴰ d seen)

  pub check_deps-eq-none :
      (seen ds : List String)
      → check_deps tasks key seen ds ≡ none
      → All (Passes seen) ds × Distinct ds
  check_deps-eq-none seen [] h = (tt, tt)
  check_deps-eq-none seen (d ∷ ds) h =
      let (not_self, present, new, rest) = step in
      let (passed, distinct) = check_deps-eq-none (d ∷ seen) ds rest in
      (
        (
          (
            λ e. absurd (ground (arith, eq_iff d key)),
            lookup-Mem d tasks present,
            seen-Mem d seen new,
          ),
          All-of-Mem (Passes seen) ds (λ a m.
              let p = All-Mem (Passes (d ∷ seen)) ds a passed m in
              (p.0, p.1, λ s. p.2 (Memᴰ.tail s))),
        ),
        ((λ m. (All-Mem (Passes (d ∷ seen)) ds d passed m).2 (Memᴰ.head refl)), distinct),
      )
    where
      step :
          (str_eq d key ≡ false)
          × (is_null (lookup d tasks) ≡ false)
          × (exists (λ s. str_eq s d) seen ≡ false)
          × (check_deps tasks key (d ∷ seen) ds ≡ none)
      step = unfold check_deps in ground arith

  pub none-check_deps :
      (seen ds : List String)
      → All (Passes seen) ds
      → Distinct ds
      → check_deps tasks key seen ds ≡ none
  unfolding check_deps
  none-check_deps seen [] h u = refl
  none-check_deps seen (d ∷ ds) h u =
      let rest =
        none-check_deps (d ∷ seen) ds
          (All-of-Mem (Passes (d ∷ seen)) ds
            (λ a m. let p = All-Mem (Passes seen) ds a h.1 m in (p.0, p.1, λ s. new a m p.2 s)))
          u.1 in
      let not_self : d ≢ key = h.0.0 in
      let present = Mem-lookup d tasks h.0.1 in
      let unseen = Mem-seen d seen h.0.2 in ground (arith, eq_iff d key)
    where
      new : (a : String) → Memᴰ a ds → (¬ Memᴰ a seen) → ¬ Memᴰ a (d ∷ seen)
      new a m p (Memᴰ.head e) = u.0 (subst (λ j. Memᴰ j ds) e m)
      new a m p (Memᴰ.tail s) = p s
