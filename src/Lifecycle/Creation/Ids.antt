-- ===== src/Lifecycle/Creation/Ids.antt =====
-- The ids that `CreateRun` draws for the tasks of a run.
use run_mesh.Base.{
  ℕ, suc, ◌≤◌, String, true, false, ◌≡◌, ◌≢◌, refl, sym, ◌∙◌, some, [], ◌∷◌, str_eq, eq_iff, arith,
  Bool-cases, inl, inr,
}
use run_mesh.Base.Tables.{All}
use run_mesh.Workflow.Model.{TaskSpec, Tasks}
use run_mesh.Store.Db.{Db, Env}
use run_mesh.Store.CreateRun.{assign_ids, id_of}

-- An id of no row.
abbrev pub IsUnused : Db → ℕ → Type 0
IsUnused db id =
    All (λ t. t.id ≢ id) db.tasks
    × All (λ d. (d.task_run_id ≢ id) × (d.depends_on_task_run_id ≢ id)) db.deps
    × All (λ r. r.id ≢ id) db.runs

-- Random UUIDs do not repeat, and those that are still to be drawn are new.
pub record DrawsFresh (env : Env) (db : Db) : Type 0 where
  pub injective : (m n : ℕ) → env.new_uuid m ≡ env.new_uuid n → m ≡ n
  pub unused : (n : ℕ) → db.drawn ≤ n → IsUnused db (env.new_uuid n)

-- Every key has one specification, as in a map.
abbrev pub DistinctKeys : Tasks → Type 0
DistinctKeys [] = Unit
DistinctKeys ((key, spec) ∷ rest) = All (λ e. e.0 ≢ key) rest × DistinctKeys rest

module _ (env : Env) where
  abbrev pub IsDrawn : ℕ → ℕ → Type 0
  IsDrawn n id = (m : ℕ) × (n ≤ m) × (id ≡ env.new_uuid m)

  id_of-hit :
      (n : ℕ) (k key : String) (spec : TaskSpec) (rest : Tasks)
      → str_eq k key ≡ true
      → id_of key (assign_ids env n ((k, spec) ∷ rest)) ≡ some (env.new_uuid n)
  unfolding id_of assign_ids
  id_of-hit n k key spec rest hit = rw hit refl

  id_of-miss :
      (n : ℕ) (k key : String) (spec : TaskSpec) (rest : Tasks)
      → str_eq k key ≡ false
      → id_of key (assign_ids env n ((k, spec) ∷ rest)) ≡ id_of key (assign_ids env (suc n) rest)
  unfolding id_of assign_ids
  id_of-miss n k key spec rest miss = rw miss refl

  some-injective : {a b : ℕ} → some a ≡ some b → a ≡ b
  some-injective e = cc

  pub id_of-IsDrawn :
      (n : ℕ) (tasks : Tasks) (key : String) (id : ℕ)
      → id_of key (assign_ids env n tasks) ≡ some id
      → IsDrawn n id
  unfolding id_of assign_ids
  id_of-IsDrawn n [] key id h = absurd (cc)
  id_of-IsDrawn n ((k, spec) ∷ rest) key id h = elim (Bool-cases (str_eq k key)) [
    | inl hit ↦ (n, omega arith, some-injective (sym h ∙ id_of-hit n k key spec rest hit))
    | inr miss ↦
        let (m, le, same) =
          id_of-IsDrawn (suc n) rest key id (sym (id_of-miss n k key spec rest miss) ∙ h) in
        (m, omega arith, same)
  ]

  module _ (injective : (m n : ℕ) → env.new_uuid m ≡ env.new_uuid n → m ≡ n) where
    not_later : (n id : ℕ) → id ≡ env.new_uuid n → IsDrawn (suc n) id → ⊥
    not_later n id here (m, le, later) =
        let same : n ≡ m = injective n m (sym here ∙ later) in omega arith

    -- Two keys have two ids.
    pub id_of-injective :
        (n : ℕ) (tasks : Tasks) (j k : String) (id : ℕ)
        → id_of j (assign_ids env n tasks) ≡ some id
        → id_of k (assign_ids env n tasks) ≡ some id
        → j ≡ k
    unfolding id_of assign_ids
    id_of-injective n [] j k id h₁ h₂ = absurd (cc)
    id_of-injective n ((i, spec) ∷ rest) j k id h₁ h₂ = elim (Bool-cases (str_eq i j)) [
      | inl hit₁ ↦ elim (Bool-cases (str_eq i k)) [
        | inl hit₂ ↦ sym ((eq_iff i j).0 hit₁) ∙ (eq_iff i k).0 hit₂
        | inr miss₂ ↦ absurd (
            not_later n id (some-injective (sym h₁ ∙ id_of-hit n i j spec rest hit₁))
              (id_of-IsDrawn (suc n) rest k id (sym (id_of-miss n i k spec rest miss₂) ∙ h₂)))
      ]
      | inr miss₁ ↦ elim (Bool-cases (str_eq i k)) [
        | inl hit₂ ↦ absurd (
            not_later n id (some-injective (sym h₂ ∙ id_of-hit n i k spec rest hit₂))
              (id_of-IsDrawn (suc n) rest j id (sym (id_of-miss n i j spec rest miss₁) ∙ h₁)))
        | inr miss₂ ↦
            id_of-injective (suc n) rest j k id (sym (id_of-miss n i j spec rest miss₁) ∙ h₁)
              (sym (id_of-miss n i k spec rest miss₂) ∙ h₂)
      ]
    ]
