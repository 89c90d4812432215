-- ===== src/Lifecycle/Creation/Rows.antt =====
-- The rows of task_runs and task_dependencies that `CreateRun` inserts.
use mathlib.Core.List.{append_assoc, append-nil}
use run_mesh.Base.{
  ℕ, String, Bool, true, false, ◌≡◌, refl, sym, ap, ◌∙◌, Option, none, some, List, [], ◌∷◌, ◌++◌,
  ok, err, Error, Holds, Holds-bind, Holds-ok, or_fail-eq-ok, if◌then◌else◌,
}
use run_mesh.Base.Tables.{All}
use run_mesh.Workflow.Model.{Tasks}
use run_mesh.Store.Db.{Env, TaskRun, Dependency}
use run_mesh.Store.CreateRun.{
  id_of, new_task, insert_tasks, insert_dependency, insert_upstreams, insert_dependencies, is_empty,
}

module _ (env : Env) (run : ℕ) (input : String) (ids : List (String × ℕ)) where
  unfoldable pub id_or_zero : Option ℕ → ℕ
  id_or_zero none = 0
  id_or_zero (some id) = id

  -- The new tasks, one for each key.
  unfoldable pub made : Tasks → List TaskRun
  unfolding id_or_zero
  made [] = []
  made ((key, spec) ∷ rest) =
      new_task env run input key (id_or_zero (id_of key ids)) spec ∷ made rest

  abbrev pub HasIds : Tasks → Type 0
  HasIds = All (λ e. (id : ℕ) × (id_of e.0 ids ≡ some id))

  pub insert_tasks-made :
      (rest : Tasks) (tasks : List TaskRun)
      → Holds
          (λ rows. (rows ≡ tasks ++ made rest) × HasIds rest)
          (insert_tasks env run input ids rest tasks)
  unfolding insert_tasks made
  insert_tasks-made [] tasks = Holds-ok _ (sym (append-nil tasks), tt)
  insert_tasks-made ((key, spec) ∷ rest) tasks = Holds-bind _ _ _ λ id found.
      Holds-bind _ _ _ λ u checked. record {
        at = λ rows h.
            let its_id = or_fail-eq-ok _ _ found in
            let t = new_task env run input key id spec in
            let (same, has) = (insert_tasks-made rest (tasks ++ t ∷ [])).at rows h in
            let row : new_task env run input key (id_or_zero (id_of key ids)) spec ≡ t =
              ap (λ o. new_task env run input key (id_or_zero o) spec) its_id in
            (
              same
                  ∙ append_assoc tasks (t ∷ []) (made rest)
                  ∙ ap (λ x. tasks ++ x ∷ made rest) (sym row),
              ((id, its_id), has),
            );
      }

-- Rows that are added to a table.
abbrev pub Adds : (Dependency → Type 0) → List Dependency → List Dependency → Type 0
Adds P deps deps' = (new : List Dependency) × (deps' ≡ deps ++ new) × All P new

Adds-none : (P : Dependency → Type 0) (deps : List Dependency) → Adds P deps deps
Adds-none P deps = ([], sym (append-nil deps), tt)

All-both :
    (P : Dependency → Type 0) (xs ys : List Dependency) → All P xs → All P ys → All P (xs ++ ys)
All-both P [] ys h k = k
All-both P (x ∷ xs) ys h k = (h.0, All-both P xs ys h.1 k)

Adds-more :
    (P : Dependency → Type 0) (xs ys zs : List Dependency)
    → Adds P xs ys
    → Adds P ys zs
    → Adds P xs zs
Adds-more P xs ys zs (new, same, h) (new', same', h') = (
  new ++ new',
  same' ∙ ap (λ x. x ++ new') same ∙ append_assoc xs new new',
  All-both P new new' h h',
)

Holds-if_not :
    (P : List Dependency → Type 0) (refused : Bool) (e : Error) (deps : List Dependency)
    → P deps
    → Holds P (if refused then err e else ok deps)
Holds-if_not P true e deps h = record { at = λ x same. absurd (cc) }
Holds-if_not P false e deps h = Holds-ok P h

module _ (run : ℕ) (ids : List (String × ℕ)) where
  insert_dependency-Adds :
      (P : Dependency → Type 0) (id up : ℕ) (deps : List Dependency)
      → ((d : Dependency) → d.task_run_id ≡ id → P d)
      → Holds (Adds P deps) (insert_dependency run id up deps)
  unfolding insert_dependency
  insert_dependency-Adds P id up deps good =
      Holds-if_not (Adds P deps) _ _ _ ((_ ∷ []), refl, (good _ refl, tt))

  insert_upstreams-Adds :
      (P : Dependency → Type 0) (id : ℕ) (keys : List String) (deps : List Dependency)
      → (is_empty keys ≡ false → (d : Dependency) → d.task_run_id ≡ id → P d)
      → Holds (Adds P deps) (insert_upstreams run ids id keys deps)
  unfolding insert_upstreams
  insert_upstreams-Adds P id [] deps good = Holds-ok _ (Adds-none P deps)
  insert_upstreams-Adds P id (key ∷ keys) deps good = Holds-bind _ _ _ λ up e₁.
      Holds-bind _ _ _ λ deps₁ e₂. record {
        at = λ deps₂ h.
            Adds-more P deps deps₁ deps₂
              ((insert_dependency-Adds P id up deps (good refl)).at deps₁ e₂)
              ((insert_upstreams-Adds P id keys deps₁ (λ _. good refl)).at deps₂ h);
      }

  -- What a new dependency is about: a key with dependencies.
  pub insert_dependencies-Adds :
      (P : Dependency → Type 0) (tasks : Tasks) (deps : List Dependency)
      → All
          (λ e.
            is_empty e.1.depends_on ≡ false
            → (id : ℕ) → id_of e.0 ids ≡ some id
            → (d : Dependency) → d.task_run_id ≡ id
            → P d)
          tasks
      → Holds (Adds P deps) (insert_dependencies run ids tasks deps)
  unfolding insert_dependencies
  insert_dependencies-Adds P [] deps good = Holds-ok _ (Adds-none P deps)
  insert_dependencies-Adds P ((key, spec) ∷ rest) deps good = Holds-bind _ _ _ λ id e₁.
      Holds-bind _ _ _ λ deps₁ e₂. record {
        at = λ deps₂ h.
            Adds-more P deps deps₁ deps₂
              ((insert_upstreams-Adds P id spec.depends_on deps
                  (λ some_keys. good.0 some_keys id (or_fail-eq-ok _ _ e₁))).at
                deps₁ e₂)
              ((insert_dependencies-Adds P rest deps₁ good.1).at deps₂ h);
      }
