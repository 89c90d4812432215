-- ===== src/Lifecycle/Creation/Names.antt =====
-- The keys of a graph, the ids that `CreateRun` gives them, and its new rows.
use run_mesh.Base.{
  ℕ, suc, String, Bool, true, false, ◌≡◌, ◌≢◌, refl, sym, ap, subst, ◌∙◌, some, List, [], ◌∷◌, ◌==◌,
  eq_iff, arith, Bool-cases, inl, inr,
}
use run_mesh.Base.Tables.{All}
use run_mesh.Workflow.State.{TaskStatus, is}
use run_mesh.Workflow.Model.{TaskSpec, Tasks, lookup, lookup-cons_ne, with_defaults}
use run_mesh.Store.Db.{Db, Env, TaskRun, Dependency}
use run_mesh.Store.CreateRun.{assign_ids, id_of, new_task, is_empty}
use run_mesh.Lifecycle.Rows.{UniqueIds}
use run_mesh.Lifecycle.Invariant.{is_let_go}
use run_mesh.Lifecycle.Creation.Ids.{
  IsUnused, DrawsFresh, DistinctKeys, id_of-IsDrawn, id_of-injective,
}
use run_mesh.Lifecycle.Creation.Rows.{made, HasIds, id_or_zero}
use run_mesh.Lifecycle.Creation.Tables.{All-weaken}

pub eq_false : (a b : ℕ) → a ≢ b → (a == b) ≡ false
eq_false a b ne = ground arith

true≢false : true ≢ false
true≢false e = absurd (cc)

-- An entry is found under its key.
abbrev IsEntry : Tasks → String × TaskSpec → Type 0
IsEntry dag e = lookup e.0 dag ≡ some e.1

pub entries : (dag : Tasks) → DistinctKeys dag → All (IsEntry dag) dag
unfolding lookup
entries [] distinct = tt
entries ((key, spec) ∷ rest) distinct =
    (rw ((eq_iff key key).1 refl) refl, later rest distinct.0 (entries rest distinct.1))
  where
    later :
        (es : Tasks)
        → All (λ e. e.0 ≢ key) es
        → All (IsEntry rest) es
        → All (IsEntry ((key, spec) ∷ rest)) es
    later [] ne h = tt
    later (e ∷ es) ne h =
        (lookup-cons_ne key e.0 spec rest (λ same. ne.0 (sym same)) ∙ h.0, later es ne.1 h.1)

module _ (env : Env) (db : Db) (fresh : DrawsFresh env db) (run : ℕ) (input : String)
    (dag : Tasks) where
  abbrev pub ids : List (String × ℕ)
  ids = assign_ids env (suc db.drawn) dag

  -- A key of the graph with the id of its task.
  abbrev Names : Bool → String → ℕ → Type 0
  Names starts key id =
      (id_of key ids ≡ some id)
      × ((spec : TaskSpec) × (lookup key dag ≡ some spec) × (is_empty spec.depends_on ≡ starts))

  abbrev pub IsNewTask : TaskRun → Type 0
  IsNewTask t =
      (id_of t.task_key ids ≡ some t.id)
      × (is_let_go t.status ≡ true → Names true t.task_key t.id)
      × (t.workflow_run_id ≡ run)
      × (is t.status TaskStatus.succeeded ≡ false)

  abbrev pub IsNewDependency : Dependency → Type 0
  IsNewDependency d = (key : String) × Names false key d.task_run_id

  pub id-IsUnused : (key : String) (id : ℕ) → id_of key ids ≡ some id → IsUnused db id
  id-IsUnused key id h =
      let (m, le, same) = id_of-IsDrawn env (suc db.drawn) dag key id h in
      subst (IsUnused db) (sym same) (fresh.unused m (omega arith))

  new_task_lem :
      (key : String) (spec : TaskSpec) (id : ℕ)
      → id_of key ids ≡ some id
      → IsEntry dag (key, spec)
      → IsNewTask (new_task env run input key id spec)
  unfolding new_task with_defaults
  new_task_lem key spec id found entry = elim (Bool-cases (is_empty spec.depends_on)) [
    | inl start ↦ rw start (found, (λ _. (found, (spec, entry, start))), refl, refl)
    | inr later ↦ rw later (found, (λ h. absurd (cc)), refl, refl)
  ]

  pub made-IsNewTask :
      (rest : Tasks)
      → HasIds env run input ids rest
      → All (IsEntry dag) rest
      → All IsNewTask (made env run input ids rest)
  unfolding made
  made-IsNewTask [] has entry = tt
  made-IsNewTask ((key, spec) ∷ rest) has entry =
      let (id, found) = has.0 in
      (
        subst (λ o. IsNewTask (new_task env run input key (id_or_zero env run input ids o) spec))
            (sym found) (new_task_lem key spec id found entry.0),
        made-IsNewTask rest has.1 entry.1,
      )

  same_key : (j k : String) (id : ℕ) → id_of j ids ≡ some id → id_of k ids ≡ some id → j ≡ k
  same_key j k id h₁ h₂ = id_of-injective env fresh.injective (suc db.drawn) dag j k id h₁ h₂

  -- A new task that may start has no dependency.
  pub start_alone :
      (t : TaskRun) (d : Dependency)
      → Names true t.task_key t.id
      → IsNewDependency d
      → d.task_run_id ≢ t.id
  start_alone t d (found, (spec, entry, start)) (key, (found', (spec', entry', later))) same =
      let keys : key ≡ t.task_key = same_key key t.task_key t.id (found' ∙ ap some same) found in
      let specs : some spec' ≡ some spec = sym entry' ∙ ap (λ k. lookup k dag) keys ∙ entry in
      let one : spec' ≡ spec = cc in
      true≢false (sym start ∙ ap (λ s. is_empty s.depends_on) (sym one) ∙ later)

  pub made-UniqueIds :
      (rest : Tasks)
      → HasIds env run input ids rest
      → DistinctKeys rest
      → UniqueIds (made env run input ids rest)
  unfolding made new_task
  made-UniqueIds [] has distinct = tt
  made-UniqueIds ((key, spec) ∷ rest) has distinct =
      let (id, found) = has.0 in
      (
        subst (λ o. All (λ y. y.id ≢ id_or_zero env run input ids o) (made env run input ids rest))
            (sym found) (others key id found rest has.1 distinct.0),
        made-UniqueIds rest has.1 distinct.1,
      )
    where
      others :
          (key : String) (id : ℕ)
          → id_of key ids ≡ some id
          → (es : Tasks) → HasIds env run input ids es
          → All (λ e. e.0 ≢ key) es
          → All (λ y. y.id ≢ id) (made env run input ids es)
      others key id found [] has ne = tt
      others key id found ((k, s) ∷ es) has ne =
          let (i, found') = has.0 in
          (
            subst (λ o. id_or_zero env run input ids o ≢ id) (sym found')
                (λ same. ne.0 (same_key k key id (found' ∙ ap some same) found)),
            others key id found es has.1 ne.1,
          )

  -- A key of the graph that has dependencies gives new rows.
  pub upstream-IsNewDependency :
      DistinctKeys dag
      → All
          (λ e.
            is_empty e.1.depends_on ≡ false
            → (id : ℕ) → id_of e.0 ids ≡ some id
            → (d : Dependency) → d.task_run_id ≡ id
            → IsNewDependency d)
          dag
  upstream-IsNewDependency distinct =
      All-weaken (IsEntry dag) _ dag
        (λ e entry some_keys id found d same.
          (e.0, (found ∙ ap some (sym same), (e.1, entry, some_keys))))
        (entries dag distinct)

  -- The new tasks are of the new run.
  pub made-of_run :
      HasIds env run input ids dag
      → DistinctKeys dag
      → All (λ t. t.workflow_run_id ≡ run) (made env run input ids dag)
  made-of_run has distinct =
      All-weaken IsNewTask (λ t. t.workflow_run_id ≡ run) _ (λ t new. new.2)
        (made-IsNewTask dag has (entries dag distinct))
