-- ===== src/Lifecycle/Creation/Ordered.antt =====
-- The tasks that `CreateRun` inserts are in order.
use run_mesh.Base.{
  ℕ, String, Bool, false, not, ◌&&◌, ◌≡◌, ◌≢◌, refl, sym, ap, ◌∙◌, List, [], ◌∷◌, ◌++◌, ◌==◌,
}
use run_mesh.Base.Tables.{All, All-append, exists}
use run_mesh.Workflow.State.{TaskStatus, is}
use run_mesh.Workflow.Model.{Tasks}
use run_mesh.Store.Db.{Db, Env, TaskRun, Dependency}
use run_mesh.Store.Outcomes.{unresolved}
use run_mesh.Lifecycle.Invariant.{Gate, IsOrdered}
use run_mesh.Lifecycle.Creation.Ids.{IsUnused, DrawsFresh, DistinctKeys}
use run_mesh.Lifecycle.Creation.Rows.{made, HasIds}
use run_mesh.Lifecycle.Creation.Tables.{
  All-swap, exists-append, exists-append_none, exists-none, exists-same, All-weaken,
  UniqueIds-append,
}
use run_mesh.Lifecycle.Creation.Names.{
  eq_false, entries, ids, IsNewTask, IsNewDependency, id-IsUnused, made-IsNewTask, start_alone,
  made-UniqueIds,
}

module _ (env : Env) (db : Db) (fresh : DrawsFresh env db) (run : ℕ) (input : String)
    (dag : Tasks) where
  abbrev drawn_ids : List (String × ℕ)
  drawn_ids = ids env db fresh run input dag

  abbrev IsNew : TaskRun → Type 0
  IsNew = IsNewTask env db fresh run input dag

  abbrev IsNewRow : Dependency → Type 0
  IsNewRow = IsNewDependency env db fresh run input dag

  abbrev new_tasks : List TaskRun
  new_tasks = made env run input drawn_ids dag

  abbrev tasks' : List TaskRun
  tasks' = db.tasks ++ new_tasks

  abbrev waits_for : List TaskRun → Dependency → Bool
  waits_for tasks d =
      exists (λ u. u.id == d.depends_on_task_run_id && not (is u.status TaskStatus.succeeded)) tasks

  module _ (news : All IsNew new_tasks) (new_deps : List Dependency)
      (deps : All IsNewRow new_deps) where
    tasks-IsUnused : All (λ y. IsUnused db y.id) new_tasks
    tasks-IsUnused =
        All-weaken IsNew (λ y. IsUnused db y.id) new_tasks
          (λ y new. id-IsUnused env db fresh run input dag y.task_key y.id new.0) news

    deps-IsUnused : All (λ d. IsUnused db d.task_run_id) new_deps
    deps-IsUnused =
        All-weaken IsNewRow (λ d. IsUnused db d.task_run_id) new_deps
          (λ d new. id-IsUnused env db fresh run input dag new.0 d.task_run_id new.1.0) deps

    apart : All (λ x. All (λ y. y.id ≢ x.id) new_tasks) db.tasks
    apart =
        All-swap (λ x y. y.id ≢ x.id) db.tasks new_tasks
          (All-weaken (λ y. IsUnused db y.id) (λ y. All (λ x. y.id ≢ x.id) db.tasks) new_tasks
            (λ y free.
              All-weaken (λ x. x.id ≢ y.id) (λ x. y.id ≢ x.id) db.tasks (λ x ne e. ne (sym e))
                free.0)
            tasks-IsUnused)

    -- An old dependency waits for old tasks only.
    old_waits : All (λ d. waits_for tasks' d ≡ waits_for db.tasks d) db.deps
    old_waits =
        All-weaken (λ d. All (λ y. y.id ≢ d.depends_on_task_run_id) new_tasks)
          (λ d. waits_for tasks' d ≡ waits_for db.tasks d) db.deps (λ d ne. no_more d db.tasks ne)
          (All-swap (λ d y. y.id ≢ d.depends_on_task_run_id) db.deps new_tasks
            (All-weaken (λ y. IsUnused db y.id)
              (λ y. All (λ d. y.id ≢ d.depends_on_task_run_id) db.deps) new_tasks
              (λ y free.
                All-weaken (λ d. (d.task_run_id ≢ y.id) × (d.depends_on_task_run_id ≢ y.id))
                  (λ d. y.id ≢ d.depends_on_task_run_id) db.deps (λ d ne e. ne.1 (sym e)) free.1)
              tasks-IsUnused))
      where
        no_more :
            (d : Dependency) (xs : List TaskRun)
            → All (λ y. y.id ≢ d.depends_on_task_run_id) new_tasks
            → waits_for (xs ++ new_tasks) d ≡ waits_for xs d
        no_more d xs ne = exists-append_none _ xs new_tasks (
            exists-none _ new_tasks (
              All-weaken (λ y. y.id ≢ d.depends_on_task_run_id)
                (λ y.
                  (y.id == d.depends_on_task_run_id && not (is y.status TaskStatus.succeeded))
                  ≡ false)
                new_tasks (λ y other. rw (eq_false y.id d.depends_on_task_run_id other) refl) ne))

    old-Gate :
        (t : TaskRun)
        → All (λ d. d.task_run_id ≢ t.id) new_deps
        → Gate (unresolved db.deps db.tasks) t
        → Gate (unresolved (db.deps ++ new_deps) tasks') t
    unfolding unresolved
    old-Gate t ne gate go =
        exists-append _ db.deps new_deps
          (exists-same _ (λ d. d.task_run_id == t.id && waits_for db.tasks d) db.deps
              (All-weaken _ _ db.deps (λ d same. ap (λ b. d.task_run_id == t.id && b) same)
                old_waits)
            ∙ gate go)
          (exists-none _ new_deps (
            All-weaken (λ d. d.task_run_id ≢ t.id)
              (λ d. (d.task_run_id == t.id && waits_for tasks' d) ≡ false) new_deps
              (λ d other. rw (eq_false d.task_run_id t.id other) refl) ne))

    new-Gate : (t : TaskRun) → IsNew t → Gate (unresolved (db.deps ++ new_deps) tasks') t
    unfolding unresolved
    new-Gate t new go =
        exists-append _ db.deps new_deps
          (exists-none _ db.deps (
            All-weaken (λ d. (d.task_run_id ≢ t.id) × (d.depends_on_task_run_id ≢ t.id))
              (λ d. (d.task_run_id == t.id && waits_for tasks' d) ≡ false) db.deps
              (λ d other. rw (eq_false d.task_run_id t.id other.0) refl)
              (id-IsUnused env db fresh run input dag t.task_key t.id new.0).1))
          (exists-none _ new_deps (
            All-weaken IsNewRow (λ d. (d.task_run_id == t.id && waits_for tasks' d) ≡ false)
              new_deps
              (λ d is_new.
                rw
                  (eq_false d.task_run_id t.id
                    (start_alone env db fresh run input dag t d (new.1 go) is_new))
                  refl)
              deps))

    all-Gate :
        All (Gate (unresolved db.deps db.tasks)) db.tasks
        → All (Gate (unresolved (db.deps ++ new_deps) tasks')) db.tasks
    all-Gate gates = pairs db.tasks gates (
        All-swap (λ t d. d.task_run_id ≢ t.id) db.tasks new_deps
          (All-weaken (λ d. IsUnused db d.task_run_id)
            (λ d. All (λ t. d.task_run_id ≢ t.id) db.tasks) new_deps
            (λ d free.
              All-weaken (λ t. t.id ≢ d.task_run_id) (λ t. d.task_run_id ≢ t.id) db.tasks
                (λ t ne e. ne (sym e)) free.0)
            deps-IsUnused))
      where
        pairs :
            (xs : List TaskRun)
            → All (Gate (unresolved db.deps db.tasks)) xs
            → All (λ t. All (λ d. d.task_run_id ≢ t.id) new_deps) xs
            → All (Gate (unresolved (db.deps ++ new_deps) tasks')) xs
        pairs [] gates ne = tt
        pairs (t ∷ xs) gates ne = (old-Gate t ne.0 gates.0, pairs xs gates.1 ne.1)

    added-IsOrdered :
        HasIds env run input drawn_ids dag
        → DistinctKeys dag
        → IsOrdered db.deps db.tasks
        → IsOrdered (db.deps ++ new_deps) tasks'
    added-IsOrdered has distinct (unique, gates) = (
      UniqueIds-append db.tasks new_tasks unique
          (made-UniqueIds env db fresh run input dag dag has distinct) apart,
      All-append _ db.tasks new_tasks (all-Gate gates) (
          All-weaken IsNew (Gate (unresolved (db.deps ++ new_deps) tasks')) new_tasks new-Gate
            news),
    )

  -- The new rows, from what the two loops have returned.
  pub inserted-IsOrdered :
      (new_deps : List Dependency)
      → HasIds env run input drawn_ids dag
      → DistinctKeys dag
      → All IsNewRow new_deps
      → IsOrdered db.deps db.tasks
      → IsOrdered (db.deps ++ new_deps) (db.tasks ++ made env run input drawn_ids dag)
  inserted-IsOrdered new_deps has distinct deps ordered =
      added-IsOrdered (made-IsNewTask env db fresh run input dag dag has (entries dag distinct))
        new_deps deps has distinct ordered
