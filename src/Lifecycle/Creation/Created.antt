-- ===== src/Lifecycle/Creation/Created.antt =====
-- `CreateRun` of internal/storage/postgres.go keeps the tasks in order.
use run_mesh.Base.{
  str_eq, ℕ, String, true, false, not, ◌&&◌, ◌≡◌, ◌≢◌, refl, sym, ap, subst, ◌∙◌, Option, List, [],
  ◌∷◌, ◌++◌, ◌==◌, arith, Bool-cases, inl, inr, Holds, Holds-bind, Holds-ok, or_fail-eq-ok,
  if◌then◌else◌,
}
use run_mesh.Base.Tables.{All, exists, find?-All}
use run_mesh.Workflow.State.{TaskStatus, RunStatus, is, run_is}
use run_mesh.Store.Db.{Db, Env, TaskRun, Run, Definition, insert_event, insert_audit}
use run_mesh.Store.CreateRun.{create_run, insert_run, new_run, has_key, owned_definition}
use run_mesh.Store.Outcomes.{all_succeeded}
use run_mesh.Lifecycle.Invariant.{IsOrdered, IsDone, IsSound}
use run_mesh.Lifecycle.Creation.Ids.{DrawsFresh, DistinctKeys}
use run_mesh.Lifecycle.Creation.Rows.{made, insert_tasks-made, insert_dependencies-Adds}
use run_mesh.Lifecycle.Creation.Tables.{exists-append_none, exists-none, All-weaken}
use run_mesh.Lifecycle.Creation.Names.{
  ids, IsNewDependency, upstream-IsNewDependency, made-of_run, eq_false,
}
use run_mesh.Lifecycle.Creation.Ordered.{inserted-IsOrdered}

-- The stored graphs are maps.
abbrev pub HasMaps : Db → Type 0
HasMaps db = All (λ d. DistinctKeys d.dag.tasks) db.definitions

-- Tasks of another run do not count.
all_succeeded-others :
    (run other : ℕ) (xs ys : List TaskRun)
    → run ≢ other
    → All (λ t. t.workflow_run_id ≡ run) ys
    → all_succeeded other xs ≡ true
    → all_succeeded other (xs ++ ys) ≡ true
unfolding all_succeeded
all_succeeded-others run other xs ys ne of_run h =
    let no_more : exists (λ t. t.workflow_run_id == other && not (is t.status TaskStatus.succeeded))
          ys
        ≡ false =
      exists-none _ ys (
        All-weaken (λ t. t.workflow_run_id ≡ run)
          (λ t. (t.workflow_run_id == other && not (is t.status TaskStatus.succeeded)) ≡ false) ys
          (λ t same. rw (eq_false t.workflow_run_id other (λ e. ne (sym same ∙ e))) refl) of_run) in
    ap not (exists-append_none _ xs ys no_more) ∙ h

IsDone-created :
    (tasks new_tasks : List TaskRun) (runs : List Run) (run : Run)
    → All (λ r. r.id ≢ run.id) runs
    → All (λ t. t.workflow_run_id ≡ run.id) new_tasks
    → run_is run.status RunStatus.succeeded ≡ false
    → IsDone tasks runs
    → IsDone (tasks ++ new_tasks) (runs ++ run ∷ [])
IsDone-created tasks new_tasks [] run ne of_run open_run done = ((λ h. absurd (cc)), tt)
IsDone-created tasks new_tasks (r ∷ runs) run ne of_run open_run done = (
  (λ h. all_succeeded-others run.id r.id tasks new_tasks (λ e. ne.0 (sym e)) of_run (done.0 h)),
  IsDone-created tasks new_tasks runs run ne.1 of_run open_run done.1,
)

module _ (env : Env) (tenant : ℕ) (user : Option ℕ) (db : Db) (fresh : DrawsFresh env db)
    (sound : IsSound db) where
  insert_run-IsSound :
      (d : Definition) (key input : String) (artifact : Option ℕ) (uri : Option String)
      → DistinctKeys d.dag.tasks
      → Holds (λ r. IsSound r.1) (insert_run env tenant user d key input artifact uri db)
  unfolding insert_run insert_audit insert_event
  insert_run-IsSound d key input artifact uri distinct = Holds-bind _ _ _ λ artifacts e₀.
      Holds-bind _ _ _ λ tasks e₁. Holds-bind _ _ _ λ deps e₂.
        let run = env.new_uuid db.drawn in
        let dag = d.dag.tasks in
        let new = insert_tasks-made env run input (ids env db fresh run input dag) dag db.tasks in
        let (rows, has) = new.at tasks e₁ in
        let (new_deps, dep_rows, are_new) =
          (insert_dependencies-Adds run (ids env db fresh run input dag)
              (IsNewDependency env db fresh run input dag) dag db.deps
              (upstream-IsNewDependency env db fresh run input dag distinct)).at
            deps e₂ in
        let news = made env run input (ids env db fresh run input dag) dag in
        let run_row = new_run env db tenant d.id d.version input uri key in
        Holds-ok (λ r. IsSound r.1)
          (
            subst (λ ts. IsOrdered deps ts) (sym rows)
                (subst (λ ds. IsOrdered ds (db.tasks ++ news)) (sym dep_rows)
                  (inserted-IsOrdered env db fresh run input dag new_deps has distinct are_new
                    sound.0)),
            subst (λ ts. IsDone ts (db.runs ++ run_row ∷ [])) (sym rows)
                (IsDone-created db.tasks news db.runs run_row
                  (fresh.unused db.drawn (omega arith)).2
                  (made-of_run env db fresh run input dag has distinct) refl sound.1),
          )

  -- `CreateRun` keeps a sound database sound, for stored graphs that are
  -- maps and random UUIDs that neither repeat nor are ids of rows: the new tasks that may start wait for
  -- nothing, and no run that has SUCCEEDED gets a task.
  pub create_run-IsSound :
      HasMaps db
      → (id : ℕ) (key given : String) (artifact : Option ℕ)
      → Holds (λ r. IsSound r.1) (create_run env tenant user id key given artifact db)
  unfolding create_run
  create_run-IsSound maps id key given artifact = Holds-bind _ _ _ λ u e₀.
      Holds-bind _ _ _ λ uri e₁. Holds-bind _ _ _ λ d e₂.
        elim (Bool-cases (exists (has_key tenant key) db.runs)) [
          | inl known ↦ rw known (Holds-bind _ _ _ λ existing e₃. Holds-ok _ sound)
          | inr new ↦ rw new (
              insert_run-IsSound d key (if str_eq given "" then "{}" else given) artifact uri
                (find?-All (λ d. DistinctKeys d.dag.tasks) (owned_definition tenant id)
                  db.definitions d (or_fail-eq-ok _ _ e₂) maps).1)
        ]
