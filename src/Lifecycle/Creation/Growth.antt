-- ===== src/Lifecycle/Creation/Growth.antt =====
-- The system with the transactions that add runs: those of `CreateRun` beside the steps on existing rows.
use run_mesh.Base.{
  ℕ, String, Bool, ◌≡◌, refl, Option, List, [], ◌∷◌, ◌++◌, Bool-cases, inl, inr, ok, Holds,
  Holds-bind, Holds-ok, str_eq, if◌then◌else◌,
}
use run_mesh.Base.Tables.{All, All-append, exists}
use run_mesh.Workflow.Model.{TaskSpec, Tasks, with_defaults}
use run_mesh.Store.Db.{Db, Env, TaskRun, Run, Definition, insert_event, insert_audit}
use run_mesh.Store.CreateRun.{create_run, insert_run, insert_tasks, has_key, new_task, is_empty}
use run_mesh.Lifecycle.Step.{Step, here, next}
use run_mesh.Lifecycle.Invariant.{LeaseIsValid, IsSound}
use run_mesh.Lifecycle.Invariant.Tables.{Table}
use run_mesh.Lifecycle.Invariant.Leases.{Step-Lease}
use run_mesh.Lifecycle.Invariant.Ordering.{Reach-IsOrdered}
use run_mesh.Lifecycle.Invariant.Completion.{Reach-IsDone}
use run_mesh.Lifecycle.Creation.Ids.{DrawsFresh}
use run_mesh.Lifecycle.Creation.Created.{HasMaps, create_run-IsSound}

-- Any sequence of committed transactions on tasks and runs, from an earlier database to a later one.
pub data Growth (db : Db) : Db → Type 0 where
  start : Growth db db
  step : {db₁ db₂ : Db} → Growth db db₁ → Step db₁ db₂ → Growth db db₂
  create :
      {db₁ db₂ : Db}
      → Growth db db₁
      → (env : Env) (tenant : ℕ) (user : Option ℕ) (id : ℕ) (key input : String)
        (artifact : Option ℕ) (r : Run × Bool)
      → DrawsFresh env db₁
      → HasMaps db₁
      → create_run env tenant user id key input artifact db₁ ≡ ok (r, db₂)
      → Growth db db₂

-- A new task has no lease.
new_task-LeaseIsValid :
    (env : Env) (run : ℕ) (input key : String) (id : ℕ) (spec : TaskSpec)
    → LeaseIsValid (new_task env run input key id spec)
unfolding new_task with_defaults
new_task-LeaseIsValid env run input key id spec = elim (Bool-cases (is_empty spec.depends_on)) [
  | inl first ↦ rw first (refl, λ h. absurd (cc))
  | inr later ↦ rw later (refl, λ h. absurd (cc))
]

insert_tasks-Lease :
    (env : Env) (run : ℕ) (input : String) (ids : List (String × ℕ)) (rest : Tasks)
    (tasks : List TaskRun)
    → All LeaseIsValid tasks
    → Holds (All LeaseIsValid) (insert_tasks env run input ids rest tasks)
unfolding insert_tasks
insert_tasks-Lease env run input ids [] tasks h = Holds-ok _ h
insert_tasks-Lease env run input ids ((key, spec) ∷ rest) tasks h = Holds-bind _ _ _ λ id e₁.
    Holds-bind _ _ _ λ u e₂.
      insert_tasks-Lease env run input ids rest (tasks ++ new_task env run input key id spec ∷ []) (
        All-append LeaseIsValid tasks (new_task env run input key id spec ∷ []) h
          (new_task-LeaseIsValid env run input key id spec, tt))

module _ (env : Env) (tenant : ℕ) (user : Option ℕ) where
  insert_run-Lease :
      (d : Definition) (key input : String) (artifact : Option ℕ) (uri : Option String) (db : Db)
      → All LeaseIsValid db.tasks
      → Holds
          (λ r. All LeaseIsValid r.1.tasks)
          (insert_run env tenant user d key input artifact uri db)
  unfolding insert_run insert_audit insert_event
  insert_run-Lease d key input artifact uri db h = Holds-bind _ _ _ λ artifacts e₀.
      Holds-bind _ _ _ λ tasks e₁. Holds-bind _ _ _ λ deps e₂.
        Holds-ok (λ r. All LeaseIsValid r.1.tasks)
          ((insert_tasks-Lease env _ input _ d.dag.tasks db.tasks h).at tasks e₁)

  create_run-Lease :
      (id : ℕ) (key given : String) (artifact : Option ℕ) (db : Db)
      → All LeaseIsValid db.tasks
      → Holds
          (λ r. All LeaseIsValid r.1.tasks)
          (create_run env tenant user id key given artifact db)
  unfolding create_run
  create_run-Lease id key given artifact db h = Holds-bind _ _ _ λ u e₀. Holds-bind _ _ _ λ uri e₁.
      Holds-bind _ _ _ λ d e₂. elim (Bool-cases (exists (has_key tenant key) db.runs)) [
        | inl known ↦ rw known (Holds-bind _ _ _ λ existing e₃. Holds-ok _ h)
        | inr new ↦
            rw new
              (insert_run-Lease d key (if str_eq given "" then "{}" else given) artifact uri db h)
      ]

-- After any sequence of committed transactions on tasks and runs, those that create runs included, task ids are unique; a
-- task that is neither BLOCKED nor CANCELLED depends only on tasks that have SUCCEEDED; a SUCCEEDED
-- run has only tasks that have SUCCEEDED; and a lease expiry stands on exactly the tasks that are LEASED
-- or RUNNING, each of which has an owner. This holds at the start, for one the empty database. Where a run
-- is created, the stored graphs are maps, and the UUIDs neither repeat nor are ids of rows.
pub Growth-IsSound :
    {db db' : Db}
    → Growth db db'
    → IsSound db
    → Table LeaseIsValid db.tasks
    → IsSound db' × Table LeaseIsValid db'.tasks
Growth-IsSound start sound leases = (sound, leases)
Growth-IsSound (step g s) sound leases =
    let (sound₁, leases₁) = Growth-IsSound g sound leases in
    (
      (Reach-IsOrdered (next here s) sound₁.0, Reach-IsDone (next here s) sound₁.0 sound₁.1),
      Step-Lease s leases₁,
    )
Growth-IsSound {db' = db'}
      (create {db₁ = db₁} g env tenant user id key input artifact r fresh maps h) sound leases =
    let (sound₁, leases₁) = Growth-IsSound g sound leases in
    let sound₂ =
      (create_run-IsSound env tenant user db₁ fresh sound₁ maps id key input artifact).at (r, db')
        h in
    (
      sound₂,
      (
        sound₂.0.0,
        (create_run-Lease env tenant user id key input artifact db₁ leases₁.1).at (r, db') h,
      ),
    )
