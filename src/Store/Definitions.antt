-- ===== src/Store/Definitions.antt =====
-- `CreateWorkflow`, `CreateVersion`, `ListWorkflows` and `GetWorkflow` of internal/storage/postgres.go.
-- A DAG comes back from its JSON column as it was stored.
use run_mesh.Base.{
  ℕ, suc, max, String, Bool, ◌&&◌, not, Option, none, some, List, [], ◌∷◌, ◌++◌, ◌⊎◌, inl, inr,
  str_eq, ◌==◌, ltb, if◌then◌else◌, Result, ok, err, not_found, conflict, other, ◌>>=◌, ◌>>◌,
  refuse_if, or_fail,
}
use run_mesh.Base.Tables.{find?, select, exists, order_by}
use run_mesh.Workflow.Model.{Dag}
use run_mesh.Workflow.Dag.{validate_dag, DagError}
use run_mesh.Store.Db.{Db, Env, Definition, insert_audit}
use run_mesh.Store.Errors.{duplicate_key, is_unique}
use run_mesh.Store.CreateRun.{owned_definition}

-- `WHERE tenant_id=$1 AND name=$2`
abbrev pub same_name : ℕ → String → Definition → Bool
same_name tenant name d = d.tenant_id == tenant && str_eq d.name name

-- UNIQUE (tenant_id, name, version)
abbrev pub same_version : ℕ → String → ℕ → Definition → Bool
same_version tenant name version d = same_name tenant name d && d.version == version

abbrev new_definition : Env → ℕ → String → ℕ → Dag → Db → Definition
new_definition env tenant name version dag db = record {
  id = env.new_uuid db.drawn;
  tenant_id = tenant;
  name = name;
  version = version;
  dag = dag;
  created_at = env.now;
}

-- INSERT INTO workflow_definitions, and its audit event.
unfoldable pub insert_definition :
    Env → ℕ → Option ℕ → String → ℕ → String → Dag → Db → Result (Definition × Db)
insert_definition env tenant user name version action dag db = do
  refuse_if (exists (same_version tenant name version) db.definitions) duplicate_key
  let d = new_definition env tenant name version dag db
  ok (
    d,
    insert_audit tenant user action "workflow" d.id
        (record db { definitions = db.definitions ++ d ∷ []; drawn = suc db.drawn }),
  )

-- `if isUnique(err) { return d, ErrConflict }`
unfoldable pub or_conflict {ℓ} : {A : Type ℓ} → Result A → Result A
or_conflict (ok a) = ok a
or_conflict (err e) = if is_unique e then err conflict else err e

-- The part after the validation.
unfoldable pub store_workflow : Env → ℕ → Option ℕ → String → Dag → Db → Result (Definition × Db)
unfolding insert_definition or_conflict
store_workflow env tenant user given dag db = do
  let name = if str_eq given "" then dag.name else given
  refuse_if (str_eq name "") (other "name is required")
  or_conflict (insert_definition env tenant user name 1 "workflow.create" dag db)

-- Refused by the validation, or the result of the store.
unfoldable pub create_workflow :
    Env → ℕ → Option ℕ → String → Dag → Db → DagError ⊎ Result (Definition × Db)
unfolding store_workflow
create_workflow env tenant user given dag db = elim (validate_dag dag) [
  | some e ↦ inl e
  | none ↦ inr (store_workflow env tenant user given dag db)
]

-- ORDER BY version DESC LIMIT 1
unfoldable pub latest_version : ℕ → String → List Definition → ℕ
latest_version tenant name [] = 0
latest_version tenant name (d ∷ ds) =
    let rest = latest_version tenant name ds in
    if same_name tenant name d then max d.version rest else rest

unfoldable pub store_version : Env → ℕ → Option ℕ → ℕ → Dag → Db → Result (Definition × Db)
unfolding insert_definition
store_version env tenant user definition dag db = do
  found ← or_fail (find? (owned_definition tenant definition) db.definitions) not_found
  insert_definition env tenant user found.name
      (suc (latest_version tenant found.name db.definitions)) "workflow.version" dag db

unfoldable pub create_version :
    Env → ℕ → Option ℕ → ℕ → Dag → Db → DagError ⊎ Result (Definition × Db)
unfolding store_version
create_version env tenant user definition dag db = elim (validate_dag dag) [
  | some e ↦ inl e
  | none ↦ inr (store_version env tenant user definition dag db)
]

-- SELECT DISTINCT ON (name) ... ORDER BY name,version DESC: the latest version of each name, in the
-- order `before` of the database's collation.
unfoldable pub list_workflows : (String → String → Bool) → ℕ → Db → List Definition
list_workflows before tenant db =
    order_by (λ a b. before a.name b.name)
      (select
        (λ d.
          d.tenant_id == tenant
          && not
              (exists (λ e. same_name tenant d.name e && ltb d.version e.version) db.definitions))
        db.definitions)

unfoldable pub get_workflow : ℕ → ℕ → Db → Result Definition
get_workflow tenant id db = or_fail (find? (owned_definition tenant id) db.definitions) not_found
