-- ===== src/Store/CreateRun.antt =====
-- `CreateRun` and `getRunTx` of internal/storage/postgres.go.
use run_mesh.Base.{
  ℕ, suc, ◌+◌, String, Bool, true, false, ◌&&◌, ◌||◌, Option, none, some, List, [], ◌∷◌, ◌++◌,
  str_eq, ◌==◌, is_null, if◌then◌else◌, Result, ok, err, not_found, conflict, other, ◌>>=◌, ◌>>◌,
  refuse_if, or_fail, not,
}
use run_mesh.Base.Tables.{find?, exists, update_where, length}
use run_mesh.Base.Int.{to_ℕ}
use run_mesh.Workflow.State.{RunStatus, ready, blocked}
use run_mesh.Workflow.Model.{TaskSpec, Tasks, with_defaults}
use run_mesh.Store.Db.{
  Db, Env, Definition, Run, TaskRun, Dependency, Artifact, ArtifactStatus, uploaded, uuid, text,
  insert_event, insert_audit,
}

-- `WHERE tenant_id=$1 AND idempotency_key=$2`
abbrev pub has_key : ℕ → String → Run → Bool
has_key tenant key r = r.tenant_id == tenant && str_eq r.idempotency_key key

abbrev pub is_uploaded : ArtifactStatus → Bool
is_uploaded uploaded = true
is_uploaded _ = false

-- `WHERE id=$1 AND tenant_id=$2 AND kind='input' AND status='READY'`
abbrev pub is_input : ℕ → ℕ → Artifact → Bool
is_input id tenant a =
    a.id == id && (a.tenant_id == tenant && (str_eq a.kind "input" && is_uploaded a.status))

-- The URI of the input artifact, if the request names one.
unfoldable pub input_uri : Db → ℕ → Option ℕ → Result (Option String)
input_uri db tenant none = ok none
input_uri db tenant (some id) = do
  a ← or_fail (find? (is_input id tenant) db.artifacts) not_found
  ok (some a.object_uri)

-- `WHERE id=$1 AND workflow_run_id IS NULL`
abbrev pub is_free : ℕ → Artifact → Bool
is_free id a = a.id == id && is_null a.workflow_run_id

-- An input artifact serves one run.
unfoldable pub attach_input : Option ℕ → ℕ → List Artifact → Result (List Artifact)
attach_input none run artifacts = ok artifacts
attach_input (some id) run artifacts = do
  refuse_if (not (exists (is_free id) artifacts)) conflict
  ok (update_where (is_free id) (λ a. record a { workflow_run_id = some run }) artifacts)

-- The loop that fills `ids`: one random UUID for each key, from the `n`-th draw on.
unfoldable pub assign_ids : Env → ℕ → Tasks → List (String × ℕ)
assign_ids env n [] = []
assign_ids env n ((key, spec) ∷ rest) = (key, env.new_uuid n) ∷ assign_ids env (suc n) rest

-- `ids[key]`
unfoldable pub id_of : String → List (String × ℕ) → Option ℕ
id_of key [] = none
id_of key ((k, id) ∷ rest) = if str_eq k key then some id else id_of key rest

abbrev pub is_empty {ℓ} : {A : Type ℓ} → List A → Bool
is_empty [] = true
is_empty (x ∷ xs) = false

unfoldable pub new_task : Env → ℕ → String → String → ℕ → TaskSpec → TaskRun
new_task env run input key id given =
    let spec = with_defaults given in
    record {
      id = id;
      workflow_run_id = run;
      task_key = key;
      handler = spec.handler;
      status = if is_empty spec.depends_on then ready else blocked;
      priority = spec.priority;
      available_at = env.now;
      attempt_count = 0;
      maximum_attempts = to_ℕ spec.maximum_attempts;
      timeout_seconds = to_ℕ spec.timeout_seconds;
      lease_owner = none;
      lease_expires_at = none;
      input = input;
      output = none;
      output_artifact_uri = none;
      created_at = env.now;
      updated_at = env.now;
    }

-- The loop over the tasks; CHECK (maximum_attempts > 0) and CHECK (timeout_seconds > 0) may refuse.
unfoldable pub insert_tasks :
    Env → ℕ → String → List (String × ℕ) → Tasks → List TaskRun → Result (List TaskRun)
insert_tasks env run input ids [] tasks = ok tasks
insert_tasks env run input ids ((key, spec) ∷ rest) tasks = do
  id ← or_fail (id_of key ids) (other "invalid input syntax for type uuid")
  let t = new_task env run input key id spec
  refuse_if (t.maximum_attempts == 0 || t.timeout_seconds == 0)
      (other "new row violates check constraint (SQLSTATE 23514)")
  insert_tasks env run input ids rest (tasks ++ t ∷ [])

abbrev pub same_dependency : ℕ → ℕ → Dependency → Bool
same_dependency id up d = d.task_run_id == id && d.depends_on_task_run_id == up

-- PRIMARY KEY (task_run_id, depends_on_task_run_id) and CHECK (task_run_id <> depends_on_task_run_id).
unfoldable pub insert_dependency : ℕ → ℕ → ℕ → List Dependency → Result (List Dependency)
insert_dependency run id up deps =
    if exists (same_dependency id up) deps || id == up
    then err (other "row violates a constraint of task_dependencies")
    else ok (
        deps
        ++ record { workflow_run_id = run; task_run_id = id; depends_on_task_run_id = up } ∷ [])

-- The inner loop over `spec.DependsOn`.
unfoldable pub insert_upstreams :
    ℕ → List (String × ℕ) → ℕ → List String → List Dependency → Result (List Dependency)
insert_upstreams run ids id [] deps = ok deps
insert_upstreams run ids id (dep ∷ rest) deps = do
  up ← or_fail (id_of dep ids) (other "invalid input syntax for type uuid")
  deps' ← insert_dependency run id up deps
  insert_upstreams run ids id rest deps'

-- The last loop over the tasks.
unfoldable pub insert_dependencies :
    ℕ → List (String × ℕ) → Tasks → List Dependency → Result (List Dependency)
insert_dependencies run ids [] deps = ok deps
insert_dependencies run ids ((key, spec) ∷ rest) deps = do
  id ← or_fail (id_of key ids) (other "invalid input syntax for type uuid")
  deps' ← insert_upstreams run ids id spec.depends_on deps
  insert_dependencies run ids rest deps'

-- `WHERE id=$1 AND tenant_id=$2`
abbrev pub owned_definition : ℕ → ℕ → Definition → Bool
owned_definition tenant id d = d.id == id && d.tenant_id == tenant

unfoldable pub get_run_tx : Db → ℕ → String → Result Run
get_run_tx db tenant key =
    or_fail (find? (has_key tenant key) db.runs) (other "no rows in result set")

abbrev pub new_run : Env → Db → ℕ → ℕ → ℕ → String → Option String → String → Run
new_run env db tenant definition version input uri key = record {
  id = env.new_uuid db.drawn;
  tenant_id = tenant;
  workflow_definition_id = definition;
  workflow_version = version;
  status = RunStatus.running;
  input = input;
  input_artifact_uri = uri;
  idempotency_key = key;
  trace_parent = env.trace_parent;
  started_at = some env.now;
  completed_at = none;
  created_at = env.now;
}

-- The transaction from the insertion of the run on, for a key that is new.
unfoldable pub insert_run :
    Env
    → ℕ
    → Option ℕ
    → Definition
    → String
    → String
    → Option ℕ
    → Option String
    → Db
    → Result ((Run × Bool) × Db)
insert_run env tenant user d key input artifact uri db = do
  let run = new_run env db tenant d.id d.version input uri key
  let ids = assign_ids env (suc db.drawn) d.dag.tasks
  artifacts ← attach_input artifact run.id db.artifacts
  tasks ← insert_tasks env run.id input ids d.dag.tasks db.tasks
  deps ← insert_dependencies run.id ids d.dag.tasks db.deps
  ok (
    (run, true),
    insert_audit tenant user "run.create" "workflow_run" run.id (
        insert_event env "workflow_run" run.id "workflow.run.created"
          (("workflow_run_id", uuid run.id)
            ∷ ("definition_id", uuid d.id)
            ∷ ("status", text "RUNNING")
            ∷ [])
          env.trace_parent
          (record db {
            runs = db.runs ++ run ∷ [];
            artifacts = artifacts;
            tasks = tasks;
            deps = deps;
            drawn = suc db.drawn + length d.dag.tasks;
          })),
  )

-- The result is the run, and whether this call has created it.
unfoldable pub create_run :
    Env → ℕ → Option ℕ → ℕ → String → String → Option ℕ → Db → Result ((Run × Bool) × Db)
create_run env tenant user definition key given artifact db = do
  refuse_if (str_eq key "") (other "idempotency key is required")
  let input = if str_eq given "" then "{}" else given
  uri ← input_uri db tenant artifact
  d ← or_fail (find? (owned_definition tenant definition) db.definitions) not_found
  if exists (has_key tenant key) db.runs
      then (do existing ← get_run_tx db tenant key; ok ((existing, false), db))
      else insert_run env tenant user d key input artifact uri db
