-- ===== src/Api/Workflows.antt =====
-- The handlers of internal/api/server.go for workflows. `quote` is the verb %q, and `before` the order of
-- texts in the collation of the database.
use run_mesh.Base.{ℕ, String, Bool, List}
use run_mesh.Workflow.Model.{Tasks}
use run_mesh.Store.Db.{Db, Env, Definition}
use run_mesh.Store.Definitions.{create_workflow, create_version, list_workflows, get_workflow}
use run_mesh.Auth.Text.{Text}
use run_mesh.Auth.Authenticate.{Principal}
use run_mesh.Api.Response.{
  Response, success, ◌>>=◌, or_handle, or_handle_dag, Decoded, decode, Answer, items,
}

pub record WorkflowRequest : Type 0 where
  pub name : String
  pub tasks : Tasks

unfoldable pub create_workflow_handler :
    (String → Text) → Env → Principal → Decoded WorkflowRequest → Db → Response (Answer Definition)
unfolding or_handle_dag
create_workflow_handler quote env p body db = do
  req ← decode body
  made ← or_handle_dag quote (
      create_workflow env p.tenant_id p.user_id req.name
        (record { name = req.name; tasks = req.tasks }) db)
  let (d, db') = made
  success (201, (d, db'))

-- The DAG of a version has no name of its own.
unfoldable pub create_version_handler :
    (String → Text)
    → Env
    → Principal
    → ℕ
    → Decoded WorkflowRequest
    → Db
    → Response (Answer Definition)
unfolding or_handle_dag
create_version_handler quote env p id body db = do
  req ← decode body
  made ←
      or_handle_dag quote
        (create_version env p.tenant_id p.user_id id (record { name = ""; tasks = req.tasks }) db)
  let (d, db') = made
  success (201, (d, db'))

unfoldable pub list_workflows_handler :
    (String → String → Bool) → Principal → Db → Response (Answer (List Definition))
list_workflows_handler before p db = items (list_workflows before p.tenant_id db) db

unfoldable pub get_workflow_handler : Principal → ℕ → Db → Response (Answer Definition)
unfolding or_handle
get_workflow_handler p id db = do
  d ← or_handle (get_workflow p.tenant_id id db)
  success (200, (d, db))
