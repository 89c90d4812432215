-- ===== src/Api/Invalid.antt =====
-- How internal/api/server.go answers a workflow that `ValidateDAG` refuses.
use run_mesh.Base.{String, true, ◌≡◌, ◌≢◌, refl, some, Bool-cases, inl, inr}
use run_mesh.Workflow.Dag.{
  codes, DagError, no_tasks, too_many_tasks, too_many_edges, cycle, out_of_fuel, validate_dag,
}
use run_mesh.Workflow.Dag.Errors.{validate_dag-ne_out_of_fuel}
use run_mesh.Store.Db.{Db, Env, Definition}
use run_mesh.Store.Errors.{contains, starts_with}
use run_mesh.Store.Definitions.{create_workflow}
use run_mesh.Auth.Text.{Text}
use run_mesh.Auth.Authenticate.{Principal}
use run_mesh.Api.Response.{failure, by_message, dag_message, one, decode, ◌>>=◌}
use run_mesh.Api.Workflows.{WorkflowRequest, create_workflow_handler}

by_workflow {ℓ} :
    {Body : Type ℓ} (m : Text)
    → contains m (codes "workflow ") ≡ true
    → by_message {Body = Body} m ≡ failure 422 m
unfolding by_message
by_workflow m h = rw h refl

by_task {ℓ} :
    {Body : Type ℓ} (m : Text)
    → contains m (codes "task ") ≡ true
    → by_message {Body = Body} m ≡ failure 422 m
unfolding by_message
by_task m h = elim (Bool-cases (contains m (codes "workflow "))) [
  | inl hit ↦ rw hit refl
  | inr miss ↦ rw (miss, h) refl
]

by_message-dag_message {ℓ} :
    {Body : Type ℓ} (quote : String → Text) (e : DagError)
    → e ≢ out_of_fuel
    → by_message {Body = Body} (dag_message quote e) ≡ failure 422 (dag_message quote e)
unfolding dag_message contains starts_with
by_message-dag_message quote no_tasks h = by_workflow (dag_message quote no_tasks) refl
by_message-dag_message quote too_many_tasks h = by_workflow (dag_message quote too_many_tasks) refl
by_message-dag_message quote too_many_edges h = by_workflow (dag_message quote too_many_edges) refl
by_message-dag_message quote (cycle key) h = by_workflow (dag_message quote (cycle key)) refl
by_message-dag_message quote out_of_fuel h = absurd (h refl)
by_message-dag_message quote e h = by_task (dag_message quote e) refl

-- A workflow with tasks that are not valid is answered with 422 and the text of the error, which is never
-- that of a server error.
pub create_workflow_handler-invalid :
    (quote : String → Text) (env : Env) (p : Principal) (req : WorkflowRequest) (db : Db)
    (e : DagError)
    → validate_dag (record { name = req.name; tasks = req.tasks }) ≡ some e
    → create_workflow_handler quote env p (one req) db ≡ failure 422 (dag_message quote e)
unfolding create_workflow_handler create_workflow decode ◌>>=◌
create_workflow_handler-invalid quote env p req db e h =
    let message =
      by_message-dag_message {Body = Definition × Db} quote e
        (validate_dag-ne_out_of_fuel (record { name = req.name; tasks = req.tasks }) e h) in
    rw (create_workflow_handler, create_workflow, h, message) refl
