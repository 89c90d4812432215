-- ===== src/Api/Examples.antt =====
-- The routes and handlers of internal/api/server.go with concrete callers.
use run_mesh.Base.{true, ◌≡◌, refl, none, some, [], ◌∷◌}
use run_mesh.Base.Tables.{exists}
use run_mesh.Workflow.Dag.{codes, no_tasks, validate_dag}
use run_mesh.Store.Db.{Env, empty_db}
use run_mesh.Auth.Authenticate.{Principal, role_level, has_scope}
use run_mesh.Api.Access.{require}
use run_mesh.Api.Response.{failure, one, dag_message}
use run_mesh.Api.Routes.{Route, access_of, guarded, is_get, passes}
use run_mesh.Api.Guards.{GrantsScope, passes-GrantsScope, viewer-passes}
use run_mesh.Api.Workflows.{WorkflowRequest, create_workflow_handler}
use run_mesh.Api.Invalid.{create_workflow_handler-invalid}

abbrev machine : Principal
machine = record {
  tenant_id = 7;
  user_id = none;
  role = "viewer";
  kind = "api_key";
  scopes = "runs:read" ∷ "runs:execute" ∷ [];
}

abbrev person : Principal
person = record { tenant_id = 7; user_id = some 3; role = "viewer"; kind = "oidc"; scopes = [] }

machine-passes : passes Route.create_run machine ≡ true
unfolding guarded access_of require has_scope exists
machine-passes = refl

person-passes : passes Route.get_run person ≡ true
unfolding guarded access_of require role_level
person-passes = refl

passes-GrantsScope_example : GrantsScope machine (access_of Route.create_run)
passes-GrantsScope_example = passes-GrantsScope Route.create_run machine refl machine-passes

viewer-passes_example : is_get Route.get_run ≡ true
viewer-passes_example = viewer-passes Route.get_run person refl refl person-passes

abbrev nothing : WorkflowRequest
nothing = record { name = "etl"; tasks = [] }

abbrev env : Env
env = record { now = 9; clock = 9; trace_parent = ""; new_uuid = λ n. n }

refused : validate_dag (record { name = "etl"; tasks = [] }) ≡ some no_tasks
unfolding validate_dag
refused = refl

create_workflow_handler-invalid_example :
    create_workflow_handler codes env person (one nothing) empty_db
    ≡ failure 422 (dag_message codes no_tasks)
create_workflow_handler-invalid_example =
    create_workflow_handler-invalid codes env person nothing empty_db no_tasks refused
