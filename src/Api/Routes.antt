-- ===== src/Api/Routes.antt =====
-- `Handler` of internal/api/server.go: the routes of the public API and what each requires.
use run_mesh.Base.{ℕ, List, Option, none, some, if◌then◌else◌, String, Bool, true, false, str_eq}
use run_mesh.Base.Tables.{exists}
use run_mesh.Workflow.Dag.{codes}
use run_mesh.Auth.Authenticate.{Principal}
use run_mesh.Api.Response.{Response, failure, success}
use run_mesh.Api.Access.{require, require_human_role}
use run_mesh.Api.Keys.{is_among}

pub data Route : Type 0 where
  create_workflow list_workflows get_workflow create_version create_run list_runs get_run : Route
  cancel_run retry_run events workers dead_letter replay : Route
  create_schedule patch_schedule delete_schedule : Route
  list_api_keys create_api_key rotate_api_key revoke_api_key : Route
  create_artifact_upload complete_artifact_upload download_artifact stream : Route

-- The wrapper of a handler: `auth.Require` with a role and a scope, or `auth.RequireHumanRole`.
pub data Access : Type 0 where
  by_role : String → String → Access
  by_human : String → Access

unfoldable pub access_of : Route → Access
access_of create_workflow = by_role "developer" "workflows:write"
access_of list_workflows = by_role "viewer" "workflows:read"
access_of get_workflow = by_role "viewer" "workflows:read"
access_of create_version = by_role "developer" "workflows:write"
access_of create_run = by_role "operator" "runs:execute"
access_of list_runs = by_role "viewer" "runs:read"
access_of get_run = by_role "viewer" "runs:read"
access_of cancel_run = by_role "operator" "runs:execute"
access_of retry_run = by_role "operator" "runs:execute"
access_of events = by_role "viewer" "runs:read"
access_of workers = by_role "viewer" "workers:read"
access_of dead_letter = by_role "operator" "dead-letter:read"
access_of replay = by_role "operator" "dead-letter:replay"
access_of create_schedule = by_role "developer" "schedules:write"
access_of patch_schedule = by_role "developer" "schedules:write"
access_of delete_schedule = by_role "developer" "schedules:write"
access_of list_api_keys = by_human "admin"
access_of create_api_key = by_human "admin"
access_of rotate_api_key = by_human "admin"
access_of revoke_api_key = by_human "admin"
access_of create_artifact_upload = by_role "developer" "artifacts:write"
access_of complete_artifact_upload = by_role "developer" "artifacts:write"
access_of download_artifact = by_role "viewer" "artifacts:read"
access_of stream = by_role "viewer" "runs:read"

unfoldable pub guarded {ℓ} : {Body : Type ℓ} → Access → Principal → Response Body → Response Body
unfolding require require_human_role
guarded (by_role role scope) p next = require role scope p next
guarded (by_human role) p next = require_human_role role p next

-- The routes whose method is GET.
abbrev pub is_get : Route → Bool
is_get list_workflows = true
is_get get_workflow = true
is_get list_runs = true
is_get get_run = true
is_get events = true
is_get workers = true
is_get dead_letter = true
is_get list_api_keys = true
is_get download_artifact = true
is_get stream = true
is_get _ = false

-- Whether the request reaches the handler.
abbrev pub has_passed : Response (Unit {0}) → Bool
has_passed (failure status message) = false
has_passed (success body) = true

abbrev pub passes : Route → Principal → Bool
passes r p = has_passed (guarded (access_of r) p (success tt))

-- `ready`: the database, and the rate limiter's store if it has to be ready too.
unfoldable pub ready : Bool → Option Bool → Response (ℕ × String)
ready false dependency = failure 503 (codes "database unavailable")
ready true (some false) = failure 503 (codes "rate limiter unavailable")
ready true _ = success (200, "ready")

-- The four headers that an allowed origin gets.
pub record CorsHeaders : Type 0 where
  pub allow_origin : String
  pub vary : String
  pub allow_headers : String
  pub allow_methods : String

abbrev cors_headers : List String → String → Option CorsHeaders
cors_headers allowlist origin =
    if is_among origin allowlist
    then some record {
      allow_origin = origin;
      vary = "Origin";
      allow_headers = "Content-Type, Idempotency-Key, Authorization";
      allow_methods = "GET, POST, PATCH, DELETE, OPTIONS";
    }
    else none

-- `cors`: a preflight request ends here with 204.
unfoldable pub cors {ℓ} :
    {Body : Type ℓ}
    → List String
    → String
    → String
    → Response Body
    → Option CorsHeaders × Option (Response Body)
unfolding exists
cors allowlist origin method next =
    (cors_headers allowlist origin, if str_eq method "OPTIONS" then none else some next)
