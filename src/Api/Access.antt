-- ===== src/Api/Access.antt =====
-- `Middleware`, `WorkerMiddleware`, `Require` and `RequireHumanRole` of internal/auth/auth.go: what a
-- request passes before its handler runs.
use run_mesh.Base.{ℕ, String, Bool, ◌||◌, str_eq, ltb, if◌then◌else◌, ok, err}
use run_mesh.Store.Db.{Db, Env}
use run_mesh.Workflow.Dag.{codes}
use run_mesh.Auth.Tokens.{Platform, bearer}
use run_mesh.Auth.Authenticate.{
  Principal, Authenticator, Credentials, role_level, has_scope, authenticate_request,
  authenticate_worker,
}
use run_mesh.Api.Response.{Response, failure, Answer, settle}

abbrev pub is_api_key : Principal → Bool
is_api_key p = str_eq p.kind "api_key"

-- `roleLevel[principal.Role] < roleLevel[role]`
abbrev pub is_below : Principal → String → Bool
is_below p role = ltb (role_level p.role) (role_level role)

unfoldable pub require {ℓ} :
    {Body : Type ℓ} → String → String → Principal → Response Body → Response Body
unfolding has_scope role_level
require role scope p next =
    if is_api_key p
    then (if has_scope p scope then next else failure 403 (codes "insufficient scope"))
    else if is_below p role
    then failure 403 (codes "forbidden")
    else next

unfoldable pub require_human_role {ℓ} :
    {Body : Type ℓ} → String → Principal → Response Body → Response Body
unfolding role_level
require_human_role role p next =
    if is_api_key p || is_below p role
    then failure 403 (codes "interactive administrator required")
    else next

-- Both middlewares; `next` takes the principal and the database that the authentication leaves.
unfoldable pub middleware :
    {Body : Type 0}
    → Platform
    → Env
    → Authenticator
    → Credentials
    → Db
    → (Principal → Db → Response (Answer Body))
    → Response (ℕ × Body) × Db
unfolding settle authenticate_request
middleware platform env a r db next = elim (authenticate_request platform env a r db) [
  | err e ↦ (failure 401 (codes "unauthenticated"), db)
  | ok (p, db') ↦ settle db' (next p db')
]

unfoldable pub worker_middleware :
    {Body : Type 0}
    → Platform
    → Env
    → Authenticator
    → Credentials
    → Db
    → (Principal → Db → Response (Answer Body))
    → Response (ℕ × Body) × Db
unfolding settle authenticate_worker bearer
worker_middleware platform env a r db next =
    elim (authenticate_worker platform env a (bearer r.authorization) db) [
      | err e ↦ (failure 401 (codes "invalid worker credential"), db)
      | ok (p, db') ↦ settle db' (next p db')
    ]
