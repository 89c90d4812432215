-- ===== src/Api/Guards.antt =====
-- Which requests the routes of internal/api/server.go let through.
use run_mesh.Base.{ℕ, ◌≤◌, subst, ap, ◌∙◌, Bool, true, false, ◌≡◌, refl, arith}
use run_mesh.Base.Tables.{exists}
use run_mesh.Auth.Authenticate.{Principal, role_level, has_scope}
use run_mesh.Api.Access.{is_api_key}
use run_mesh.Api.Keys.{allowed_api_key_scopes, is_among}
use run_mesh.Api.Routes.{
  Route, Access, by_role, by_human, access_of, guarded, is_get, has_passed, passes,
}
use run_mesh.Api.Response.{success}

-- What lets an API key through: a scope that it has, of those that a key can be given.
abbrev pub GrantsScope : Principal → Access → Type 0
GrantsScope p (by_role role scope) =
    (has_scope p scope ≡ true) × (is_among scope allowed_api_key_scopes ≡ true)
GrantsScope p (by_human role) = ⊥

abbrev is_grantable : Access → Bool
is_grantable (by_role role scope) = is_among scope allowed_api_key_scopes
is_grantable (by_human role) = true

access_of-grantable : (r : Route) → is_grantable (access_of r) ≡ true
unfolding access_of exists
access_of-grantable Route.create_workflow = refl
access_of-grantable r = refl

guarded-GrantsScope :
    (a : Access) (p : Principal)
    → is_grantable a ≡ true
    → is_api_key p ≡ true
    → has_passed (guarded a p (success tt)) ≡ true
    → GrantsScope p a
unfolding guarded
guarded-GrantsScope (by_role role scope) p listed key h = (ground arith, listed)
guarded-GrantsScope (by_human role) p listed key h = absurd (ground arith)

-- An API key gets to the handler of a route only with the scope of the route, which is one of those that
-- keys are given, and never to a handler that manages API keys.
pub passes-GrantsScope :
    (r : Route) (p : Principal)
    → is_api_key p ≡ true
    → passes r p ≡ true
    → GrantsScope p (access_of r)
passes-GrantsScope r p key h = guarded-GrantsScope (access_of r) p (access_of-grantable r) key h

-- The least level of a role that a route asks of a person.
abbrev level_of : Access → ℕ
level_of (by_role role scope) = role_level role
level_of (by_human role) = role_level role

guarded-level :
    (a : Access) (p : Principal)
    → is_api_key p ≡ false
    → has_passed (guarded a p (success tt)) ≡ true
    → level_of a ≤ role_level p.role
unfolding guarded
guarded-level (by_role role scope) p person h = ground arith
guarded-level (by_human role) p person h = ground arith

-- A viewer's level is enough only for routes with the method GET.
access_of-is_get : (r : Route) → level_of (access_of r) ≤ 1 → is_get r ≡ true
unfolding access_of role_level
access_of-is_get Route.list_workflows h = refl
access_of-is_get r h = ground arith

viewer_level : role_level "viewer" ≡ 1
unfolding role_level
viewer_level = refl

-- A person whose role is viewer gets only to the handlers of the routes with the method GET.
pub viewer-passes :
    (r : Route) (p : Principal)
    → is_api_key p ≡ false
    → p.role ≡ "viewer"
    → passes r p ≡ true
    → is_get r ≡ true
viewer-passes r p person viewer h = access_of-is_get r (
    subst (λ level. level_of (access_of r) ≤ level) (ap role_level viewer ∙ viewer_level)
      (guarded-level (access_of r) p person h))
