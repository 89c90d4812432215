-- ===== src/Auth/Authenticate.antt =====
-- `Authenticator` of internal/auth/auth.go. The verifier of OIDC tokens is an argument; the context that
-- carries the principal from a middleware to its handler is an argument of the handler.
use run_mesh.Base.{
  ℕ, String, Bool, false, ◌&&◌, ◌||◌, not, Option, none, some, List, [], ◌∷◌, str_eq, ◌==◌, ltb,
  is_null, if◌then◌else◌, Result, ok, other, ◌>>=◌, ◌>>◌, refuse_if, or_fail,
}
use run_mesh.Base.Tables.{find?, exists, update_where}
use run_mesh.Workflow.Dag.{codes}
use run_mesh.Store.Db.{Db, Env, ApiKey, User}
use run_mesh.Store.Errors.{starts_with}
use run_mesh.Auth.Text.{Text, is_empty, text_eq, after_prefix, trim_space, split}
use run_mesh.Auth.Tokens.{Platform, hash_api_key, api_key_id, bearer}

-- A user without an id is none.
pub record Principal : Type 0 where
  pub tenant_id : ℕ
  pub user_id : Option ℕ
  pub role : String
  pub kind : String
  pub scopes : List String

pub record Config : Type 0 where
  pub dev : Bool
  pub dev_principal : Principal
  pub dev_worker_token : Text
  pub tenant_claim : Text
  pub api_key_pepper : Text

-- The claims of a verified token that are texts, by name.
abbrev pub Claims : Type 0
Claims = Text → Option Text

abbrev pub Verifier : Type 0
Verifier = Text → Result Claims

pub record Authenticator : Type 0 where
  pub config : Config
  pub verifier : Option Verifier

-- `remote` is the verifier that go-oidc makes from the issuer, the audience and the remote keys.
unfoldable pub new : Verifier → Config → Authenticator
new remote given = record {
  config = record given {
    tenant_claim =
        if is_empty given.tenant_claim then codes "runmesh_tenant_id" else given.tenant_claim;
  };
  verifier = if given.dev then none else some remote;
}

-- `roleLevel`, and 0 for a role that it does not have.
unfoldable pub role_level : String → ℕ
role_level role =
    if str_eq role "viewer"
    then 1
    else if str_eq role "operator"
    then 2
    else if str_eq role "developer"
    then 3
    else if str_eq role "admin"
    then 4
    else 0

unfoldable pub has_scope : Principal → String → Bool
unfolding exists
has_scope p required = exists (λ scope. str_eq scope required) p.scopes

abbrev claim_or_empty : Option Text → Text
claim_or_empty none = []
claim_or_empty (some claim) = claim

-- `WHERE tenant_id=$1 AND oidc_subject=$2`
abbrev pub same_user : ℕ → Text → User → Bool
same_user tenant subject u = u.tenant_id == tenant && text_eq u.oidc_subject subject

unfoldable pub authenticate_oidc : Platform → Authenticator → Text → Db → Result Principal
unfolding text_eq
authenticate_oidc platform a raw db = do
  verify ← or_fail a.verifier (other "OIDC is not configured")
  claims ← verify raw
  let subject = claim_or_empty (claims (codes "sub"))
  let tenant_id = claim_or_empty (claims a.config.tenant_claim)
  refuse_if (is_empty subject || is_empty tenant_id) (other "required identity claims are missing")
  tenant ← or_fail (platform.uuid_of tenant_id) (other "invalid input syntax for type uuid")
  u ← or_fail (find? (same_user tenant subject) db.users) (other "no rows in result set")
  ok (record {
    tenant_id = u.tenant_id;
    user_id = some u.id;
    role = u.role;
    kind = "oidc";
    scopes = [];
  })

-- `WHERE id=$1 AND revoked_at IS NULL`
abbrev pub is_unrevoked : ℕ → ApiKey → Bool
is_unrevoked id k = k.id == id && is_null k.revoked_at

-- `expiresAt != nil && !expiresAt.After(time.Now())`
abbrev pub has_expired : Env → Option ℕ → Bool
has_expired env none = false
has_expired env (some at) = not (ltb env.clock at)

-- An error of the last UPDATE is ignored.
unfoldable pub authenticate_api_key :
    Platform → Env → Authenticator → Text → Db → Result (Principal × Db)
unfolding hash_api_key api_key_id
authenticate_api_key platform env a raw db = do
  part ← or_fail (api_key_id platform raw) (other "malformed API key")
  id ← or_fail (platform.uuid_of part) (other "invalid input syntax for type uuid")
  k ← or_fail (find? (is_unrevoked id) db.api_keys) (other "no rows in result set")
  refuse_if
      (not (str_eq (hash_api_key platform raw a.config.api_key_pepper) k.key_hash)
        || has_expired env k.expires_at)
      (other "invalid API key")
  ok (
    record {
      tenant_id = k.tenant_id;
      user_id = none;
      role = "viewer";
      kind = "api_key";
      scopes = k.scopes;
    },
    record db {
      api_keys =
          update_where (λ k. k.id == id) (λ k. record k { last_used_at = some env.now })
            db.api_keys;
    },
  )

unfoldable pub authenticate : Platform → Env → Authenticator → Text → Db → Result (Principal × Db)
unfolding authenticate_api_key authenticate_oidc starts_with
authenticate platform env a raw db = do
  refuse_if (is_empty raw) (other "missing bearer token")
  if starts_with (codes "rm_") raw
      then authenticate_api_key platform env a raw db
      else (do p ← authenticate_oidc platform a raw db; ok (p, db))

unfoldable pub authenticate_worker :
    Platform → Env → Authenticator → Text → Db → Result (Principal × Db)
unfolding authenticate has_scope text_eq
authenticate_worker platform env a raw db =
    if a.config.dev && (not (is_empty raw) && text_eq raw a.config.dev_worker_token)
    then ok (
      record a.config.dev_principal { kind = "development"; scopes = "workers:execute" ∷ [] },
      db,
    )
    else do
      found ← authenticate platform env a raw db
      let (p, db₁) = found
      refuse_if (not (str_eq p.kind "api_key") || not (has_scope p "workers:execute"))
          (other "worker scope is required")
      ok (p, db₁)

-- The first protocol of the header that carries a token.
unfoldable pub first_token : List Text → Text
unfolding trim_space after_prefix
first_token [] = []
first_token (protocol ∷ protocols) = elim (after_prefix (codes "bearer.") (trim_space protocol)) [
  | some token ↦ token
  | none ↦ first_token protocols
]

unfoldable pub web_socket_bearer : Text → Text
unfolding split first_token
web_socket_bearer protocols = first_token (split b',' protocols)

-- What the middlewares read of a request: its path and two headers.
pub record Credentials : Type 0 where
  pub path : Text
  pub authorization : Text
  pub protocols : Text

unfoldable pub authenticate_request :
    Platform → Env → Authenticator → Credentials → Db → Result (Principal × Db)
unfolding authenticate web_socket_bearer bearer text_eq
authenticate_request platform env a r db =
    if a.config.dev
    then ok (record a.config.dev_principal { kind = "development" }, db)
    else authenticate platform env a
        (if is_empty (bearer r.authorization) && text_eq r.path (codes "/v1/stream")
          then web_socket_bearer r.protocols
          else bearer r.authorization)
        db
