-- ===== src/Api/Keys.antt =====
-- The handlers of internal/api/server.go for API keys. `random` is what `rand.Read` gives.
use run_mesh.Base.{ℕ, String, Bool, true, false, ◌||◌, not, Option, List, [], ◌∷◌, str_eq, ltb, suc}
use run_mesh.Base.Strings.{trim, len}
use run_mesh.Base.Tables.{exists}
use run_mesh.Store.Db.{Db, Env, ApiKey}
use run_mesh.Store.ApiKeys.{create_api_key, list_api_keys, rotate_api_key, revoke_api_key}
use run_mesh.Auth.Text.{Text}
use run_mesh.Auth.Tokens.{Platform, generate_api_key, generate_api_key_for_id}
use run_mesh.Auth.Authenticate.{Principal, has_expired}
use run_mesh.Api.Response.{
  Response, success, ◌>>=◌, ◌>>◌, fail_if, or_handle, Decoded, decode, Answer, items,
}

-- `allowedAPIKeyScopes`
abbrev pub allowed_api_key_scopes : List String
allowed_api_key_scopes =
    "workflows:read" ∷ "workflows:write" ∷ "runs:read" ∷ "runs:execute" ∷ "schedules:write"
    ∷ "workers:read" ∷ "workers:execute" ∷ "dead-letter:read" ∷ "dead-letter:replay"
    ∷ "artifacts:read" ∷ "artifacts:write" ∷ []

abbrev pub is_among : String → List String → Bool
is_among scope = exists (λ other. str_eq other scope)

-- The loop over the scopes, with those that it has seen.
unfoldable pub has_bad_scope : List String → List String → Bool
unfolding exists
has_bad_scope seen [] = false
has_bad_scope seen (scope ∷ scopes) =
    not (is_among scope allowed_api_key_scopes)
    || (is_among scope seen || has_bad_scope (scope ∷ seen) scopes)

pub record KeyRequest : Type 0 where
  pub name : String
  pub scopes : List String
  pub expires_at : Option ℕ

abbrev is_none : List String → Bool
is_none [] = true
is_none (scope ∷ scopes) = false

unfoldable pub list_api_keys_handler : Principal → Db → Response (Answer (List ApiKey))
list_api_keys_handler p db = items (list_api_keys p.tenant_id db) db

-- The body of the answer is the key and its token.
unfoldable pub create_api_key_handler :
    Platform
    → Env
    → Option Text
    → Text
    → Principal
    → Decoded KeyRequest
    → Db
    → Response (Answer (ApiKey × Text))
unfolding trim len has_bad_scope or_handle
create_api_key_handler platform env random pepper p body db = do
  req ← decode body
  let name = trim req.name
  fail_if (str_eq name "" || (ltb 100 (len name) || is_none req.scopes)) 422
      "name and at least one scope are required"
  fail_if (has_bad_scope [] req.scopes) 422 "invalid or duplicate API key scope"
  fail_if (has_expired env req.expires_at) 422 "expires_at must be in the future"
  made ← or_handle (generate_api_key platform random (env.new_uuid db.drawn) pepper)
  let (id, (token, hash)) = made
  stored ← or_handle (
      create_api_key env (env.new_uuid db.drawn) p.tenant_id p.user_id name req.scopes
        req.expires_at hash (record db { drawn = suc db.drawn }))
  let (key, db') = stored
  success (201, ((key, token), db'))

-- `text` is the id of the path as it is written.
unfoldable pub rotate_api_key_handler :
    Platform → Option Text → Text → Principal → ℕ → Text → Db → Response (Answer (ApiKey × Text))
unfolding or_handle
rotate_api_key_handler platform random pepper p id text db = do
  fail_if (not (platform.is_uuid text)) 400 "invalid API key id"
  made ← or_handle (generate_api_key_for_id platform random text pepper)
  let (token, hash) = made
  stored ← or_handle (rotate_api_key id p.tenant_id p.user_id hash db)
  let (key, db') = stored
  success (200, ((key, token), db'))

unfoldable pub revoke_api_key_handler : Env → Principal → ℕ → Db → Response (Answer (Unit {0}))
unfolding or_handle
revoke_api_key_handler env p id db = do
  done ← or_handle (revoke_api_key env id p.tenant_id p.user_id db)
  success (204, done)
