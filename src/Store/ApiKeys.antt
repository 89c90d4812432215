-- ===== src/Store/ApiKeys.antt =====
-- internal/storage/api_keys.go. The audit events of these calls are written outside of a transaction,
-- and their errors are ignored.
use run_mesh.Base.{
  ℕ, String, Bool, ◌&&◌, ◌||◌, not, Option, none, some, List, [], ◌∷◌, ◌++◌, str_eq, ◌==◌, leb,
  is_null, Result, ok, not_found, other, ◌>>=◌, ◌>>◌, refuse_if, or_fail,
}
use run_mesh.Base.Tables.{find?, select, exists, update_where, order_by}
use run_mesh.Store.Db.{Db, Env, ApiKey, insert_audit}

-- The primary key and UNIQUE (key_hash).
abbrev pub same_key : ℕ → String → ApiKey → Bool
same_key id hash k = k.id == id || str_eq k.key_hash hash

unfoldable pub create_api_key :
    Env → ℕ → ℕ → Option ℕ → String → List String → Option ℕ → String → Db → Result (ApiKey × Db)
create_api_key env id tenant user name scopes expires hash db = do
  refuse_if (exists (same_key id hash) db.api_keys)
      (other "duplicate key value violates unique constraint (SQLSTATE 23505)")
  ok (
    key,
    insert_audit tenant user "api_key.create" "api_key" id
        (record db { api_keys = db.api_keys ++ key ∷ [] }),
  )
  where
    key : ApiKey
    key = record {
      id = id;
      tenant_id = tenant;
      name = name;
      key_hash = hash;
      scopes = scopes;
      expires_at = expires;
      revoked_at = none;
      last_used_at = none;
      created_at = env.now;
    }

-- ORDER BY created_at DESC
unfoldable pub list_api_keys : ℕ → Db → List ApiKey
list_api_keys tenant db =
    order_by (λ a b. leb b.created_at a.created_at)
      (select (λ k. k.tenant_id == tenant) db.api_keys)

-- `WHERE id=$1 AND tenant_id=$2`
abbrev pub owned_key : ℕ → ℕ → ApiKey → Bool
owned_key id tenant k = k.id == id && k.tenant_id == tenant

abbrev pub rotate_row : String → ApiKey → ApiKey
rotate_row hash k = record k { key_hash = hash; last_used_at = none; revoked_at = none }

unfoldable pub rotate_api_key : ℕ → ℕ → Option ℕ → String → Db → Result (ApiKey × Db)
rotate_api_key id tenant user hash db = do
  k ← or_fail (find? (owned_key id tenant) db.api_keys) not_found
  refuse_if (exists (λ other. not (other.id == id) && str_eq other.key_hash hash) db.api_keys)
      (other "duplicate key value violates unique constraint (SQLSTATE 23505)")
  ok (
    rotate_row hash k,
    insert_audit tenant user "api_key.rotate" "api_key" id
        (record db { api_keys = update_where (owned_key id tenant) (rotate_row hash) db.api_keys }),
  )

-- `WHERE id=$1 AND tenant_id=$2 AND revoked_at IS NULL`
abbrev pub can_revoke : ℕ → ℕ → ApiKey → Bool
can_revoke id tenant k = owned_key id tenant k && is_null k.revoked_at

unfoldable pub revoke_api_key : Env → ℕ → ℕ → Option ℕ → Db → Result (Unit {0} × Db)
revoke_api_key env id tenant user db = do
  refuse_if (not (exists (can_revoke id tenant) db.api_keys)) not_found
  ok (
    tt,
    insert_audit tenant user "api_key.revoke" "api_key" id (record db {
      api_keys =
          update_where (can_revoke id tenant) (λ k. record k { revoked_at = some env.now })
            db.api_keys;
    }),
  )
