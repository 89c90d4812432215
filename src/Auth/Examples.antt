-- ===== src/Auth/Examples.antt =====
-- The authenticator of internal/auth/auth.go with concrete packages and keys.
use run_mesh.Base.{
  ℕ, ◌+◌, ◌-◌, Bool, true, false, ◌≡◌, refl, Option, none, some, [], ◌∷◌, ap, arith, leb, ok, err,
  other, Holds, refuse_if, or_fail, ◌>>=◌,
}
use run_mesh.Base.Tables.{All, exists, update_where}
use run_mesh.Workflow.Dag.{codes}
use run_mesh.Store.Db.{Db, Env, ApiKey, empty_db, insert_audit}
use run_mesh.Store.ApiKeys.{create_api_key, revoke_api_key}
use run_mesh.Auth.Text.{Text, text_eq, cut, split_n}
use run_mesh.Auth.Tokens.{
  Platform, underscore, hash_api_key, token_of, generate_api_key_for_id, generate_api_key,
  api_key_id,
}
use run_mesh.Auth.Authenticate.{
  Authenticator, has_scope, authenticate_api_key, authenticate, authenticate_worker,
}
use run_mesh.Auth.Keys.{PlatformLaws, create_api_key-authenticate, key_principal}
use run_mesh.Auth.Grants.{IsKeyOf, authenticate_worker-IsKeyOf, revoke_api_key-authenticate}

-- A UUID is shown as one character, past the underscore; a secret is its own encoding.
abbrev one_letter : Text → Bool
one_letter (c ∷ []) = leb 96 c
one_letter _ = false

abbrev letter_id : Text → Option ℕ
letter_id (c ∷ []) = some (c - 96)
letter_id _ = none

abbrev platform : Platform
platform = record {
  is_uuid = one_letter;
  uuid_of = letter_id;
  show_uuid = λ id. (96 + id) ∷ [];
  encode = λ secret. secret;
  sha256 = λ t. "digest";
}

laws : PlatformLaws platform
unfolding cut
laws = record {
  no_underscore = no_underscore;
  shown = λ id. ground arith;
  read = λ id. ap some (omega arith);
  encoded = λ s full. full;
}
  where
    no_underscore : (id : ℕ) → cut underscore ((96 + id) ∷ []) ≡ none
    no_underscore id = ground arith

-- A secret with an underscore.
abbrev secret : Text
secret = codes "a_b"

abbrev service : Authenticator
service = record {
  config = record {
    dev = false;
    dev_principal = key_principal 0 [];
    dev_worker_token = [];
    tenant_claim = codes "runmesh_tenant_id";
    api_key_pepper = codes "pepper";
  };
  verifier = none;
}

abbrev at_noon : Env
at_noon = record { now = 100; clock = 100; trace_parent = ""; new_uuid = λ n. n }

abbrev token : Text
token = codes "rm_h_a_b"

abbrev key_row : ApiKey
key_row = record {
  id = 8;
  tenant_id = 7;
  name = "ci";
  key_hash = "digest";
  scopes = "workers:execute" ∷ [];
  expires_at = some 500;
  revoked_at = none;
  last_used_at = none;
  created_at = 100;
}

abbrev with_key : Db
with_key =
    insert_audit 7 none "api_key.create" "api_key" 8 (record empty_db { api_keys = key_row ∷ [] })

created :
    create_api_key at_noon 8 7 none "ci" ("workers:execute" ∷ []) (some 500) "digest" empty_db
    ≡ ok (key_row, with_key)
unfolding create_api_key insert_audit refuse_if exists ◌>>=◌
created = refl

made :
    generate_api_key platform (some secret) 8 (codes "pepper") ≡ ok (codes "h", (token, "digest"))
unfolding generate_api_key generate_api_key_for_id token_of hash_api_key refuse_if or_fail ◌>>=◌
made = refl

create_api_key-authenticate_example :
    (after : Db) × (authenticate platform at_noon service token with_key
      ≡ ok (key_principal 7 ("workers:execute" ∷ []), after))
create_api_key-authenticate_example =
    create_api_key-authenticate platform laws service at_noon at_noon 8 7 none "ci"
      ("workers:execute" ∷ []) (some 500) secret (codes "h") token "digest" empty_db with_key
      key_row refl made created refl

authenticate_worker-IsKeyOf_example :
    Holds
      (λ r.
        (has_scope r.0 "workers:execute" ≡ true)
        × ((k : ApiKey) × IsKeyOf platform at_noon service token with_key r.0 k))
      (authenticate_worker platform at_noon service token with_key)
authenticate_worker-IsKeyOf_example =
    authenticate_worker-IsKeyOf platform at_noon service token with_key refl

abbrev without_key : Db
without_key =
    insert_audit 7 none "api_key.revoke" "api_key" 8
      (record with_key { api_keys = record key_row { revoked_at = some 100 } ∷ [] })

revoked : revoke_api_key at_noon 8 7 none with_key ≡ ok (tt, without_key)
unfolding revoke_api_key insert_audit refuse_if exists update_where ◌>>=◌
revoked = refl

token_id : api_key_id platform token ≡ some (codes "h")
unfolding api_key_id split_n cut text_eq
token_id = refl

keys_of_tenant : All (λ k. k.id ≡ 8 → k.tenant_id ≡ 7) with_key.api_keys
unfolding insert_audit
keys_of_tenant = (λ same. refl, tt)

revoke_api_key-authenticate_example :
    authenticate_api_key platform at_noon service token without_key
    ≡ err (other "no rows in result set")
revoke_api_key-authenticate_example =
    revoke_api_key-authenticate platform at_noon at_noon service 8 7 none token (codes "h") with_key
      without_key keys_of_tenant token_id refl revoked
