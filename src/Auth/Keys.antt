-- ===== src/Auth/Keys.antt =====
-- What becomes of the API keys that internal/auth/auth.go and internal/storage/api_keys.go make together:
-- the tokens that are issued are those that are accepted.
use run_mesh.Base.{
  ℕ, suc, ap, ◌∙◌, String, true, false, ◌≡◌, refl, Option, none, some, List, [], ◌∷◌, ◌++◌, ◌==◌,
  ==_refl, err, sym, other, eq_iff, arith, Result, ok, Holds, Holds-bind, Holds-ok, or_fail,
  refuse_if, >>=-eq-ok, or_fail-eq-ok, refuse_if-eq-ok, ◌>>=◌, str_eq,
}
use run_mesh.Base.Tables.{find?, exists, update_where, find?-last, exists-stricter}
use run_mesh.Workflow.Dag.{codes}
use run_mesh.Store.Db.{Db, Env, ApiKey, insert_audit}
use run_mesh.Store.Errors.{starts_with}
use run_mesh.Store.ApiKeys.{create_api_key, same_key}
use run_mesh.Auth.Text.{Text, is_empty, text_eq, cut, cut-append, split_n}
use run_mesh.Auth.Tokens.{
  Platform, underscore, hash_api_key, token_of, generate_api_key_for_id, generate_api_key,
  api_key_id,
}
use run_mesh.Auth.Authenticate.{
  Principal, Authenticator, is_unrevoked, has_expired, authenticate_api_key, authenticate,
}

-- What the documentation of the packages says of the text that a UUID is shown as and of the encoding.
pub record PlatformLaws (platform : Platform) : Type 0 where
  pub no_underscore : (id : ℕ) → cut underscore (platform.show_uuid id) ≡ none
  pub shown : (id : ℕ) → platform.is_uuid (platform.show_uuid id) ≡ true
  pub read : (id : ℕ) → platform.uuid_of (platform.show_uuid id) ≡ some id
  pub encoded : (s : Text) → is_empty s ≡ false → is_empty (platform.encode s) ≡ false

module _ (platform : Platform) (laws : PlatformLaws platform) where
  cut-rm_ : (rest : Text) → cut underscore (codes "rm_" ++ rest) ≡ some (codes "rm", rest)
  unfolding cut
  cut-rm_ rest = refl

  split_n-cut :
      (n : ℕ) (s before after : Text)
      → cut underscore s ≡ some (before, after)
      → split_n underscore (suc (suc n)) s ≡ before ∷ split_n underscore (suc n) after
  unfolding split_n
  split_n-cut n s before after h = rw (split_n, h) refl

  split_n-token_of :
      (id secret : Text)
      → cut underscore id ≡ none
      → split_n underscore 3 (token_of platform id secret)
        ≡ codes "rm" ∷ id ∷ platform.encode secret ∷ []
  unfolding split_n token_of
  split_n-token_of id secret no_mark =
      split_n-cut 1 (token_of platform id secret) (codes "rm")
        (id ++ underscore ∷ platform.encode secret)
        (cut-rm_ (id ++ underscore ∷ platform.encode secret))
      ∙ ap (λ rest. codes "rm" ∷ rest)
          (split_n-cut 0 (id ++ underscore ∷ platform.encode secret) id (platform.encode secret)
            (cut-append underscore id (platform.encode secret) no_mark))

  -- The id of a token is the one it was made for, if it has no underscore, whatever the secret.
  api_key_id-token_of :
      (id secret : Text)
      → platform.is_uuid id ≡ true
      → cut underscore id ≡ none
      → is_empty secret ≡ false
      → api_key_id platform (token_of platform id secret) ≡ some id
  unfolding api_key_id text_eq
  api_key_id-token_of id secret valid no_mark full =
      let parts = split_n-token_of id secret no_mark in
      rw (api_key_id, parts, valid, laws.encoded secret full) refl

-- A row with a new id is the one that its id finds.
find?-append :
    (id : ℕ) (hash : String) (keys : List ApiKey) (k : ApiKey)
    → exists (same_key id hash) keys ≡ false
    → is_unrevoked id k ≡ true
    → find? (is_unrevoked id) (keys ++ k ∷ []) ≡ some k
find?-append id hash keys k free good =
    let none_before =
      exists-stricter (same_key id hash) (is_unrevoked id) keys (λ x h. ground arith) free in
    find?-last (is_unrevoked id) keys k none_before good

abbrev pub key_principal : ℕ → List String → Principal
key_principal tenant scopes = record {
  tenant_id = tenant;
  user_id = none;
  role = "viewer";
  kind = "api_key";
  scopes = scopes;
}

abbrev touch : Env → ℕ → Db → Db
touch env id db = record db {
  api_keys =
      update_where (λ k. k.id == id) (λ k. record k { last_used_at = some env.now }) db.api_keys;
}

module _ (platform : Platform) (env : Env) (a : Authenticator) (db : Db) where
  authenticate_api_key-lem :
      (raw part : Text) (id : ℕ) (k : ApiKey)
      → api_key_id platform raw ≡ some part
      → platform.uuid_of part ≡ some id
      → find? (is_unrevoked id) db.api_keys ≡ some k
      → str_eq (hash_api_key platform raw a.config.api_key_pepper) k.key_hash ≡ true
      → has_expired env k.expires_at ≡ false
      → authenticate_api_key platform env a raw db
        ≡ ok (key_principal k.tenant_id k.scopes, touch env id db)
  unfolding authenticate_api_key or_fail refuse_if ◌>>=◌
  authenticate_api_key-lem raw part id k h₁ h₂ h₃ h₄ h₅ =
      rw (authenticate_api_key, h₁, h₂, h₃, h₄, h₅) refl

  authenticate-token_of :
      (text secret : Text)
      → authenticate platform env a (token_of platform text secret) db
        ≡ authenticate_api_key platform env a (token_of platform text secret) db
  unfolding authenticate token_of starts_with refuse_if ◌>>=◌
  authenticate-token_of text secret = refl

stored_key : Env → ℕ → ℕ → String → List String → Option ℕ → String → ApiKey
stored_key env id tenant name scopes expires hash = record {
  id = id;
  tenant_id = tenant;
  name = name;
  key_hash = hash;
  scopes = scopes;
  expires_at = expires;
  revoked_at = none;
  last_used_at = none;
  created_at = env.now;
}

row_is_unrevoked :
    (env : Env) (id tenant : ℕ) (name : String) (scopes : List String) (expires : Option ℕ)
    (hash : String)
    → is_unrevoked id (stored_key env id tenant name scopes expires hash) ≡ true
unfolding stored_key
row_is_unrevoked env id tenant name scopes expires hash = rw (==_refl id) refl

abbrev keys_after : Result (ApiKey × Db) → List ApiKey
keys_after (ok (k, db)) = db.api_keys
keys_after (err e) = []

create_api_key-eq-ok :
    (env : Env) (id tenant : ℕ) (user : Option ℕ) (name : String) (scopes : List String)
    (expires : Option ℕ) (hash : String) (db db' : Db) (k : ApiKey)
    → create_api_key env id tenant user name scopes expires hash db ≡ ok (k, db')
    → (exists (same_key id hash) db.api_keys ≡ false)
      × (db'.api_keys ≡ db.api_keys ++ stored_key env id tenant name scopes expires hash ∷ [])
unfolding create_api_key insert_audit stored_key
create_api_key-eq-ok env id tenant user name scopes expires hash db db' k h =
    let (u, free, rest) = >>=-eq-ok _ _ h in (refuse_if-eq-ok _ _ free, sym (ap keys_after rest))

-- The token and its hash.
abbrev IsMade : Platform → Text → Text → Text → Text × String → Type 0
IsMade platform secret id pepper (token, hash) =
    (token ≡ token_of platform id secret) × (hash ≡ hash_api_key platform token pepper)

generate_api_key_for_id-IsMade :
    (platform : Platform) (secret id pepper : Text)
    → Holds
        (IsMade platform secret id pepper)
        (generate_api_key_for_id platform (some secret) id pepper)
unfolding generate_api_key_for_id
generate_api_key_for_id-IsMade platform secret id pepper = Holds-bind _ _ _ λ u valid.
    Holds-bind _ _ _ λ s got.
      let same : some secret ≡ some s = or_fail-eq-ok (some secret) (other "rand") got in
      let same' : s ≡ secret = cc in Holds-ok _ (ap (token_of platform id) same', refl)

generate_api_key-IsMade :
    (platform : Platform) (secret pepper : Text) (id : ℕ)
    → Holds
        (λ r. IsMade platform secret (platform.show_uuid id) pepper r.1)
        (generate_api_key platform (some secret) id pepper)
unfolding generate_api_key
generate_api_key-IsMade platform secret pepper id = Holds-bind _ _ _ λ made first.
    Holds-ok _ (
      (generate_api_key_for_id-IsMade platform secret (platform.show_uuid id) pepper).at made first)

module _ (platform : Platform) (laws : PlatformLaws platform) (a : Authenticator) where
  -- An API key that has been stored authenticates with the token it was made with, until it expires.
  pub create_api_key-authenticate :
      (env env' : Env) (id tenant : ℕ) (user : Option ℕ) (name : String) (scopes : List String)
      (expires : Option ℕ) (secret text token : Text) (hash : String) (db db' : Db) (k : ApiKey)
      → is_empty secret ≡ false
      → generate_api_key platform (some secret) id a.config.api_key_pepper
        ≡ ok (text, (token, hash))
      → create_api_key env id tenant user name scopes expires hash db ≡ ok (k, db')
      → has_expired env' expires ≡ false
      → (after : Db) × (authenticate platform env' a token db'
          ≡ ok (key_principal tenant scopes, after))
  unfolding stored_key
  create_api_key-authenticate env env' id tenant user name scopes expires secret text token hash db
        db' k full made stored live =
      let (is_token, is_hash) =
        (generate_api_key-IsMade platform secret a.config.api_key_pepper id).at
          (text, (token, hash)) made in
      let (free, keys) =
        create_api_key-eq-ok env id tenant user name scopes expires hash db db' k stored in
      let row : ApiKey = stored_key env id tenant name scopes expires hash in
      let found : find? (is_unrevoked id) db'.api_keys ≡ some row = rw keys (
        find?-append id hash db.api_keys row free
          (row_is_unrevoked env id tenant name scopes expires hash)) in
      let same_hash =
        (eq_iff
            (hash_api_key platform (token_of platform (platform.show_uuid id) secret)
              a.config.api_key_pepper)
            hash).1
          (ap (λ t. hash_api_key platform t a.config.api_key_pepper) (sym is_token)
            ∙ sym is_hash) in
      (
        touch env' id db',
        rw (is_token) (
            authenticate-token_of platform env' a db' (platform.show_uuid id) secret
            ∙ authenticate_api_key-lem platform env' a db'
                (token_of platform (platform.show_uuid id) secret) (platform.show_uuid id) id row
                (api_key_id-token_of platform laws (platform.show_uuid id) secret (laws.shown id)
                  (laws.no_underscore id) full)
                (laws.read id) found same_hash live),
      )
