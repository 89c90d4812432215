-- ===== src/Auth/Grants.antt =====
-- What a credential that internal/auth/auth.go accepts has behind it, and the end of a revoked key.
use run_mesh.Base.{
  not-false, ℕ, Bool, true, false, ◌&&◌, ◌||◌, not, ◌≡◌, refl, ap, sym, Option, none, some, List,
  [], ◌∷◌, arith, Result, ok, err, other, Holds, Holds-bind, Holds-ok, or_fail, >>=-eq-ok,
  or_fail-eq-ok, refuse_if-eq-ok, ◌>>=◌, Bool-cases, inl, inr, str_eq, eq_iff, if◌then◌else◌,
}
use run_mesh.Base.Tables.{All, find?, update_where}
use run_mesh.Workflow.Dag.{codes}
use run_mesh.Store.Db.{Db, Env, ApiKey, insert_audit}
use run_mesh.Store.Errors.{starts_with}
use run_mesh.Store.ApiKeys.{revoke_api_key, can_revoke}
use run_mesh.Auth.Text.{Text}
use run_mesh.Auth.Tokens.{Platform, hash_api_key, api_key_id}
use run_mesh.Auth.Authenticate.{
  Principal, Authenticator, is_unrevoked, has_expired, has_scope, authenticate_api_key,
  authenticate_oidc, authenticate, authenticate_worker,
}

-- The key behind a principal: its row has not been revoked and has not expired, its hash is that of the
-- token, and the tenant and the scopes are the row's.
pub record IsKeyOf (platform : Platform) (env : Env) (a : Authenticator) (raw : Text) (db : Db)
    (p : Principal) (k : ApiKey) : Type 0 where
  pub found : (id : ℕ) × (find? (is_unrevoked id) db.api_keys ≡ some k)
  pub same_hash : str_eq (hash_api_key platform raw a.config.api_key_pepper) k.key_hash ≡ true
  pub not_expired : has_expired env k.expires_at ≡ false
  pub same_tenant : p.tenant_id ≡ k.tenant_id
  pub same_scopes : p.scopes ≡ k.scopes

Holds-else :
    {A : Type 0} (P : A → Type 0) (c : Bool) (x y : Result A)
    → c ≡ false
    → Holds P y
    → Holds P (if c then x else y)
Holds-else P true x y e h = absurd (cc)
Holds-else P false x y e h = h

and_false : (x y : Bool) → x ≡ false → (x && y) ≡ false
and_false x y h = ground arith

passed : (x y : Bool) → (not x || y) ≡ false → (x ≡ true) × (y ≡ false)
passed x y h = ground arith

module _ (platform : Platform) (env : Env) (a : Authenticator) (raw : Text) (db : Db) where
  authenticate_oidc-IsOidc : Holds (λ p. p.kind ≡ "oidc") (authenticate_oidc platform a raw db)
  unfolding authenticate_oidc
  authenticate_oidc-IsOidc = Holds-bind _ _ _ λ verify e₁. Holds-bind _ _ _ λ claims e₂.
      Holds-bind _ _ _
        λ u e₃. Holds-bind _ _ _ λ tenant e₄. Holds-bind _ _ _ λ user e₅. Holds-ok _ refl

  authenticate_api_key-IsKeyOf :
      Holds
        (λ r. (k : ApiKey) × IsKeyOf platform env a raw db r.0 k)
        (authenticate_api_key platform env a raw db)
  unfolding authenticate_api_key
  authenticate_api_key-IsKeyOf = Holds-bind _ _ _ λ part e₁. Holds-bind _ _ _ λ id e₂.
      Holds-bind _ _ _ λ k found. Holds-bind _ _ _ λ u fresh.
        let checks = passed _ _ (refuse_if-eq-ok _ _ fresh) in
        Holds-ok _ (
          k,
          record {
            found = (id, or_fail-eq-ok _ _ found);
            same_hash = checks.0;
            not_expired = checks.1;
            same_tenant = refl;
            same_scopes = refl;
          },
        )

  authenticate-IsKeyOf :
      Holds
        (λ r. str_eq r.0.kind "api_key" ≡ true → (k : ApiKey) × IsKeyOf platform env a raw db r.0 k)
        (authenticate platform env a raw db)
  unfolding authenticate
  authenticate-IsKeyOf = Holds-bind _ _ _ λ u full.
      elim (Bool-cases (starts_with (codes "rm_") raw)) [
        | inl hit ↦ rw hit record { at = λ r e key. authenticate_api_key-IsKeyOf.at r e }
        | inr miss ↦ rw miss (
            Holds-bind _ _ _ λ p found. Holds-ok _ λ key.
              let kind = authenticate_oidc-IsOidc.at p found in
              absurd (ground (arith, eq_iff p.kind "api_key", eq_iff "oidc" "api_key")))
      ]

  -- Outside of development a worker is accepted only with the token of an API key that has not been
  -- revoked and has not expired, whose scopes have workers:execute, and for the key's tenant.
  pub authenticate_worker-IsKeyOf :
      a.config.dev ≡ false
      → Holds
          (λ r.
            (has_scope r.0 "workers:execute" ≡ true)
            × ((k : ApiKey) × IsKeyOf platform env a raw db r.0 k))
          (authenticate_worker platform env a raw db)
  unfolding authenticate_worker
  authenticate_worker-IsKeyOf production = Holds-else _ _ _ _ (and_false _ _ production) (
      Holds-bind _ _ _ λ found e. Holds-bind _ _ _ λ u allowed.
        let checks = passed _ _ (refuse_if-eq-ok _ _ allowed) in
        Holds-ok _ (not-false _ checks.1, authenticate-IsKeyOf.at found e checks.0))

abbrev revoke_row : Env → ApiKey → ApiKey
revoke_row env k = record k { revoked_at = some env.now }

-- The rows that a revocation leaves do not have the id unrevoked.
find?-revoked :
    (env : Env) (id tenant : ℕ) (keys : List ApiKey)
    → All (λ k. k.id ≡ id → k.tenant_id ≡ tenant) keys
    → find? (is_unrevoked id) (update_where (can_revoke id tenant) (revoke_row env) keys) ≡ none
unfolding find? update_where
find?-revoked env id tenant [] own = refl
find?-revoked env id tenant (k ∷ keys) own =
    let rest = find?-revoked env id tenant keys own.1 in ground arith

abbrev keys_left : Result (Unit {0} × Db) → List ApiKey
keys_left (ok (u, db)) = db.api_keys
keys_left (err e) = []

revoke_api_key-eq-ok :
    (env : Env) (id tenant : ℕ) (user : Option ℕ) (db db' : Db) {u : Unit {0}}
    → revoke_api_key env id tenant user db ≡ ok (u, db')
    → db'.api_keys ≡ update_where (can_revoke id tenant) (revoke_row env) db.api_keys
unfolding revoke_api_key insert_audit
revoke_api_key-eq-ok env id tenant user db db' h =
    let (u, owned, rest) = >>=-eq-ok _ _ h in sym (ap keys_left rest)

-- A token is refused once the key of its id has been revoked, by the tenant that has the row.
pub revoke_api_key-authenticate :
    (platform : Platform) (env env' : Env) (a : Authenticator) (id tenant : ℕ) (user : Option ℕ)
    (raw part : Text) (db db' : Db) {u : Unit {0}}
    → All (λ k. k.id ≡ id → k.tenant_id ≡ tenant) db.api_keys
    → api_key_id platform raw ≡ some part
    → platform.uuid_of part ≡ some id
    → revoke_api_key env id tenant user db ≡ ok (u, db')
    → authenticate_api_key platform env' a raw db' ≡ err (other "no rows in result set")
unfolding authenticate_api_key or_fail ◌>>=◌
revoke_api_key-authenticate platform env env' a id tenant user raw part db db' own named read
      revoked =
    let keys = revoke_api_key-eq-ok env id tenant user db db' revoked in
    let gone : find? (is_unrevoked id) db'.api_keys ≡ none =
      rw keys (find?-revoked env id tenant db.api_keys own) in
    rw (authenticate_api_key, named, read, gone) refl
