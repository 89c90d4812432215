-- ===== src/Store/Once.antt =====
-- Updates that can be made once.
use run_mesh.Base.{
  ℕ, Bool, false, ◌≡◌, refl, Option, List, [], ◌∷◌, arith, Bool-cases, inl, inr, ok, err, conflict,
  not_found, Holds, Holds-bind, Holds-ok, refuse_if, ◌>>=◌,
}
use run_mesh.Base.Tables.{exists, update_where}
use run_mesh.Store.Db.{Db, Env, insert_audit}
use run_mesh.Store.Artifacts.{attach_artifact_to_run, can_attach}
use run_mesh.Store.ApiKeys.{revoke_api_key, can_revoke}

-- After an update of the rows that pass a test, to rows that do not, no row passes it.
used_up :
    {A : Type 0} (p : A → Bool) (f : A → A) (xs : List A)
    → ((x : A) → p (f x) ≡ false)
    → exists p (update_where p f xs) ≡ false
unfolding exists update_where
used_up p f [] h = refl
used_up p f (x ∷ xs) h = elim (Bool-cases (p x)) [
  | inl hit ↦ rw (hit, h x, used_up p f xs h) refl
  | inr miss ↦ rw (miss, miss, used_up p f xs h) refl
]

-- What is left after the update has no row to update.
abbrev IsUsedUp : {A : Type 0} → (A → Bool) → (Db → List A) → Unit {0} × Db → Type 0
IsUsedUp p rows r = exists p (rows r.1) ≡ false

attach-IsUsedUp :
    (tenant id run : ℕ) (db : Db)
    → Holds
        (IsUsedUp (can_attach tenant id) (λ db'. db'.artifacts))
        (attach_artifact_to_run tenant id run db)
unfolding attach_artifact_to_run
attach-IsUsedUp tenant id run db =
    Holds-bind _ _ _
      λ _ _. Holds-ok _ (used_up (can_attach tenant id) _ db.artifacts (λ a. ground arith))

-- Once an artifact has been attached to a run, it can not be attached to a run again, the same one
-- included: the call ends in ErrConflict.
attach_artifact_to_run-once :
    (tenant id run run' : ℕ) (db db' : Db)
    → attach_artifact_to_run tenant id run db ≡ ok (tt, db')
    → attach_artifact_to_run tenant id run' db' ≡ err conflict
attach_artifact_to_run-once tenant id run run' db db' h =
    let none_left = (attach-IsUsedUp tenant id run db).at (tt, db') h in
    unfold attach_artifact_to_run refuse_if ◌>>=◌ in rw none_left refl

revoke-IsUsedUp :
    (env : Env) (id tenant : ℕ) (user : Option ℕ) (db : Db)
    → Holds
        (IsUsedUp (can_revoke id tenant) (λ db'. db'.api_keys))
        (revoke_api_key env id tenant user db)
unfolding revoke_api_key insert_audit
revoke-IsUsedUp env id tenant user db =
    Holds-bind _ _ _
      λ _ _. Holds-ok _ (used_up (can_revoke id tenant) _ db.api_keys (λ k. ground arith))

-- An API key that has been revoked can not be revoked again: the call ends in ErrNotFound.
revoke_api_key-once :
    (env env' : Env) (id tenant : ℕ) (user user' : Option ℕ) (db db' : Db)
    → revoke_api_key env id tenant user db ≡ ok (tt, db')
    → revoke_api_key env' id tenant user' db' ≡ err not_found
revoke_api_key-once env env' id tenant user user' db db' h =
    let none_left = (revoke-IsUsedUp env id tenant user db).at (tt, db') h in
    unfold revoke_api_key refuse_if ◌>>=◌ in rw none_left refl
