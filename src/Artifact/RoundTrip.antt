-- ===== src/Artifact/RoundTrip.antt =====
-- An upload of internal/artifact/manager.go from its row to its download.
use run_mesh.Base.{
  ℕ, String, Bool, true, false, ◌&&◌, ◌≡◌, refl, sym, ap, subst, ◌∙◌, Option, some, [], ◌∷◌, ◌++◌,
  str_eq, ◌==◌, ==_refl, arith, eq_iff, ok, Holds, Holds-bind, Holds-ok, refuse_if-eq-ok, or_fail,
  ◌≢◌,
}
use run_mesh.Base.Int.{ℤ}
use run_mesh.Base.Tables.{
  find?, exists, update_where, find?-last, exists-stricter, update_where-last,
}
use run_mesh.Store.Db.{Db, Env, Artifact}
use run_mesh.Store.CreateRun.{is_uploaded}
use run_mesh.Store.Artifacts.{
  create_artifact, get_artifact_by_uri, get_artifact_where, can_complete, complete_artifact_row,
  same_artifact,
}
use run_mesh.Artifact.Manager.{Objects, complete, insert_upload}
use run_mesh.Artifact.Uploads.{is_owned, HasObject}
use run_mesh.Artifact.Completion.{
  IsCompleted, already, fresh, complete-IsCompleted, can_complete-found,
}

some-injective : {a b : Artifact} → some a ≡ some b → a ≡ b
some-injective e = cc

true≢false : true ≢ false
true≢false e = absurd (cc)

-- A new row stands at the end of its table, where no other row has its id or its names.
pub record IsNew (tenant : ℕ) (db : Db) (r : Artifact × Db) : Type 0 where
  pub last : r.1.artifacts ≡ db.artifacts ++ r.0 ∷ []
  pub alone : exists (same_artifact r.0.id r.0.object_key r.0.object_uri) db.artifacts ≡ false
  pub owner : r.0.tenant_id ≡ tenant
  pub pending : is_uploaded r.0.status ≡ false

module _ (env : Env) (id tenant : ℕ) (kind key uri content_type : String) (size : ℤ)
    (checksum : String) (task : Option ℕ) (db : Db) where
  create_artifact-IsNew :
      Holds
        (IsNew tenant db)
        (create_artifact env id tenant kind key uri content_type size checksum task db)
  unfolding create_artifact
  create_artifact-IsNew = Holds-bind _ _ _ λ u free. Holds-bind _ _ _ λ v sized.
      Holds-ok _
        (record { last = refl; alone = refuse_if-eq-ok _ _ free; owner = refl; pending = refl })

insert_upload-IsNew :
    (objects : Objects) (env : Env) (tenant : ℕ) (kind content_type : String) (size : ℤ)
    (given : String) (task : Option ℕ) (db : Db)
    → Holds
        (IsNew tenant db)
        (insert_upload objects env tenant kind content_type size given task db)
unfolding insert_upload
insert_upload-IsNew objects env tenant kind content_type size given task db =
    Holds-bind _ _ _ λ checksum checked. record {
      at = λ r made.
          let is = (create_artifact-IsNew env _ tenant kind _ _ _ size checksum task _).at r made in
          record { last = is.last; alone = is.alone; owner = is.owner; pending = is.pending };
    }

abbrev is_named : ℕ → String → Artifact → Bool
is_named tenant uri a = a.tenant_id == tenant && str_eq a.object_uri uri

get_artifact_by_uri-found :
    (tenant : ℕ) (uri : String) (db : Db) (a : Artifact)
    → find? (is_named tenant uri) db.artifacts ≡ some a
    → get_artifact_by_uri tenant uri db ≡ ok a
unfolding get_artifact_by_uri get_artifact_where or_fail
get_artifact_by_uri-found tenant uri db a h = rw (get_artifact_by_uri, h) refl

module _ (objects : Objects) (env : Env) (tenant : ℕ) (db db₁ : Db) (a : Artifact) where
  owned : IsNew tenant db (a, db₁) → is_owned tenant a.id a ≡ true
  owned new = let owner = new.owner in ground arith

  here : IsNew tenant db (a, db₁) → find? (is_owned tenant a.id) db₁.artifacts ≡ some a
  here new =
      let none_before =
        exists-stricter (same_artifact a.id a.object_key a.object_uri) (is_owned tenant a.id)
          db.artifacts (λ x h. ground arith) new.alone in
      rw new.last (find?-last (is_owned tenant a.id) db.artifacts a none_before (owned new))

  -- The completion of a new row is not the early return, and changes that row only.
  IsNew-IsCompleted :
      {r : Artifact × Db}
      → IsNew tenant db (a, db₁)
      → IsCompleted objects env tenant a.id db₁ r
      → (r.1.artifacts ≡ db.artifacts ++ r.0 ∷ [])
        × (is_uploaded r.0.status ≡ true)
        × (r.0.tenant_id ≡ tenant)
        × (r.0.object_uri ≡ a.object_uri)
  IsNew-IsCompleted new (already b found done) =
      let same : a ≡ b = some-injective (sym (here new) ∙ found) in
      absurd (true≢false (sym done ∙ ap (λ x. is_uploaded x.status) (sym same) ∙ new.pending))
  IsNew-IsCompleted new (fresh x length found pending object) =
      let same : a ≡ x = some-injective (sym (here new) ∙ found) in
      let changed =
        update_where-last (can_complete tenant a.id length) (complete_artifact_row env length)
          db.artifacts a
          (exists-stricter (same_artifact a.id a.object_key a.object_uri)
            (can_complete tenant a.id length) db.artifacts (λ y h. ground arith) new.alone)
          (can_complete-found objects tenant a.id a length (owned new) new.pending
            (subst (λ y. HasObject objects y length) (sym same) object)) in
      let rows =
        ap (update_where (can_complete tenant a.id length) (complete_artifact_row env length))
          new.last in
      let row = ap (complete_artifact_row env length) same in
      (
        rows ∙ changed ∙ ap (λ y. db.artifacts ++ y ∷ []) row,
        refl,
        ap (λ y. y.tenant_id) (sym same) ∙ new.owner,
        ap (λ y. y.object_uri) (sym same),
      )

-- An artifact that is uploaded and completed is found again by its URI, READY, as the completion has
-- returned it.
pub insert_upload-complete-get_artifact_by_uri :
    (objects : Objects) (env env' : Env) (tenant : ℕ) (kind content_type : String) (size : ℤ)
    (given : String) (task : Option ℕ) (db db₁ db₂ : Db) (a b : Artifact)
    → insert_upload objects env tenant kind content_type size given task db ≡ ok (a, db₁)
    → complete objects env' tenant a.id db₁ ≡ ok (b, db₂)
    → (get_artifact_by_uri tenant a.object_uri db₂ ≡ ok b) × (is_uploaded b.status ≡ true)
insert_upload-complete-get_artifact_by_uri objects env env' tenant kind content_type size given task
      db db₁ db₂ a b inserted completed =
    let new =
      (insert_upload-IsNew objects env tenant kind content_type size given task db).at (a, db₁)
        inserted in
    let is = (complete-IsCompleted objects env' tenant a.id db₁).at (b, db₂) completed in
    let (rows, done, owner, uri) = IsNew-IsCompleted objects env' tenant db db₁ a new is in
    let alone =
      exists-stricter (same_artifact a.id a.object_key a.object_uri) (is_named tenant a.object_uri)
        db.artifacts (λ y h. ground arith) new.alone in
    let named : is_named tenant a.object_uri b ≡ true =
      rw (owner, ==_refl tenant) ((eq_iff b.object_uri a.object_uri).1 uri) in
    let found : find? (is_named tenant a.object_uri) db₂.artifacts ≡ some b =
      rw rows (find?-last (is_named tenant a.object_uri) db.artifacts b alone named) in
    (get_artifact_by_uri-found tenant a.object_uri db₂ b found, done)
