-- ===== src/Artifact/Uploads.antt =====
-- The life of an artifact in internal/artifact/manager.go and internal/storage/artifacts.go: inserted,
-- completed, downloaded.
use run_mesh.Base.{
  not-false, ℕ, suc, String, Bool, false, ◌&&◌, ◌≡◌, ◌⊎◌, inl, inr, refl, sym, ap, subst, ◌∙◌,
  Option, none, some, List, str_eq, ◌==◌, arith, eq_iff, Result, ok, err, Holds, Holds-bind,
  Holds-ok, or_fail-eq-ok, refuse_if-eq-ok, ◌>>=◌, Bool-cases,
}
use run_mesh.Base.Int.{ℤ, is_negative, to_ℕ}
use run_mesh.Base.Tables.{take, find?}
use run_mesh.Store.Db.{Db, Artifact}
use run_mesh.Store.Artifacts.{get_artifact}
use run_mesh.Artifact.Manager.{
  Objects, or_wrap, checksum_of, verify_checksum, inspect, is_other_size, length_of,
}

-- The row of a tenant by an id.
abbrev pub is_owned : ℕ → ℕ → Artifact → Bool
is_owned tenant id a = a.tenant_id == tenant && a.id == id

pub get_artifact-find? :
    (tenant id : ℕ) (db : Db) (a : Artifact)
    → get_artifact tenant id db ≡ ok a
    → find? (is_owned tenant id) db.artifacts ≡ some a
unfolding get_artifact
get_artifact-find? tenant id db a h = or_fail-eq-ok _ _ h

-- What the object store had when an artifact became READY: an object of the declared size, and, if a
-- checksum was declared, one whose content has that checksum.
abbrev pub HasObject : Objects → Artifact → ℤ → Type 0
HasObject objects a length =
    (is_negative length ≡ false)
    × (to_ℕ length ≡ a.declared_size)
    × (objects.head a.object_key ≡ ok (some length))
    × ((a.checksum_sha256 ≡ "")
        ⊎ ((bytes : List ℕ) × (objects.get a.object_key ≡ ok (ok bytes))
            × (objects.sha256_hex (take (suc a.declared_size) bytes) ≡ a.checksum_sha256)))

or_wrap-eq-ok {ℓ} :
    {A : Type ℓ} (prefix : String) (r : Result A) {a : A} → or_wrap prefix r ≡ ok a → r ≡ ok a
unfolding or_wrap
or_wrap-eq-ok prefix (ok b) h = h
or_wrap-eq-ok prefix (err e) h = absurd (cc)

checksum_of-eq-ok :
    (objects : Objects) (limit : ℕ) (body : Result (List ℕ)) {actual : String}
    → checksum_of objects limit body ≡ ok actual
    → (bytes : List ℕ) × (body ≡ ok bytes) × (objects.sha256_hex (take limit bytes) ≡ actual)
unfolding checksum_of ◌>>=◌
checksum_of-eq-ok objects limit (ok bytes) h = (bytes, refl, cc)
checksum_of-eq-ok objects limit (err e) h = absurd (cc)

verify_checksum-lem :
    (objects : Objects) (a : Artifact)
    → Holds
        (λ u.
          (bytes : List ℕ) × (objects.get a.object_key ≡ ok (ok bytes))
          × (objects.sha256_hex (take (suc a.declared_size) bytes) ≡ a.checksum_sha256))
        (verify_checksum objects a)
unfolding verify_checksum
verify_checksum-lem objects a = Holds-bind _ _ _ λ body got. Holds-bind _ _ _ λ actual read.
    record {
      at = λ u same.
          let (bytes, whole, digest) =
            checksum_of-eq-ok objects (suc a.declared_size) body (or_wrap-eq-ok _ _ read) in
          let equal =
            (eq_iff actual a.checksum_sha256).0 (not-false _ (refuse_if-eq-ok _ _ same)) in
          (bytes, or_wrap-eq-ok _ _ got ∙ ap ok whole, digest ∙ equal);
    }

is_other_size-lem :
    (length : Option ℤ) (declared : ℕ)
    → is_other_size length declared ≡ false
    → (n : ℤ) × (length ≡ some n)
      × (length_of length ≡ n)
      × (is_negative n ≡ false)
      × (to_ℕ n ≡ declared)
is_other_size-lem none declared h = absurd (cc)
is_other_size-lem (some n) declared h = (n, refl, refl, ground arith, ground arith)

pub inspect-HasObject :
    (objects : Objects) (a : Artifact) → Holds (HasObject objects a) (inspect objects a)
unfolding inspect
inspect-HasObject objects a = Holds-bind _ _ _ λ length got. Holds-bind _ _ _ λ u sized.
    let (n, is, same, nonnegative, declared) =
      is_other_size-lem length a.declared_size (refuse_if-eq-ok _ _ sized) in
    let head : objects.head a.object_key ≡ ok (some n) = or_wrap-eq-ok _ _ got ∙ ap ok is in
    elim (Bool-cases (str_eq a.checksum_sha256 "")) [
      | inl without ↦ rw without (
          Holds-ok _ (
            subst (HasObject objects a) (sym same)
              (nonnegative, declared, head, inl ((eq_iff a.checksum_sha256 "").0 without))))
      | inr with_checksum ↦ rw with_checksum (
          Holds-bind _ _ _ λ v verified. Holds-ok _ (
            subst (HasObject objects a) (sym same)
              (nonnegative, declared, head, inr ((verify_checksum-lem objects a).at v verified))))
    ]
