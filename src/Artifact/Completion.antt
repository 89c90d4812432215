-- ===== src/Artifact/Completion.antt =====
-- `Complete` of internal/artifact/manager.go: when an artifact is READY, and that it stays so.
use run_mesh.Base.{
  ℕ, true, false, ◌≡◌, inl, inr, refl, sym, subst, some, List, [], ◌∷◌, arith, ok, Holds,
  Holds-bind, Holds-ok, or_fail, ◌>>=◌, Bool-cases,
}
use run_mesh.Base.Int.{ℤ}
use run_mesh.Base.Tables.{All, find?, update_where, find?-All, find?-stricter, find?-update_where}
use run_mesh.Store.Db.{Db, Env, Artifact}
use run_mesh.Store.CreateRun.{is_uploaded}
use run_mesh.Store.Artifacts.{
  get_artifact, get_artifact_where, complete_artifact, can_complete, complete_artifact_row,
}
use run_mesh.Artifact.Manager.{Objects, complete}
use run_mesh.Artifact.Uploads.{is_owned, get_artifact-find?, HasObject, inspect-HasObject}

-- The artifact that a completion returns: the row as it was, READY already, or a row that was not and whose
-- object the store has as declared, which becomes READY.
pub data IsCompleted (objects : Objects) (env : Env) (tenant id : ℕ) (db : Db)
    : Artifact × Db → Type 0 where
  already :
      (b : Artifact)
      → find? (is_owned tenant id) db.artifacts ≡ some b
      → is_uploaded b.status ≡ true
      → IsCompleted objects env tenant id db (b, db)
  fresh :
      (a : Artifact) (length : ℤ)
      → find? (is_owned tenant id) db.artifacts ≡ some a
      → is_uploaded a.status ≡ false
      → HasObject objects a length
      → IsCompleted objects env tenant id db (
        complete_artifact_row env length a,
        record db {
          artifacts =
              update_where
                (can_complete tenant id length)
                (complete_artifact_row env length)
                db.artifacts;
        },
      )

-- The row that is found is one that a completion changes.
pub can_complete-found :
    (objects : Objects) (tenant id : ℕ) (a : Artifact) (length : ℤ)
    → is_owned tenant id a ≡ true
    → is_uploaded a.status ≡ false
    → HasObject objects a length
    → can_complete tenant id length a ≡ true
can_complete-found objects tenant id a length owned pending (nonnegative, size, head, sum) =
    ground arith

pub can_complete-is_owned :
    (tenant id : ℕ) (length : ℤ) (a : Artifact)
    → can_complete tenant id length a ≡ true
    → is_owned tenant id a ≡ true
can_complete-is_owned tenant id length a h = ground arith

All-true : (xs : List Artifact) → All (λ x. Unit {0}) xs
All-true [] = tt
All-true (x ∷ xs) = (tt, All-true xs)

found-is_owned :
    (tenant id : ℕ) (xs : List Artifact) (a : Artifact)
    → find? (is_owned tenant id) xs ≡ some a
    → is_owned tenant id a ≡ true
found-is_owned tenant id xs a h =
    (find?-All (λ x. Unit {0}) (is_owned tenant id) xs a h (All-true xs)).0

abbrev completed : Env → ℕ → ℕ → ℤ → Db → Db
completed env tenant id length db = record db {
  artifacts =
      update_where (can_complete tenant id length) (complete_artifact_row env length) db.artifacts;
}

complete_artifact-found :
    (env : Env) (tenant id : ℕ) (length : ℤ) (db : Db) (a : Artifact)
    → find? (can_complete tenant id length) db.artifacts ≡ some a
    → complete_artifact env tenant id length db
      ≡ ok (complete_artifact_row env length a, completed env tenant id length db)
unfolding complete_artifact or_fail ◌>>=◌
complete_artifact-found env tenant id length db a h = rw (complete_artifact, h) refl

get_artifact-found :
    (tenant id : ℕ) (db : Db) (a : Artifact)
    → find? (is_owned tenant id) db.artifacts ≡ some a
    → get_artifact tenant id db ≡ ok a
unfolding get_artifact get_artifact_where or_fail
get_artifact-found tenant id db a h = rw (get_artifact, h) refl

complete-uploaded :
    (objects : Objects) (env : Env) (tenant id : ℕ) (db : Db) (b : Artifact)
    → find? (is_owned tenant id) db.artifacts ≡ some b
    → is_uploaded b.status ≡ true
    → complete objects env tenant id db ≡ ok (b, db)
unfolding complete ◌>>=◌
complete-uploaded objects env tenant id db b found done =
    rw (complete, get_artifact-found tenant id db b found, done) refl

-- What a completion returns has become READY only with its object as declared.
pub complete-IsCompleted :
    (objects : Objects) (env : Env) (tenant id : ℕ) (db : Db)
    → Holds (IsCompleted objects env tenant id db) (complete objects env tenant id db)
unfolding complete
complete-IsCompleted objects env tenant id db = Holds-bind _ _ _ λ a got.
    let found = get_artifact-find? tenant id db a got in
    let owned = found-is_owned tenant id db.artifacts a found in
    elim (Bool-cases (is_uploaded a.status)) [
      | inl done ↦ rw done (Holds-ok _ (already a found done))
      | inr pending ↦ rw pending (
          Holds-bind _ _ _ λ length inspected.
            let object = (inspect-HasObject objects a).at length inspected in
            let here = can_complete-found objects tenant id a length owned pending object in
            let row =
              find?-stricter (is_owned tenant id) (can_complete tenant id length) db.artifacts a
                (can_complete-is_owned tenant id length) found here in
            subst (Holds (IsCompleted objects env tenant id db))
              (sym (complete_artifact-found env tenant id length db a row))
              (Holds-ok _ (fresh a length found pending object)))
    ]

-- The row that is returned is the one that is then found.
IsCompleted-found :
    (objects : Objects) (env : Env) (tenant id : ℕ) (db : Db) {r : Artifact × Db}
    → IsCompleted objects env tenant id db r
    → (find? (is_owned tenant id) r.1.artifacts ≡ some r.0) × (is_uploaded r.0.status ≡ true)
IsCompleted-found objects env tenant id db (already b found done) = (found, done)
IsCompleted-found objects env tenant id db (fresh a length found pending object) = (
  find?-update_where (is_owned tenant id) (can_complete tenant id length)
      (complete_artifact_row env length) db.artifacts a (can_complete-is_owned tenant id length)
      (can_complete-is_owned tenant id length) found
      (can_complete-found objects tenant id a length (found-is_owned tenant id db.artifacts a found)
        pending object),
  refl,
)

-- Completing an artifact again, at any time and whatever has become of its object, returns the same row
-- and changes nothing.
pub complete-complete :
    (objects objects' : Objects) (env env' : Env) (tenant id : ℕ) (db db' : Db) (b : Artifact)
    → complete objects env tenant id db ≡ ok (b, db')
    → complete objects' env' tenant id db' ≡ ok (b, db')
complete-complete objects objects' env env' tenant id db db' b h =
    let is = (complete-IsCompleted objects env tenant id db).at (b, db') h in
    let (found, done) = IsCompleted-found objects env tenant id db is in
    complete-uploaded objects' env' tenant id db' b found done
