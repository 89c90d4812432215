-- ===== src/Store/Artifacts.antt =====
-- internal/storage/artifacts.go.
use run_mesh.Base.{
  ℕ, String, Bool, ◌&&◌, ◌||◌, not, Option, none, some, [], ◌∷◌, ◌++◌, str_eq, ◌==◌, is_null,
  Result, ok, not_found, conflict, other, ◌>>=◌, ◌>>◌, refuse_if, or_fail,
}
use run_mesh.Base.Int.{ℤ, is_negative, to_ℕ}
use run_mesh.Base.Tables.{find?, exists, update_where}
use run_mesh.Store.Db.{Db, Env, Artifact, pending_upload, uploaded}
use run_mesh.Store.CreateRun.{is_uploaded}

-- The primary key, UNIQUE (object_key) and UNIQUE (object_uri).
abbrev pub same_artifact : ℕ → String → String → Artifact → Bool
same_artifact id object_key object_uri a =
    a.id == id || (str_eq a.object_key object_key || str_eq a.object_uri object_uri)

unfoldable pub create_artifact :
    Env
    → ℕ
    → ℕ
    → String
    → String
    → String
    → String
    → ℤ
    → String
    → Option ℕ
    → Db
    → Result (Artifact × Db)
create_artifact env id tenant kind object_key object_uri content_type size checksum task db = do
  refuse_if (exists (same_artifact id object_key object_uri) db.artifacts)
      (other "duplicate key value violates unique constraint (SQLSTATE 23505)")
  refuse_if (is_negative size) (other "new row violates check constraint (SQLSTATE 23514)")
  ok (artifact, record db { artifacts = db.artifacts ++ artifact ∷ [] })
  where
    artifact : Artifact
    artifact = record {
      id = id;
      tenant_id = tenant;
      kind = kind;
      status = pending_upload;
      object_key = object_key;
      object_uri = object_uri;
      content_type = content_type;
      declared_size = to_ℕ size;
      size_bytes = none;
      checksum_sha256 = checksum;
      workflow_run_id = none;
      task_run_id = task;
      ready_at = none;
      created_at = env.now;
    }

-- `SELECT ... FROM artifacts WHERE tenant_id=$1 AND ` with the predicate of the caller.
unfoldable pub get_artifact_where : (Artifact → Bool) → ℕ → Db → Result Artifact
get_artifact_where predicate tenant db =
    or_fail (find? (λ a. a.tenant_id == tenant && predicate a) db.artifacts) not_found

unfoldable pub get_artifact : ℕ → ℕ → Db → Result Artifact
unfolding get_artifact_where
get_artifact tenant id db = get_artifact_where (λ a. a.id == id) tenant db

unfoldable pub get_artifact_by_uri : ℕ → String → Db → Result Artifact
unfolding get_artifact_where
get_artifact_by_uri tenant uri db = get_artifact_where (λ a. str_eq a.object_uri uri) tenant db

-- `WHERE id=$1 AND tenant_id=$2 AND status='PENDING' AND declared_size=$3`
abbrev pub can_complete : ℕ → ℕ → ℤ → Artifact → Bool
can_complete tenant id size a =
    a.id == id
    && (a.tenant_id == tenant
        && (not (is_uploaded a.status) && (not (is_negative size) && a.declared_size == to_ℕ size)))

abbrev pub complete_artifact_row : Env → ℤ → Artifact → Artifact
complete_artifact_row env size a = record a {
  status = uploaded;
  size_bytes = some (to_ℕ size);
  ready_at = some env.now;
}

unfoldable pub complete_artifact : Env → ℕ → ℕ → ℤ → Db → Result (Artifact × Db)
complete_artifact env tenant id size db = do
  a ← or_fail (find? (can_complete tenant id size) db.artifacts) conflict
  ok (
    complete_artifact_row env size a,
    record db {
      artifacts =
          update_where (can_complete tenant id size) (complete_artifact_row env size) db.artifacts;
    },
  )

-- `WHERE id=$1 AND tenant_id=$2 AND status='READY' AND workflow_run_id IS NULL`
abbrev pub can_attach : ℕ → ℕ → Artifact → Bool
can_attach tenant id a =
    a.id == id && (a.tenant_id == tenant && (is_uploaded a.status && is_null a.workflow_run_id))

-- The id is a primary key, so that the update changes one row or none.
unfoldable pub attach_artifact_to_run : ℕ → ℕ → ℕ → Db → Result (Unit {0} × Db)
attach_artifact_to_run tenant id run db = do
  refuse_if (not (exists (can_attach tenant id) db.artifacts)) conflict
  ok (
    tt,
    record db {
      artifacts =
          update_where (can_attach tenant id) (λ a. record a { workflow_run_id = some run })
            db.artifacts;
    },
  )
