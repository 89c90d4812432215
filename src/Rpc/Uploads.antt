-- ===== src/Rpc/Uploads.antt =====
-- `authorize` and the calls of internal/rpc/worker.go for the artifacts of a task. No objects are
-- `s.Artifacts == nil`.
use run_mesh.Base.{
  ℕ, String, Bool, true, false, not, Option, none, some, List, [], ◌∷◌, Result, ok, err,
}
use run_mesh.Base.Int.{ℤ}
use run_mesh.Workflow.Dag.{codes}
use run_mesh.Store.Db.{Db, Env, Artifact}
use run_mesh.Store.Artifacts.{get_artifact}
use run_mesh.Auth.Text.{Text, is_empty, after_prefix, trim_space}
use run_mesh.Auth.Tokens.{Platform}
use run_mesh.Auth.Authenticate.{Principal, Authenticator, authenticate_worker}
use run_mesh.Artifact.Manager.{Objects, Upload, Download, create_upload, complete, download}
use run_mesh.Rpc.Status.{
  unauthenticated, permission_denied, unavailable, Reply, status, answer, ◌>>=◌, ◌>>◌, or_rpc_error,
  deny_if,
}
use run_mesh.Rpc.Worker.{principal_for_active_task, is_for}

abbrev pub or_refuse : Result (Principal × Db) → Reply (Principal × Db)
or_refuse (ok found) = answer found
or_refuse (err e) = status unauthenticated

abbrev after_bearer : Option Text → Reply Text
after_bearer none = status unauthenticated
after_bearer (some rest) = answer (trim_space rest)

-- `values` are those of the metadata `authorization`.
unfoldable pub authorize : Platform → Env → Authenticator → List Text → Db → Reply (Principal × Db)
unfolding after_prefix trim_space authenticate_worker
authorize platform env a (value ∷ []) db = do
  token ← after_bearer (after_prefix (codes "Bearer ") value)
  deny_if (is_empty token) unauthenticated
  or_refuse (authenticate_worker platform env a token db)
authorize platform env a values db = status unauthenticated

abbrev configured : Option Objects → Reply Objects
configured none = status unavailable
configured (some objects) = answer objects

-- The guards of the three calls.
unfoldable pub with_task :
    Option Objects → Env → Reply Principal → ℕ → String → Db → Reply (Objects × Principal)
unfolding principal_for_active_task
with_task store env caller task worker db = do
  objects ← configured store
  p ← principal_for_active_task env caller db task worker
  answer (objects, p)

-- The rest of the next call, after its guards.
unfoldable pub uploading :
    Env → String → String → ℤ → String → ℕ → Db → Reply (Objects × Principal) → Reply Upload × Db
unfolding create_upload
uploading env kind content_type size checksum task db (status code) = (status code, db)
uploading env kind content_type size checksum task db (answer (objects, p)) =
    let (made, db') =
      create_upload objects env true p.tenant_id kind content_type size checksum (some task) db in
    (or_rpc_error made, db')

-- A presigner that fails leaves the row of the upload behind.
unfoldable pub create_artifact_upload :
    Option Objects
    → Env
    → Reply Principal
    → ℕ
    → String
    → String
    → String
    → ℤ
    → String
    → Db
    → Reply Upload × Db
unfolding with_task uploading
create_artifact_upload store env caller task worker kind content_type size checksum db =
    uploading env kind content_type size checksum task db
      (with_task store env caller task worker db)

abbrev pub is_of_task : ℕ → Result Artifact → Bool
is_of_task task (err e) = false
is_of_task task (ok a) = is_for task a.task_run_id

-- The answer is the artifact's URI.
unfoldable pub complete_artifact_upload :
    Option Objects → Env → Reply Principal → ℕ → String → ℕ → Db → Reply (String × Db)
unfolding with_task complete
complete_artifact_upload store env caller task worker artifact db = do
  found ← with_task store env caller task worker db
  let (objects, p) = found
  deny_if (not (is_of_task task (get_artifact p.tenant_id artifact db))) permission_denied
  done ← or_rpc_error (complete objects env p.tenant_id artifact db)
  answer (done.0.object_uri, done.1)

unfoldable pub get_artifact_download :
    Option Objects → Env → Reply Principal → ℕ → String → String → Db → Reply Download
unfolding with_task download
get_artifact_download store env caller task worker uri db = do
  found ← with_task store env caller task worker db
  let (objects, p) = found
  or_rpc_error (download objects env true p.tenant_id uri db)
