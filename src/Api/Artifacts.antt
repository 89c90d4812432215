-- ===== src/Api/Artifacts.antt =====
-- The handlers of internal/api/server.go for artifacts, and `getRun`, which signs the artifacts of a run.
-- `inside` tells a path under /internal/ from the public ones; no objects are `s.Artifacts == nil`.
use run_mesh.Base.{
  ℕ, String, Bool, false, not, Option, none, some, List, map, str_eq, ◌==◌, if◌then◌else◌, Error,
  not_found, conflict, lease_lost, other, Result, ok, err,
}
use run_mesh.Base.Int.{ℤ}
use run_mesh.Workflow.Dag.{codes}
use run_mesh.Store.Db.{Db, Env, Artifact, TaskAttempt}
use run_mesh.Store.Artifacts.{get_artifact}
use run_mesh.Store.Reads.{RunDetail, TaskDetail, get_run}
use run_mesh.Auth.Authenticate.{Principal}
use run_mesh.Artifact.Manager.{Objects, Upload, Download, create_upload, complete, download}
use run_mesh.Api.Response.{
  Response, failure, success, ◌>>=◌, ◌>>◌, fail_if, or_handle, Decoded, decode, Answer,
}
use run_mesh.Api.Tasks.{WorkerRequest, authorize_active_task}

pub record UploadRequest : Type 0 where
  pub kind : String
  pub content_type : String
  pub size_bytes : ℤ
  pub checksum_sha256 : String
  pub task_run_id : Option ℕ
  pub worker_id : String

abbrev configured : Option Objects → Response Objects
configured none = failure 503 (codes "artifact storage is not configured")
configured (some objects) = success objects

-- The task that a worker names with itself, and holds.
unfoldable pub need_task : Env → Principal → Db → Option ℕ → String → Response ℕ
unfolding authorize_active_task
need_task env p db none worker = failure 400 (codes "task_run_id and worker_id are required")
need_task env p db (some task) worker = do
  fail_if (str_eq worker "") 400 "task_run_id and worker_id are required"
  authorize_active_task env p db task worker
  success task

-- The guards of an upload.
unfoldable pub check_request :
    Option Objects
    → Env
    → Bool
    → Principal
    → Decoded UploadRequest
    → Db
    → Response (Objects × UploadRequest)
unfolding need_task
check_request store env inside p body db = do
  objects ← configured store
  req ← decode body
  if inside
      then (do t ← need_task env p db req.task_run_id req.worker_id; success (objects, req))
      else success (objects, req)

abbrev upload_error : Error → Response (ℕ × Upload)
upload_error not_found = failure 404 (codes "task not found")
upload_error conflict = failure 422 (codes "conflict")
upload_error lease_lost = failure 422 (codes "lease lost")
upload_error (other message) = failure 422 (codes message)

abbrev upload_answer : Result Upload → Response (ℕ × Upload)
upload_answer (ok upload) = success (201, upload)
upload_answer (err e) = upload_error e

-- A presigner that fails leaves the row of the upload behind.
unfoldable pub create_artifact_upload :
    Option Objects
    → Env
    → Bool
    → Principal
    → Decoded UploadRequest
    → Db
    → Response (ℕ × Upload) × Db
unfolding check_request create_upload
create_artifact_upload store env inside p body db =
    elim (check_request store env inside p body db) [
      | failure status message ↦ (failure status message, db)
      | success (objects, req) ↦
          let (made, db') =
            create_upload objects env inside p.tenant_id req.kind req.content_type req.size_bytes
              req.checksum_sha256 req.task_run_id db in
          (upload_answer made, db')
    ]

abbrev is_of_task : ℕ → Result Artifact → Bool
is_of_task task (err e) = false
is_of_task task (ok a) = elim a.task_run_id [ none ↦ false | some t ↦ t == task ]

-- A worker completes the uploads of the task that it holds.
unfoldable pub check_pending :
    Env → Principal → ℕ → Decoded WorkerRequest → Db → Response (Unit {0})
unfolding need_task
check_pending env p artifact body db = do
  req ← decode body
  task ← need_task env p db req.task_run_id req.worker_id
  fail_if (not (is_of_task task (get_artifact p.tenant_id artifact db))) 404
      "artifact not found for active task"

unfoldable pub complete_artifact_upload :
    Option Objects
    → Env
    → Bool
    → Principal
    → ℕ
    → Decoded WorkerRequest
    → Db
    → Response (Answer Artifact)
unfolding check_pending or_handle
complete_artifact_upload store env inside p artifact body db = do
  objects ← configured store
  if inside then check_pending env p artifact body db else success tt
  done ← or_handle (complete objects env p.tenant_id artifact db)
  success (200, done)

-- `task` and `worker` are of the query.
unfoldable pub download_artifact :
    Option Objects
    → Env
    → Bool
    → Principal
    → String
    → Option ℕ
    → String
    → Db
    → Response (Answer Download)
unfolding need_task or_handle
download_artifact store env inside p artifact task worker db = do
  objects ← configured store
  if inside then (do t ← need_task env p db task worker; success tt) else success tt
  signed ← or_handle (download objects env inside p.tenant_id artifact db)
  success (200, (signed, db))

-- What `getRun` adds: the URLs of the artifacts that it can sign, in the order of their mention.
abbrev url_of : Result Download → Option String
url_of (err e) = none
url_of (ok signed) = some signed.url

unfoldable pub sign : Objects → Env → ℕ → Db → Option String → Option String
sign objects env tenant db none = none
sign objects env tenant db (some u) = url_of (download objects env false tenant u db)

pub record SignedAttempt : Type 0 where
  pub attempt : TaskAttempt
  pub artifact_download_url : Option String
  pub log_artifact_download_url : Option String

pub record SignedTask : Type 0 where
  pub task : TaskDetail
  pub output_artifact_download_url : Option String
  pub log_artifact_download_url : Option String
  pub attempts : List SignedAttempt

pub record SignedRun : Type 0 where
  pub detail : RunDetail
  pub input_artifact_download_url : Option String
  pub tasks : List SignedTask

-- `Download` of an artifact that is named, if there is a store.
abbrev sign_in : Option Objects → Env → ℕ → Db → Option String → Option String
sign_in none env tenant db given = none
sign_in (some objects) env tenant db given = sign objects env tenant db given

-- COALESCE(...,'') with the test for an empty text.
abbrev filled : Option String → Option String
filled none = none
filled (some u) = if str_eq u "" then none else some u

unfoldable pub sign_task : Option Objects → Env → ℕ → Db → TaskDetail → SignedTask
unfolding sign
sign_task store env tenant db t = record {
  task = t;
  output_artifact_download_url = sign_in store env tenant db t.row.output_artifact_uri;
  log_artifact_download_url = sign_in store env tenant db t.log_artifact_uri;
  attempts =
      map
        (λ a. record {
          attempt = a;
          artifact_download_url = sign_in store env tenant db (filled a.artifact_uri);
          log_artifact_download_url = sign_in store env tenant db (filled a.log_artifact_uri);
        })
        t.attempts;
}

unfoldable pub get_run_handler :
    (String → String → Bool)
    → Option Objects
    → Env
    → Principal
    → ℕ
    → Db
    → Response (Answer SignedRun)
unfolding sign_task or_handle
get_run_handler before store env p run db = do
  found ← or_handle (get_run before p.tenant_id run db)
  success (
    200,
    (
      record {
        detail = found;
        input_artifact_download_url = sign_in store env p.tenant_id db found.run.input_artifact_uri;
        tasks = map (sign_task store env p.tenant_id db) found.tasks;
      },
      db,
    ),
  )
