-- ===== src/Artifact/Examples.antt =====
-- The artifacts of internal/artifact/manager.go with a concrete object store.
use run_mesh.Base.{◌+◌, true, ◌≡◌, refl, none, some, [], ◌∷◌, ok, Holds, or_fail, refuse_if, ◌>>=◌}
use run_mesh.Base.Strings.{trim}
use run_mesh.Base.Int.{pos}
use run_mesh.Base.Tables.{find?, exists, update_where}
use run_mesh.Store.Db.{Db, Env, Artifact, empty_db, pending_upload, uploaded}
use run_mesh.Store.CreateRun.{is_uploaded}
use run_mesh.Store.Artifacts.{
  create_artifact, get_artifact, get_artifact_where, get_artifact_by_uri, complete_artifact,
}
use run_mesh.Artifact.Manager.{
  Objects, insert_upload, check_upload, to_lower, inspect, or_wrap, complete,
}
use run_mesh.Artifact.Completion.{IsCompleted, complete-IsCompleted, complete-complete}
use run_mesh.Artifact.RoundTrip.{insert_upload-complete-get_artifact_by_uri}

-- A store whose objects all have three bytes.
abbrev objects : Objects
objects = record {
  head = λ key. ok (some (pos 3));
  get = λ key. ok (ok (1 ∷ 2 ∷ 3 ∷ []));
  presign_put = λ inside key content_type. ok ("url", []);
  presign_get = λ inside key. ok "url";
  show_uuid = λ id. "id";
  uuid_of = λ s. none;
  sha256_hex = λ bytes. "";
  bucket = "runmesh";
  expiry = 900;
}

abbrev env : Env
env = record { now = 9; clock = 9; trace_parent = ""; new_uuid = λ n. 40 + n }

abbrev pending : Artifact
pending = record {
  id = 40;
  tenant_id = 7;
  kind = "input";
  status = pending_upload;
  object_key = "id/input/id";
  object_uri = "s3://runmesh/id/input/id";
  content_type = "application/octet-stream";
  declared_size = 3;
  size_bytes = none;
  checksum_sha256 = "";
  workflow_run_id = none;
  task_run_id = none;
  ready_at = none;
  created_at = 9;
}

abbrev finished : Artifact
finished = record pending { status = uploaded; size_bytes = some 3; ready_at = some 9 }

abbrev shelf_of : Artifact → Db
shelf_of a = record empty_db { artifacts = a ∷ []; drawn = 1 }

inserted :
    insert_upload objects env 7 "input" "" (pos 3) "" none empty_db ≡ ok (pending, shelf_of pending)
unfolding insert_upload check_upload trim to_lower create_artifact exists refuse_if ◌>>=◌
inserted = refl

completed : complete objects env 7 40 (shelf_of pending) ≡ ok (finished, shelf_of finished)
unfolding complete get_artifact get_artifact_where find? inspect or_wrap complete_artifact
    update_where or_fail refuse_if ◌>>=◌
completed = refl

complete-IsCompleted_example :
    Holds
      (IsCompleted objects env 7 40 (shelf_of pending))
      (complete objects env 7 40 (shelf_of pending))
complete-IsCompleted_example = complete-IsCompleted objects env 7 40 (shelf_of pending)

complete-complete_example :
    complete objects env 7 40 (shelf_of finished) ≡ ok (finished, shelf_of finished)
complete-complete_example =
    complete-complete objects objects env env 7 40 (shelf_of pending) (shelf_of finished) finished
      completed

insert_upload-complete-get_artifact_by_uri_example :
    (get_artifact_by_uri 7 "s3://runmesh/id/input/id" (shelf_of finished) ≡ ok finished)
    × (is_uploaded finished.status ≡ true)
insert_upload-complete-get_artifact_by_uri_example =
    insert_upload-complete-get_artifact_by_uri objects env env 7 "input" "" (pos 3) "" none empty_db
      (shelf_of pending) (shelf_of finished) pending finished inserted completed
