-- ===== src/Worker/Served.antt =====
-- The worker service of internal/rpc/worker.go as the client calls it over gRPC: `authorize`
-- and the call. A call under a context that is done is not sent.
use run_mesh.Base.{ℕ, suc, String, Bool, not, Option, none, some, [], if◌then◌else◌, is_null}
use run_mesh.Base.Int.{pos}
use run_mesh.Store.Db.{Db, Env}
use run_mesh.Auth.Tokens.{Platform}
use run_mesh.Auth.Authenticate.{Principal, Authenticator}
use run_mesh.Artifact.Manager.{Objects, Upload, Download}
use run_mesh.Rpc.Status.{Reply, status, answer}
use run_mesh.Rpc.Uploads.{
  authorize, create_artifact_upload, complete_artifact_upload, get_artifact_download,
}
use run_mesh.Rpc.Worker as Grpc
use run_mesh.Worker.Calls.{
  Context, Completion, lost, refused, Try, failed, done, Call, Runtime, Snapshot, Ticket, Service,
  Web, Fields,
}

-- The database, what lies outside it, and how many transactions there have been.
pub record World (Outside : Type 0) : Type 0 where
  pub db : Db
  pub outside : Outside
  pub calls : ℕ

-- A control plane: `WorkerServer` with what it runs on. `envs` gives each call its time.
pub record Plane (Outside : Type 0) : Type 0 where
  pub platform : Platform
  pub authenticator : Authenticator
  pub lease_duration : ℕ
  pub objects : Outside → Option Objects
  pub envs : ℕ → Env

module _ {Value : Type 0} (rt : Runtime Value) where
  -- `json.Marshal` of the output's map, as the column has it.
  abbrev pub stored_output : Fields Value → String
  stored_output fields =
      rt.show_raw (elim (rt.marshal (rt.object fields)) [ none ↦ [] | some raw ↦ raw ])

abbrev ticket_of : Upload → Ticket
ticket_of u = record { artifact = u.artifact.id; upload_url = u.url; headers = u.headers }

abbrev url_of : Download → String
url_of d = d.url

-- What `authorize` tells the calls, and the database that it leaves.
abbrev pub caller_of : Reply (Principal × Db) → Reply Principal
caller_of (status code) = status code
caller_of (answer (p, db)) = answer p

abbrev pub seen : Reply (Principal × Db) → Db → Db
seen (status code) db = db
seen (answer (p, db')) db = db'

abbrev pub without_db : {A : Type 0} → Db → Reply A → Reply (A × Db)
without_db db (status code) = status code
without_db db (answer a) = answer (a, db)

abbrev pub completion_of :
    {Value : Type 0}
    → Runtime Value
    → Completion Value
    → Env
    → Bool
    → Reply Principal
    → Db
    → Reply (Snapshot Value × Db)
completion_of rt r env configured caller db =
    Grpc.complete rt env configured caller r.task r.worker (stored_output rt r.output) r.output_uri
      r.log_uri db

module _ {Outside : Type 0} where
  -- The end of a call: an answer with its database, or a status that leaves the database.
  abbrev pub ending :
      {A B : Type 0} → (A → B) → World Outside → Db → Reply (A × Db) → Try B × World Outside
  ending view w db (status code) =
      (failed (refused code), record w { db = db; calls = suc w.calls })
  ending view w db (answer (a, db')) = (done (view a), record w { db = db'; calls = suc w.calls })

  -- The same for a call that may leave a row behind when it fails.
  abbrev pub ending_anyway :
      {A B : Type 0} → (A → B) → World Outside → Reply A × Db → Try B × World Outside
  ending_anyway view w (status code, db) =
      (failed (refused code), record w { db = db; calls = suc w.calls })
  ending_anyway view w (answer a, db) = (done (view a), record w { db = db; calls = suc w.calls })

  module _ (plane : Plane Outside) where
    abbrev pub credentials : Context → World Outside → Reply (Principal × Db)
    credentials ctx w =
        authorize plane.platform (plane.envs w.calls) plane.authenticator ctx.authorization w.db

    -- A call that authorizes first.
    abbrev pub serve :
        {A B : Type 0}
        → (Env → Reply Principal → Db → Reply (A × Db))
        → (A → B)
        → Context
        → Call (World Outside) B
    serve call view ctx w =
        if ctx.is_done
        then (failed lost, w)
        else ending view w (seen (credentials ctx w) w.db) (
            call (plane.envs w.calls) (caller_of (credentials ctx w))
              (seen (credentials ctx w) w.db))

    -- Without an artifact manager a call ends before it authorizes.
    abbrev pub arrived : Context → World Outside → Db
    arrived ctx w =
        if is_null (plane.objects w.outside) then w.db else seen (credentials ctx w) w.db

    unfoldable pub served : {Value : Type 0} → Runtime Value → Service (World Outside) Value
    served rt = record {
      lease =
          λ ctx id w. serve (λ env p. Grpc.lease rt env plane.lease_duration p id w) (λ t. t) ctx;
      start = λ ctx id w. serve (λ env p. Grpc.start rt env p id w) (λ t. t) ctx;
      heartbeat = λ ctx id w.
          serve (λ env p. Grpc.heartbeat env plane.lease_duration p id w) (λ beat. beat) ctx;
      complete = λ ctx r s.
          serve (λ env p. completion_of rt r env (not (is_null (plane.objects s.outside))) p)
            (λ t. t) ctx s;
      fail = λ ctx id w f. serve (λ env p. Grpc.fail rt env p id w f) (λ t. t) ctx;
      create_artifact_upload = λ ctx r s.
          if ctx.is_done
          then (failed lost, s)
          else ending_anyway ticket_of s (
              create_artifact_upload (plane.objects s.outside) (plane.envs s.calls)
                (caller_of (credentials ctx s)) r.task r.worker r.kind r.content_type (pos r.size)
                r.checksum (arrived ctx s));
      complete_artifact_upload = λ ctx artifact w id s.
          if ctx.is_done
          then (failed lost, s)
          else ending (λ uri. uri) s (arrived ctx s)
              (complete_artifact_upload (plane.objects s.outside) (plane.envs s.calls)
                (caller_of (credentials ctx s)) id w artifact (arrived ctx s));
      get_artifact_download = λ ctx uri w id s.
          if ctx.is_done
          then (failed lost, s)
          else ending url_of s (arrived ctx s) (
              without_db (arrived ctx s) (
                get_artifact_download (plane.objects s.outside) (plane.envs s.calls)
                  (caller_of (credentials ctx s)) id w uri (arrived ctx s)));
    }

  -- The web of the artifacts, which does not reach the database. The way of a report to the API is left
  -- out.
  abbrev pub beside : {A : Type 0} → World Outside → Try A × Outside → Try A × World Outside
  beside w (r, outside) = (r, record w { outside = outside })

  unfoldable pub web_of : Web Outside → Web (World Outside)
  web_of web = record {
    put = λ ctx url headers bytes w. beside w (web.put ctx url headers bytes w.outside);
    get = λ ctx url w. beside w (web.get ctx url w.outside);
    post = λ ctx url authorization report w.
        beside w (web.post ctx url authorization report w.outside);
  }

  -- An offset is committed outside of the database.
  abbrev pub committing : (ℕ → Call Outside (Unit {0})) → ℕ → Call (World Outside) (Unit {0})
  committing commit offset w = beside w (commit offset w.outside)
