-- ===== src/Worker/Foreign.antt =====
-- A worker of cmd/worker-go at the control plane of internal/rpc/worker.go, with a task of another tenant.
use run_mesh.Base.{ℕ, suc, false, ◌&&◌, ◌≡◌, refl, ◌==◌}
use run_mesh.Base.Tables.{exists}
use run_mesh.Store.Db.{Db}
use run_mesh.Store.DeadLetter.{belongs}
use run_mesh.Auth.Authenticate.{Principal}
use run_mesh.Rpc.Status.{answer, missing}
use run_mesh.Rpc.Tenants.{foreign-IsHidden}
use run_mesh.Worker.Calls.{Context, refused, Runtime, Web, failed, ◌>>=◌}
use run_mesh.Worker.Client.{Client, rpc_context, lease}
use run_mesh.Worker.Execute.{Course, execute}
use run_mesh.Worker.Served.{World, Plane, credentials, served, web_of}

module _ {Outside Value : Type 0} (plane : Plane Outside) (rt : Runtime Value) (web : Web Outside)
    (c : Client) (parent : Context) (id : ℕ) (w : World Outside) (p : Principal) (db : Db) where
  lease-refused :
      c.has_error ≡ false
      → parent.is_done ≡ false
      → credentials plane (rpc_context c parent) w ≡ answer (p, db)
      → exists (λ t. t.id == id && belongs db p.tenant_id t) db.tasks ≡ false
      → lease rt (served plane rt) (web_of web) c parent id w
        ≡ (failed (refused missing), record w { db = db; calls = suc w.calls })
  unfolding lease served ◌>>=◌
  lease-refused connected live known foreign =
      let hidden =
        (foreign-IsHidden rt db p id foreign).no_lease (plane.envs w.calls) plane.lease_duration
          c.worker_id in
      rw (connected, live, known, hidden) refl

  -- A worker that the control plane knows as of another tenant than the task's gets NOT_FOUND when it
  -- executes the task, and ends: of its calls only the lease reaches the plane, which changes nothing
  -- but what the authentication does.
  pub execute-foreign :
      (course : Course)
      → c.has_error ≡ false
      → parent.is_done ≡ false
      → credentials plane (rpc_context c parent) w ≡ answer (p, db)
      → exists (λ t. t.id == id && belongs db p.tenant_id t) db.tasks ≡ false
      → execute rt (served plane rt) (web_of web) c parent course id w
        ≡ (failed (refused missing), record w { db = db; calls = suc w.calls })
  unfolding execute ◌>>=◌
  execute-foreign course connected live known foreign =
      rw (lease-refused connected live known foreign) refl
