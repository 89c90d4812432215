-- ===== src/Rpc/Tenants.antt =====
-- A worker of one tenant can not report on a task of another.
use run_mesh.Base.{ℕ, String, Bool, false, ◌&&◌, ◌≡◌, refl, ◌==◌, refuse_if}
use run_mesh.Base.Tables.{exists}
use run_mesh.Store.Db.{Db, Env}
use run_mesh.Store.Outcomes.{Failure}
use run_mesh.Store.DeadLetter.{task_belongs_to_tenant, belongs}
use run_mesh.Worker.Calls.{Runtime}
use run_mesh.Rpc.Foreign.{no_active_task}
use run_mesh.Rpc.Status.{missing, status, answer, or_rpc_error, rpc_error, ◌>>=◌}
use run_mesh.Auth.Authenticate.{Principal}
use run_mesh.Rpc.Worker.{
  authorize_task, principal_for_active_task, lease, start, heartbeat, complete, fail,
}

-- Every call on the task ends in NOT_FOUND.
pub record IsHidden {Value : Type 0} (rt : Runtime Value) (p : Principal) (task : ℕ) (db : Db)
    : Type 0 where
  pub no_lease :
      (env : Env) (duration : ℕ) (worker : String)
      → lease rt env duration (answer p) task worker db ≡ status missing
  pub no_start :
      (env : Env) (worker : String) → start rt env (answer p) task worker db ≡ status missing
  pub no_heartbeat :
      (env : Env) (duration : ℕ) (worker : String)
      → heartbeat env duration (answer p) task worker db ≡ status missing
  pub no_complete :
      (env : Env) (configured : Bool) (worker output uri log : String)
      → complete rt env configured (answer p) task worker output uri log db ≡ status missing
  pub no_fail :
      (env : Env) (worker : String) (f : Failure)
      → fail rt env (answer p) task worker f db ≡ status missing

-- To a principal whose tenant does not own the task, every call on the task ends in NOT_FOUND, as if it
-- did not exist: a lease, a start, a heartbeat, a completion or a failure.
pub foreign-IsHidden :
    {Value : Type 0} (rt : Runtime Value) (db : Db) (p : Principal) (task : ℕ)
    → exists (λ t. t.id == task && belongs db p.tenant_id t) db.tasks ≡ false
    → IsHidden rt p task db
foreign-IsHidden rt db p task h = record {
  no_lease = λ env duration worker. unfold lease ◌>>=◌ in rw no_task refl;
  no_start = λ env worker. unfold start ◌>>=◌ in rw no_task refl;
  no_heartbeat = λ env duration worker. unfold heartbeat ◌>>=◌ in rw no_task refl;
  no_complete = λ env configured worker output uri log.
      unfold complete principal_for_active_task or_rpc_error rpc_error ◌>>=◌ in
      rw (no_active_task env db task p.tenant_id worker h) refl;
  no_fail = λ env worker f. unfold fail ◌>>=◌ in rw no_task refl;
}
  where
    no_task : authorize_task (answer p) db task ≡ status missing
    no_task =
        unfold authorize_task task_belongs_to_tenant or_rpc_error rpc_error ◌>>=◌ refuse_if in
        rw h refl
