-- ===== src/Rpc/Worker.antt =====
-- The calls of internal/rpc/worker.go that report on a task. `caller` is what `authorize` has returned:
-- a principal, or UNAUTHENTICATED.
use run_mesh.Base.{
  ℕ, String, Bool, false, ◌&&◌, not, Option, none, some, [], ◌∷◌, str_eq, ◌==◌, Result, ok, err,
}
use run_mesh.Store.Db.{Db, Env, TaskRun, Artifact}
use run_mesh.Store.CreateRun.{is_uploaded}
use run_mesh.Store.Leases.{lease_task, start_task, heartbeat_task}
use run_mesh.Store.Outcomes.{complete_task, fail_task, Failure}
use run_mesh.Store.DeadLetter.{task_belongs_to_tenant, active_task_lease_belongs_to_worker}
use run_mesh.Store.Artifacts.{get_artifact_by_uri}
use run_mesh.Auth.Authenticate.{Principal}
use run_mesh.Worker.Calls.{Runtime, Snapshot}
use run_mesh.Rpc.Snapshot.{snapshot}
use run_mesh.Rpc.Status.{
  permission_denied, unavailable, Reply, answer, ◌>>=◌, ◌>>◌, or_rpc_error, deny_if,
}

unfoldable pub authorize_task : Reply Principal → Db → ℕ → Reply (Unit {0})
authorize_task caller db task = do
  p ← caller
  or_rpc_error (task_belongs_to_tenant db task p.tenant_id)

unfoldable pub principal_for_active_task : Env → Reply Principal → Db → ℕ → String → Reply Principal
principal_for_active_task env caller db task worker = do
  p ← caller
  or_rpc_error (active_task_lease_belongs_to_worker env db task p.tenant_id worker)
  answer p

-- `lease_duration` is `s.LeaseDuration`.
unfoldable pub lease :
    {Value : Type 0}
    → Runtime Value
    → Env
    → ℕ
    → Reply Principal
    → ℕ
    → String
    → Db
    → Reply (Snapshot Value × Db)
unfolding authorize_task snapshot
lease rt env lease_duration caller task worker db = do
  authorize_task caller db task
  leased ← or_rpc_error (lease_task env task worker lease_duration db)
  let ((t, uri), db') = leased
  answer (snapshot rt t uri, db')

-- An answer with the snapshot of a task that has no input artifact.
unfoldable pub snapshot_of :
    {Value : Type 0} → Runtime Value → Result (TaskRun × Db) → Reply (Snapshot Value × Db)
unfolding snapshot
snapshot_of rt result = do
  changed ← or_rpc_error result
  let (t, db') = changed
  answer (snapshot rt t none, db')

unfoldable pub start :
    {Value : Type 0}
    → Runtime Value
    → Env
    → Reply Principal
    → ℕ
    → String
    → Db
    → Reply (Snapshot Value × Db)
unfolding authorize_task snapshot_of
start rt env caller task worker db = do
  authorize_task caller db task
  snapshot_of rt (start_task env task worker db)

unfoldable pub heartbeat : Env → ℕ → Reply Principal → ℕ → String → Db → Reply ((ℕ × Bool) × Db)
unfolding authorize_task
heartbeat env lease_duration caller task worker db = do
  authorize_task caller db task
  or_rpc_error (heartbeat_task env task worker lease_duration db)

abbrev pub is_for : ℕ → Option ℕ → Bool
is_for task none = false
is_for task (some t) = t == task

-- The artifact that a completion names belongs to the task, and has been uploaded.
unfoldable pub is_valid_artifact : String → ℕ → Result Artifact → Bool
is_valid_artifact kind task (err e) = false
is_valid_artifact kind task (ok a) =
    is_uploaded a.status && (str_eq a.kind kind && is_for task a.task_run_id)

-- The two checks of the artifacts; an empty URI names none.
unfoldable pub check_output : Bool → Db → ℕ → ℕ → String → Reply (Unit {0})
check_output configured db tenant task uri = do
  deny_if (not (str_eq uri "") && not configured) unavailable
  deny_if
      (not (str_eq uri "")
        && not (is_valid_artifact "output" task (get_artifact_by_uri tenant uri db)))
      permission_denied

unfoldable pub check_log : Db → ℕ → ℕ → String → Reply (Unit {0})
check_log db tenant task uri =
    deny_if
      (not (str_eq uri "")
        && not (is_valid_artifact "log" task (get_artifact_by_uri tenant uri db)))
      permission_denied

-- `configured` is `s.Artifacts != nil`.
unfoldable pub complete :
    {Value : Type 0}
    → Runtime Value
    → Env
    → Bool
    → Reply Principal
    → ℕ
    → String
    → String
    → String
    → String
    → Db
    → Reply (Snapshot Value × Db)
unfolding principal_for_active_task check_output check_log snapshot_of
complete rt env configured caller task worker output output_uri log_uri db = do
  p ← principal_for_active_task env caller db task worker
  check_output configured db p.tenant_id task output_uri
  check_log db p.tenant_id task log_uri
  snapshot_of rt (complete_task env task worker output output_uri (log_uri ∷ []) db)

unfoldable pub fail :
    {Value : Type 0}
    → Runtime Value
    → Env
    → Reply Principal
    → ℕ
    → String
    → Failure
    → Db
    → Reply (Snapshot Value × Db)
unfolding authorize_task snapshot_of
fail rt env caller task worker f db = do
  authorize_task caller db task
  snapshot_of rt (fail_task env task worker f db)
