-- ===== src/Rpc/Transports.antt =====
-- The two ways on which a worker reports: the handlers of internal/api/server.go and those of
-- internal/rpc/worker.go.
use run_mesh.Base.{
  ℕ, String, false, ◌||◌, ◌≡◌, ◌⊎◌, refl, Option, none, Bool-cases, inl, inr, str_eq, not_found,
  conflict, lease_lost, other, Error, Result, ok, err,
}
use run_mesh.Workflow.Dag.{codes}
use run_mesh.Store.Db.{Db, Env}
use run_mesh.Store.Errors.{contains}
use run_mesh.Store.Leases.{lease_task, start_task, heartbeat_task}
use run_mesh.Store.Outcomes.{fail_task, Failure}
use run_mesh.Store.DeadLetter.{task_belongs_to_tenant}
use run_mesh.Auth.Authenticate.{Principal}
use run_mesh.Api.Response.{
  Response, failure, success, or_handle, handle_err, by_message, Answer, one, decode, fail_if,
  ◌>>=◌ as then_http,
}
use run_mesh.Api.Tasks as Http
use run_mesh.Worker.Calls.{Runtime}
use run_mesh.Rpc.Snapshot.{snapshot}
use run_mesh.Rpc.Status.{
  Reply, answer, status, or_rpc_error, rpc_error, Code, missing, failed_precondition, internal,
  ◌>>=◌ as then_rpc,
}
use run_mesh.Rpc.Worker as Grpc

-- The status of HTTP that an error has where gRPC has a code.
abbrev IsCodeFor : Code → ℕ → Type 0
IsCodeFor missing code = code ≡ 404
IsCodeFor failed_precondition code = code ≡ 409
IsCodeFor internal code = (code ≡ 422) ⊎ (code ≡ 500)
IsCodeFor _ code = ⊥

-- The same database and the same answer, of which gRPC shows a view, or the same error.
abbrev pub Agrees : {A B : Type 0} → (A → B) → Response (Answer A) → Reply (B × Db) → Type 0
Agrees view (success (code, (a, db))) (answer (b, db')) = (code ≡ 200) × (view a ≡ b) × (db ≡ db')
Agrees view (failure code message) (status c) = IsCodeFor c code
Agrees view _ _ = ⊥

-- An error of the store is answered alike.
handle_err-Agrees :
    {A B First : Type 0} (view : A → B) (e : Error) (more : First → Response (Answer A))
    → Agrees view (then_http (handle_err e) more) (status (rpc_error e))
unfolding handle_err by_message then_http rpc_error
handle_err-Agrees view not_found more = refl
handle_err-Agrees view conflict more = refl
handle_err-Agrees view lease_lost more = refl
handle_err-Agrees view (other message) more =
    elim (Bool-cases (
      contains (codes message) (codes "workflow ")
      || (contains (codes message) (codes "task ")
          || contains (codes message) (codes "required")))) [
            | inl client ↦ rw client (inl refl)
            | inr server ↦ rw server (inr refl)
          ]

-- A guard and an operation of the store end alike on both ways.
guarded-Agrees :
    {A B : Type 0} (view : A → B) (guard : Result (Unit {0})) (result : Result (A × Db))
    → Agrees view
        (then_http
          (or_handle guard)
          (λ _. then_http (or_handle result) (λ done. success (200, done))))
        (then_rpc
          (or_rpc_error guard)
          (λ _. then_rpc (or_rpc_error result) (λ done. answer (view done.0, done.1))))
unfolding or_handle or_rpc_error then_http then_rpc
guarded-Agrees view (ok u) (ok (a, db)) = (refl, refl, refl)
guarded-Agrees view (ok u) (err e) = handle_err-Agrees view e (λ done. success (200, done))
guarded-Agrees view (err e) result =
    handle_err-Agrees view e (λ _. then_http (or_handle result) (λ done. success (200, done)))

-- The same where both answer alike.
guarded-Agrees_alike :
    {A : Type 0} (guard : Result (Unit {0})) (result : Result (A × Db))
    → Agrees
        (λ (a : A). a)
        (then_http
          (or_handle guard)
          (λ _. then_http (or_handle result) (λ done. success (200, done))))
        (then_rpc (or_rpc_error guard) (λ _. or_rpc_error result))
unfolding or_handle or_rpc_error then_http then_rpc
guarded-Agrees_alike (ok u) (ok (a, db)) = (refl, refl, refl)
guarded-Agrees_alike (ok u) (err e) = handle_err-Agrees (λ a. a) e (λ done. success (200, done))
guarded-Agrees_alike (err e) result =
    handle_err-Agrees (λ a. a) e (λ _. then_http (or_handle result) (λ done. success (200, done)))

-- The four calls with the same arguments on both ways.
pub record IsSame {Value : Type 0} (rt : Runtime Value) (p : Principal) (task : ℕ) (worker : String)
    (env : Env) (db : Db) : Type 0 where
  pub lease :
      (duration : ℕ) (other_task : Option ℕ)
      → Agrees
          (λ leased. snapshot rt leased.0 leased.1)
          (Http.lease env duration p task
            (one (record { worker_id = worker; task_run_id = other_task }))
            db)
          (Grpc.lease rt env duration (answer p) task worker db)
  pub start :
      (other_task : Option ℕ)
      → Agrees
          (λ t. snapshot rt t none)
          (Http.start env p task (one (record { worker_id = worker; task_run_id = other_task })) db)
          (Grpc.start rt env (answer p) task worker db)
  pub heartbeat :
      (duration : ℕ) (other_task : Option ℕ)
      → Agrees
          (λ beat. beat)
          (Http.heartbeat env duration p task
            (one (record { worker_id = worker; task_run_id = other_task }))
            db)
          (Grpc.heartbeat env duration (answer p) task worker db)
  pub fail :
      (f : Failure)
      → Agrees
          (λ t. snapshot rt t none)
          (Http.fail env p task (one (record { worker_id = worker; failure = f })) db)
          (Grpc.fail rt env (answer p) task worker f db)

-- For the same caller and a worker that has a name, leasing, starting, renewing and failing a task over
-- HTTP and over gRPC leaves the same database, and gRPC answers with the snapshot of the task that HTTP
-- answers with, or both end in the same error: NOT_FOUND for 404, FAILED_PRECONDITION for 409, and
-- INTERNAL for 422 or 500.
pub calls-IsSame :
    {Value : Type 0} (rt : Runtime Value) (p : Principal) (task : ℕ) (worker : String) (env : Env)
    (db : Db)
    → str_eq worker "" ≡ false
    → IsSame rt p task worker env db
unfolding Http.lease Http.start Http.heartbeat Http.fail Http.authorize_task Grpc.lease Grpc.start
    Grpc.heartbeat Grpc.fail Grpc.authorize_task Grpc.snapshot_of decode fail_if then_http then_rpc
calls-IsSame rt p task worker env db named = record {
  lease = λ duration other_task. rw named (
      guarded-Agrees _ (task_belongs_to_tenant db task p.tenant_id)
        (lease_task env task worker duration db));
  start = λ other_task. rw named (
      guarded-Agrees _ (task_belongs_to_tenant db task p.tenant_id)
        (start_task env task worker db));
  heartbeat = λ duration other_task. rw named (
      guarded-Agrees_alike (task_belongs_to_tenant db task p.tenant_id)
        (heartbeat_task env task worker duration db));
  fail = λ f. rw named (
      guarded-Agrees _ (task_belongs_to_tenant db task p.tenant_id)
        (fail_task env task worker f db));
}
