-- ===== src/Rpc/Status.antt =====
-- What a gRPC call ends with, and `rpcError` of internal/rpc/worker.go.
use run_mesh.Base.{
  Error, not_found, conflict, lease_lost, other, Result, ok, err, Bool, true, false,
}

pub data Code : Type 0 where
  unauthenticated permission_denied failed_precondition missing unavailable internal : Code

pub data Reply {ℓ} (Answer : Type ℓ) : Type ℓ where
  status : Code → Reply Answer
  answer : Answer → Reply Answer

infixl 10 ◌>>=◌
unfoldable pub ◌>>=◌ {ℓ κ} :
    {Answer : Type ℓ} {More : Type κ} → Reply Answer → (Answer → Reply More) → Reply More
status code >>= more = status code
answer a >>= more = more a

infixl 10 ◌>>◌
abbrev pub ◌>>◌ {ℓ} : {More : Type ℓ} → Reply (Unit {0}) → Reply More → Reply More
guard >> more = guard >>= λ _. more

-- `rpcError`
unfoldable pub rpc_error : Error → Code
rpc_error lease_lost = failed_precondition
rpc_error conflict = failed_precondition
rpc_error not_found = missing
rpc_error (other message) = internal

-- `if err != nil { return nil, rpcError(err) }`
unfoldable pub or_rpc_error {ℓ} : {A : Type ℓ} → Result A → Reply A
unfolding rpc_error
or_rpc_error (ok a) = answer a
or_rpc_error (err e) = status (rpc_error e)

-- `if cond { return nil, status.Error(code, ...) }`
unfoldable pub deny_if : Bool → Code → Reply (Unit {0})
deny_if true code = status code
deny_if false code = answer tt
