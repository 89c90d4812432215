-- ===== src/Api/Response.antt =====
-- `decode`, `handleErr` and `writeError` of internal/api/server.go. The body of a success is the value
-- that is marshalled.
use run_mesh.Base.{
  ℕ, String, Bool, true, false, ◌||◌, List, [], ◌++◌, ◌⊎◌, inl, inr, if◌then◌else◌, Error,
  not_found, conflict, lease_lost, other, Result, ok, err,
}
use run_mesh.Workflow.Dag.{
  codes, DagError, no_tasks, too_many_tasks, too_many_edges, invalid_key, invalid_handler,
  attempts_range, timeout_range, self_dependency, missing_dependency, repeated_dependency, cycle,
  out_of_fuel,
}
use run_mesh.Store.Db.{Db}
use run_mesh.Store.Errors.{contains}
use run_mesh.Auth.Text.{Text}

-- `writeError` with a status and a message, or what the handler goes on with.
pub data Response {ℓ} (Body : Type ℓ) : Type ℓ where
  failure : ℕ → Text → Response Body
  success : Body → Response Body

infixl 10 ◌>>=◌
unfoldable pub ◌>>=◌ {ℓ κ} :
    {Body : Type ℓ} {More : Type κ} → Response Body → (Body → Response More) → Response More
failure status message >>= more = failure status message
success body >>= more = more body

infixl 10 ◌>>◌
abbrev pub ◌>>◌ {ℓ} : {More : Type ℓ} → Response (Unit {0}) → Response More → Response More
guard >> more = guard >>= λ _. more

-- `if cond { writeError(w, status, message); return }`
unfoldable pub fail_if : Bool → ℕ → String → Response (Unit {0})
fail_if true status message = failure status (codes message)
fail_if false status message = success tt

-- An error that is none of the three of the store, by its text.
unfoldable pub by_message {ℓ} : {Body : Type ℓ} → Text → Response Body
unfolding contains
by_message message =
    if contains message (codes "workflow ")
      || (contains message (codes "task ") || contains message (codes "required"))
    then failure 422 message
    else failure 500 (codes "internal server error")

-- `handleErr`; no error of the store is a syntax error of JSON.
unfoldable pub handle_err {ℓ} : {Body : Type ℓ} → Error → Response Body
unfolding by_message
handle_err not_found = failure 404 (codes "resource not found")
handle_err conflict = failure 409 (codes "operation conflicts with current state")
handle_err lease_lost = failure 409 (codes "worker no longer owns this task")
handle_err (other message) = by_message (codes message)

-- `if handleErr(w, err) { return }`
unfoldable pub or_handle {ℓ} : {Body : Type ℓ} → Result Body → Response Body
unfolding handle_err
or_handle (ok body) = success body
or_handle (err e) = handle_err e

-- The texts of the errors of `ValidateDAG`. `quote` is the verb %q.
unfoldable pub dag_message : (String → Text) → DagError → Text
dag_message quote no_tasks = codes "workflow requires at least one task"
dag_message quote too_many_tasks = codes "workflow exceeds 500 tasks"
dag_message quote too_many_edges = codes "workflow exceeds 5000 dependency edges"
dag_message quote (invalid_key key) = codes "invalid task key " ++ quote key
dag_message quote (invalid_handler key) =
    codes "task " ++ (quote key ++ codes " has invalid handler")
dag_message quote (attempts_range key) =
    codes "task " ++ (quote key ++ codes " maximum_attempts must be between 1 and 100")
dag_message quote (timeout_range key) =
    codes "task " ++ (quote key ++ codes " timeout_seconds must be between 1 and 86400")
dag_message quote (self_dependency key) =
    codes "task " ++ (quote key ++ codes " cannot depend on itself")
dag_message quote (missing_dependency key dep) =
    codes "task " ++ (quote key ++ (codes " depends on missing task " ++ quote dep))
dag_message quote (repeated_dependency key dep) =
    codes "task " ++ (quote key ++ (codes " repeats dependency " ++ quote dep))
dag_message quote (cycle key) = codes "workflow contains a cycle involving " ++ quote key
dag_message quote out_of_fuel = []

-- The same for an operation that validates a DAG first.
unfoldable pub or_handle_dag {ℓ} :
    {Body : Type ℓ} → (String → Text) → DagError ⊎ Result Body → Response Body
unfolding or_handle dag_message by_message
or_handle_dag quote (inl e) = by_message (dag_message quote e)
or_handle_dag quote (inr r) = or_handle r

-- What the JSON decoder makes of a body of at most 1 MiB: an error with its text, one value, or a value
-- with something after it.
pub data Decoded (Value : Type 0) : Type 0 where
  invalid : Text → Decoded Value
  one : Value → Decoded Value
  many : Value → Decoded Value

unfoldable pub decode : {Value : Type 0} → Decoded Value → Response Value
decode (invalid message) = failure 400 (codes "invalid JSON: " ++ message)
decode (one value) = success value
decode (many value) = failure 400 (codes "request body must contain one JSON value")

-- The status, the body, and the database after the call.
abbrev pub Answer : Type 0 → Type 0
Answer Body = ℕ × (Body × Db)

-- A list under "items".
abbrev pub items {ℓ} : {Row : Type ℓ} → List Row → Db → Response (ℕ × (List Row × Db))
items rows db = success (200, (rows, db))

-- What the client sees, and the database: a handler that fails has left it as it was.
unfoldable pub settle : {Body : Type 0} → Db → Response (Answer Body) → Response (ℕ × Body) × Db
settle db (failure status message) = (failure status message, db)
settle db (success (status, (body, db'))) = (success (status, body), db')
