-- ===== src/Worker/Calls.antt =====
-- What the client of sdk/go/client.go calls: the worker service, the web, and the packages
-- encoding/json, fmt, strings, structpb and crypto/sha256. `State` is the world, which a call changes
-- also when it fails.
use run_mesh.Base.{ℕ, String, Bool, Option, none, some, List}
use run_mesh.Base.Int.{ℤ}
use run_mesh.Workflow.State.{TaskStatus}
use run_mesh.Auth.Text.{Text}
use run_mesh.Store.Outcomes.{Failure}
use run_mesh.Rpc.Status.{Code}

-- A context: whether it is done, and the values of the metadata `authorization`.
pub record Context : Type 0 where
  pub is_done : Bool
  pub authorization : List Text

-- A Go error as `Fail` reports it: `%T` and `Error()`.
pub record GoError : Type 0 where
  pub type_name : String
  pub message : String

-- How a call of the client fails.
pub data Fault : Type 0 where
  no_connection lost bad_value out_of_time : Fault
  refused : Code → Fault
  unexpected_status : ℕ → Fault
  failure : GoError → Fault

pub data Try (A : Type 0) : Type 0 where
  failed : Fault → Try A
  done : A → Try A

abbrev pub Call : Type 0 → Type 0 → Type 0
Call State A = State → Try A × State

module _ {State : Type 0} where
  abbrev pub after : {A B : Type 0} → Try A × State → (A → Call State B) → Try B × State
  after (failed e, s) next = (failed e, s)
  after (done a, s) next = next a s

  infixl 10 ◌>>=◌ ◌>>◌
  unfoldable pub ◌>>=◌ : {A B : Type 0} → Call State A → (A → Call State B) → Call State B
  ◌>>=◌ m next s = after (m s) next

  abbrev pub ◌>>◌ : {A B : Type 0} → Call State A → Call State B → Call State B
  m >> next = m >>= λ _. next

  abbrev pub give : {A : Type 0} → A → Call State A
  give a s = (done a, s)

  abbrev pub stop : {A : Type 0} → Fault → Call State A
  stop e s = (failed e, s)

  -- `if err != nil { return err }` after what does not reach the world.
  abbrev pub or_stop : {A : Type 0} → Option A → Fault → Call State A
  or_stop none e s = (failed e, s)
  or_stop (some a) e s = (done a, s)

  abbrev pub stop_if : Bool → Fault → Call State (Unit {0})
  stop_if b e s = elim b [ Bool.true ↦ (failed e, s) | Bool.false ↦ (done tt, s) ]

  -- The error of the call is dropped or logged: `_, _ = call`.
  abbrev pub attempt : {A : Type 0} → Try A × State → Try (Try A) × State
  attempt (r, s) = (done r, s)

  unfoldable pub settle : {A : Type 0} → Call State A → Call State (Try A)
  settle m s = attempt (m s)

-- `Value` is Go's `any`, and a `map[string]any` is a list.
abbrev pub Fields : Type 0 → Type 0
Fields Value = List (String × Value)

-- `show` is `%v`, where a missing key is nil; `floor` is the largest whole number that is not above a
-- float64, and whether the value lies above it; `show_raw` is the text of some bytes; `is_struct` tells that `NewStruct` returns no error.
pub record Runtime (Value : Type 0) : Type 0 where
  pub text : String → Value
  pub flag : Bool → Value
  pub number : ℕ → Value
  pub object : Fields Value → Value
  pub marshal : Value → Option Text
  pub unmarshal : Text → Option (Fields Value)
  pub unmarshal_error : Text → GoError
  pub is_struct : Fields Value → Bool
  pub show : Option Value → String
  pub show_id : ℕ → String
  pub quote : String → String
  pub upper : String → String
  pub floor : Value → Option (ℤ × Bool)
  pub sha256_hex : Text → String
  pub show_raw : Text → String

-- `TaskSnapshot` of gen/runmesh/v1. An unset text is empty.
pub record Snapshot (Value : Type 0) : Type 0 where
  pub id : ℕ
  pub workflow_run_id : ℕ
  pub task_key : String
  pub handler : String
  pub status : TaskStatus
  pub attempt : ℕ
  pub timeout_seconds : ℕ
  pub input : Fields Value
  pub input_artifact_uri : String

pub record UploadRequest : Type 0 where
  pub task : ℕ
  pub worker : String
  pub kind : String
  pub content_type : String
  pub size : ℕ
  pub checksum : String

-- The fields of `CreateArtifactUploadResponse` that the client reads.
pub record Ticket : Type 0 where
  pub artifact : ℕ
  pub upload_url : String
  pub headers : List (String × String)

pub record Completion (Value : Type 0) : Type 0 where
  pub task : ℕ
  pub worker : String
  pub output : Fields Value
  pub output_uri : String
  pub log_uri : String

-- The calls of `WorkerServiceClient`.
pub record Service (State Value : Type 0) : Type 0 where
  pub lease : Context → ℕ → String → Call State (Snapshot Value)
  pub start : Context → ℕ → String → Call State (Snapshot Value)
  pub heartbeat : Context → ℕ → String → Call State (ℕ × Bool)
  pub complete : Context → Completion Value → Call State (Snapshot Value)
  pub fail : Context → ℕ → String → Failure → Call State (Snapshot Value)
  pub create_artifact_upload : Context → UploadRequest → Call State Ticket
  pub complete_artifact_upload : Context → ℕ → String → ℕ → Call State String
  pub get_artifact_download : Context → String → String → ℕ → Call State String

-- The body of `Client.Report`.
pub record Report : Type 0 where
  pub handlers : List String
  pub active_tasks : ℕ

-- The client of net/http. A call gives the status; the body of an answer may fail while it is read.
pub record Web (State : Type 0) : Type 0 where
  pub put : Context → String → List (String × String) → Text → Call State ℕ
  pub get : Context → String → Call State (ℕ × Option Text)
  pub post : Context → Text → Text → Report → Call State ℕ
