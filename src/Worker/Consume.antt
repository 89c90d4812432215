-- ===== src/Worker/Consume.antt =====
-- The loop of `main`, `header`, `report` and the settings of cmd/worker-go/main.go.
use Prim.Native.String.{◌++◌ as str_append}
use run_mesh.Base.{
  ℕ, suc, zero, String, Option, none, some, List, [], ◌∷◌, str_eq, if◌then◌else◌, not,
}
use run_mesh.Worker.Calls.{Context, Call, ◌>>=◌, ◌>>◌, give, settle, Runtime, Service, Web}
use run_mesh.Worker.Client.{Client, report}
use run_mesh.Worker.Execute.{Course, handlers, supported, execute, entry}

-- `kafka.Message`, and what `json.Unmarshal` makes of its value: the task and the handler.
pub record Message : Type 0 where
  pub offset : ℕ
  pub headers : List (String × String)
  pub dispatch : Option (ℕ × String)

-- The error that ends the loop, another, which is logged, or a message with the course of its run.
pub data Fetched : Type 0 where
  is_canceled is_broken : Fetched
  message : Message → Course → Fetched

-- `header`
unfoldable pub header : List (String × String) → String → String
header headers key = elim (entry key headers) [ none ↦ "" | some value ↦ value ]

-- What a message asks for: nothing, or the execution of a task.
unfoldable pub task_of_message : Message → Option ℕ
unfolding header supported
task_of_message m =
    if not (str_eq (header m.headers "event_type") "task.dispatch") then none else elim m.dispatch [
      | none ↦ none
      | some (task, handler) ↦ if supported handler then some task else none
    ]

module _ {State Value : Type 0} (rt : Runtime Value) (service : Service State Value)
    (web : Web State) (c : Client) (ctx : Context) where
  unfoldable pub execute_if : Option ℕ → Course → Call State (Unit {0})
  unfolding execute settle
  execute_if none course = give tt
  execute_if (some task) course = do _ ← settle (execute rt service web c ctx course task); give tt

  -- The messages are those that `FetchMessage` gives in turn, and the errors of `CommitMessages` are
  -- logged. The context of the trace is left out.
  unfoldable pub consume : (ℕ → Call State (Unit {0})) → List Fetched → Call State (Unit {0})
  unfolding task_of_message execute_if settle
  consume commit [] = give tt
  consume commit (is_canceled ∷ rest) = give tt
  consume commit (is_broken ∷ rest) = consume commit rest
  consume commit (message m course ∷ rest) = do
    execute_if (task_of_message m) course
    _ ← settle (commit m.offset)
    consume commit rest

  -- `report`, for a number of ticks; an error is logged.
  unfoldable pub report_all : ℕ → Call State (Unit {0})
  unfolding settle
  report_all zero = do _ ← settle (report rt service web c ctx handlers 0); give tt
  report_all (suc ticks) = do _ ← settle (report rt service web c ctx handlers 0); report_all ticks

-- `env`
unfoldable pub or_fallback : Option String → String → String
or_fallback none fallback = fallback
or_fallback (some v) fallback = if str_eq v "" then fallback else v

-- `defaultWorkerID`; no name is an error of `os.Hostname`.
unfoldable pub default_worker_id : Option String → String
default_worker_id none = "go-worker"
default_worker_id (some name) = if str_eq name "" then "go-worker" else str_append "go-worker-" name
