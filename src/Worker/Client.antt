-- ===== src/Worker/Client.antt =====
-- `Client` of sdk/go/client.go.
use run_mesh.Base.{
  ℕ, String, Bool, false, ◌&&◌, ◌||◌, not, none, some, List, [], ◌∷◌, ◌++◌, str_eq, ◌==◌, ltb,
  if◌then◌else◌,
}
use run_mesh.Base.Tables.{take, length}
use run_mesh.Workflow.Dag.{codes}
use run_mesh.Workflow.State.{TaskStatus}
use run_mesh.Auth.Text.{Text, after_prefix}
use run_mesh.Worker.Calls.{
  Context, GoError, Fault, no_connection, bad_value, unexpected_status, Call, ◌>>=◌, ◌>>◌, give,
  or_stop, stop_if, Fields, Runtime, Snapshot, Service, Web,
}

pub record Task : Type 0 where
  pub id : ℕ
  pub workflow_run_id : ℕ
  pub task_key : String
  pub handler : String
  pub status : TaskStatus
  pub attempt_count : ℕ
  pub maximum_attempts : ℕ
  pub timeout_seconds : ℕ
  pub input : Text
  pub input_artifact_uri : String

-- `has_error` is `initErr != nil`.
pub record Client : Type 0 where
  pub token : Text
  pub worker_id : String
  pub http_base_url : Text
  pub has_error : Bool

-- `strings.TrimRight(s, "/")`
unfoldable pub trim_slashes : Text → Text
trim_slashes [] = []
trim_slashes (c ∷ s) =
    let rest = trim_slashes s in
    elim rest [ [] ↦ if c == b'/' then [] else c ∷ [] | d ∷ t ↦ c ∷ d ∷ t ]

-- `strings.TrimPrefix`
unfoldable pub trim_prefix : String → Text → Text
unfolding after_prefix
trim_prefix prefix s = elim (after_prefix (codes prefix) s) [ none ↦ s | some rest ↦ rest ]

-- `strings.HasSuffix(s, "7001")`, with "8080" put in its place.
unfoldable pub web_port : Text → Text
web_port [] = []
web_port (c ∷ s) =
    let rest = web_port s in
    elim (after_prefix (codes "7001") (c ∷ s)) [ some [] ↦ codes "8080" | _ ↦ c ∷ rest ]

unfoldable pub target_of : Text → Text
unfolding trim_slashes trim_prefix
target_of endpoint = trim_prefix "grpc://" (trim_prefix "http://" (trim_slashes endpoint))

-- `NewClient`; `fails` tells whether `grpc.NewClient` returns an error for the target.
unfoldable pub new_client : (Text → Bool) → Text → Text → String → Client
unfolding target_of web_port
new_client fails endpoint token worker =
    let target = target_of endpoint in
    record {
      token = token;
      worker_id = worker;
      http_base_url = codes "http://" ++ web_port target;
      has_error = fails target;
    }

-- `rpcContext`
unfoldable pub rpc_context : Client → Context → Context
rpc_context c ctx = record ctx {
  authorization = ctx.authorization ++ (codes "Bearer " ++ c.token) ∷ [];
}

-- `strings.EqualFold(key, "host")`; U+017F folds to s.
unfoldable pub is_host : Text → Bool
is_host (h ∷ o ∷ s ∷ t ∷ []) =
    (h == b'h' || h == b'H')
    && ((o == b'o' || o == b'O')
        && ((s == b's' || s == b'S' || s == 383) && (t == b't' || t == b'T')))
is_host _ = false

unfoldable pub without_host : List (String × String) → List (String × String)
unfolding is_host
without_host [] = []
without_host ((key, value) ∷ rest) =
    let others = without_host rest in if is_host (codes key) then others else (key, value) ∷ others

-- `StatusCode < 200 || StatusCode >= 300`
abbrev pub is_bad_status : ℕ → Bool
is_bad_status code = ltb code 200 || not (ltb code 300)

-- 256 KiB
abbrev pub max_inline_bytes : ℕ
max_inline_bytes = 262144

-- 100 MiB and a byte
abbrev pub max_download_bytes : ℕ
max_download_bytes = 104857601

module _ {State Value : Type 0} (rt : Runtime Value) (service : Service State Value)
    (web : Web State) (c : Client) where
  -- `task`
  unfoldable pub task_of : Snapshot Value → Task
  task_of value = record {
    id = value.id;
    workflow_run_id = value.workflow_run_id;
    task_key = value.task_key;
    handler = value.handler;
    status = value.status;
    attempt_count = value.attempt;
    maximum_attempts = 0;
    timeout_seconds = value.timeout_seconds;
    input = elim (rt.marshal (rt.object value.input)) [ none ↦ [] | some raw ↦ raw ];
    input_artifact_uri = value.input_artifact_uri;
  }

  unfoldable pub download_artifact : Context → ℕ → String → Call State Text
  unfolding rpc_context
  download_artifact ctx task uri = do
    url ← service.get_artifact_download (rpc_context c ctx) uri c.worker_id task
    got ← web.get ctx url
    stop_if (is_bad_status got.0) (unexpected_status got.0)
    body ← or_stop got.1 Fault.lost
    give (take max_download_bytes body)

  -- `if result.InputArtifactURI != ""`
  unfoldable pub fetch_input : Context → ℕ → Task → Call State Task
  unfolding download_artifact
  fetch_input ctx id task = if str_eq task.input_artifact_uri "" then give task else (do
    input ← download_artifact ctx id task.input_artifact_uri
    give (record task { input = input }))

  unfoldable pub lease : Context → ℕ → Call State Task
  unfolding fetch_input task_of
  lease ctx id = do
    stop_if c.has_error no_connection
    value ← service.lease (rpc_context c ctx) id c.worker_id
    fetch_input ctx id (task_of value)

  unfoldable pub start : Context → ℕ → Call State Task
  unfolding task_of
  start ctx id = do
    stop_if c.has_error no_connection
    value ← service.start (rpc_context c ctx) id c.worker_id
    give (task_of value)

  unfoldable pub heartbeat : Context → ℕ → Call State (ℕ × Bool)
  heartbeat ctx id = do
    stop_if c.has_error no_connection
    service.heartbeat (rpc_context c ctx) id c.worker_id

  unfoldable pub upload_artifact : Context → ℕ → String → String → Text → Call State String
  unfolding without_host
  upload_artifact ctx task kind content_type bytes = do
    ticket ← service.create_artifact_upload (rpc_context c ctx) (record {
      task = task;
      worker = c.worker_id;
      kind = kind;
      content_type = content_type;
      size = length bytes;
      checksum = rt.sha256_hex bytes;
    })
    code ← web.put ctx ticket.upload_url (without_host ticket.headers) bytes
    stop_if (is_bad_status code) (unexpected_status code)
    service.complete_artifact_upload (rpc_context c ctx) ticket.artifact c.worker_id task

  -- A large output goes to an artifact, and an empty object to the call.
  unfoldable pub store_output :
      Context → ℕ → Text → Fields Value → Call State (String × Fields Value)
  unfolding upload_artifact
  store_output ctx id raw object =
      if ltb max_inline_bytes (length raw)
      then (do uri ← upload_artifact ctx id "output" "application/json" raw; give (uri, []))
      else give ("", object)

  abbrev log_entry : ℕ → Value
  log_entry id =
      rt.object (("task_run_id", rt.text (rt.show_id id)) ∷ ("status", rt.text "SUCCEEDED") ∷ [])

  unfoldable pub complete : Context → ℕ → Value → Call State Task
  unfolding store_output upload_artifact task_of
  complete ctx id output = do
    stop_if c.has_error no_connection
    raw ← or_stop (rt.marshal output) bad_value
    object ← or_stop (rt.unmarshal raw) bad_value
    stored ← store_output ctx id raw object
    stop_if (not (rt.is_struct stored.1)) bad_value
    log ← or_stop (rt.marshal (log_entry id)) bad_value
    log_uri ← upload_artifact ctx id "log" "application/json" log
    value ← service.complete (rpc_context c ctx) (record {
      task = id;
      worker = c.worker_id;
      output = stored.1;
      output_uri = stored.0;
      log_uri = log_uri;
    })
    give (task_of value)

  unfoldable pub fail : Context → ℕ → Bool → GoError → Call State Task
  unfolding task_of
  fail ctx id retryable e = do
    stop_if c.has_error no_connection
    value ← service.fail (rpc_context c ctx) id c.worker_id (record {
      retryable = retryable;
      error_type = e.type_name;
      error_message = e.message;
      trace_id = "";
    })
    give (task_of value)

  -- `Report` and `postHTTP`
  unfoldable pub report : Context → List String → ℕ → Call State (Unit {0})
  report ctx handlers active = do
    code ←
        web.post ctx
          (c.http_base_url
            ++ codes "/internal/v1/workers/"
            ++ codes c.worker_id
            ++ codes "/heartbeat")
          (codes "Bearer " ++ c.token) (record { handlers = handlers; active_tasks = active })
    stop_if (is_bad_status code) (unexpected_status code)
