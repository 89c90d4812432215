-- ===== src/Store/Db.antt =====
-- The tables of migrations/*.up.sql as lists of rows, with the structs that the program scans them
-- into (internal/workflow/model.go, internal/storage). A UUID is a number, an instant is the number
-- of nanoseconds since the epoch, JSON that the program only passes on is its text.
use run_mesh.Base.{
  ℕ, suc, String, Bool, Option, none, some, List, [], ◌∷◌, ◌++◌, str_eq, if◌then◌else◌,
}
use run_mesh.Base.Int.{ℤ}
use run_mesh.Workflow.State.{TaskStatus, RunStatus}
use run_mesh.Workflow.Model.{Dag}

-- workflow_definitions
pub record Definition : Type 0 where
  pub id : ℕ
  pub tenant_id : ℕ
  pub name : String
  pub version : ℕ
  pub dag : Dag
  pub created_at : ℕ

-- workflow_runs
pub record Run : Type 0 where
  pub id : ℕ
  pub tenant_id : ℕ
  pub workflow_definition_id : ℕ
  pub workflow_version : ℕ
  pub status : RunStatus
  pub input : String
  pub input_artifact_uri : Option String
  pub idempotency_key : String
  pub trace_parent : String
  pub started_at : Option ℕ
  pub completed_at : Option ℕ
  pub created_at : ℕ

-- task_runs
pub record TaskRun : Type 0 where
  pub id : ℕ
  pub workflow_run_id : ℕ
  pub task_key : String
  pub handler : String
  pub status : TaskStatus
  pub priority : ℤ
  pub available_at : ℕ
  pub attempt_count : ℕ
  pub maximum_attempts : ℕ
  pub timeout_seconds : ℕ
  pub lease_owner : Option String
  pub lease_expires_at : Option ℕ
  pub input : String
  pub output : Option String
  pub output_artifact_uri : Option String
  pub created_at : ℕ
  pub updated_at : ℕ

-- task_dependencies
pub record Dependency : Type 0 where
  pub workflow_run_id : ℕ
  pub task_run_id : ℕ
  pub depends_on_task_run_id : ℕ

-- task_attempts
pub record TaskAttempt : Type 0 where
  pub task_run_id : ℕ
  pub attempt_number : ℕ
  pub worker_id : String
  pub scheduled_at : ℕ
  pub executing_at : Option ℕ
  pub started_at : ℕ
  pub ended_at : Option ℕ
  pub exit_status : Option TaskStatus
  pub error_type : Option String
  pub error_message : Option String
  pub trace_id : Option String
  pub artifact_uri : Option String
  pub log_artifact_uri : Option String

-- A value of an event's JSON payload.
pub data Field : Type 0 where
  uuid number : ℕ → Field
  text : String → Field

-- `map[string]any`, marshalled.
abbrev pub Payload : Type 0
Payload = List (String × Field)

-- outbox_events
pub record Event : Type 0 where
  pub id : ℕ
  pub aggregate_type : String
  pub aggregate_id : ℕ
  pub event_type : String
  pub payload : Payload
  pub trace_parent : String
  pub published_at : Option ℕ
  pub claim_token : Option ℕ
  pub claim_expires_at : Option ℕ
  pub publish_attempts : ℕ
  pub created_at : ℕ

-- audit_events
pub record Audit : Type 0 where
  pub tenant_id : ℕ
  pub actor_id : Option ℕ
  pub action : String
  pub resource_type : String
  pub resource_id : ℕ

-- artifacts
pub data ArtifactStatus : Type 0 where
  pending_upload uploaded : ArtifactStatus

pub record Artifact : Type 0 where
  pub id : ℕ
  pub tenant_id : ℕ
  pub kind : String
  pub status : ArtifactStatus
  pub object_key : String
  pub object_uri : String
  pub content_type : String
  pub declared_size : ℕ
  pub size_bytes : Option ℕ
  pub checksum_sha256 : String
  pub workflow_run_id : Option ℕ
  pub task_run_id : Option ℕ
  pub ready_at : Option ℕ
  pub created_at : ℕ

-- api_keys
pub record ApiKey : Type 0 where
  pub id : ℕ
  pub tenant_id : ℕ
  pub name : String
  pub key_hash : String
  pub scopes : List String
  pub expires_at : Option ℕ
  pub revoked_at : Option ℕ
  pub last_used_at : Option ℕ
  pub created_at : ℕ

-- users
pub record User : Type 0 where
  pub id : ℕ
  pub tenant_id : ℕ
  pub oidc_subject : List ℕ  -- the codes of its characters
  pub role : String

-- worker_heartbeats
pub record WorkerInfo : Type 0 where
  pub tenant_id : ℕ
  pub worker_id : String
  pub handlers : List String
  pub active_tasks : ℤ
  pub metadata : String
  pub last_seen_at : ℕ

-- schedules
pub record Schedule : Type 0 where
  pub id : ℕ
  pub tenant_id : ℕ
  pub workflow_definition_id : ℕ
  pub cron_expression : String
  pub timezone : String
  pub next_execution_at : ℕ
  pub misfire_policy : String
  pub enabled : Bool

pub record Db : Type 0 where
  pub definitions : List Definition
  pub runs : List Run
  pub tasks : List TaskRun
  pub deps : List Dependency
  pub attempts : List TaskAttempt
  pub outbox : List Event
  pub audits : List Audit
  pub artifacts : List Artifact
  pub api_keys : List ApiKey
  pub users : List User
  pub workers : List WorkerInfo
  pub schedules : List Schedule
  pub drawn : ℕ  -- how many random UUIDs have been used

-- What a transaction takes from outside: `now()` of the database, which is fixed for a transaction,
-- `time.Now()` of the process, the trace of the request, and the source of random UUIDs.
pub record Env : Type 0 where
  pub now : ℕ
  pub clock : ℕ
  pub trace_parent : String
  pub new_uuid : ℕ → ℕ

abbrev pub empty_db : Db
empty_db = record {
  definitions = [];
  runs = [];
  tasks = [];
  deps = [];
  attempts = [];
  outbox = [];
  audits = [];
  artifacts = [];
  api_keys = [];
  users = [];
  workers = [];
  schedules = [];
  drawn = 0;
}

-- INSERT INTO outbox_events(...), whose other columns have their defaults.
unfoldable pub insert_event : Env → String → ℕ → String → Payload → String → Db → Db
insert_event env aggregate_type aggregate_id event_type payload trace db = record db {
  outbox =
      db.outbox
      ++ record {
        id = env.new_uuid db.drawn;
        aggregate_type = aggregate_type;
        aggregate_id = aggregate_id;
        event_type = event_type;
        payload = payload;
        trace_parent = trace;
        published_at = none;
        claim_token = none;
        claim_expires_at = none;
        publish_attempts = 0;
        created_at = env.now;
      }
        ∷ [];
  drawn = suc db.drawn;
}

-- INSERT INTO audit_events(...).
unfoldable pub insert_audit : ℕ → Option ℕ → String → String → ℕ → Db → Db
insert_audit tenant_id actor_id action resource_type resource_id db = record db {
  audits =
      db.audits
      ++ record {
        tenant_id = tenant_id;
        actor_id = actor_id;
        action = action;
        resource_type = resource_type;
        resource_id = resource_id;
      }
        ∷ [];
}

-- `NULLIF($n,'')`
abbrev pub null_if_empty : String → Option String
null_if_empty s = if str_eq s "" then none else some s
