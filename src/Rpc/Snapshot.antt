-- ===== src/Rpc/Snapshot.antt =====
-- `snapshot` of internal/rpc/worker.go.
use run_mesh.Base.{String, Option, none, some, [], if◌then◌else◌}
use run_mesh.Workflow.Dag.{codes}
use run_mesh.Store.Db.{TaskRun}
use run_mesh.Worker.Calls.{Fields, Runtime, Snapshot}

module _ {Value : Type 0} (rt : Runtime Value) where
  abbrev or_nothing : Option (Fields Value) → Fields Value
  or_nothing none = []
  or_nothing (some fields) = if rt.is_struct fields then fields else []

  abbrev or_unset : Option String → String
  or_unset none = ""
  or_unset (some uri) = uri

  -- Of a task with the URI of its run's input; the columns are 32-bit integers.
  unfoldable pub snapshot : TaskRun → Option String → Snapshot Value
  snapshot t uri = record {
    id = t.id;
    workflow_run_id = t.workflow_run_id;
    task_key = t.task_key;
    handler = t.handler;
    status = t.status;
    attempt = t.attempt_count;
    timeout_seconds = t.timeout_seconds;
    input = or_nothing (rt.unmarshal (codes t.input));
    input_artifact_uri = or_unset uri;
  }
