-- ===== src/Store/Reads.antt =====
-- `GetRun`, `ListRuns` and `Events` of internal/storage/postgres.go. `before` is the order of texts in
-- the collation of the database; rows that tie in an ORDER BY keep the order of their table.
use run_mesh.Base.{
  ℕ, String, Bool, false, ◌&&◌, ◌||◌, not, Option, none, some, List, [], ◌∷◌, map, str_eq, ◌==◌,
  ltb, leb, is_null, if◌then◌else◌, Result, ok, not_found, ◌>>=◌, ◌>>◌, refuse_if, or_fail,
}
use run_mesh.Base.Int.{ℤ, exceeds, is_negative, is_zero, to_ℕ}
use run_mesh.Base.Tables.{find?, select, exists, order_by, take}
use run_mesh.Store.Db.{Db, Run, TaskRun, TaskAttempt, Event, uuid, Payload}
use run_mesh.Store.Runs.{owned_run}

-- A task of `workflow.Run`, with what the subqueries and the second query add to its row.
pub record TaskDetail : Type 0 where
  pub row : TaskRun
  pub log_artifact_uri : Option String
  pub depends_on : List String
  pub attempts : List TaskAttempt

pub record RunDetail : Type 0 where
  pub run : Run
  pub tasks : List TaskDetail

abbrev first_log : List TaskAttempt → Option String
first_log [] = none
first_log (a ∷ rest) = a.log_artifact_uri

-- `WHERE task_run_id=task_runs.id AND log_artifact_uri IS NOT NULL ORDER BY attempt_number DESC LIMIT 1`
unfoldable pub latest_log : ℕ → List TaskAttempt → Option String
latest_log task attempts = first_log (
    order_by (λ a b. leb b.attempt_number a.attempt_number)
      (select (λ a. a.task_run_id == task && not (is_null a.log_artifact_uri)) attempts))

-- The keys of the tasks that a task depends on.
unfoldable pub upstream_keys : (String → String → Bool) → Db → ℕ → List String
upstream_keys before db task = order_by before (
    map (λ u. u.task_key)
      (select (λ u. exists (λ d. d.task_run_id == task && d.depends_on_task_run_id == u.id) db.deps)
        db.tasks))

-- ORDER BY created_at,task_key
abbrev pub task_before : (String → String → Bool) → TaskRun → TaskRun → Bool
task_before before a b =
    ltb a.created_at b.created_at || (a.created_at == b.created_at && before a.task_key b.task_key)

abbrev detail : (String → String → Bool) → Db → TaskRun → TaskDetail
detail before db t = record {
  row = t;
  log_artifact_uri = latest_log t.id db.attempts;
  depends_on = upstream_keys before db t.id;
  attempts =
      order_by (λ a b. leb a.attempt_number b.attempt_number)
        (select (λ a. a.task_run_id == t.id) db.attempts);
}

unfoldable pub get_run : (String → String → Bool) → ℕ → ℕ → Db → Result RunDetail
get_run before tenant id db = do
  run ← or_fail (find? (owned_run tenant id) db.runs) not_found
  ok (record {
    run = run;
    tasks =
        map (detail before db)
          (order_by (task_before before) (select (λ t. t.workflow_run_id == id) db.tasks));
  })

-- `if limit < 1 || limit > 200 { limit = 50 }`
abbrev pub page_size : ℤ → ℕ
page_size limit = if is_negative limit || is_zero limit || exceeds limit 200 then 50 else to_ℕ limit

-- ORDER BY created_at DESC LIMIT $2
unfoldable pub list_runs : ℕ → ℤ → Db → List Run
list_runs tenant limit db =
    take (page_size limit) (
      order_by (λ a b. leb b.created_at a.created_at) (select (λ r. r.tenant_id == tenant) db.runs))

-- `payload->>'workflow_run_id'`, if it is the UUID of a run.
unfoldable pub run_of_payload : Payload → Option ℕ
run_of_payload [] = none
run_of_payload ((name, uuid id) ∷ rest) =
    let later = run_of_payload rest in if str_eq name "workflow_run_id" then some id else later
run_of_payload ((name, field) ∷ rest) = run_of_payload rest

abbrev names_run : ℕ → Option ℕ → Bool
names_run run none = false
names_run run (some id) = id == run

-- The tuples (created_at,id) in SQL's order.
abbrev pub event_before : Event → Event → Bool
event_before a b = ltb a.created_at b.created_at || (a.created_at == b.created_at && ltb a.id b.id)

unfoldable pub events : ℕ → ℕ → Db → Result (List Event)
events tenant run db = do
  refuse_if (not (exists (owned_run tenant run) db.runs)) not_found
  ok (
      order_by event_before
        (select (λ e. e.aggregate_id == run || names_run run (run_of_payload e.payload)) db.outbox))
