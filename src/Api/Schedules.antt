-- ===== src/Api/Schedules.antt =====
-- The handlers of internal/api/server.go for schedules, which hold their SQL themselves. `known_zone` is
-- `time.LoadLocation`, and `next` gives the time after an instant, or the text of the parser's error.
use run_mesh.Base.{
  ℕ, suc, String, Bool, true, ◌&&◌, not, Option, none, some, [], ◌∷◌, ◌++◌, ◌⊎◌, inl, inr, str_eq,
  ◌==◌, if◌then◌else◌, not_found, refuse_if, or_fail,
}
use run_mesh.Base.Tables.{find?, select, exists, update_where}
use run_mesh.Workflow.Dag.{codes}
use run_mesh.Store.Db.{Db, Env, Schedule}
use run_mesh.Store.CreateRun.{owned_definition}
use run_mesh.Auth.Text.{Text}
use run_mesh.Auth.Authenticate.{Principal}
use run_mesh.Api.Response.{
  Response, failure, success, ◌>>=◌, ◌>>◌, fail_if, or_handle, Decoded, decode, Answer,
}

pub record ScheduleRequest : Type 0 where
  pub workflow_definition_id : ℕ
  pub cron_expression : String
  pub timezone : String
  pub misfire_policy : String
  pub next_execution_at : Option ℕ  -- none is the zero time

-- `cron.Parse` and the schedule's `Next`.
abbrev pub CronParser : Type 0
CronParser = String → Text ⊎ (String → ℕ → ℕ)

abbrev parse_error : Text ⊎ (String → ℕ → ℕ) → Response (String → ℕ → ℕ)
parse_error (inl message) = failure 422 (codes "invalid cron expression: " ++ message)
parse_error (inr next) = success next

abbrev or_next : Option ℕ → ℕ → ℕ
or_next none at = at
or_next (some given) at = given

abbrev or_default : String → String → String
or_default given default = if str_eq given "" then default else given

unfoldable pub create_schedule :
    (String → Bool)
    → CronParser
    → Env
    → Principal
    → Decoded ScheduleRequest
    → Db
    → Response (Answer (ℕ × Bool))
unfolding or_handle
create_schedule known_zone parse env p body db = do
  req ← decode body
  let timezone = or_default req.timezone "UTC"
  let policy = or_default req.misfire_policy "skip"
  fail_if (not (str_eq policy "skip") && not (str_eq policy "catch_up_once")) 422
      "misfire_policy must be skip or catch_up_once"
  fail_if (not (known_zone timezone)) 422 "invalid timezone"
  next ← parse_error (parse req.cron_expression)
  d ← or_handle (
      or_fail (find? (owned_definition p.tenant_id req.workflow_definition_id) db.definitions)
        not_found)
  let id = env.new_uuid db.drawn
  let s : Schedule = record {
    id = id;
    tenant_id = p.tenant_id;
    workflow_definition_id = d.id;
    cron_expression = req.cron_expression;
    timezone = timezone;
    next_execution_at = or_next req.next_execution_at (next timezone env.clock);
    misfire_policy = policy;
    enabled = true;
  }
  success
      (201, ((id, true), record db { schedules = db.schedules ++ s ∷ []; drawn = suc db.drawn }))

-- `WHERE id=$1 AND tenant_id=$2`
abbrev pub owned_schedule : ℕ → ℕ → Schedule → Bool
owned_schedule tenant id s = s.id == id && s.tenant_id == tenant

pub record SchedulePatch : Type 0 where
  pub enabled : Option Bool
  pub next_execution_at : Option ℕ

-- COALESCE($3,enabled) and COALESCE($4,next_execution_at)
abbrev pub patch_row : SchedulePatch → Schedule → Schedule
patch_row req s = record s {
  enabled = elim req.enabled [ none ↦ s.enabled | some enabled ↦ enabled ];
  next_execution_at = or_next req.next_execution_at s.next_execution_at;
}

unfoldable pub patch_schedule :
    Principal → ℕ → Decoded SchedulePatch → Db → Response (Answer (Unit {0}))
unfolding or_handle
patch_schedule p id body db = do
  req ← decode body
  or_handle (refuse_if (not (exists (owned_schedule p.tenant_id id) db.schedules)) not_found)
  success (
    204,
    (
      tt,
      record db {
        schedules = update_where (owned_schedule p.tenant_id id) (patch_row req) db.schedules;
      },
    ),
  )

unfoldable pub delete_schedule : Principal → ℕ → Db → Response (Answer (Unit {0}))
unfolding or_handle
delete_schedule p id db = do
  or_handle (refuse_if (not (exists (owned_schedule p.tenant_id id) db.schedules)) not_found)
  success (
    204,
    (
      tt,
      record db { schedules = select (λ s. not (owned_schedule p.tenant_id id s)) db.schedules },
    ),
  )
