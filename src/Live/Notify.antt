-- ===== src/Live/Notify.antt =====
-- The live notifications of `publishClaimedBatch` of internal/scheduler/scheduler.go.
use run_mesh.Base.{
  ℕ, suc, String, Bool, Option, none, some, List, [], ◌∷◌, map, str_eq, ◌==◌, leb, if◌then◌else◌,
  Error, other, Result, ok, err,
}
use run_mesh.Base.Tables.{find?, exists, length}
use run_mesh.Store.Db.{Db, Env, Event, Run, TaskRun, Definition}
use run_mesh.Scheduler.Outbox.{
  Settings, positive_or, default_batch_size, default_claim_ttl, default_publish_timeout, candidates,
  claim_row, claim_events, can_acknowledge, acknowledge, release_claims,
}
use run_mesh.Live.Broker.{Notice, Broker, publish}

abbrev pub tenant_of_run : Option Run → Option ℕ
tenant_of_run none = none
tenant_of_run (some r) = some r.tenant_id

abbrev pub tenant_of_task : List Run → Option TaskRun → Option ℕ
tenant_of_task runs none = none
tenant_of_task runs (some t) = tenant_of_run (find? (λ r. r.id == t.workflow_run_id) runs)

abbrev pub tenant_of_definition : Option Definition → Option ℕ
tenant_of_definition none = none
tenant_of_definition (some d) = some d.tenant_id

-- `COALESCE`
abbrev pub coalesce : Option ℕ → Option ℕ → Option ℕ
coalesce none y = y
coalesce (some x) y = some x

-- `o.aggregate_type='…'` in a subselect.
abbrev pub if_type : Event → String → Option ℕ → Option ℕ
if_type e type found = if str_eq e.aggregate_type type then found else none

-- The column `tenant_id` of a claimed event.
unfoldable pub tenant_of_event : Db → Event → Option ℕ
tenant_of_event db e =
    coalesce
      (if_type e "workflow_run" (tenant_of_run (find? (λ r. r.id == e.aggregate_id) db.runs)))
      (coalesce
        (if_type e "task_run"
          (tenant_of_task db.runs (find? (λ t. t.id == e.aggregate_id) db.tasks)))
        (if_type e "workflow_definition"
          (tenant_of_definition (find? (λ d. d.id == e.aggregate_id) db.definitions))))

unfoldable pub notice_of : Event → Notice
notice_of e = record {
  id = e.id;
  event_type = e.event_type;
  aggregate_id = e.aggregate_id;
  payload = e.payload;
  occurred_at = e.created_at;
}

module _ {W : Type 0} where
  -- `if s.Live != nil`; an error is only logged.
  unfoldable pub notify : Option (Broker W) → Db → Event → W → W
  unfolding publish
  notify none db e w = w
  notify (some b) db e w = (publish b (tenant_of_event db e) (notice_of e) w).1

  -- The loop over the claimed events with its notifications; `db` is the database of the claim.
  unfoldable pub notify_each :
      Option (Broker W)
      → Db
      → Env
      → (Event → Option Error)
      → (Event → List Event → List Event)
      → ℕ
      → ℕ
      → List Event
      → List Event
      → W
      → (Result ℕ × List Event) × W
  notify_each live db env publish others token count [] outbox w = ((ok count, outbox), w)
  notify_each live db env publish others token count (e ∷ rest) outbox w =
      let now = others e outbox in
      let later =
        notify_each live db env publish others token count rest (acknowledge env token e.id now)
          (notify live db e w) in
      elim (publish e) [
        | some failure ↦ ((err failure, release_claims token now), w)
        | none ↦ if exists (can_acknowledge token e.id) now then later else (
          (err (other "outbox claim lost before acknowledgement"), release_claims token now),
          w,
        )
      ]

  -- `publishClaimedBatch`
  unfoldable pub notify_batch :
      Option (Broker W)
      → Env
      → Settings
      → (ℕ → Bool)
      → (Event → Option Error)
      → (Event → List Event → List Event)
      → Db
      → W
      → (Result ℕ × Db) × W
  unfolding notify_each candidates
  notify_batch live env settings locked publish others db w =
      let batch = positive_or default_batch_size settings.batch_size in
      let ttl = positive_or default_claim_ttl settings.claim_ttl in
      let timeout = positive_or default_publish_timeout settings.publish_timeout in
      let token = env.new_uuid db.drawn in
      let claimed = map (claim_row env token ttl) (candidates env locked batch db.outbox) in
      let outbox = claim_events env locked batch token ttl db.outbox in
      let published =
        notify_each live db env publish others token (length claimed) claimed outbox w in
      if leb ttl timeout
      then ((err (other "outbox publish timeout must be shorter than claim TTL"), db), w)
      else (
        (published.0.0, record db { outbox = published.0.1; drawn = suc db.drawn }),
        published.1,
      )
