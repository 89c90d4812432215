-- ===== src/Scheduler/Outbox.antt =====
-- `publishBatch` and `publishClaimedBatch` of internal/scheduler/scheduler.go. The publisher and the
-- rows that FOR UPDATE SKIP LOCKED passes over are arguments. Metrics and traces are left out; Live/Notify
-- adds the live notifications, whose errors are only logged.
use run_mesh.Base.{
  ℕ, zero, suc, ◌+◌, ◌*◌, Bool, false, ◌&&◌, ◌||◌, not, Option, none, some, List, [], ◌∷◌, map,
  ◌==◌, leb, is_null, is_due, if◌then◌else◌, Error, other, Result, ok, err,
}
use run_mesh.Base.Int.{ℤ, is_negative, is_zero, to_ℕ}
use run_mesh.Base.Tables.{select, exists, update_where, order_by, take, length}
use run_mesh.Workflow.State.{second}
use run_mesh.Store.Db.{Db, Env, Event}
use run_mesh.Store.Reads.{run_of_payload, event_before}

-- The settings of `Service`, durations in nanoseconds.
pub record Settings : Type 0 where
  pub batch_size : ℤ
  pub claim_ttl : ℤ
  pub publish_timeout : ℤ

abbrev pub default_batch_size : ℕ
default_batch_size = 100

abbrev pub default_claim_ttl : ℕ
default_claim_ttl = 30 * second

abbrev pub default_publish_timeout : ℕ
default_publish_timeout = 10 * second

-- `if n <= 0 { n = d }`
abbrev pub positive_or : ℕ → ℤ → ℕ
positive_or d n = if is_negative n || is_zero n then d else to_ℕ n

-- The column `ordering_key`.
abbrev or_aggregate : ℕ → Option ℕ → ℕ
or_aggregate aggregate none = aggregate
or_aggregate aggregate (some run) = run

unfoldable pub ordering_key : Event → ℕ
unfolding run_of_payload
ordering_key e = or_aggregate e.aggregate_id (run_of_payload e.payload)

abbrev pub is_unpublished : Event → Bool
is_unpublished e = is_null e.published_at

-- `earlier.ordering_key=o.ordering_key AND earlier.published_at IS NULL AND
-- (earlier.created_at,earlier.id)<(o.created_at,o.id)`
abbrev pub holds_back : Event → Event → Bool
holds_back o earlier =
    ordering_key earlier == ordering_key o && (is_unpublished earlier && event_before earlier o)

abbrev pub is_candidate : Env → (ℕ → Bool) → List Event → Event → Bool
is_candidate env locked outbox o =
    is_unpublished o
    && ((is_null o.claim_token || is_due o.claim_expires_at env.now)
        && (not (exists (holds_back o) outbox) && not (locked o.id)))

unfoldable pub candidates : Env → (ℕ → Bool) → ℕ → List Event → List Event
candidates env locked batch outbox =
    take batch (order_by event_before (select (is_candidate env locked outbox) outbox))

abbrev pub is_among : List Event → Event → Bool
is_among events o = exists (λ c. c.id == o.id) events

abbrev pub claim_row : Env → ℕ → ℕ → Event → Event
claim_row env token ttl o = record o {
  claim_token = some token;
  claim_expires_at = some (env.now + ttl);
  publish_attempts = suc o.publish_attempts;
}

unfoldable pub claim_events : Env → (ℕ → Bool) → ℕ → ℕ → ℕ → List Event → List Event
claim_events env locked batch token ttl outbox =
    update_where (is_among (candidates env locked batch outbox)) (claim_row env token ttl) outbox

abbrev pub has_token : ℕ → Option ℕ → Bool
has_token token none = false
has_token token (some t) = t == token

-- `WHERE claim_token=$1 AND published_at IS NULL`
abbrev pub is_claimed_by : ℕ → Event → Bool
is_claimed_by token o = has_token token o.claim_token && is_unpublished o

abbrev pub unclaim_row : Event → Event
unclaim_row o = record o { claim_token = none; claim_expires_at = none }

-- The closure `releaseClaims`.
unfoldable pub release_claims : ℕ → List Event → List Event
release_claims token = update_where (is_claimed_by token) unclaim_row

-- `WHERE id=$1 AND published_at IS NULL AND claim_token=$2`
abbrev pub can_acknowledge : ℕ → ℕ → Event → Bool
can_acknowledge token id o = o.id == id && is_claimed_by token o

abbrev pub publish_row : Env → Event → Event
publish_row env o = record o {
  published_at = some env.now;
  claim_token = none;
  claim_expires_at = none;
}

unfoldable pub acknowledge : Env → ℕ → ℕ → List Event → List Event
acknowledge env token id = update_where (can_acknowledge token id) (publish_row env)

-- The loop over the claimed events, and how many it has published. `others` is what other processes do
-- to the outbox while an event is published.
unfoldable pub publish_each :
    Env
    → (Event → Option Error)
    → (Event → List Event → List Event)
    → ℕ
    → ℕ
    → List Event
    → List Event
    → Result ℕ × List Event
publish_each env publish others token count [] outbox = (ok count, outbox)
publish_each env publish others token count (e ∷ rest) outbox =
    let now = others e outbox in
    let later = publish_each env publish others token count rest (acknowledge env token e.id now) in
    elim (publish e) [
      | some failure ↦ (err failure, release_claims token now)
      | none ↦
          if exists (can_acknowledge token e.id) now
          then later
          else (err (other "outbox claim lost before acknowledgement"), release_claims token now)
    ]

unfoldable pub publish_claimed_batch :
    Env
    → Settings
    → (ℕ → Bool)
    → (Event → Option Error)
    → (Event → List Event → List Event)
    → Db
    → Result ℕ × Db
unfolding publish_each candidates
publish_claimed_batch env settings locked publish others db =
    let batch = positive_or default_batch_size settings.batch_size in
    let ttl = positive_or default_claim_ttl settings.claim_ttl in
    let timeout = positive_or default_publish_timeout settings.publish_timeout in
    let token = env.new_uuid db.drawn in
    let claimed = map (claim_row env token ttl) (candidates env locked batch db.outbox) in
    let outbox = claim_events env locked batch token ttl db.outbox in
    let published = publish_each env publish others token (length claimed) claimed outbox in
    if leb ttl timeout
    then (err (other "outbox publish timeout must be shorter than claim TTL"), db)
    else (published.0, record db { outbox = published.1; drawn = suc db.drawn })

-- The end of a round of `publishBatch`: an error, an empty batch, or another round.
unfoldable pub after_batch :
    Result ℕ × Db → (Db → Option (Result (Unit {0})) × Db) → Option (Result (Unit {0})) × Db
after_batch (err e, db) more = (some (err e), db)
after_batch (ok zero, db) more = (some (ok tt), db)
after_batch (ok (suc n), db) more = more db

-- `publishBatch`, which goes on until a batch is empty, on fuel; `none` is no fuel left. Each round has
-- its own time.
unfoldable pub publish_batch :
    (ℕ → Env)
    → Settings
    → (ℕ → Bool)
    → (Event → Option Error)
    → (Event → List Event → List Event)
    → ℕ
    → Db
    → Option (Result (Unit {0})) × Db
unfolding publish_claimed_batch after_batch
publish_batch envs settings locked publish others zero db = (none, db)
publish_batch envs settings locked publish others (suc fuel) db =
    after_batch (publish_claimed_batch (envs fuel) settings locked publish others db)
      (publish_batch envs settings locked publish others fuel)
