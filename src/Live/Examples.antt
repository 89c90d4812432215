-- ===== src/Live/Examples.antt =====
-- A server that delivers everything, and one event of a run.
use run_mesh.Base.{
  ℕ, true, false, none, some, List, [], ◌∷◌, ◌++◌, ◌≡◌, ap, inl, inr, refl, Bool-cases, arith, ok,
  if◌then◌else◌,
}
use run_mesh.Base.Int.{pos}
use run_mesh.Store.Db.{Db}
use run_mesh.Store.Examples.{clock}
use run_mesh.Store.Reads.{run_of_payload}
use run_mesh.Lifecycle.Samples.{dispatched}
use run_mesh.Scheduler.Examples.{two_events}
use run_mesh.Base.Tables.{exists, find?, select, order_by, update_where}
use run_mesh.Api.Response.{success}
use run_mesh.Scheduler.Outbox.{
  Settings, publish_claimed_batch, candidates, claim_events, acknowledge, ordering_key,
}
use run_mesh.Auth.Text.{Text, text_eq}
use run_mesh.Auth.Authenticate.{Principal}
use run_mesh.Live.Broker.{Redis, Broker, publish, subscribe, channel_of}
use run_mesh.Live.Notify.{notify_batch, notify_each, notify, tenant_of_event, notice_of}
use run_mesh.Live.Stream.{receive, tick, stream, stream_loop, connected, ping, note}
use run_mesh.Live.Tenants.{Belongs}
use run_mesh.Live.Private.{Laws, IsPrivate}
use run_mesh.Live.Durable.{notify_batch-publish_claimed_batch}
use run_mesh.Live.Isolation.{Sends, stream-IsPrivate}

-- The messages that have been published, the last one first.
abbrev Log : Type 0
Log = List (Text × Text)

unfoldable delivered : Text → Log → List Text
delivered c [] = []
delivered c ((d, m) ∷ log) = if text_eq d c then delivered c log ++ m ∷ [] else delivered c log

abbrev redis : Redis Log
redis = record {
  publish = λ c m log. (ok tt, (c, m) ∷ log);
  subscribe = λ c log. ok tt;
  delivered = delivered;
}

abbrev broker : Broker Log
broker = record { redis = redis; marshal = λ n. ok (n.id ∷ []); show_id = λ id. id ∷ [] }

text_eq-same : (s t : Text) → text_eq s t ≡ true → s ≡ t
unfolding text_eq
text_eq-same [] [] h = refl
text_eq-same [] (d ∷ t) h = absurd (cc)
text_eq-same (c ∷ s) [] h = absurd (cc)
text_eq-same (c ∷ s) (d ∷ t) h = grind (arith, text_eq-same s t)

head_of : Text → ℕ
head_of [] = 0
head_of (c ∷ s) = c

laws : Laws broker
laws = record {
  other_channel = λ c d m log ne. elim (Bool-cases (text_eq c d)) [
    | inl same ↦ absurd (ne (text_eq-same c d same))
    | inr other ↦ unfold delivered in rw other refl
  ];
  own_channel = λ c m log. elim (Bool-cases (text_eq c c)) [
    | inl same ↦ inr (unfold delivered in rw same refl)
    | inr other ↦ inl (unfold delivered in rw other refl)
  ];
  injective = λ i j e. unfold head_of in ap head_of e;
}

abbrev settings : Settings
settings = record { batch_size = pos 0; claim_ttl = pos 0; publish_timeout = pos 0 }

abbrev reader : Principal
reader = record { tenant_id = 7; user_id = none; role = "viewer"; kind = "oidc"; scopes = [] }

-- Two events of a run of tenant 7.
abbrev created : Db
created = record dispatched { outbox = two_events }

-- The first event of the run, which holds the second one back, reaches the tenant of the run.
received :
    stream
      (some broker)
      reader
      true
      true
      true
      (tick true ∷ receive true ∷ [])
      []
      (notify_batch
        (some broker)
        clock
        settings
        (λ id. false)
        (λ e. none)
        (λ e outbox. outbox)
        created
        []).1
    ≡ success (connected ∷ ping ∷ note (20 ∷ []) ∷ [])
unfolding stream notify_batch delivered stream_loop notify_each notify subscribe publish
    tenant_of_event candidates channel_of claim_events acknowledge text_eq exists find? select
    order_by update_where notice_of ordering_key run_of_payload
received = refl

nothing-IsPrivate : IsPrivate broker (λ t n. Belongs created t n.aggregate_id) []
unfolding delivered
nothing-IsPrivate t = tt

stream-IsPrivate_example :
    Sends broker
      (λ t n. Belongs created t n.aggregate_id)
      7
      (stream
        (some broker)
        reader
        true
        true
        true
        (tick true ∷ receive true ∷ [])
        []
        (notify_batch
          (some broker)
          clock
          settings
          (λ id. false)
          (λ e. none)
          (λ e outbox. outbox)
          created
          []).1)
stream-IsPrivate_example =
    stream-IsPrivate broker laws (λ t n. Belongs created t n.aggregate_id) created
      (λ t n belongs. belongs) clock settings (λ id. false) (λ e. none) (λ e outbox. outbox) []
      nothing-IsPrivate reader true true true (tick true ∷ receive true ∷ [])

notify_batch-publish_claimed_batch_example :
    (notify_batch
      (some broker)
      clock
      settings
      (λ id. false)
      (λ e. none)
      (λ e outbox. outbox)
      created
      []).0
    ≡ publish_claimed_batch clock settings (λ id. false) (λ e. none) (λ e outbox. outbox) created
notify_batch-publish_claimed_batch_example =
    notify_batch-publish_claimed_batch (some broker) created clock (λ e. none) (λ e outbox. outbox)
      settings (λ id. false) []
