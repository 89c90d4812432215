-- ===== src/Scheduler/Examples.antt =====
-- An outbox with two events of one run.
use run_mesh.Base.{ℕ, none, some, List, [], ◌∷◌, ◌≡◌, refl, false, arith, ◌+◌, ok}
use run_mesh.Base.Int.{pos}
use run_mesh.Store.Db.{Db, Env, Event, empty_db}
use run_mesh.Scheduler.Outbox.{Settings, claim_events, publish_batch}
use run_mesh.Scheduler.Order.{IsKeyed, IsInOrder, claims, OutboxStep-IsInOrder}
use run_mesh.Scheduler.Drain.{unlocked, accept, alone, IsTimely, IsQuiet, publish_batch-drains}
use run_mesh.Scheduler.Drain.Acks.{backlog}

abbrev at_100 : Env
at_100 = record { now = 100; clock = 100; trace_parent = ""; new_uuid = λ n. 1000 + n }

abbrev pub event : ℕ → ℕ → Event
event id created = record {
  id = id;
  aggregate_type = "workflow_run";
  aggregate_id = 1;
  event_type = "task.ready";
  payload = [];
  trace_parent = "";
  published_at = none;
  claim_token = none;
  claim_expires_at = none;
  publish_attempts = 0;
  created_at = created;
}

abbrev pub two_events : List Event
two_events = event 20 5 ∷ event 21 6 ∷ []

two_events-IsKeyed : IsKeyed two_events
two_events-IsKeyed = (
  (λ _. refl, (λ e. absurd (omega arith), tt)),
  ((λ e. absurd (omega arith), (λ _. refl, tt)), tt),
)

two_events-IsInOrder : IsInOrder two_events
two_events-IsInOrder = (λ h. absurd (cc), (λ h. absurd (cc), tt))

OutboxStep-IsInOrder_example : IsInOrder (claim_events at_100 (λ _. false) 100 77 30 two_events)
OutboxStep-IsInOrder_example =
    OutboxStep-IsInOrder {outbox = two_events}
      {outbox' = claim_events at_100 (λ _. false) 100 77 30 two_events} two_events-IsKeyed
      two_events-IsInOrder (claims at_100 (λ _. false) 100 77 30 refl)

-- One event for each batch.
abbrev one_by_one : Settings
one_by_one = record { batch_size = pos 1; claim_ttl = pos 0; publish_timeout = pos 0 }

timely : IsTimely one_by_one
timely = refl

pub two_events-IsQuiet : IsQuiet two_events
two_events-IsQuiet =
    ((((λ e. absurd (omega arith)), tt), (tt, tt)), ((λ _. refl), ((λ _. refl), tt)))

abbrev pub waiting : Db
waiting = record empty_db { outbox = two_events }

pub two_wait : backlog two_events ≡ 2
unfolding backlog
two_wait = refl

publish_batch-drains_example :
    ((publish_batch (λ n. at_100) one_by_one unlocked accept alone 3 waiting).0 ≡ some (ok tt))
    × (backlog (publish_batch (λ n. at_100) one_by_one unlocked accept alone 3 waiting).1.outbox
        ≡ 0)
publish_batch-drains_example =
    publish_batch-drains (λ n. at_100) one_by_one 3 waiting timely two_events-IsQuiet
      (omega (arith, two_wait))
