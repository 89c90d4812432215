-- ===== src/Scheduler/Drain.antt =====
-- The publisher of the outbox until nothing is left.
pub mod Acks
pub mod Heads
pub mod Rows
pub mod Round
pub mod Pending
use run_mesh.Base.{
  ℕ, zero, suc, ◌<◌, Bool, true, false, not, ◌≡◌, ◌≢◌, ◌⊎◌, inl, inr, refl, sym, ap, ◌∙◌, subst,
  Option, none, some, List, [], ◌∷◌, map, leb, arith, Result, ok, err, Error, if◌then◌else◌,
}
use run_mesh.Base.Int.{ℤ, is_negative, is_zero, pos, negsuc}
use run_mesh.Base.Tables.{All, length}
use run_mesh.Store.Db.{Db, Env, Event}
use run_mesh.Scheduler.Outbox.{
  Settings, default_batch_size, default_claim_ttl, default_publish_timeout, positive_or, candidates,
  claim_row, claim_events, publish_each, publish_claimed_batch, after_batch, publish_batch,
}
use run_mesh.Scheduler.Drain.Acks.{
  backlog, Distinct, CanAcknowledge, ack_all, publish_each-ok, backlog-ack_all-lt,
}
use run_mesh.Scheduler.Drain.Heads.{IsFree, length-candidates}
use run_mesh.Scheduler.Drain.Round.{
  claimed, Distinct-candidates, Distinct-claimed, CanAcknowledge-claimed, Distinct-claim_events,
  backlog-claim_events,
}
use run_mesh.Scheduler.Drain.Rows.{Distinct-ack_all}
use run_mesh.Scheduler.Drain.Pending.{IsFree-round}

-- The publisher takes every event, and no one else is at work.
abbrev pub accept : Event → Option Error
accept e = none

abbrev pub alone : Event → List Event → List Event
alone e outbox = outbox

abbrev pub unlocked : ℕ → Bool
unlocked id = false

abbrev pub IsTimely : Settings → Type 0
IsTimely settings =
    leb (positive_or default_claim_ttl settings.claim_ttl)
      (positive_or default_publish_timeout settings.publish_timeout)
    ≡ false

-- Event ids are unique, and no event that waits is claimed.
abbrev pub IsQuiet : List Event → Type 0
IsQuiet outbox = Distinct outbox × All IsFree outbox

positive_or-pos : (d : ℕ) (n : ℤ) → 0 < d → 0 < positive_or d n
positive_or-pos d (pos n) h = ground arith
positive_or-pos d (negsuc n) h = ground arith

List-cases : (xs : List Event) → (xs ≡ []) ⊎ ((x : Event) × (rest : List Event) × (xs ≡ x ∷ rest))
List-cases [] = inl refl
List-cases (x ∷ xs) = inr (x, xs, refl)

zero-cases : (n : ℕ) → (n ≡ 0) ⊎ (n ≢ 0)
zero-cases zero = inl refl
zero-cases (suc n) = inr (λ e. absurd (omega arith))

length-map : (f : Event → Event) (xs : List Event) → length (map f xs) ≡ length xs
length-map f [] = refl
length-map f (x ∷ xs) = omega (arith, length-map f xs)

module _ (env : Env) (settings : Settings) (db : Db) where
  abbrev batch : ℕ
  batch = positive_or default_batch_size settings.batch_size

  abbrev token : ℕ
  token = env.new_uuid db.drawn

  abbrev ttl : ℕ
  ttl = positive_or default_claim_ttl settings.claim_ttl

  abbrev es : List Event
  es = claimed env token ttl (candidates env unlocked batch db.outbox)

  abbrev outbox₁ : List Event
  outbox₁ = claim_events env unlocked batch token ttl db.outbox

  abbrev after_round : Db
  after_round = record db { outbox = ack_all env token es outbox₁; drawn = suc db.drawn }

  -- A round publishes what it claims.
  round_lem :
      IsTimely settings
      → IsQuiet db.outbox
      → publish_claimed_batch env settings unlocked accept alone db ≡ (ok (length es), after_round)
  unfolding publish_claimed_batch
  round_lem timely (distinct, free) = rw timely (
      rw
        (publish_each-ok env token (length es) es outbox₁
          (Distinct-claimed env token ttl _
            (Distinct-candidates env unlocked batch db.outbox distinct))
          (CanAcknowledge-claimed env token ttl unlocked batch db.outbox))
        refl)

  round_of :
      {n : ℕ}
      → IsTimely settings
      → IsQuiet db.outbox
      → length es ≡ n
      → publish_claimed_batch env settings unlocked accept alone db ≡ (ok n, after_round)
  round_of timely quiet many = round_lem timely quiet ∙ ap (λ (n : ℕ). (ok n, after_round)) many

  round-IsQuiet : IsQuiet db.outbox → IsQuiet after_round.outbox
  round-IsQuiet (distinct, free) = (
    Distinct-ack_all env token es outbox₁
        (Distinct-claim_events env token ttl unlocked batch db.outbox distinct),
    IsFree-round env token ttl unlocked batch db.outbox free,
  )

  -- A round that publishes nothing has found nothing to publish.
  round-none : IsQuiet db.outbox → es ≡ [] → backlog after_round.outbox ≡ 0
  unfolding ack_all
  round-none (distinct, free) nothing = rw nothing (elim (zero-cases (backlog db.outbox)) [
    | inl drained ↦ backlog-claim_events env token ttl unlocked batch db.outbox ∙ drained
    | inr waiting ↦
        let some_candidate =
          length-candidates env batch db.outbox free
            (positive_or-pos default_batch_size settings.batch_size (omega arith)) waiting in
        let none_claimed : length es ≡ 0 = ap length nothing in
        absurd (
          omega (
            arith,
            some_candidate,
            none_claimed,
            length-map (claim_row env token ttl) (candidates env unlocked batch db.outbox),
          ))
  ])

  round-some :
      (e : Event) (rest : List Event)
      → es ≡ e ∷ rest
      → backlog after_round.outbox < backlog db.outbox
  round-some e rest some_events =
      let ready : All (CanAcknowledge env token outbox₁) (e ∷ rest) =
        subst (All (CanAcknowledge env token outbox₁)) some_events
          (CanAcknowledge-claimed env token ttl unlocked batch db.outbox) in
      rw some_events (
        omega (
          arith,
          backlog-ack_all-lt env token e rest outbox₁ ready.0,
          backlog-claim_events env token ttl unlocked batch db.outbox,
        ))

abbrev IsDrained : Option (Result (Unit {0})) × Db → Type 0
IsDrained r = (r.0 ≡ some (ok tt)) × (backlog r.1.outbox ≡ 0)

then-IsDrained :
    (r r' : Result ℕ × Db) (more : Db → Option (Result (Unit {0})) × Db)
    → r' ≡ r
    → IsDrained (after_batch r more)
    → IsDrained (after_batch r' more)
then-IsDrained r r' more same h = subst (λ x. IsDrained (after_batch x more)) (sym same) h

-- With a publisher that takes every event and no one else at work on the outbox, publishing ends without
-- an error and leaves no event unpublished, provided that the publish timeout is below the claim's time,
-- that event ids are unique and that no event that waits is claimed. The fuel is enough if it is
-- above the number of events that wait.
pub publish_batch-drains :
    (envs : ℕ → Env) (settings : Settings) (fuel : ℕ) (db : Db)
    → IsTimely settings
    → IsQuiet db.outbox
    → backlog db.outbox < fuel
    → ((publish_batch envs settings unlocked accept alone fuel db).0 ≡ some (ok tt))
      × (backlog (publish_batch envs settings unlocked accept alone fuel db).1.outbox ≡ 0)
unfolding publish_batch after_batch
publish_batch-drains envs settings zero db timely quiet enough = absurd (omega arith)
publish_batch-drains envs settings (suc fuel) db timely quiet enough =
    let env = envs fuel in
    let next = after_round env settings db in
    let more = publish_batch envs settings unlocked accept alone fuel in
    elim (List-cases (es env settings db)) [
      | inl nothing ↦
          then-IsDrained (ok 0, next) _ more
            (round_of env settings db timely quiet (ap length nothing))
            (refl, round-none env settings db quiet nothing)
      | inr (e, rest, some_events) ↦
          then-IsDrained (ok (suc (length rest)), next) _ more
            (round_of env settings db timely quiet (ap length some_events))
            (publish_batch-drains envs settings fuel next timely
              (round-IsQuiet env settings db quiet)
              (omega (arith, round-some env settings db e rest some_events)))
    ]
