-- ===== src/Scheduler/Drain/Heads.antt =====
-- An outbox that is not drained has an event to claim.
use run_mesh.Base.{
  ℕ, zero, suc, ◌<◌, Bool, true, false, ◌≡◌, ◌≢◌, ◌⊎◌, inl, inr, refl, sym, subst, List, [], ◌∷◌,
  is_null, arith, Bool-cases,
}
use run_mesh.Base.Tables.{All, select, exists, order_by, insert_by, take, length}
use run_mesh.Store.Db.{Env, Event}
use run_mesh.Store.Reads.{event_before}
use run_mesh.Scheduler.Outbox.{is_unpublished, holds_back, is_candidate, candidates}
use run_mesh.Scheduler.Drain.Acks.{backlog}

-- What waits is not claimed.
abbrev pub IsFree : Event → Type 0
IsFree o = is_unpublished o ≡ true → is_null o.claim_token ≡ true

abbrev NotBefore : Event → Event → Type 0
NotBefore m y = is_unpublished y ≡ true → event_before y m ≡ false

-- An unpublished event with none before it.
record IsEarliest (outbox : List Event) (m : Event) : Type 0 where
  waits : is_unpublished m ≡ true
  free : is_null m.claim_token ≡ true
  first : All (NotBefore m) outbox
  found : (p : Event → Bool) → p m ≡ true → exists p outbox ≡ true

before_less :
    (x m : Event) (xs : List Event)
    → event_before x m ≡ true
    → All (NotBefore m) xs
    → All (NotBefore x) xs
before_less x m [] h a = tt
before_less x m (y ∷ xs) h a =
    ((λ waits. let later = a.0 waits in ground arith), before_less x m xs h a.1)

event_before-irreflexive : (x : Event) → event_before x x ≡ false
event_before-irreflexive x = ground arith

earliest :
    (outbox : List Event)
    → All IsFree outbox
    → (backlog outbox ≡ 0) ⊎ ((m : Event) × IsEarliest outbox m)
unfolding backlog exists
earliest [] free = inl refl
earliest (x ∷ outbox) free = elim (Bool-cases (is_unpublished x)) [
  | inr published ↦ elim (earliest outbox free.1) [
    | inl none_waits ↦ inl (ground arith)
    | inr (m, e) ↦ inr (
      m,
      record {
        waits = e.waits;
        free = e.free;
        first = ((λ waits. absurd (cc)), e.first);
        found = λ p h. let later = e.found p h in ground arith;
      },
    )
  ]
  | inl waits ↦ elim (earliest outbox free.1) [
    | inl none_waits ↦ inr (
      x,
      record {
        waits = waits;
        free = free.0 waits;
        first = ((λ _. event_before-irreflexive x), no_backlog x outbox none_waits);
        found = λ p h. rw h refl;
      },
    )
    | inr (m, e) ↦ elim (Bool-cases (event_before x m)) [
      | inl sooner ↦ inr (
        x,
        record {
          waits = waits;
          free = free.0 waits;
          first = ((λ _. event_before-irreflexive x), before_less x m outbox sooner e.first);
          found = λ p h. rw h refl;
        },
      )
      | inr later ↦ inr (
        m,
        record {
          waits = e.waits;
          free = e.free;
          first = ((λ _. later), e.first);
          found = λ p h. let there = e.found p h in ground arith;
        },
      )
    ]
  ]
]
  where
    no_backlog : (x : Event) (outbox : List Event) → backlog outbox ≡ 0 → All (NotBefore x) outbox
    no_backlog x [] h = tt
    no_backlog x (y ∷ outbox) h = elim (Bool-cases (is_unpublished y)) [
      | inl waits ↦ absurd (ground arith)
      | inr published ↦ ((λ waits. absurd (cc)), no_backlog x outbox (ground arith))
    ]

none_before :
    (m : Event) (outbox : List Event)
    → All (NotBefore m) outbox
    → exists (holds_back m) outbox ≡ false
unfolding exists
none_before m [] a = refl
none_before m (y ∷ outbox) a =
    let rest = none_before m outbox a.1 in
    elim (Bool-cases (is_unpublished y)) [
      | inl waits ↦ let later = a.0 waits in ground arith
      | inr published ↦ ground arith
    ]

length-select : (p : Event → Bool) (xs : List Event) → exists p xs ≡ true → 0 < length (select p xs)
unfolding select exists
length-select p [] h = absurd (cc)
length-select p (x ∷ xs) h = ground (arith, length-select p xs)

length-insert_by :
    (b : Event → Event → Bool) (x : Event) (xs : List Event)
    → length (insert_by b x xs) ≡ suc (length xs)
unfolding insert_by
length-insert_by b x [] = refl
length-insert_by b x (y ∷ ys) = ground (arith, length-insert_by b x ys)

length-order_by : (b : Event → Event → Bool) (xs : List Event) → length (order_by b xs) ≡ length xs
unfolding order_by
length-order_by b [] = refl
length-order_by b (x ∷ xs) =
    omega (arith, length-insert_by b x (order_by b xs), length-order_by b xs)

length-take : (n : ℕ) (xs : List Event) → 0 < n → 0 < length xs → 0 < length (take n xs)
length-take zero xs h k = h
length-take (suc n) [] h k = k
length-take (suc n) (x ∷ xs) h k = omega arith

-- Without locks, a claim of an outbox with a backlog takes an event.
pub length-candidates :
    (env : Env) (batch : ℕ) (outbox : List Event)
    → All IsFree outbox
    → 0 < batch
    → backlog outbox ≢ 0
    → 0 < length (candidates env (λ id. false) batch outbox)
unfolding candidates
length-candidates env batch outbox free some_batch waiting = length-take batch _ some_batch (
    subst (λ (n : ℕ). 0 < n) (sym (length-order_by event_before _))
      (length-select (is_candidate env (λ id. false) outbox) outbox (elim (earliest outbox free) [
        | inl none_waits ↦ absurd (waiting none_waits)
        | inr (m, e) ↦
            let head = none_before m outbox e.first in
            let waits = e.waits in
            let unclaimed = e.free in
            e.found (is_candidate env (λ id. false) outbox) (rw (waits, unclaimed, head) refl)
      ])))
