-- ===== src/Scheduler/Order.antt =====
-- The outbox publishes the events of one key in their order, however many schedulers share it.
use run_mesh.Base.{
  ℕ, Bool, true, false, ◌&&◌, not, ◌≡◌, refl, subst, List, [], ◌∷◌, ◌==◌, ==_iff, is_null, arith,
  Bool-cases, inl, inr, ||_false, zero, suc,
}
use run_mesh.Base.Tables.{All, select, exists, update_where, order_by, insert_by, take}
use run_mesh.Store.Db.{Env, Event}
use run_mesh.Store.Reads.{event_before}
use run_mesh.Scheduler.Outbox.{
  ordering_key, is_unpublished, holds_back, is_candidate, candidates, is_among, claim_row,
  claim_events, is_claimed_by, release_claims, can_acknowledge, acknowledge, publish_row,
  unclaim_row,
}

module _ {ℓ κ} {A : Type ℓ} (P : A → Type κ) where
  pub All-select :
      (p : A → Bool) (xs : List A) → All P xs → All (λ x. (p x ≡ true) × P x) (select p xs)
  unfolding select
  All-select p [] h = tt
  All-select p (x ∷ xs) h = elim (Bool-cases (p x)) [
    | inl hit ↦ rw hit ((hit, h.0), All-select p xs h.1)
    | inr miss ↦ rw miss (All-select p xs h.1)
  ]

  pub All-insert_by :
      (before : A → A → Bool) (x : A) (xs : List A) → P x → All P xs → All P (insert_by before x xs)
  unfolding insert_by
  All-insert_by before x [] hx h = (hx, tt)
  All-insert_by before x (y ∷ ys) hx h = elim (Bool-cases (before x y)) [
    | inl hit ↦ rw hit (hx, h)
    | inr miss ↦ rw miss (h.0, All-insert_by before x ys hx h.1)
  ]

  pub All-order_by : (before : A → A → Bool) (xs : List A) → All P xs → All P (order_by before xs)
  unfolding order_by
  All-order_by before [] h = tt
  All-order_by before (x ∷ xs) h = All-insert_by before x _ h.0 (All-order_by before xs h.1)

  pub All-take : (n : ℕ) (xs : List A) → All P xs → All P (take n xs)
  All-take zero xs h = tt
  All-take (suc n) [] h = tt
  All-take (suc n) (x ∷ xs) h = (h.0, All-take n xs h.1)

-- Claimed now, or published.
abbrev pub was_claimed : Event → Bool
was_claimed o = not (is_unpublished o && is_null o.claim_token)

-- No earlier event of the same key waits to be published.
abbrev pub IsHead : List Event → Event → Type 0
IsHead outbox o = exists (holds_back o) outbox ≡ false

-- An event is claimed or published only when all earlier ones of its key are published.
abbrev pub IsInOrder : List Event → Type 0
IsInOrder outbox = All (λ o. was_claimed o ≡ true → IsHead outbox o) outbox

-- Two rows with the same id are the same row.
abbrev pub IsKeyed : List Event → Type 0
IsKeyed outbox = All (λ o. All (λ c. c.id ≡ o.id → c ≡ o) outbox) outbox

-- An update that leaves the place of an event in the order, and that never takes back a publication.
abbrev Stays : Event → Event → Type 0
Stays x y =
    ((o : Event) → holds_back o x ≡ false → holds_back o y ≡ false)
    × ((ys : List Event) → IsHead ys x → IsHead ys y)

module _ (p : Event → Bool) (f : Event → Event)
    (stays : (x : Event) → p x ≡ true → Stays x (f x)) where
  heads-update : (o : Event) (xs : List Event) → IsHead xs o → IsHead (update_where p f xs) o
  unfolding exists update_where
  heads-update o [] h = refl
  heads-update o (x ∷ xs) h =
      let (here, rest) = ||_false (holds_back o x) _ h in
      elim (Bool-cases (p x)) [
        | inl hit ↦ rw (hit, (stays x hit).0 o here, heads-update o xs rest) refl
        | inr miss ↦ rw (miss, here, heads-update o xs rest) refl
      ]

  InOrder-update :
      (outbox xs : List Event)
      → All (λ o. was_claimed o ≡ true → IsHead outbox o) xs
      → All (λ o. p o ≡ true → was_claimed (f o) ≡ true → IsHead outbox o) xs
      → All (λ o. was_claimed o ≡ true → IsHead (update_where p f outbox) o) (update_where p f xs)
  unfolding update_where
  InOrder-update outbox [] h k = tt
  InOrder-update outbox (x ∷ xs) h k = (
    (elim (Bool-cases (p x)) [
      | inl hit ↦ rw hit λ claimed. (stays x hit).1 _ (heads-update x outbox (k.0 hit claimed))
      | inr miss ↦ rw miss λ claimed. heads-update x outbox (h.0 claimed)
    ]),
    InOrder-update outbox xs h.1 k.1,
  )

module _ (env : Env) where
  claim-Stays : (token ttl : ℕ) (x : Event) → Stays x (claim_row env token ttl x)
  unfolding ordering_key
  claim-Stays token ttl x = (λ o h. h, λ ys h. h)

  release-Stays : (x : Event) → Stays x (unclaim_row x)
  unfolding ordering_key
  release-Stays x = (λ o h. h, λ ys h. h)

  acknowledge-Stays : (x : Event) → Stays x (publish_row env x)
  unfolding ordering_key
  acknowledge-Stays x = (λ o h. ground arith, λ ys h. h)

claimed_before :
    (outbox xs : List Event) (p : Event → Bool) (f : Event → Event)
    → ((x : Event) → p x ≡ true → was_claimed (f x) ≡ true → was_claimed x ≡ true)
    → All (λ o. was_claimed o ≡ true → IsHead outbox o) xs
    → All (λ o. p o ≡ true → was_claimed (f o) ≡ true → IsHead outbox o) xs
claimed_before outbox [] p f h a = tt
claimed_before outbox (x ∷ xs) p f h a =
    (λ hit claimed. a.0 (h x hit claimed), claimed_before outbox xs p f h a.1)

-- A row that the claim picks by its id is the candidate with that id.
among-IsHead :
    (outbox : List Event) (o : Event) (cs : List Event)
    → All (λ c. IsHead outbox c × (c.id ≡ o.id → c ≡ o)) cs
    → is_among cs o ≡ true
    → IsHead outbox o
unfolding exists
among-IsHead outbox o [] h e = absurd (cc)
among-IsHead outbox o (c ∷ cs) h e = elim (Bool-cases (c.id == o.id)) [
  | inl hit ↦ subst (IsHead outbox) (h.0.1 ((==_iff c.id o.id).0 hit)) h.0.0
  | inr miss ↦ among-IsHead outbox o cs h.1 (ground arith)
]

pub All-imp₁ :
    {P Q : Event → Type 0} (xs : List Event) → ((x : Event) → P x → Q x) → All P xs → All Q xs
All-imp₁ [] f h = tt
All-imp₁ (x ∷ xs) f h = (f x h.0, All-imp₁ xs f h.1)

module _ (env : Env) (locked : ℕ → Bool) (batch : ℕ) (outbox : List Event) where
  candidate_heads :
      (o : Event)
      → All (λ c. c.id ≡ o.id → c ≡ o) outbox
      → All (λ c. IsHead outbox c × (c.id ≡ o.id → c ≡ o)) (candidates env locked batch outbox)
  unfolding candidates
  candidate_heads o keyed = All-take _ batch _ (
      All-order_by _ event_before _ (
        All-imp₁ (select (is_candidate env locked outbox) outbox)
          (λ c h. (candidate-IsHead c h.0, h.1))
          (All-select (λ c. c.id ≡ o.id → c ≡ o) (is_candidate env locked outbox) outbox keyed)))
    where
      candidate-IsHead : (c : Event) → is_candidate env locked outbox c ≡ true → IsHead outbox c
      candidate-IsHead c h = ground arith

  claimed_heads :
      (token ttl : ℕ) (xs : List Event)
      → All (λ o. All (λ c. c.id ≡ o.id → c ≡ o) outbox) xs
      → All
          (λ o.
            is_among (candidates env locked batch outbox) o ≡ true
            → was_claimed (claim_row env token ttl o) ≡ true
            → IsHead outbox o)
          xs
  claimed_heads token ttl xs keyed =
      All-imp₁ xs
        (λ o k hit _.
          among-IsHead outbox o (candidates env locked batch outbox) (candidate_heads o k) hit)
        keyed

-- What a scheduler does to the outbox, one statement at a time: it claims a batch, records that an event
-- is published, or gives its claims back.
pub data OutboxStep (outbox outbox' : List Event) : Type 0 where
  claims :
      (env : Env) (locked : ℕ → Bool) (batch token ttl : ℕ)
      → claim_events env locked batch token ttl outbox ≡ outbox'
      → OutboxStep outbox outbox'
  acknowledges :
      (env : Env) (token id : ℕ)
      → acknowledge env token id outbox ≡ outbox'
      → OutboxStep outbox outbox'
  releases :
      (env : Env) (token : ℕ) → release_claims token outbox ≡ outbox' → OutboxStep outbox outbox'

-- Whichever scheduler claims a batch, acknowledges an event or releases its claims, an event of the
-- outbox is claimed or published only when all earlier ones of its ordering key are published,
-- provided that this held before and that event ids are unique.
pub OutboxStep-IsInOrder :
    {outbox outbox' : List Event}
    → IsKeyed outbox
    → IsInOrder outbox
    → OutboxStep outbox outbox'
    → IsInOrder outbox'
OutboxStep-IsInOrder {outbox} {outbox'} keyed h (claims env locked batch token ttl e) =
    subst IsInOrder e (
      unfold claim_events in
      InOrder-update _ _ (λ x _. claim-Stays env token ttl x) outbox outbox h
        (claimed_heads env locked batch outbox token ttl outbox keyed))
OutboxStep-IsInOrder {outbox} {outbox'} keyed h (acknowledges env token id e) = subst IsInOrder e (
    unfold acknowledge in
    InOrder-update (can_acknowledge token id) (publish_row env) (λ x _. acknowledge-Stays env x)
      outbox outbox h
      (claimed_before outbox outbox (can_acknowledge token id) (publish_row env)
        (λ x hit _. ground arith) h))
OutboxStep-IsInOrder {outbox} {outbox'} keyed h (releases env token e) = subst IsInOrder e (
    unfold release_claims in
    InOrder-update (is_claimed_by token) unclaim_row (λ x _. release-Stays env x) outbox outbox h
      (claimed_before outbox outbox (is_claimed_by token) unclaim_row
        (λ x hit claimed. ground arith) h))
