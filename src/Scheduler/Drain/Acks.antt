-- ===== src/Scheduler/Drain/Acks.antt =====
-- A batch whose events are all published and acknowledged.
use run_mesh.Base.{
  ℕ, suc, ◌≤◌, ◌<◌, true, false, ◌≡◌, ◌≢◌, refl, none, List, [], ◌∷◌, arith, Bool-cases, inl, inr,
  ok,
}
use run_mesh.Base.Tables.{All, exists, update_where}
use run_mesh.Store.Db.{Env, Event}
use run_mesh.Scheduler.Outbox.{is_unpublished, can_acknowledge, acknowledge, publish_each}

-- How many events wait to be published.
unfoldable pub backlog : List Event → ℕ
backlog [] = 0
backlog (o ∷ outbox) =
    let rest = backlog outbox in elim (is_unpublished o) [ true ↦ suc rest | false ↦ rest ]

abbrev pub Distinct : List Event → Type 0
Distinct [] = Unit
Distinct (e ∷ es) = All (λ c. c.id ≢ e.id) es × Distinct es

module _ (env : Env) (token : ℕ) where
  abbrev pub CanAcknowledge : List Event → Event → Type 0
  CanAcknowledge outbox e = exists (can_acknowledge token e.id) outbox ≡ true

  acknowledge-other :
      (id id' : ℕ) (outbox : List Event)
      → id ≢ id'
      → exists (can_acknowledge token id) outbox ≡ true
      → exists (can_acknowledge token id) (acknowledge env token id' outbox) ≡ true
  unfolding exists acknowledge update_where
  acknowledge-other id id' [] ne h = h
  acknowledge-other id id' (o ∷ outbox) ne h = elim (Bool-cases (can_acknowledge token id o)) [
    | inl hit ↦ let miss : can_acknowledge token id' o ≡ false = ground arith in rw (miss, hit) refl
    | inr miss ↦
        let later = acknowledge-other id id' outbox ne (ground arith) in rw later (ground arith)
  ]

  unfoldable pub ack_all : List Event → List Event → List Event
  ack_all [] outbox = outbox
  ack_all (e ∷ es) outbox = ack_all es (acknowledge env token e.id outbox)

  others_stay :
      (e : Event) (es : List Event) (outbox : List Event)
      → All (λ c. c.id ≢ e.id) es
      → All (CanAcknowledge outbox) es
      → All (CanAcknowledge (acknowledge env token e.id outbox)) es
  others_stay e [] outbox ne h = tt
  others_stay e (c ∷ es) outbox ne h =
      (acknowledge-other c.id e.id outbox ne.0 h.0, others_stay e es outbox ne.1 h.1)

  pub publish_each-ok :
      (count : ℕ) (es outbox : List Event)
      → Distinct es
      → All (CanAcknowledge outbox) es
      → publish_each env (λ e. none) (λ e o. o) token count es outbox
        ≡ (ok count, ack_all es outbox)
  unfolding publish_each ack_all
  publish_each-ok count [] outbox d h = refl
  publish_each-ok count (e ∷ es) outbox d h = rw h.0 (
      publish_each-ok count es (acknowledge env token e.id outbox) d.1
        (others_stay e es outbox d.0 h.1))

  backlog-acknowledge-le :
      (id : ℕ) (outbox : List Event) → backlog (acknowledge env token id outbox) ≤ backlog outbox
  unfolding acknowledge update_where backlog
  backlog-acknowledge-le id [] = omega arith
  backlog-acknowledge-le id (o ∷ outbox) = ground (arith, backlog-acknowledge-le id outbox)

  backlog-acknowledge-lt :
      (id : ℕ) (outbox : List Event)
      → exists (can_acknowledge token id) outbox ≡ true
      → backlog (acknowledge env token id outbox) < backlog outbox
  unfolding acknowledge update_where backlog exists
  backlog-acknowledge-lt id [] h = absurd (cc)
  backlog-acknowledge-lt id (o ∷ outbox) h =
      ground (arith, backlog-acknowledge-le id outbox, backlog-acknowledge-lt id outbox)

  backlog-ack_all-le : (es outbox : List Event) → backlog (ack_all es outbox) ≤ backlog outbox
  unfolding ack_all
  backlog-ack_all-le [] outbox = omega arith
  backlog-ack_all-le (e ∷ es) outbox = omega (
    arith,
    backlog-ack_all-le es (acknowledge env token e.id outbox),
    backlog-acknowledge-le e.id outbox,
  )

  -- A batch that is not empty leaves less to publish.
  pub backlog-ack_all-lt :
      (e : Event) (es outbox : List Event)
      → CanAcknowledge outbox e
      → backlog (ack_all (e ∷ es) outbox) < backlog outbox
  unfolding ack_all
  backlog-ack_all-lt e es outbox h = omega (
    arith,
    backlog-ack_all-le es (acknowledge env token e.id outbox),
    backlog-acknowledge-lt e.id outbox h,
  )
