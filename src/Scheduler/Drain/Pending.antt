-- ===== src/Scheduler/Drain/Pending.antt =====
-- Nothing stays claimed after a batch whose events are all published.
use run_mesh.Base.{
  ℕ, Bool, true, ◌&&◌, ◌||◌, ◌≡◌, refl, List, [], ◌∷◌, ==_refl, is_null, arith, Bool-cases, inl,
  inr,
}
use run_mesh.Base.Tables.{All, exists, update_where}
use run_mesh.Store.Db.{Env, Event}
use run_mesh.Scheduler.Outbox.{
  is_unpublished, candidates, is_among, claim_row, claim_events, has_token, can_acknowledge,
  acknowledge,
}
use run_mesh.Scheduler.Order.{All-imp₁}
use run_mesh.Scheduler.Drain.Acks.{ack_all}
use run_mesh.Scheduler.Drain.Heads.{IsFree}
use run_mesh.Scheduler.Drain.Round.{claimed}

-- What waits is not claimed, or is claimed in a batch that is being published.
abbrev IsPending : ℕ → List Event → Event → Type 0
IsPending token es o =
    is_unpublished o ≡ true
    → (is_null o.claim_token || (is_among es o && has_token token o.claim_token)) ≡ true

module _ (env : Env) (token : ℕ) where
  IsPending-acknowledge :
      (e : Event) (es xs : List Event)
      → All (IsPending token (e ∷ es)) xs
      → All (IsPending token es) (acknowledge env token e.id xs)
  unfolding acknowledge update_where exists
  IsPending-acknowledge e es [] h = tt
  IsPending-acknowledge e es (x ∷ xs) h = (
    (elim (Bool-cases (can_acknowledge token e.id x)) [
      | inl hit ↦ rw hit (λ waits. absurd (cc))
      | inr miss ↦ rw miss (λ waits. let pending = h.0 waits in ground arith)
    ]),
    IsPending-acknowledge e es xs h.1,
  )

  IsFree-ack_all :
      (es xs : List Event) → All (IsPending token es) xs → All IsFree (ack_all env token es xs)
  unfolding ack_all exists
  IsFree-ack_all [] xs h = All-imp₁ xs (λ x pending waits. let p = pending waits in ground arith) h
  IsFree-ack_all (e ∷ es) xs h =
      IsFree-ack_all es (acknowledge env token e.id xs) (IsPending-acknowledge e es xs h)

module _ (env : Env) (token ttl : ℕ) where
  is_among-claimed :
      (ds : List Event) (x : Event)
      → is_among (claimed env token ttl ds) (claim_row env token ttl x) ≡ is_among ds x
  unfolding exists
  is_among-claimed [] x = refl
  is_among-claimed (d ∷ ds) x = rw (is_among-claimed ds x) refl

  IsPending-claimed :
      (ds xs : List Event)
      → All IsFree xs
      → All
          (IsPending token (claimed env token ttl ds))
          (update_where (is_among ds) (claim_row env token ttl) xs)
  unfolding update_where
  IsPending-claimed ds [] h = tt
  IsPending-claimed ds (x ∷ xs) h = (
    (elim (Bool-cases (is_among ds x)) [
      | inl hit ↦ rw hit (λ waits. rw (is_among-claimed ds x, hit, ==_refl token) refl)
      | inr miss ↦ rw miss (λ waits. let free = h.0 waits in rw free refl)
    ]),
    IsPending-claimed ds xs h.1,
  )

  -- After a batch whose events are all published nothing is claimed.
  pub IsFree-round :
      (locked : ℕ → Bool) (batch : ℕ) (outbox : List Event)
      → All IsFree outbox
      → All IsFree (
          ack_all env token
            (claimed env token ttl (candidates env locked batch outbox))
            (claim_events env locked batch token ttl outbox))
  unfolding claim_events
  IsFree-round locked batch outbox free =
      IsFree-ack_all env token (claimed env token ttl (candidates env locked batch outbox)) _
        (IsPending-claimed (candidates env locked batch outbox) outbox free)
