-- ===== src/Live/Durable.antt =====
-- Live notifications do not touch the outbox.
use run_mesh.Base.{
  ℕ, Bool, Option, List, [], ◌∷◌, ◌≡◌, refl, arith, Error, Bool-cases, inl, inr, leb,
}
use run_mesh.Store.Db.{Db, Env, Event}
use run_mesh.Scheduler.Outbox.{
  Settings, positive_or, default_claim_ttl, default_publish_timeout, acknowledge, publish_each,
  publish_claimed_batch,
}
use run_mesh.Live.Broker.{Broker}
use run_mesh.Live.Notify.{notify, notify_each, notify_batch}

module _ {W : Type 0} (live : Option (Broker W)) (db : Db) (env : Env)
    (publish : Event → Option Error) (others : Event → List Event → List Event) where
  notify_each-publish_each :
      (token count : ℕ) (events outbox : List Event) (w : W)
      → (notify_each live db env publish others token count events outbox w).0
        ≡ publish_each env publish others token count events outbox
  unfolding notify_each publish_each
  notify_each-publish_each token count [] outbox w = refl
  notify_each-publish_each token count (e ∷ rest) outbox w =
      let now = others e outbox in
      let later =
        notify_each-publish_each token count rest (acknowledge env token e.id now)
          (notify live db e w) in
      ground (arith, later)

  -- What `publishClaimedBatch` returns and does to the database is the same with and without live
  -- notifications, whatever Redis answers.
  pub notify_batch-publish_claimed_batch :
      (settings : Settings) (locked : ℕ → Bool) (w : W)
      → (notify_batch live env settings locked publish others db w).0
        ≡ publish_claimed_batch env settings locked publish others db
  unfolding notify_batch publish_claimed_batch
  notify_batch-publish_claimed_batch settings locked w =
      let ttl = positive_or default_claim_ttl settings.claim_ttl in
      let timeout = positive_or default_publish_timeout settings.publish_timeout in
      elim (Bool-cases (leb ttl timeout)) [
        | inl late ↦ rw late refl
        | inr timely ↦ rw (timely, notify_each-publish_each) refl
      ]
