-- ===== src/Live/Isolation.antt =====
-- Live notifications reach their tenant only.
use run_mesh.Base.{
  ℕ, Bool, true, false, ◌&&◌, Option, some, List, [], ◌∷◌, ◌≡◌, ◌⊎◌, sym, subst, Error, ok, err,
  Bool-cases, Option-cases, inl, inr, leb, arith, if◌then◌else◌,
}
use run_mesh.Base.Tables.{All, exists}
use run_mesh.Store.Db.{Db, Env, Event}
use run_mesh.Scheduler.Outbox.{
  Settings, positive_or, default_claim_ttl, default_publish_timeout, can_acknowledge, acknowledge,
}
use run_mesh.Auth.Text.{Text}
use run_mesh.Auth.Authenticate.{Principal}
use run_mesh.Api.Response.{Response, failure, success}
use run_mesh.Live.Broker.{Notice, Broker, channel_of, publish, subscribe}
use run_mesh.Live.Notify.{tenant_of_event, notice_of, notify, notify_each, notify_batch}
use run_mesh.Live.Stream.{
  Frame, connected, note, Choice, canceled, closed, receive, tick, stream_loop, stream,
}
use run_mesh.Live.Private.{Laws, Result-cases, IsNoticeFor, IsPrivate, publish-IsPrivate}
use run_mesh.Workflow.Dag.{codes}
use run_mesh.Live.Tenants.{Belongs, tenant_of_event-Belongs}

module _ {W : Type 0} (b : Broker W) (P : ℕ → Notice → Type 0) where
  -- What a connection is sent is for its tenant.
  abbrev pub IsFrameFor : ℕ → Frame → Type 0
  IsFrameFor tenant (note m) = IsNoticeFor b P tenant m
  IsFrameFor tenant _ = Unit

  abbrev pub Sends : ℕ → Response (List Frame) → Type 0
  Sends tenant (failure status message) = Unit
  Sends tenant (success frames) = All (IsFrameFor tenant) frames

module _ {W : Type 0} (b : Broker W) (laws : Laws b) (P : ℕ → Notice → Type 0) where
  module _ (db : Db) (seen : (t : ℕ) (n : Notice) → Belongs db t n.aggregate_id → P t n) where
    notify-IsPrivate :
        (e : Event) (w : W) → IsPrivate b P w → IsPrivate b P (notify (some b) db e w)
    unfolding notify notice_of
    notify-IsPrivate e w private =
        publish-IsPrivate b laws P (tenant_of_event db e) (notice_of e) w
          (λ t h. seen t (notice_of e) (tenant_of_event-Belongs db t e h)) private

    module _ (env : Env) (publish : Event → Option Error)
        (others : Event → List Event → List Event) where
      -- The first event ends the loop or is notified.
      stops_or_goes_on :
          (token count : ℕ) (e : Event) (rest outbox : List Event) (w : W)
          → ((notify_each (some b) db env publish others token count (e ∷ rest) outbox w).1 ≡ w)
            ⊎ ((notify_each (some b) db env publish others token count (e ∷ rest) outbox w).1
                ≡ (notify_each
                    (some b)
                    db
                    env
                    publish
                    others
                    token
                    count
                    rest
                    (acknowledge env token e.id (others e outbox))
                    (notify (some b) db e w)).1)
      unfolding notify_each
      stops_or_goes_on token count e rest outbox w = elim (Option-cases (publish e)) [
        | inl accepted ↦ elim (Bool-cases (exists (can_acknowledge token e.id) (others e outbox))) [
          | inl held ↦ inr (ground arith)
          | inr lost ↦ inl (ground arith)
        ]
        | inr (reason, refused) ↦ inl (ground arith)
      ]

      notify_each-IsPrivate :
          (token count : ℕ) (events outbox : List Event) (w : W)
          → IsPrivate b P w
          → IsPrivate b P (notify_each (some b) db env publish others token count events outbox w).1
      unfolding notify_each
      notify_each-IsPrivate token count [] outbox w private = private
      notify_each-IsPrivate token count (e ∷ rest) outbox w private =
          let now = others e outbox in
          let later =
            notify_each-IsPrivate token count rest (acknowledge env token e.id now)
              (notify (some b) db e w) (notify-IsPrivate e w private) in
          elim (stops_or_goes_on token count e rest outbox w) [
            | inl stops ↦ subst (IsPrivate b P) (sym stops) private
            | inr goes_on ↦ subst (IsPrivate b P) (sym goes_on) later
          ]

      notify_batch-IsPrivate :
          (settings : Settings) (locked : ℕ → Bool) (w : W)
          → IsPrivate b P w
          → IsPrivate b P (notify_batch (some b) env settings locked publish others db w).1
      unfolding notify_batch
      notify_batch-IsPrivate settings locked w private =
          elim (Bool-cases (
            leb (positive_or default_claim_ttl settings.claim_ttl)
              (positive_or default_publish_timeout settings.publish_timeout))) [
                | inl late ↦ rw late private
                | inr timely ↦ rw timely (notify_each-IsPrivate _ _ _ _ w private)
              ]

  stream_loop-IsFrameFor :
      (tenant : ℕ) (choices : List Choice) (messages : List Text)
      → All (IsNoticeFor b P tenant) messages
      → All (IsFrameFor b P tenant) (stream_loop choices messages)
  unfolding stream_loop
  stream_loop-IsFrameFor tenant [] messages h = tt
  stream_loop-IsFrameFor tenant (canceled ∷ rest) messages h = tt
  stream_loop-IsFrameFor tenant (closed ∷ rest) messages h = tt
  stream_loop-IsFrameFor tenant (receive sent ∷ rest) [] h = tt
  stream_loop-IsFrameFor tenant (receive true ∷ rest) (m ∷ messages) h =
      (h.0, stream_loop-IsFrameFor tenant rest messages h.1)
  stream_loop-IsFrameFor tenant (receive false ∷ rest) (m ∷ messages) h = tt
  stream_loop-IsFrameFor tenant (tick true ∷ rest) messages h =
      (tt, stream_loop-IsFrameFor tenant rest messages h)
  stream_loop-IsFrameFor tenant (tick false ∷ rest) messages h = tt

  stream-err :
      (p : Principal) (allowed upgraded greeted : Bool) (choices : List Choice) (start end : W)
      (e : Error)
      → subscribe b p.tenant_id start ≡ err e
      → stream (some b) p allowed upgraded greeted choices start end
        ≡ failure 503 (codes "live stream unavailable")
  unfolding stream
  stream-err p allowed upgraded greeted choices start end e h = ground arith

  stream-ok :
      (p : Principal) (allowed upgraded greeted : Bool) (choices : List Choice) (start end : W)
      → subscribe b p.tenant_id start ≡ ok tt
      → stream (some b) p allowed upgraded greeted choices start end
        ≡ success (
            if allowed && (upgraded && greeted)
            then connected ∷ stream_loop choices (b.redis.delivered (channel_of b p.tenant_id) end)
            else [])
  unfolding stream
  stream-ok p allowed upgraded greeted choices start end h = ground arith

  opened-IsFrameFor :
      (tenant : ℕ) (opened : Bool) (frames : List Frame)
      → All (IsFrameFor b P tenant) frames
      → All (IsFrameFor b P tenant) (if opened then frames else [])
  opened-IsFrameFor tenant true frames h = h
  opened-IsFrameFor tenant false frames h = tt

  stream-Sends :
      (p : Principal) (allowed upgraded greeted : Bool) (choices : List Choice) (start end : W)
      → IsPrivate b P end
      → Sends b P p.tenant_id (stream (some b) p allowed upgraded greeted choices start end)
  stream-Sends p allowed upgraded greeted choices start end private =
      elim (Result-cases (subscribe b p.tenant_id start)) [
        | inl (e, failed) ↦
            subst (Sends b P p.tenant_id)
              (sym (stream-err p allowed upgraded greeted choices start end e failed)) tt
        | inr (u, subscribed) ↦
            subst (Sends b P p.tenant_id)
              (sym (stream-ok p allowed upgraded greeted choices start end subscribed))
              (opened-IsFrameFor p.tenant_id (allowed && (upgraded && greeted)) (connected ∷ _)
                (tt, stream_loop-IsFrameFor p.tenant_id choices _ (private p.tenant_id)))
      ]

  -- Whatever a stream sends after a batch of the publisher is a notice that its tenant may see, if Redis
  -- held only such notices before the batch, delivers a message on its channel only and at most once,
  -- and a tenant may see what is about its own runs, tasks and definitions.
  pub stream-IsPrivate :
      (db : Db)
      → ((t : ℕ) (n : Notice) → Belongs db t n.aggregate_id → P t n)
      → (env : Env) (settings : Settings) (locked : ℕ → Bool) (publish : Event → Option Error)
        (others : Event → List Event → List Event) (w : W)
      → IsPrivate b P w
      → (p : Principal) (allowed upgraded greeted : Bool) (choices : List Choice)
      → Sends b P p.tenant_id (
          stream
            (some b)
            p
            allowed
            upgraded
            greeted
            choices
            w
            (notify_batch (some b) env settings locked publish others db w).1)
  stream-IsPrivate db seen env settings locked publish others w private p allowed upgraded greeted
        choices =
      stream-Sends p allowed upgraded greeted choices w _
        (notify_batch-IsPrivate db seen env publish others settings locked w private)
