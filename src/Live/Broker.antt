-- ===== src/Live/Broker.antt =====
-- `Broker` of internal/live/broker.go, over a Redis server. Failure counters and the set-up of the client
-- are left out.
use run_mesh.Base.{ℕ, String, Option, none, some, List, ◌++◌, Result, ok, err}
use run_mesh.Workflow.Dag.{codes}
use run_mesh.Store.Db.{Payload}
use run_mesh.Auth.Text.{Text}

-- `Event`
pub record Notice : Type 0 where
  pub id : ℕ
  pub event_type : String
  pub aggregate_id : ℕ
  pub payload : Payload
  pub occurred_at : ℕ

-- PUBLISH and SUBSCRIBE of a server with states `W`, and what a subscription to a channel has been sent.
pub record Redis (W : Type 0) : Type 0 where
  pub publish : Text → Text → W → Result (Unit {0}) × W
  pub subscribe : Text → W → Result (Unit {0})
  pub delivered : Text → W → List Text

-- The client with `json.Marshal`; `show_id` is the text of a UUID.
pub record Broker (W : Type 0) : Type 0 where
  pub redis : Redis W
  pub marshal : Notice → Result Text
  pub show_id : ℕ → Text

abbrev pub channel_prefix : Text
channel_prefix = codes "runmesh:live:tenant:"

module _ {W : Type 0} (b : Broker W) where
  -- `channelPrefix+tenantID`
  unfoldable pub channel_of : ℕ → Text
  channel_of tenant = channel_prefix ++ b.show_id tenant

  -- `Publish`; the empty text for a tenant is `none`.
  unfoldable pub publish : Option ℕ → Notice → W → Result (Unit {0}) × W
  publish none n w = (ok tt, w)
  publish (some tenant) n w = elim (b.marshal n) [
    | err e ↦ (err e, w)
    | ok payload ↦ b.redis.publish (channel_of tenant) payload w
  ]

  unfoldable pub subscribe : ℕ → W → Result (Unit {0})
  subscribe tenant w = b.redis.subscribe (channel_of tenant) w
