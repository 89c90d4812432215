-- ===== src/Live/Stream.antt =====
-- `stream` of internal/api/stream.go, after the middleware. The WebSocket library is an argument: whether
-- the upgrade and each write succeed, and what its `select` finds next.
use run_mesh.Base.{
  Bool, true, false, ◌&&◌, ◌||◌, Option, none, some, List, [], ◌∷◌, if◌then◌else◌, Result, ok, err,
}
use run_mesh.Workflow.Dag.{codes}
use run_mesh.Auth.Text.{Text, text_eq}
use run_mesh.Auth.Authenticate.{Principal}
use run_mesh.Api.Response.{Response, failure, success}
use run_mesh.Live.Broker.{Broker, channel_of, subscribe}

-- `CheckOrigin`, with the headers Origin and Host; `parse` is the host of `url.Parse`.
unfoldable pub check_origin : (Text → Result Text) → Text → Text → Bool
check_origin parse origin host = if text_eq origin [] then true else elim (parse origin) [
  | err e ↦ false
  | ok its_host ↦
      text_eq its_host host
      || (text_eq origin (codes "http://localhost:3000")
          || text_eq origin (codes "http://localhost:5173"))
]

-- What the connection is sent.
pub data Frame : Type 0 where
  connected : Frame
  note : Text → Frame
  ping : Frame

-- What the `select` finds, with whether the write that follows succeeds.
pub data Choice : Type 0 where
  canceled : Choice
  closed : Choice
  receive : Bool → Choice
  tick : Bool → Choice

-- The loop, on the messages of the subscription in their order; a channel without more is closed.
unfoldable pub stream_loop : List Choice → List Text → List Frame
stream_loop [] messages = []
stream_loop (canceled ∷ rest) messages = []
stream_loop (closed ∷ rest) messages = []
stream_loop (receive sent ∷ rest) [] = []
stream_loop (receive true ∷ rest) (m ∷ messages) = note m ∷ stream_loop rest messages
stream_loop (receive false ∷ rest) (m ∷ messages) = []
stream_loop (tick true ∷ rest) messages = ping ∷ stream_loop rest messages
stream_loop (tick false ∷ rest) messages = []

-- `allowed` is what `check_origin` says; `upgraded` and `greeted` say whether the rest of the upgrade and the first write succeed. The subscription is
-- made in the state `start` of Redis and has what has been delivered in the state `end`.
unfoldable pub stream :
    {W : Type 0}
    → Option (Broker W)
    → Principal
    → Bool
    → Bool
    → Bool
    → List Choice
    → W
    → W
    → Response (List Frame)
unfolding stream_loop subscribe
stream none p allowed upgraded greeted choices start end =
    failure 503 (codes "live stream unavailable")
stream (some b) p allowed upgraded greeted choices start end =
    elim (subscribe b p.tenant_id start) [
      | err e ↦ failure 503 (codes "live stream unavailable")
      | ok u ↦ success (
          if allowed && (upgraded && greeted)
          then connected ∷ stream_loop choices (b.redis.delivered (channel_of b p.tenant_id) end)
          else [])
    ]
