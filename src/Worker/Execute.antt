-- ===== src/Worker/Execute.antt =====
-- `execute`, `supported` and the heartbeats of cmd/worker-go/main.go; the spans are left out. The goroutine
-- of the heartbeats runs beside the rest: any number of its ticks comes before each call that follows
-- `Start`, while `examples.slow` waits, and after the last call.
use Prim.Native.String.{◌++◌ as str_append}
use run_mesh.Base.{
  ℕ, suc, zero, String, Bool, true, false, ◌&&◌, ◌||◌, not, Option, none, some, List, [], ◌∷◌,
  str_eq, ltb, leb, if◌then◌else◌,
}
use run_mesh.Base.Int.{ℤ, is_negative, to_ℕ}
use run_mesh.Worker.Calls.{
  Context, GoError, out_of_time, failure, Try, failed, done, Call, ◌>>=◌, ◌>>◌, give, stop, settle,
  Fields, Runtime, Service, Web,
}
use run_mesh.Worker.Client.{Client, lease, start, heartbeat, complete, fail}

-- How the run of a handler goes: the ticks of the heartbeats in each span between two calls, whether the
-- timeout has passed in it, and whether the wait of `examples.slow` ends by its timer.
pub record Course : Type 0 where
  pub ticks : ℕ → ℕ
  pub is_late : ℕ → Bool
  pub is_woken : Bool

abbrev pub handlers : List String
handlers =
    "examples.greet" ∷ "examples.upper" ∷ "examples.notify" ∷ "examples.slow" ∷ "validation.dead"
    ∷ []

abbrev is_one_of : String → List String → Bool
is_one_of s [] = false
is_one_of s (t ∷ rest) = str_eq s t || is_one_of s rest

unfoldable pub supported : String → Bool
supported handler = is_one_of handler handlers

abbrev pub entry {ℓ} : {V : Type ℓ} → String → List (String × V) → Option V
entry key [] = none
entry key ((k, v) ∷ rest) = if str_eq k key then some v else entry key rest

-- `errors.New`
abbrev pub plain_error : String → GoError
plain_error message = record { type_name = "*errors.errorString"; message = message }

module _ {Value : Type 0} (rt : Runtime Value) where
  -- A number between 0 and 30,000.
  abbrev in_range : Option (ℤ × Bool) → Option ℕ
  in_range none = none
  in_range (some (whole, above)) =
      if not (is_negative whole) && (ltb (to_ℕ whole) 30000 || leb (to_ℕ whole) 30000 && not above)
      then some (to_ℕ whole)
      else none

  abbrev float_of : Option Value → Option (ℤ × Bool)
  float_of none = none
  float_of (some value) = rt.floor value

  -- In milliseconds.
  unfoldable pub delay_of : Fields Value → ℕ
  delay_of input = elim (in_range (float_of (entry "delay_ms" input))) [
    | none ↦ 200
    | some delay ↦ delay
  ]

  abbrev by_go : Fields Value → Value
  by_go fields = rt.object fields

  unfoldable pub greeting : Fields Value → Value
  greeting input = by_go (
      ("message", rt.text (str_append "Hello, " (str_append (rt.show (entry "name" input)) "!")))
      ∷ ("worker", rt.text "go")
      ∷ [])

  unfoldable pub upper_text : Fields Value → Value
  upper_text input =
      by_go (
        ("text", rt.text (rt.upper (rt.show (entry "text" input)))) ∷ ("worker", rt.text "go") ∷ [])

  unfoldable pub receipt : ℕ → Value
  receipt id = by_go (
      ("delivered", rt.flag true)
      ∷ ("idempotency_key", rt.text (rt.show_id id))
      ∷ ("worker", rt.text "go")
      ∷ [])

  unfoldable pub rest_report : Fields Value → Value
  unfolding delay_of
  rest_report input =
      by_go (("slept_ms", rt.number (delay_of input)) ∷ ("worker", rt.text "go") ∷ [])

-- What the switch over the handler leads to: an output, a wait with an output, or a failure.
pub data Outcome (Value : Type 0) : Type 0 where
  output : Value → Outcome Value
  waits : Value → Outcome Value
  fails : Bool → GoError → Outcome Value

unfoldable pub handle : {Value : Type 0} → Runtime Value → String → ℕ → Fields Value → Outcome Value
unfolding greeting upper_text receipt rest_report
handle rt handler id input =
    if str_eq handler "examples.greet"
    then output (greeting rt input)
    else if str_eq handler "examples.upper"
    then output (upper_text rt input)
    else if str_eq handler "examples.notify"
    then output (receipt rt id)
    else if str_eq handler "examples.slow"
    then waits (rest_report rt input)
    else if str_eq handler "validation.dead"
    then fails false (plain_error "intentional permanent failure for validation")
    else fails true (plain_error (str_append "unsupported handler " (rt.quote handler)))

-- The world with what the two goroutines share: the spans so far, and whether a heartbeat or the timeout
-- has ended the context.
pub record Shared (State : Type 0) : Type 0 where
  pub world : State
  pub span : ℕ
  pub is_cancelled : Bool

module _ {State : Type 0} where
  abbrev pub back_in : {A : Type 0} → Shared State → Try A × State → Try A × Shared State
  back_in s (r, w) = (r, record s { world = w })

  abbrev pub in_world : {A : Type 0} → Call State A → Call (Shared State) A
  in_world m s = back_in s (m s.world)

  -- The context that `cancel` ends.
  abbrev pub live : Context → Shared State → Context
  live ctx s = record ctx { is_done = ctx.is_done || s.is_cancelled }

module _ {State Value : Type 0} (rt : Runtime Value) (service : Service State Value)
    (web : Web State) (c : Client) where
  abbrev is_cancelled : Try (ℕ × Bool) → Bool
  is_cancelled (failed e) = false
  is_cancelled (done (expires, cancelled)) = cancelled

  abbrev pub noting_cancel : Try (Try (ℕ × Bool)) × Shared State → Shared State
  noting_cancel (failed e, s) = s
  noting_cancel (done beat, s) = record s { is_cancelled = is_cancelled beat }

  -- The goroutine of the heartbeats, for a number of ticks. It ends when one cancels the context; an error
  -- is logged.
  unfoldable pub heartbeats : Context → ℕ → ℕ → Shared State → Shared State
  unfolding settle
  heartbeats ctx id zero s = s
  heartbeats ctx id (suc ticks) s =
      let beaten = noting_cancel (settle (in_world (heartbeat rt service web c ctx id)) s) in
      let later = heartbeats ctx id ticks beaten in if s.is_cancelled then s else later

  -- The span before the next call.
  abbrev pub beat : Context → Course → ℕ → Shared State → Shared State
  beat ctx course id s =
      heartbeats ctx id (course.ticks s.span)
        (record s { span = suc s.span; is_cancelled = s.is_cancelled || course.is_late s.span })

  -- The calls of the client beside the heartbeats, under the context that they share or its parent.
  abbrev pub beside :
      {A : Type 0}
      → Context
      → Course
      → ℕ
      → (Context → Call State A)
      → Context
      → Call (Shared State) A
  beside ctx course id call given s =
      let now = beat ctx course id s in in_world (call (live given now)) now

  abbrev pub beside_parent :
      {A : Type 0} → Context → Course → ℕ → Call State A → Call (Shared State) A
  beside_parent ctx course id call s = in_world call (beat ctx course id s)

  -- Only `Fail` is called with the parent context.
  abbrev pub shared_service : Context → Course → ℕ → Service (Shared State) Value
  shared_service ctx course id = record {
    lease = λ given task w. beside ctx course id (λ x. service.lease x task w) given;
    start = λ given task w. beside ctx course id (λ x. service.start x task w) given;
    heartbeat = λ given task w. beside ctx course id (λ x. service.heartbeat x task w) given;
    complete = λ given r. beside ctx course id (λ x. service.complete x r) given;
    fail = λ given task w f. beside_parent ctx course id (service.fail given task w f);
    create_artifact_upload =
        λ given r. beside ctx course id (λ x. service.create_artifact_upload x r) given;
    complete_artifact_upload = λ given artifact w task.
        beside ctx course id (λ x. service.complete_artifact_upload x artifact w task) given;
    get_artifact_download = λ given uri w task.
        beside ctx course id (λ x. service.get_artifact_download x uri w task) given;
  }

  abbrev pub shared_web : Context → Course → ℕ → Web (Shared State)
  shared_web ctx course id = record {
    put = λ given url headers bytes. beside ctx course id (λ x. web.put x url headers bytes) given;
    get = λ given url. beside ctx course id (λ x. web.get x url) given;
    post = λ given url authorization body.
        beside_parent ctx course id (web.post given url authorization body);
  }

  -- After the last call, before the goroutine sees that the context is done.
  abbrev pub ended : {A : Type 0} → Context → Course → ℕ → Try A × Shared State → Try A × State
  ended ctx course id (r, s) = (r, (beat ctx course id s).world)

  abbrev pub in_span : {A : Type 0} → Context → Course → ℕ → Call (Shared State) A → Call State A
  in_span ctx course id m w =
      ended ctx course id (m (record { world = w; span = 0; is_cancelled = false }))

module _ {State Value : Type 0} (rt : Runtime Value) (service : Service State Value)
    (web : Web State) (c : Client) where
  -- `_, _ = client.Fail(parent, id, retryable, err)` and `return err`
  unfoldable pub give_up : Context → ℕ → Bool → GoError → Call State (Unit {0})
  unfolding settle
  give_up parent id retryable e = do
    _ ← settle (fail rt service web c parent id retryable e)
    stop (failure e)

  -- `client.Complete(ctx, id, output)`
  unfoldable pub deliver : Context → ℕ → Value → Call State (Unit {0})
  deliver ctx id value = do _ ← complete rt service web c ctx id value; give tt

module _ {State Value : Type 0} (rt : Runtime Value) (service : Service State Value)
    (web : Web State) (c : Client) where
  -- The wait of `examples.slow`.
  unfoldable pub wait : Context → Course → ℕ → Call (Shared State) (Unit {0})
  unfolding heartbeats
  wait parent course id s =
      let now = beat rt service web c parent course id s in
      if (live parent now).is_done && not course.is_woken
      then (failed out_of_time, now)
      else (done tt, now)

  -- The client's calls run beside the heartbeats.
  unfoldable pub conclude : Context → Course → ℕ → Outcome Value → Call (Shared State) (Unit {0})
  unfolding give_up deliver heartbeats wait
  conclude parent course id (output value) =
      deliver rt (shared_service rt service web c parent course id)
        (shared_web rt service web c parent course id) c parent id value
  conclude parent course id (waits value) = do
    wait parent course id
    deliver rt (shared_service rt service web c parent course id)
        (shared_web rt service web c parent course id) c parent id value
  conclude parent course id (fails retryable e) =
      give_up rt (shared_service rt service web c parent course id)
        (shared_web rt service web c parent course id) c parent id retryable e

  -- After `Start`: the handler runs under a context that the timeout or a heartbeat ends.
  unfoldable pub run :
      Context → Course → ℕ → String → Option (Fields Value) → GoError → Call State (Unit {0})
  unfolding heartbeats handle conclude give_up
  run parent course id handler none e = in_span rt service web c parent course id (
      give_up rt (shared_service rt service web c parent course id)
        (shared_web rt service web c parent course id) c parent id false e)
  run parent course id handler (some input) e =
      in_span rt service web c parent course id
        (conclude parent course id (handle rt handler id input))

  unfoldable pub execute : Context → Course → ℕ → Call State (Unit {0})
  unfolding run
  execute parent course id = do
    task ← lease rt service web c parent id
    _ ← start rt service web c parent id
    run parent course id task.handler (rt.unmarshal task.input) (rt.unmarshal_error task.input)
