-- ===== src/Worker/Beside.antt =====
-- An execution with its heartbeats, for any invariant of the world that the calls keep.
use run_mesh.Base.{
  ℕ, zero, suc, String, Bool, true, false, ◌&&◌, not, Option, none, some, if◌then◌else◌,
}
use run_mesh.Worker.Calls.{
  Context, GoError, Fields, Runtime, Service, Web, Call, Try, failed, done, out_of_time, settle,
  attempt,
}
use run_mesh.Worker.Client.{Client, heartbeat}
use run_mesh.Worker.Execute.{
  Course, Outcome, output, waits, fails, handle, Shared, back_in, live, noting_cancel, heartbeats,
  beat, beside, beside_parent, shared_service, shared_web, ended, in_span, wait, conclude, run,
  execute,
}
use run_mesh.Worker.Rules.{Ends, Leads, Leads-bind}
use run_mesh.Worker.Phases.{
  Phase, idle, running, completed, given_up, IsStarted, Moves, Somewhere, lease-Leads, start-Leads,
  heartbeat-Leads, deliver-Leads, give_up-Leads,
}

-- What holds however a call ends.
Ends-world : {State A : Type 0} (P : State → Type 0) (r : Try A × State) → Ends P P r → P r.1
Ends-world P (done a, s) h = h
Ends-world P (failed e, s) h = h

back_in-world :
    {State A : Type 0} (P : State → Type 0) (s : Shared State) (r : Try A × State)
    → P r.1
    → P (back_in s r).1.world
back_in-world P s (r, w) h = h

by_flag :
    {State : Type 0} (P : State → Type 0) (b : Bool) (x y : Shared State)
    → P x.world
    → P y.world
    → P (if b then x else y).world
by_flag P true x y h k = h
by_flag P false x y h k = k

module _ {State Value : Type 0} (rt : Runtime Value) {service : Service State Value}
    {web : Web State} {In : Phase → State → Type 0} (moves : Moves service web In) (c : Client)
    (ctx : Context) (course : Course) (id : ℕ) where
  noted-world :
      (P : State → Type 0) (s : Shared State) (r : Try (ℕ × Bool) × State)
      → P r.1
      → P (noting_cancel rt service web c (attempt (back_in s r))).world
  noted-world P s (failed e, w) h = h
  noted-world P s (done beat, w) h = h

  heartbeats-In :
      (p : Phase)
      → IsStarted p
      → (ticks : ℕ) (s : Shared State) → In p s.world
      → In p (heartbeats rt service web c ctx id ticks s).world
  unfolding heartbeats settle
  heartbeats-In p started zero s h = h
  heartbeats-In p started (suc ticks) s h = by_flag (In p) s.is_cancelled s _ h (
      heartbeats-In p started ticks _ (
        noted-world (In p) s (heartbeat rt service web c ctx id s.world)
          (Ends-world (In p) _ ((heartbeat-Leads rt moves c p started ctx id).at s.world h))))

  -- A phase of an execution that has started.
  abbrev Beside : Phase → Shared State → Type 0
  Beside p s = IsStarted p × In p s.world

  beat-Beside :
      (p : Phase) (s : Shared State) → Beside p s → Beside p (beat rt service web c ctx course id s)
  beat-Beside p s (started, h) = (started, heartbeats-In p started _ _ h)

  beside-Beside :
      {A : Type 0} (p q : Phase) (call : Context → Call State A) (given : Context)
      (s : Shared State)
      → IsStarted q
      → ((x : Context) (w : State) → In p w → In q (call x w).1)
      → Beside p s
      → Beside q (beside rt service web c ctx course id call given s).1
  beside-Beside p q call given s to keep h =
      let now : Shared State = beat rt service web c ctx course id s in
      (
        to,
        back_in-world (In q) now (call (live given now) now.world)
            (keep (live given now) now.world (beat-Beside p s h).1),
      )

  beside_parent-Beside :
      {A : Type 0} (p q : Phase) (call : Call State A) (s : Shared State)
      → IsStarted q
      → ((w : State) → In p w → In q (call w).1)
      → Beside p s
      → Beside q (beside_parent rt service web c ctx course id call s).1
  beside_parent-Beside p q call s to keep h =
      let now : Shared State = beat rt service web c ctx course id s in
      (to, back_in-world (In q) now (call now.world) (keep now.world (beat-Beside p s h).1))

  shared-Moves :
      Moves
        (shared_service rt service web c ctx course id)
        (shared_web rt service web c ctx course id)
        Beside
  shared-Moves = record {
    lease = λ x task w s h. absurd h.0;
    download = λ x uri w task s h. absurd h.0;
    start = λ x task w s h. absurd h.0;
    heartbeat = λ p started x task w s h.
        beside-Beside p p (λ y. service.heartbeat y task w) x s started
          (λ y w' k. moves.heartbeat p started y task w w' k) h;
    create_upload = λ x r s h.
        beside-Beside running running (λ y. service.create_artifact_upload y r) x s tt
          (λ y w k. moves.create_upload y r w k) h;
    complete_upload = λ x artifact w task s h.
        beside-Beside running running (λ y. service.complete_artifact_upload y artifact w task) x s
          tt (λ y w' k. moves.complete_upload y artifact w task w' k) h;
    complete = λ x r s h.
        beside-Beside running completed (λ y. service.complete y r) x s tt
          (λ y w k. moves.complete y r w k) h;
    fail = λ x task w f s h.
        beside_parent-Beside running given_up (service.fail x task w f) s tt
          (λ w' k. moves.fail x task w f w' k) h;
    put = λ x url headers bytes s h.
        beside-Beside running running (λ y. web.put y url headers bytes) x s tt
          (λ y w k. moves.put y url headers bytes w k) h;
    get = λ x url s h. absurd h.0;
  }

  wait-Leads :
      Leads
        (Beside running)
        (Beside running)
        (Somewhere Beside)
        (wait rt service web c ctx course id)
  unfolding wait
  wait-Leads = record {
    at = λ s h.
        by_choice
          ((live ctx (beat rt service web c ctx course id s)).is_done && not course.is_woken)
          (beat rt service web c ctx course id s) (beat-Beside running s h);
  }
    where
      by_choice :
          (late : Bool) (now : Shared State)
          → Beside running now
          → Ends
              (Beside running)
              (Somewhere Beside)
              (if late then (failed out_of_time, now) else (done tt, now))
      by_choice true now h = (running, h)
      by_choice false now h = h

  conclude-Leads :
      (o : Outcome Value)
      → Leads
          (Beside running)
          (Beside completed)
          (Somewhere Beside)
          (conclude rt service web c ctx course id o)
  unfolding conclude
  conclude-Leads (output value) = deliver-Leads rt shared-Moves c ctx id value
  conclude-Leads (waits value) =
      Leads-bind _ _ wait-Leads (λ _. deliver-Leads rt shared-Moves c ctx id value)
  conclude-Leads (fails retryable e) = give_up-Leads rt shared-Moves c ctx id retryable e

  ended-Ends :
      {A : Type 0} (r : Try A × Shared State)
      → Ends (Beside completed) (Somewhere Beside) r
      → Ends (In completed) (Somewhere In) (ended rt service web c ctx course id r)
  ended-Ends (done a, s) h = (beat-Beside completed s h).1
  ended-Ends (failed e, s) (p, h) = (p, (beat-Beside p s h).1)

  in_span-Leads :
      {A : Type 0} (m : Call (Shared State) A)
      → Leads (Beside running) (Beside completed) (Somewhere Beside) m
      → Leads (In running) (In completed) (Somewhere In) (in_span rt service web c ctx course id m)
  in_span-Leads m inside = record { at = λ w h. ended-Ends _ (inside.at _ (tt, h)) }

  run-Leads :
      (handler : String) (input : Option (Fields Value)) (e : GoError)
      → Leads
          (In running)
          (In completed)
          (Somewhere In)
          (run rt service web c ctx course id handler input e)
  unfolding run
  run-Leads handler none e = in_span-Leads _ (give_up-Leads rt shared-Moves c ctx id false e)
  run-Leads handler (some input) e = in_span-Leads _ (conclude-Leads (handle rt handler id input))

  -- An execution that returns no error has completed the task, and any other has stopped in a phase.
  pub execute-Leads :
      Leads (In idle) (In completed) (Somewhere In) (execute rt service web c ctx course id)
  unfolding execute
  execute-Leads =
      Leads-bind _ _ (lease-Leads rt moves c ctx id)
        (λ task. Leads-bind _ _ (start-Leads rt moves c ctx id) (λ _. run-Leads task.handler _ _))
