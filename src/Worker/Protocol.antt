-- ===== src/Worker/Protocol.antt =====
-- The order of the calls of an execution.
use run_mesh.Base.{ℕ, ◌≡◌, refl, Option, none, some, List, [], ◌∷◌}
use run_mesh.Worker.Calls.{Context, Runtime, Service, Web, Call, Try}
use run_mesh.Worker.Client.{Client}
use run_mesh.Worker.Execute.{Course, execute}
use run_mesh.Worker.Rules.{Ends}
use run_mesh.Worker.Phases.{
  Phase, idle, leased, running, completed, given_up, IsStarted, Moves, Somewhere,
}
use run_mesh.Worker.Beside.{execute-Leads}

pub data Called : Type 0 where
  leasing downloading getting starting beating creating putting uploaded completing failing : Called

-- A call that comes too early or too late leads nowhere.
abbrev advance : Called → Phase → Option Phase
advance leasing idle = some leased
advance downloading leased = some leased
advance getting leased = some leased
advance starting leased = some running
advance beating running = some running
advance beating completed = some completed
advance beating given_up = some given_up
advance creating running = some running
advance putting running = some running
advance uploaded running = some running
advance completing running = some completed
advance failing running = some given_up
advance _ _ = none

abbrev advance_from : Called → Option Phase → Option Phase
advance_from call none = none
advance_from call (some phase) = advance call phase

may_beat : (p : Phase) → IsStarted p → advance beating p ≡ some p
may_beat idle started = absurd started
may_beat leased started = absurd started
may_beat running started = refl
may_beat completed started = refl
may_beat given_up started = refl

-- The phase after some calls, the last of which comes first.
unfoldable pub phase_of : List Called → Option Phase
phase_of [] = some idle
phase_of (call ∷ log) = advance_from call (phase_of log)

-- A world with the calls so far.
pub record Noted (State : Type 0) : Type 0 where
  pub world : State
  pub log : List Called

module _ {State : Type 0} where
  abbrev noted : {A : Type 0} → List Called → Try A × State → Try A × Noted State
  noted log (r, s) = (r, record { world = s; log = log })

  abbrev note : {A : Type 0} → Called → Call State A → Call (Noted State) A
  note call m s = noted (call ∷ s.log) (m s.world)

  abbrev pub noting : {Value : Type 0} → Service State Value → Service (Noted State) Value
  noting service = record {
    lease = λ ctx id w. note leasing (service.lease ctx id w);
    start = λ ctx id w. note starting (service.start ctx id w);
    heartbeat = λ ctx id w. note beating (service.heartbeat ctx id w);
    complete = λ ctx r. note completing (service.complete ctx r);
    fail = λ ctx id w f. note failing (service.fail ctx id w f);
    create_artifact_upload = λ ctx r. note creating (service.create_artifact_upload ctx r);
    complete_artifact_upload =
        λ ctx artifact w id. note uploaded (service.complete_artifact_upload ctx artifact w id);
    get_artifact_download =
        λ ctx uri w id. note downloading (service.get_artifact_download ctx uri w id);
  }

  abbrev pub noting_web : Web State → Web (Noted State)
  noting_web web = record {
    put = λ ctx url headers bytes. note putting (web.put ctx url headers bytes);
    get = λ ctx url. note getting (web.get ctx url);
    post = λ ctx url authorization report s.
        noted s.log (web.post ctx url authorization report s.world);
  }

  abbrev In : Phase → Noted State → Type 0
  In phase s = phase_of s.log ≡ some phase

  In-noted :
      {A : Type 0} (call : Called) (log : List Called) (to : Phase) (r : Try A × State)
      → advance_from call (phase_of log) ≡ some to
      → In to (noted (call ∷ log) r).1
  unfolding phase_of
  In-noted call log to (r, s) h = h

  to_phase :
      {A : Type 0} (call : Called) (m : Call State A) (from to : Phase) (s : Noted State)
      → advance call from ≡ some to
      → In from s
      → In to (note call m s).1
  to_phase call m from to s may h = In-noted call s.log to (m s.world) (rw h may)

  noting-Moves :
      {Value : Type 0} (service : Service State Value) (web : Web State)
      → Moves (noting service) (noting_web web) In
  noting-Moves service web = record {
    lease = λ ctx id w s. to_phase leasing (service.lease ctx id w) idle leased s refl;
    download = λ ctx uri w id s.
        to_phase downloading (service.get_artifact_download ctx uri w id) leased leased s refl;
    start = λ ctx id w s. to_phase starting (service.start ctx id w) leased running s refl;
    heartbeat = λ p started ctx id w s.
        to_phase beating (service.heartbeat ctx id w) p p s (may_beat p started);
    create_upload =
        λ ctx r s. to_phase creating (service.create_artifact_upload ctx r) running running s refl;
    complete_upload = λ ctx artifact w id s.
        to_phase uploaded (service.complete_artifact_upload ctx artifact w id) running running s
          refl;
    complete = λ ctx r s. to_phase completing (service.complete ctx r) running completed s refl;
    fail = λ ctx id w f s. to_phase failing (service.fail ctx id w f) running given_up s refl;
    put = λ ctx url headers bytes s.
        to_phase putting (web.put ctx url headers bytes) running running s refl;
    get = λ ctx url s. to_phase getting (web.get ctx url) leased leased s refl;
  }

-- What the calls of an execution come to: it has completed the task if it returns no error, and is in
-- some phase else.
abbrev pub IsProtocol : {State : Type 0} → Try (Unit {0}) × Noted State → Type 0
IsProtocol = Ends (In completed) (Somewhere In)

-- For any worker service and any task, and however the heartbeats come between the other calls: an
-- execution leases the task, fetches its input, starts it, sends heartbeats and uploads, and completes or
-- fails the task, each only after the one before and the last at most once; after the completion or the
-- failure only heartbeats follow. If it returns no error, it has completed the task.
pub execute-IsProtocol :
    {State Value : Type 0} (rt : Runtime Value) (service : Service State Value) (web : Web State)
    (c : Client) (parent : Context) (course : Course) (id : ℕ) (s : State)
    → IsProtocol (
        execute rt
          (noting service)
          (noting_web web)
          c
          parent
          course
          id
          (record { world = s; log = [] }))
unfolding phase_of
execute-IsProtocol rt service web c parent course id s =
    (execute-Leads rt (noting-Moves service web) c parent course id).at
      (record { world = s; log = [] }) refl
