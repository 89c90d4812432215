-- ===== src/Worker/Phases.antt =====
-- What the calls of an execution of a task go through, for any invariant of the world that the calls keep.
use run_mesh.Base.{ℕ, String, Bool, List}
use run_mesh.Auth.Text.{Text}
use run_mesh.Store.Outcomes.{Failure}
use run_mesh.Worker.Calls.{Context, GoError, Runtime, UploadRequest, Completion, Service, Web, Call}
use run_mesh.Worker.Client.{
  Client, lease, start, heartbeat, complete, fail, fetch_input, download_artifact, upload_artifact,
  store_output,
}
use run_mesh.Worker.Execute.{give_up, deliver}
use run_mesh.Worker.Rules.{
  Leads, Leads-give, Leads-stop, Leads-or_stop, Leads-stop_if, Leads-call, Leads-if, Leads-bind,
  Leads-settle,
}

pub data Phase : Type 0 where
  idle leased running completed given_up : Phase

-- From `Start` on, heartbeats may come.
abbrev pub IsStarted : Phase → Type 0
IsStarted idle = ⊥
IsStarted leased = ⊥
IsStarted _ = Unit

-- The calls lead from phase to phase, whatever they end with.
pub record Moves {State Value : Type 0} (service : Service State Value) (web : Web State)
    (In : Phase → State → Type 0) : Type 0 where
  pub lease :
      (ctx : Context) (id : ℕ) (w : String) (s : State)
      → In idle s
      → In leased (service.lease ctx id w s).1
  pub download :
      (ctx : Context) (uri w : String) (id : ℕ) (s : State)
      → In leased s
      → In leased (service.get_artifact_download ctx uri w id s).1
  pub start :
      (ctx : Context) (id : ℕ) (w : String) (s : State)
      → In leased s
      → In running (service.start ctx id w s).1
  pub heartbeat :
      (p : Phase)
      → IsStarted p
      → (ctx : Context) (id : ℕ) (w : String) (s : State) → In p s
      → In p (service.heartbeat ctx id w s).1
  pub create_upload :
      (ctx : Context) (r : UploadRequest) (s : State)
      → In running s
      → In running (service.create_artifact_upload ctx r s).1
  pub complete_upload :
      (ctx : Context) (artifact : ℕ) (w : String) (id : ℕ) (s : State)
      → In running s
      → In running (service.complete_artifact_upload ctx artifact w id s).1
  pub complete :
      (ctx : Context) (r : Completion Value) (s : State)
      → In running s
      → In completed (service.complete ctx r s).1
  pub fail :
      (ctx : Context) (id : ℕ) (w : String) (f : Failure) (s : State)
      → In running s
      → In given_up (service.fail ctx id w f s).1
  pub put :
      (ctx : Context) (url : String) (headers : List (String × String)) (bytes : Text) (s : State)
      → In running s
      → In running (web.put ctx url headers bytes s).1
  pub get :
      (ctx : Context) (url : String) (s : State) → In leased s → In leased (web.get ctx url s).1

-- Some phase.
abbrev pub Somewhere : {State : Type 0} → (Phase → State → Type 0) → State → Type 0
Somewhere In s = (p : Phase) × In p s

module _ {State Value : Type 0} (rt : Runtime Value) {service : Service State Value}
    {web : Web State} {In : Phase → State → Type 0} (moves : Moves service web In)
    (c : Client) where
  -- One call of the service or the web that leads from a phase to a phase.
  step :
      {A : Type 0} (from to : Phase) (m : Call State A)
      → ((s : State) → In from s → In to (m s).1)
      → Leads (In from) (In to) (Somewhere In) m
  step from to m keep = Leads-call m keep (λ s h. (to, h))

  download_artifact-Leads :
      (ctx : Context) (id : ℕ) (uri : String)
      → Leads (In leased) (In leased) (Somewhere In) (download_artifact rt service web c ctx id uri)
  unfolding download_artifact
  download_artifact-Leads ctx id uri =
      Leads-bind _ _ (step leased leased _ (moves.download _ uri c.worker_id id)) (λ url.
        Leads-bind _ _ (step leased leased _ (moves.get ctx url)) (λ got.
          Leads-bind _ _ (Leads-stop_if _ _ (λ s h. (leased, h)))
            (λ _. Leads-bind _ _ (Leads-or_stop _ _ (λ s h. (leased, h))) (λ body. Leads-give _))))

  pub lease-Leads :
      (ctx : Context) (id : ℕ)
      → Leads (In idle) (In leased) (Somewhere In) (lease rt service web c ctx id)
  unfolding lease fetch_input
  lease-Leads ctx id = Leads-bind _ _ (Leads-stop_if _ _ (λ s h. (idle, h))) (λ _.
      Leads-bind _ _ (step idle leased _ (moves.lease _ id c.worker_id)) (λ value.
        Leads-if _ (Leads-give _)
          (Leads-bind _ _ (download_artifact-Leads ctx id _) (λ input. Leads-give _))))

  pub start-Leads :
      (ctx : Context) (id : ℕ)
      → Leads (In leased) (In running) (Somewhere In) (start rt service web c ctx id)
  unfolding start
  start-Leads ctx id = Leads-bind _ _ (Leads-stop_if _ _ (λ s h. (leased, h))) (λ _.
      Leads-bind _ _ (step leased running _ (moves.start _ id c.worker_id)) (λ _. Leads-give _))

  pub heartbeat-Leads :
      (p : Phase)
      → IsStarted p
      → (ctx : Context) (id : ℕ) → Leads (In p) (In p) (In p) (heartbeat rt service web c ctx id)
  unfolding heartbeat
  heartbeat-Leads p started ctx id =
      Leads-bind _ _ (Leads-stop_if _ _ (λ s h. h))
        (λ _. Leads-call _ (moves.heartbeat p started _ id c.worker_id) (λ s h. h))

  upload_artifact-Leads :
      (ctx : Context) (id : ℕ) (kind content_type : String) (bytes : Text)
      → Leads
          (In running)
          (In running)
          (Somewhere In)
          (upload_artifact rt service web c ctx id kind content_type bytes)
  unfolding upload_artifact
  upload_artifact-Leads ctx id kind content_type bytes =
      Leads-bind _ _ (step running running _ (moves.create_upload _ _)) (λ ticket.
        Leads-bind _ _ (step running running _ (moves.put ctx ticket.upload_url _ bytes)) (λ code.
          Leads-bind _ _ (Leads-stop_if _ _ (λ s h. (running, h)))
            (λ _. step running running _ (moves.complete_upload _ ticket.artifact c.worker_id id))))

  complete-Leads :
      (ctx : Context) (id : ℕ) (value : Value)
      → Leads (In running) (In completed) (Somewhere In) (complete rt service web c ctx id value)
  unfolding complete store_output
  complete-Leads ctx id value = Leads-bind _ _ (Leads-stop_if _ _ still) (λ _.
      Leads-bind _ _ (Leads-or_stop _ _ still) (λ raw.
        Leads-bind _ _ (Leads-or_stop _ _ still) (λ object.
          Leads-bind _ _
            (Leads-if _
              (Leads-bind _ _ (upload_artifact-Leads ctx id _ _ raw) (λ uri. Leads-give _))
              (Leads-give _))
            (λ stored. Leads-bind _ _ (Leads-stop_if _ _ still) (λ _.
              Leads-bind _ _ (Leads-or_stop _ _ still) (λ log.
                Leads-bind _ _ (upload_artifact-Leads ctx id _ _ log) (λ log_uri.
                  Leads-bind _ _ (step running completed _ (moves.complete _ _))
                    (λ _. Leads-give _))))))))
    where
      still : (s : State) → In running s → Somewhere In s
      still s h = (running, h)

  pub give_up-Leads :
      (parent : Context) (id : ℕ) (retryable : Bool) (e : GoError)
      → Leads
          (In running)
          (In completed)
          (Somewhere In)
          (give_up rt service web c parent id retryable e)
  unfolding give_up fail
  give_up-Leads parent id retryable e =
      Leads-bind _ _
        (Leads-settle _ (
          Leads-bind _ _ (Leads-stop_if _ _ (λ s h. (running, h))) (λ _.
            Leads-bind _ _ (step running given_up _ (moves.fail _ id c.worker_id _))
              (λ value. Leads-call _ (λ s h. (given_up, h)) (λ s h. h)))))
        (λ _. Leads-stop _)

  pub deliver-Leads :
      (ctx : Context) (id : ℕ) (value : Value)
      → Leads (In running) (In completed) (Somewhere In) (deliver rt service web c ctx id value)
  unfolding deliver
  deliver-Leads ctx id value = Leads-bind _ _ (complete-Leads ctx id value) (λ _. Leads-give _)
