-- ===== src/Worker/Rules.antt =====
-- Rules for what a call leaves the world in, whether it ends with a value or fails.
use run_mesh.Base.{Bool, true, false, Option, none, some, if◌then◌else◌}
use run_mesh.Worker.Calls.{
  Fault, Try, failed, done, Call, ◌>>=◌, give, stop, or_stop, stop_if, settle, after, attempt,
}

module _ {State : Type 0} where
  abbrev pub Ends : {A : Type 0} → (State → Type 0) → (State → Type 0) → Try A × State → Type 0
  Ends After Failed (done a, s) = After s
  Ends After Failed (failed e, s) = Failed s

  -- From `Before` a call leads to `After`, or it fails in `Failed`.
  pub record Leads {A : Type 0} (Before After Failed : State → Type 0) (m : Call State A)
      : Type 0 where
    pub at : (s : State) → Before s → Ends After Failed (m s)

  Ends-attempt :
      (After Failed : State → Type 0) {A : Type 0} (r : Try A × State)
      → Ends After After r
      → Ends After Failed (attempt r)
  Ends-attempt After Failed (done a, s) h = h
  Ends-attempt After Failed (failed e, s) h = h

  Ends-weaken :
      (After Failed Less : State → Type 0) {A : Type 0} (r : Try A × State)
      → ((s : State) → Failed s → Less s)
      → Ends After Failed r
      → Ends After Less r
  Ends-weaken After Failed Less (done a, s) weaken h = h
  Ends-weaken After Failed Less (failed e, s) weaken h = weaken s h

  module _ {After Failed : State → Type 0} where
    pub Leads-give : {A : Type 0} (a : A) → Leads After After Failed (give a)
    Leads-give a = record { at = λ s h. h }

    pub Leads-stop : {A : Type 0} (e : Fault) → Leads Failed After Failed (stop {A = A} e)
    Leads-stop e = record { at = λ s h. h }

    pub Leads-or_stop :
        {A : Type 0} (o : Option A) (e : Fault)
        → ((s : State) → After s → Failed s)
        → Leads After After Failed (or_stop o e)
    Leads-or_stop none e weaken = record { at = λ s h. weaken s h }
    Leads-or_stop (some a) e weaken = record { at = λ s h. h }

    pub Leads-stop_if :
        (b : Bool) (e : Fault)
        → ((s : State) → After s → Failed s)
        → Leads After After Failed (stop_if b e)
    Leads-stop_if true e weaken = record { at = λ s h. weaken s h }
    Leads-stop_if false e weaken = record { at = λ s h. h }

    Ends-call :
        {A : Type 0} (r : Try A × State)
        → ((s : State) → After s → Failed s)
        → After r.1
        → Ends After Failed r
    Ends-call (done a, s) weaken h = h
    Ends-call (failed e, s) weaken h = weaken s h

    -- What a call does to the world whatever it ends with.
    pub Leads-call :
        {A : Type 0} {Before : State → Type 0} (m : Call State A)
        → ((s : State) → Before s → After (m s).1)
        → ((s : State) → After s → Failed s)
        → Leads Before After Failed m
    Leads-call m keep weaken = record { at = λ s h. Ends-call (m s) weaken (keep s h) }

    pub Leads-if :
        {A : Type 0} {Before : State → Type 0} (b : Bool) {m n : Call State A}
        → Leads Before After Failed m
        → Leads Before After Failed n
        → Leads Before After Failed (if b then m else n)
    Leads-if true m n = m
    Leads-if false m n = n

    Ends-after :
        {A B : Type 0} {Middle : State → Type 0} (r : Try A × State) (next : A → Call State B)
        → ((a : A) → Leads Middle After Failed (next a))
        → Ends Middle Failed r
        → Ends After Failed (after r next)
    Ends-after (done a, s) next rest h = (rest a).at s h
    Ends-after (failed e, s) next rest h = h

    pub Leads-bind :
        {A B : Type 0} {Before Middle : State → Type 0} (m : Call State A) (next : A → Call State B)
        → Leads Before Middle Failed m
        → ((a : A) → Leads Middle After Failed (next a))
        → Leads Before After Failed (m >>= next)
    unfolding ◌>>=◌
    Leads-bind m next first rest = record { at = λ s h. Ends-after (m s) next rest (first.at s h) }

    -- A failure that is dropped is one more way to go on.
    pub Leads-settle :
        {A : Type 0} {Before : State → Type 0} (m : Call State A)
        → Leads Before After After m
        → Leads Before After Failed (settle m)
    unfolding settle
    Leads-settle m first = record { at = λ s h. Ends-attempt After Failed (m s) (first.at s h) }

    -- A failure may be said less about.
    pub Leads-weaken :
        {A : Type 0} {Before Less : State → Type 0} (m : Call State A)
        → ((s : State) → Failed s → Less s)
        → Leads Before After Failed m
        → Leads Before After Less m
    Leads-weaken {Less = Less} m weaken first = record {
      at = λ s h. Ends-weaken After Failed Less (m s) weaken (first.at s h);
    }
