-- ===== src/Lifecycle/Invariant/Completion.antt =====
-- A run has SUCCEEDED only with all its tasks.
use run_mesh.Base.{
  ℕ, some, Bool, true, false, ◌≡◌, refl, sym, ap, subst, ◌∙◌, List, [], ◌∷◌, arith, Bool-cases, inl,
  inr, if◌then◌else◌,
}
use run_mesh.Base.Tables.{update_where}
use run_mesh.Workflow.State.{RunStatus, run_is}
use run_mesh.Store.Db.{Db, Env, Run, TaskRun}
use run_mesh.Store.Outcomes.{all_succeeded, end_run}
use run_mesh.Lifecycle.Effects.{lease_task-effect, start_task-effect, heartbeat_task-effect}
use run_mesh.Lifecycle.Effects.Outcomes.{complete_task-effect, fail_task-effect}
use run_mesh.Lifecycle.Effects.Runs.{cancel_run-effect, retry_run-effect, replay_dead-effect}
use run_mesh.Lifecycle.Effects.Scheduler.{
  release_retries-effect, recover_one-effect, dispatch_one-effect,
}
use run_mesh.Lifecycle.Step.{
  Step, Reach, lease, start, heartbeat, complete, fail, cancel, release, recover, dispatch, retry,
  replay, work, repair, here, next,
}
use run_mesh.Lifecycle.Invariant.{IsOrdered, IsDone}
use run_mesh.Lifecycle.Invariant.Ordering.{Step-Stays, Reach-IsOrdered}
use run_mesh.Lifecycle.Invariant.Updates.{All-update}

abbrev IsDoneRun : List TaskRun → Run → Type 0
IsDoneRun tasks r = run_is r.status RunStatus.succeeded ≡ true → all_succeeded r.id tasks ≡ true

-- What a step does to the runs, given the tasks that it leaves.
abbrev KeepsDone : List TaskRun → List Run → List Run → Type 0
KeepsDone tasks runs runs' = IsDone tasks runs → IsDone tasks runs'

same_runs :
    (tasks : List TaskRun) (runs runs' : List Run) → runs' ≡ runs → KeepsDone tasks runs runs'
same_runs tasks runs runs' e d = subst (IsDone tasks) (sym e) d

-- An update after which no row that it changes has succeeded.
unfinished :
    (tasks : List TaskRun) (p : Run → Bool) (f : Run → Run) (runs : List Run)
    → ((r : Run) → run_is (f r).status RunStatus.succeeded ≡ false)
    → KeepsDone tasks runs (update_where p f runs)
unfinished tasks p f runs open_run d =
    All-update (IsDoneRun tasks) p f runs (λ r v hit h. let no = open_run r in absurd (cc)) d

end_failed :
    (env : Env) (tasks : List TaskRun) (run : ℕ) (b : Bool) (runs : List Run)
    → KeepsDone tasks runs (if b then end_run env run RunStatus.failed runs else runs)
end_failed env tasks run false runs d = d
end_failed env tasks run true runs d = unfinished tasks _ _ runs (λ r. refl) d

end_succeeded :
    (env : Env) (tasks : List TaskRun) (run : ℕ) (runs : List Run)
    → KeepsDone tasks runs
        (if all_succeeded run tasks then end_run env run RunStatus.succeeded runs else runs)
end_succeeded env tasks run runs d = elim (Bool-cases (all_succeeded run tasks)) [
  | inl finished ↦ rw finished (
      All-update (IsDoneRun tasks) _
        (λ r. record r { status = RunStatus.succeeded; completed_at = some env.now }) runs
        (λ r v hit h.
          let same : r.id ≡ run = ground arith in
          subst (λ id. all_succeeded id tasks ≡ true) (sym same) finished)
        d)
  | inr going ↦ rw going d
]

Step-KeepsDone : {db db' : Db} → Step db db' → KeepsDone db'.tasks db.runs db'.runs
Step-KeepsDone {db} {db'} (work (lease env task worker duration r h)) d =
    same_runs _ _ _ ((lease_task-effect env task worker duration db).at (r, db') h).after.runs d
Step-KeepsDone {db} {db'} (work (start env task worker r h)) d =
    same_runs _ _ _ ((start_task-effect env task worker db).at (r, db') h).after.runs d
Step-KeepsDone {db} {db'} (work (heartbeat env task worker duration r h)) d =
    same_runs _ _ _ ((heartbeat_task-effect env task worker duration db).at (r, db') h).after.runs d
Step-KeepsDone {db} {db'} (work (complete env task worker output uri logs r h)) d =
    let e = (complete_task-effect env task worker output uri logs db).at (r, db') h in
    let ended : List TaskRun → List Run = λ tasks.
      if all_succeeded e.held.workflow_run_id tasks
      then end_run env e.held.workflow_run_id RunStatus.succeeded db.runs
      else db.runs in
    subst (IsDone db'.tasks) (sym (e.runs ∙ ap ended (sym e.tasks)))
      (end_succeeded env db'.tasks e.held.workflow_run_id db.runs d)
Step-KeepsDone {db} {db'} (work (fail env task worker f r h)) d =
    let e = (fail_task-effect env task worker f db).at (r, db') h in
    subst (IsDone db'.tasks) (sym e.runs) (end_failed env db'.tasks _ _ db.runs d)
Step-KeepsDone {db} {db'} (work (cancel env tenant user run u h)) d =
    let e = (cancel_run-effect env tenant user run db).at (u, db') h in
    subst (IsDone db'.tasks) (sym e.runs) (unfinished db'.tasks _ _ db.runs (λ r. refl) d)
Step-KeepsDone {db} {db'} (work (release env h)) d =
    same_runs _ _ _ (ap (λ (d : Db). d.runs) (sym h) ∙ (release_retries-effect env db).runs) d
Step-KeepsDone {db} {db'} (work (recover env e current h)) d =
    subst (IsDone db'.tasks)
      (sym (ap (λ (d : Db). d.runs) (sym h) ∙ (recover_one-effect env e db).runs))
      (end_failed env db'.tasks _ _ db.runs d)
Step-KeepsDone {db} {db'} (work (dispatch env t h)) d =
    same_runs _ _ _ (ap (λ (d : Db). d.runs) (sym h) ∙ (dispatch_one-effect env t db).runs) d
Step-KeepsDone {db} {db'} (repair (retry env tenant user run u h)) d =
    let e = (retry_run-effect env tenant user run db).at (u, db') h in
    subst (IsDone db'.tasks) (sym e.runs) (unfinished db'.tasks _ _ db.runs (λ r. refl) d)
Step-KeepsDone {db} {db'} (repair (replay env tenant user task u h)) d =
    let e = (replay_dead-effect env tenant user task db).at (u, db') h in
    subst (IsDone db'.tasks) (sym e.runs) (unfinished db'.tasks _ _ db.runs (λ r. refl) d)

-- What was done stays so while the tasks change.
IsDone-later :
    (xs ys : List TaskRun) (runs : List Run)
    → ((run : ℕ) → all_succeeded run xs ≡ true → all_succeeded run ys ≡ true)
    → IsDone xs runs
    → IsDone ys runs
IsDone-later xs ys [] later d = tt
IsDone-later xs ys (r ∷ runs) later d = (λ h. later r.id (d.0 h), IsDone-later xs ys runs later d.1)

-- After any sequence of committed transactions, operators' retries and replays included, a run that is
-- SUCCEEDED has no task that is not, provided that the tasks are in order and this holds at the start.
pub Reach-IsDone :
    {db db' : Db}
    → Reach db db'
    → IsOrdered db.deps db.tasks
    → IsDone db.tasks db.runs
    → IsDone db'.tasks db'.runs
Reach-IsDone here o d = d
Reach-IsDone (next {db₁} {db₂} r s) o d =
    let stays = Step-Stays s (Reach-IsOrdered r o) in
    Step-KeepsDone s (IsDone-later db₁.tasks db₂.tasks db₁.runs stays.1 (Reach-IsDone r o d))
