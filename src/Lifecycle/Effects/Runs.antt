-- ===== src/Lifecycle/Effects/Runs.antt =====
-- The effects of `CancelRun`, `RetryRun` and `ReplayDead`.
use run_mesh.Base.{
  ℕ, true, ◌&&◌, ◌≡◌, refl, Option, none, some, List, Holds, Holds-bind, Holds-ok, refuse_if-eq-ok,
  ◌==◌,
}
use run_mesh.Base.Tables.{exists, update_where}
use run_mesh.Workflow.State.{RunStatus, run_is}
use run_mesh.Store.Db.{Db, Env, Run, TaskRun, insert_event, insert_audit}
use run_mesh.Store.Outcomes.{cancel_waiting}
use run_mesh.Store.Runs.{cancel_run, retry_run, can_cancel, owned_run, is_dead_in, retry_row}
use run_mesh.Store.DeadLetter.{replay_dead, replay_row, can_replay, is_cancelled_in, rebuild_row}
use run_mesh.Lifecycle.Effects.{Fenced, Fenced-or_fail, not-false}

module _ (env : Env) (tenant : ℕ) (user : Option ℕ) (id : ℕ) (db : Db) where
  pub record CancelEffect (r : Unit {0} × Db) : Type 0 where
    pub found : exists (can_cancel tenant id) db.runs ≡ true
    pub tasks : r.1.tasks ≡ cancel_waiting env id db.tasks
    pub deps : r.1.deps ≡ db.deps
    pub runs :
        r.1.runs
        ≡ update_where
            (can_cancel tenant id)
            (λ r. record r { status = RunStatus.cancelled; completed_at = some env.now })
            db.runs

  pub cancel_run-effect : Holds CancelEffect (cancel_run env tenant user id db)
  unfolding cancel_run insert_audit
  cancel_run-effect = Holds-bind _ _ _ λ _ found. Holds-ok _ (record {
    found = not-false _ (refuse_if-eq-ok _ _ found);
    tasks = refl;
    deps = refl;
    runs = refl;
  })

  pub record RetryEffect (r : Unit {0} × Db) : Type 0 where
    pub owned : exists (owned_run tenant id) db.runs ≡ true
    pub some_dead : exists (is_dead_in id) db.tasks ≡ true
    pub tasks : r.1.tasks ≡ update_where (is_dead_in id) (retry_row env) db.tasks
    pub deps : r.1.deps ≡ db.deps
    pub runs :
        r.1.runs
        ≡ update_where
            (λ r. r.id == id)
            (λ r. record r { status = RunStatus.running; completed_at = none })
            db.runs

  pub retry_run-effect : Holds RetryEffect (retry_run env tenant user id db)
  unfolding retry_run insert_audit
  retry_run-effect = Holds-bind _ _ _ λ _ owned. Holds-bind _ _ _ λ _ some_dead.
      Holds-ok _ (record {
        owned = not-false _ (refuse_if-eq-ok _ _ owned);
        some_dead = not-false _ (refuse_if-eq-ok _ _ some_dead);
        tasks = refl;
        deps = refl;
        runs = refl;
      })

  -- The tasks after the update of the replayed row.
  abbrev pub replayed_tasks : List TaskRun
  replayed_tasks = update_where (λ x. x.id == id) (replay_row env) db.tasks

  pub record ReplayEffect (r : Unit {0} × Db) : Type 0 where
    pub held : TaskRun
    pub run : Run
    pub fenced : Fenced db (can_replay db tenant id) held run
    pub tasks :
        r.1.tasks
        ≡ update_where
            (is_cancelled_in held.workflow_run_id)
            (rebuild_row env db.deps replayed_tasks)
            replayed_tasks
    pub deps : r.1.deps ≡ db.deps
    pub runs :
        r.1.runs
        ≡ update_where
            (λ r. r.id == held.workflow_run_id && run_is r.status RunStatus.failed)
            (λ r. record r { status = RunStatus.running; completed_at = none })
            db.runs

  pub replay_dead-effect : Holds ReplayEffect (replay_dead env tenant user id db)
  unfolding replay_dead insert_audit insert_event
  replay_dead-effect = Holds-bind _ _ _ λ found e. Holds-ok _ (record {
    held = found.0;
    run = found.1;
    fenced = Fenced-or_fail _ _ _ found e;
    tasks = refl;
    deps = refl;
    runs = refl;
  })
