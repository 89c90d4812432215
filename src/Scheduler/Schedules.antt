-- ===== src/Scheduler/Schedules.antt =====
-- `fireSchedules` and `tick` of internal/scheduler/scheduler.go. The cron parser, the time zones and the
-- text of a schedule's idempotency key are arguments: `next expression timezone base` is the next time
-- after `base`, or none if the expression or the time zone is not understood.
use run_mesh.Base.{
  ℕ, suc, ◌+◌, ◌*◌, String, Bool, true, false, ◌&&◌, not, Option, none, List, [], ◌∷◌, str_eq, ◌==◌,
  ltb, leb, if◌then◌else◌, Error, conflict, other, Result, ok, err, ◌>>=◌, or_fail,
}
use run_mesh.Base.Tables.{select, update_where, order_by, take}
use run_mesh.Workflow.State.{second}
use run_mesh.Store.Db.{Db, Env, Schedule}
use run_mesh.Store.CreateRun.{create_run}
use run_mesh.Scheduler.Tick.{release_retries, recover_expired, dispatch_ready}

-- `WHERE enabled AND next_execution_at<=now()`, of the rows that are not locked.
abbrev pub is_due_schedule : Env → (ℕ → Bool) → Schedule → Bool
is_due_schedule env locked s = s.enabled && (leb s.next_execution_at env.now && not (locked s.id))

-- ORDER BY next_execution_at ... LIMIT 50
unfoldable pub due_schedules : Env → (ℕ → Bool) → List Schedule → List Schedule
due_schedules env locked schedules = take 50 (
    order_by (λ a b. leb a.next_execution_at b.next_execution_at)
      (select (is_due_schedule env locked) schedules))

-- A schedule that skips misfires and is more than a minute late goes on from the present.
unfoldable pub base_time : Env → Schedule → ℕ
base_time env s =
    if str_eq s.misfire_policy "skip" && ltb (s.next_execution_at + 60 * second) env.clock
    then env.clock
    else s.next_execution_at

-- The first loop: each due schedule moves to its next time, or the whole transaction fails.
unfoldable pub advance_each :
    Env → (String → String → ℕ → Option ℕ) → List Schedule → List Schedule → Result (List Schedule)
advance_each env next [] schedules = ok schedules
advance_each env next (s ∷ due) schedules = do
  time ← or_fail (next s.cron_expression s.timezone (base_time env s)) (other "invalid schedule")
  advance_each env next due
      (update_where (λ r. r.id == s.id) (λ r. record r { next_execution_at = time }) schedules)

-- What the second loop does with the outcome of `CreateRun`.
abbrev tolerated : Error → Bool
tolerated conflict = true
tolerated _ = false

-- The second loop: a run for each schedule that was due, each in a transaction of its own, until one
-- fails with another error than a conflict.
unfoldable pub create_each :
    (ℕ → Env) → (Schedule → String) → ℕ → List Schedule → Db → Result (Unit {0}) × Db
create_each envs key n [] db = (ok tt, db)
create_each envs key n (s ∷ due) db =
    elim (create_run (envs n) s.tenant_id none s.workflow_definition_id (key s) "{}" none db) [
      | ok (created, db') ↦ create_each envs key (suc n) due db'
      | err e ↦ if tolerated e then create_each envs key (suc n) due db else (err e, db)
    ]

-- `envs n` is what the n-th transaction takes from outside.
unfoldable pub fire_schedules :
    (ℕ → Env)
    → (ℕ → Bool)
    → (String → String → ℕ → Option ℕ)
    → (Schedule → String)
    → ℕ
    → Db
    → Result (Unit {0}) × Db
unfolding advance_each create_each
fire_schedules envs locked next key n db =
    let due = due_schedules (envs n) locked db.schedules in
    elim (advance_each (envs n) next due db.schedules) [
      | err e ↦ (err e, db)
      | ok schedules ↦ create_each envs key (suc n) due (record db { schedules = schedules })
    ]

-- The four parts of a tick, which stops at an error of the first.
unfoldable pub tick :
    (ℕ → Env)
    → (ℕ → ℕ → Bool)
    → (String → String → ℕ → Option ℕ)
    → (Schedule → String)
    → Db
    → Result (Unit {0}) × Db
unfolding fire_schedules
tick envs locked next key db =
    let (fired, db₁) = fire_schedules envs (locked 0) next key 3 db in
    elim fired [
      | err e ↦ (err e, db₁)
      | ok u ↦ (
        ok tt,
        dispatch_ready (envs 2) (locked 2)
            (recover_expired (envs 1) (locked 1) (release_retries (envs 0) db₁)),
      )
    ]
