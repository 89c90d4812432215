-- ===== src/Workflow/State.antt =====
-- internal/workflow/state.go and the enumerations of migrations/001_initial.up.sql.
pub mod Delay
use run_mesh.Base.{
  ℕ, zero, suc, ◌+◌, ◌-◌, ◌*◌, ◌^◌, ◌≤◌, ◌<◌, min, ◌≡◌, refl, Bool, true, false, arith, ltb, ◌==◌,
  ◌||◌, if◌then◌else◌,
}

-- task_status
pub data TaskStatus : Type 0 where
  blocked ready dispatching leased running succeeded failed retry_wait dead cancelled : TaskStatus

-- workflow_status
pub data RunStatus : Type 0 where
  pending running succeeded failed cancelled : RunStatus

-- The equality of two statuses, as SQL and Go compare them.
abbrev task_code : TaskStatus → ℕ
task_code blocked = 0
task_code ready = 1
task_code dispatching = 2
task_code leased = 3
task_code TaskStatus.running = 4
task_code TaskStatus.succeeded = 5
task_code TaskStatus.failed = 6
task_code retry_wait = 7
task_code dead = 8
task_code TaskStatus.cancelled = 9

abbrev pub is : TaskStatus → TaskStatus → Bool
is s t = task_code s == task_code t

abbrev run_code : RunStatus → ℕ
run_code pending = 0
run_code RunStatus.running = 1
run_code RunStatus.succeeded = 2
run_code RunStatus.failed = 3
run_code RunStatus.cancelled = 4

abbrev pub run_is : RunStatus → RunStatus → Bool
run_is s t = run_code s == run_code t

-- `status IN ('LEASED','RUNNING')`
abbrev pub is_active : TaskStatus → Bool
is_active s = is s leased || is s TaskStatus.running

-- `status IN ('BLOCKED','READY','DISPATCHING','RETRY_WAIT')`
abbrev pub is_waiting : TaskStatus → Bool
is_waiting s = is s blocked || is s ready || is s dispatching || is s retry_wait

-- The map `transitions`, read as `transitions[from][to]`.
unfoldable pub can_transition : TaskStatus → TaskStatus → Bool
can_transition blocked ready = true
can_transition blocked TaskStatus.cancelled = true
can_transition ready dispatching = true
can_transition ready TaskStatus.cancelled = true
can_transition dispatching leased = true
can_transition dispatching ready = true
can_transition dispatching TaskStatus.cancelled = true
can_transition leased TaskStatus.running = true
can_transition leased retry_wait = true
can_transition leased dead = true
can_transition leased TaskStatus.cancelled = true
can_transition TaskStatus.running TaskStatus.succeeded = true
can_transition TaskStatus.running retry_wait = true
can_transition TaskStatus.running dead = true
can_transition TaskStatus.running TaskStatus.cancelled = true
can_transition retry_wait ready = true
can_transition retry_wait TaskStatus.cancelled = true
can_transition _ _ = false

-- time.Second, in nanoseconds.
abbrev pub second : ℕ
second = 1_000_000_000

-- `math.Min(3600, 2*math.Pow(2, attempt-1))` is exact on float64: a power of two below 2^1024, or
-- +Inf above, and 3600 from attempt 12 on.
unfoldable pub retry_delay : ℕ → ℕ
retry_delay attempt =
    let n = if ltb attempt 1 then 1 else attempt in min 3600 (2 * 2 ^ (n - 1)) * second
