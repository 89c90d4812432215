-- ===== src/Lifecycle/Fencing.antt =====
-- A lease fences: what one worker has leased or ended, no other report of the same attempt changes.
use run_mesh.Base.{
  ℕ, String, Bool, true, false, ◌&&◌, ◌≡◌, ◌≢◌, refl, sym, subst, ◌∙◌, Option, none, some, List, [],
  ◌∷◌, ok, err, arith, str_eq, text_is, ◌==◌, Bool-cases, inl, inr, if◌then◌else◌, or_fail, ◌>>=◌,
  lease_lost, eq_iff,
}
use run_mesh.Base.Tables.{All, find?, find?-All, update_where}
use run_mesh.Workflow.State.{TaskStatus, RunStatus, is_active, leased}
use run_mesh.Store.Db.{Db, Env, TaskRun}
use run_mesh.Store.Leases.{
  can_lease, holds_lease, holds_active_lease, task_with_run, lease_task, start_task, heartbeat_task,
}
use run_mesh.Store.Outcomes.{
  complete_task, fail_task, Failure, cancel_waiting, cancel_row, failure_status,
}
use run_mesh.Lifecycle.Rows.{UniqueIds, OnlyRow, find?-OnlyRow, All-trivial, All-imp}
use run_mesh.Lifecycle.Effects.{lease_task-effect}
use run_mesh.Lifecycle.Effects.Outcomes.{complete_task-effect, fail_task-effect}
use run_mesh.Lifecycle.Invariant.Updates.{All-update}

-- No report of this worker on the task is taken, whatever the instant and the content.
pub record IsShut (task : ℕ) (worker : String) (db : Db) : Type 0 where
  pub start : (env : Env) → start_task env task worker db ≡ err lease_lost
  pub heartbeat : (env : Env) (lease : ℕ) → heartbeat_task env task worker lease db ≡ err lease_lost
  pub complete :
      (env : Env) (output uri : String) (logs : List String)
      → complete_task env task worker output uri logs db ≡ err lease_lost
  pub fail : (env : Env) (f : Failure) → fail_task env task worker f db ≡ err lease_lost

-- No row gives the worker a lease on the task.
abbrev pub IsRefused : ℕ → String → TaskRun → Type 0
IsRefused task worker t = t.id ≡ task → (is_active t.status && text_is t.lease_owner worker) ≡ false

find?-none :
    (P : TaskRun → Type 0) (p : TaskRun → Bool) (xs : List TaskRun)
    → ((x : TaskRun) → P x → p x ≡ false)
    → All P xs
    → find? p xs ≡ none
unfolding find?
find?-none P p [] h a = refl
find?-none P p (x ∷ xs) h a = rw (h x a.0) (find?-none P p xs h a.1)

task_with_run-none :
    (db : Db) (p : TaskRun → Bool) → find? p db.tasks ≡ none → task_with_run db p ≡ none
unfolding task_with_run
task_with_run-none db p h = ground arith

pub IsShut-refused :
    (task : ℕ) (worker : String) (db : Db)
    → All (IsRefused task worker) db.tasks
    → IsShut task worker db
IsShut-refused task worker db h = record {
  start = λ env.
      unfold start_task ◌>>=◌ or_fail in rw (none_held env leased (λ x v. ground arith)) refl;
  heartbeat = λ env lease. unfold heartbeat_task ◌>>=◌ or_fail in rw (none_active env) refl;
  complete = λ env output uri logs.
      unfold complete_task ◌>>=◌ or_fail in
      rw (none_held env TaskStatus.running (λ x v. ground arith)) refl;
  fail = λ env f. unfold fail_task ◌>>=◌ or_fail in rw (none_active env) refl;
}
  where
    none_held :
        (env : Env) (s : TaskStatus)
        → ((x : TaskRun) → IsRefused task worker x → holds_lease env s task worker x ≡ false)
        → task_with_run db (holds_lease env s task worker) ≡ none
    none_held env s refused =
        task_with_run-none db _ (find?-none (IsRefused task worker) _ db.tasks refused h)

    none_active : (env : Env) → task_with_run db (holds_active_lease env task worker) ≡ none
    none_active env = task_with_run-none db _ (
        find?-none (IsRefused task worker) (holds_active_lease env task worker) db.tasks
          (λ x v. ground arith) h)

-- The rows of an UPDATE, from what is known of them before it.
pub All-where :
    (Q P : TaskRun → Type 0) (p : TaskRun → Bool) (f : TaskRun → TaskRun) (xs : List TaskRun)
    → ((x : TaskRun) → Q x → P (if p x then f x else x))
    → All Q xs
    → All P (update_where p f xs)
unfolding update_where
All-where Q P p f [] h a = tt
All-where Q P p f (x ∷ xs) h a = (h x a.0, All-where Q P p f xs h a.1)

-- The task is in the hands of nobody.
abbrev IsOver : ℕ → TaskRun → Type 0
IsOver task x = x.id ≡ task → is_active x.status ≡ false

IsShut-over :
    (task : ℕ) (worker : String) (db : Db) → All (IsOver task) db.tasks → IsShut task worker db
IsShut-over task worker db h = IsShut-refused task worker db (
    All-imp (IsOver task) (IsRefused task worker) db.tasks
      (λ x over same. let shut = over same in ground arith) h)

-- An UPDATE that picks the row of the task changes every row with its id.
pub held-All :
    (P : TaskRun → Type 0) (task : ℕ) (p q : TaskRun → Bool) (f : TaskRun → TaskRun)
    (held : TaskRun) (xs : List TaskRun)
    → find? p xs ≡ some held
    → UniqueIds xs
    → held.id ≡ task
    → q held ≡ true
    → ((x : TaskRun) → P (f x))
    → All (λ x. x.id ≡ task → P x) (update_where q f xs)
held-All P task p q f held xs found unique same hit over =
    All-where (OnlyRow held) (λ x. x.id ≡ task → P x) q f xs step
      (find?-OnlyRow p xs held found unique)
  where
    step :
        (x : TaskRun)
        → OnlyRow held x
        → (if q x then f x else x).id ≡ task
        → P (if q x then f x else x)
    step x only = elim (Bool-cases (q x)) [
      | inl picked ↦ rw picked λ _. over x
      | inr missed ↦ rw missed λ e.
          let picked : q x ≡ true = subst (λ y. q y ≡ true) (sym (only (e ∙ sym same))) hit in
          absurd (cc)
    ]

-- A second UPDATE that takes no row into anybody's hands.
keeps-IsOver :
    (task : ℕ) (p : TaskRun → Bool) (f : TaskRun → TaskRun) (xs : List TaskRun)
    → ((x : TaskRun) → is_active (f x).status ≡ false)
    → All (IsOver task) xs
    → All (IsOver task) (update_where p f xs)
keeps-IsOver task p f xs h = All-update (IsOver task) p f xs (λ x _ _ _. h x)

if-IsOver :
    (task : ℕ) (env : Env) (run : ℕ) (b : Bool) (xs : List TaskRun)
    → All (IsOver task) xs
    → All (IsOver task) (if b then cancel_waiting env run xs else xs)
if-IsOver task env run false xs h = h
if-IsOver task env run true xs h = keeps-IsOver task _ (cancel_row env) xs (λ x. refl) h

-- In the state that a completion of a task leaves, no worker, the one that completed it included,
-- can start, renew, complete or fail it, and each such call ends in ErrLeaseLost. Task ids are
-- unique.
pub complete_task-IsShut :
    (env : Env) (task : ℕ) (worker output uri : String) (logs : List String) (r : TaskRun)
    (db db' : Db)
    → UniqueIds db.tasks
    → complete_task env task worker output uri logs db ≡ ok (r, db')
    → (other : String) → IsShut task other db'
complete_task-IsShut env task worker output uri logs r db db' unique h other =
    let e = (complete_task-effect env task worker output uri logs db).at (r, db') h in
    let (hit, _) =
      find?-All (λ _. Unit {0}) _ db.tasks e.held e.fenced.row (All-trivial db.tasks) in
    let same : e.held.id ≡ task = ground arith in
    IsShut-over task other db' (
      subst (All (IsOver task)) (sym e.tasks) (
        keeps-IsOver task _ _ _ (λ x. refl)
          (held-All (λ x. is_active x.status ≡ false) task _ _ _ e.held db.tasks e.fenced.row unique
            same hit (λ x. refl))))

failure_status-over :
    (run : RunStatus) (retryable : Bool) (attempt max : ℕ)
    → is_active (failure_status run retryable attempt max) ≡ false
unfolding failure_status
failure_status-over run retryable attempt max = ground arith

-- In the state that a reported failure leaves, no worker can start, renew, complete or fail the
-- task, and each such call ends in ErrLeaseLost. Task ids are unique.
pub fail_task-IsShut :
    (env : Env) (task : ℕ) (worker : String) (f : Failure) (r : TaskRun) (db db' : Db)
    → UniqueIds db.tasks
    → fail_task env task worker f db ≡ ok (r, db')
    → (other : String) → IsShut task other db'
fail_task-IsShut env task worker f r db db' unique h other =
    let e = (fail_task-effect env task worker f db).at (r, db') h in
    let (hit, _) =
      find?-All (λ _. Unit {0}) _ db.tasks e.held e.fenced.row (All-trivial db.tasks) in
    let same : e.held.id ≡ task = ground arith in
    let by_worker : (e.held.id == task && text_is e.held.lease_owner worker) ≡ true =
      ground arith in
    IsShut-over task other db' (
      subst (All (IsOver task)) (sym e.tasks) (
        if-IsOver task env _ _ _ (
          held-All (λ x. is_active x.status ≡ false) task _ _ _ e.held db.tasks e.fenced.row unique
            same by_worker
            (λ x.
              failure_status-over e.run.status f.retryable e.held.attempt_count
                e.held.maximum_attempts))))

abbrev IsLeasedBy : ℕ → String → TaskRun → Type 0
IsLeasedBy task worker x = x.id ≡ task → ((x.status ≡ leased) × (x.lease_owner ≡ some worker))

owner-refuses :
    (o : Option String) (other worker : String) (active : Bool)
    → other ≢ worker
    → o ≡ some worker
    → (active && text_is o other) ≡ false
owner-refuses none other worker active differs h = absurd (cc)
owner-refuses (some s) other worker active differs h =
    let same : s ≡ worker = cc in
    elim (Bool-cases (str_eq s other)) [
      | inl hit ↦ absurd (differs (sym ((eq_iff s other).0 hit) ∙ same))
      | inr miss ↦ ground arith
    ]

leased_rows :
    (env : Env) (task : ℕ) (worker : String) (duration : ℕ) (r : TaskRun × Option String)
    (db db' : Db)
    → UniqueIds db.tasks
    → lease_task env task worker duration db ≡ ok (r, db')
    → All (IsLeasedBy task worker) db'.tasks
leased_rows env task worker duration r db db' unique h =
    let e = (lease_task-effect env task worker duration db).at (r, db') h in
    let (hit, _) = find?-All (λ _. Unit {0}) _ db.tasks e.held e.found (All-trivial db.tasks) in
    subst (All (IsLeasedBy task worker)) (sym e.after.tasks) (
      held-All (λ x. (x.status ≡ leased) × (x.lease_owner ≡ some worker)) task _ _ _ e.held db.tasks
        e.found unique (ground arith) hit (λ x. (refl, refl)))

-- In the state that a lease leaves, a worker other than the one that holds it can not start, renew,
-- complete or fail the task, and each such call ends in ErrLeaseLost. Task ids are unique.
pub lease_task-IsShut :
    (env : Env) (task : ℕ) (worker : String) (duration : ℕ) (r : TaskRun × Option String)
    (db db' : Db)
    → UniqueIds db.tasks
    → lease_task env task worker duration db ≡ ok (r, db')
    → (other : String) → other ≢ worker
    → IsShut task other db'
lease_task-IsShut env task worker duration r db db' unique h other differs =
    IsShut-refused task other db' (
      All-imp (IsLeasedBy task worker) (IsRefused task other) db'.tasks
        (λ x by_worker id.
          owner-refuses x.lease_owner other worker (is_active x.status) differs (by_worker id).1)
        (leased_rows env task worker duration r db db' unique h))

-- Once a worker has leased a task, no worker, the same one included, can lease it again in the state
-- that the lease leaves: the call ends in ErrLeaseLost. Task ids are unique.
pub lease_task-once :
    (env : Env) (task : ℕ) (worker : String) (duration : ℕ) (r : TaskRun × Option String)
    (db db' : Db)
    → UniqueIds db.tasks
    → lease_task env task worker duration db ≡ ok (r, db')
    → (env' : Env) (other : String) (again : ℕ)
    → lease_task env' task other again db' ≡ err lease_lost
lease_task-once env task worker duration r db db' unique h env' other again =
    unfold lease_task ◌>>=◌ or_fail in
    rw
      (find?-none (IsLeasedBy task worker) (can_lease task) db'.tasks (λ x by_worker. ground arith)
        (leased_rows env task worker duration r db db' unique h))
      refl
