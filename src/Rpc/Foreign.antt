-- ===== src/Rpc/Foreign.antt =====
-- The tenant checks of internal/storage/worker.go on a task of another tenant.
use run_mesh.Base.{
  ℕ, String, Bool, true, false, ◌&&◌, ◌≡◌, refl, some, List, [], ◌∷◌, arith, ◌==◌, err, not_found,
  refuse_if, or_fail, subst, Option-cases, Bool-cases, inl, inr, ||_false, ◌>>=◌,
}
use run_mesh.Base.Tables.{find?, exists}
use run_mesh.Store.Db.{Db, Env, TaskRun, Run}
use run_mesh.Store.Leases.{task_with_run, run_of}
use run_mesh.Store.DeadLetter.{active_task_lease_belongs_to_worker, belongs, tenant_of}
use run_mesh.Lifecycle.Effects.{task_with_run-eq-some}

and_false : (a b : Bool) → a ≡ true → (a && b) ≡ false → b ≡ false
and_false a b h e = ground arith

-- The task that a SELECT by id finds is not the tenant's.
foreign :
    (db : Db) (task tenant : ℕ) (xs : List TaskRun) (t : TaskRun)
    → exists (λ t. t.id == task && belongs db tenant t) xs ≡ false
    → find? (λ t. t.id == task) xs ≡ some t
    → belongs db tenant t ≡ false
unfolding exists find?
foreign db task tenant [] t h e = absurd (cc)
foreign db task tenant (x ∷ xs) t h e =
    let (here, rest) = ||_false (x.id == task && belongs db tenant x) _ h in
    elim (Bool-cases (x.id == task)) [
      | inl hit ↦
          let same : x ≡ t = ground arith in
          subst (λ y. belongs db tenant y ≡ false) same (and_false (x.id == task) _ hit here)
      | inr miss ↦ foreign db task tenant xs t rest (ground arith)
    ]

other_tenant :
    (db : Db) (tenant : ℕ) (t : TaskRun) (r : Run)
    → belongs db tenant t ≡ false
    → run_of db t.workflow_run_id ≡ some r
    → (r.tenant_id == tenant) ≡ false
unfolding tenant_of
other_tenant db tenant t r h e = ground arith

pub no_active_task :
    (env : Env) (db : Db) (task tenant : ℕ) (worker : String)
    → exists (λ t. t.id == task && belongs db tenant t) db.tasks ≡ false
    → active_task_lease_belongs_to_worker env db task tenant worker ≡ err not_found
unfolding active_task_lease_belongs_to_worker ◌>>=◌ or_fail refuse_if
no_active_task env db task tenant worker h =
    elim (Option-cases (task_with_run db (λ t. t.id == task))) [
      | inl none_found ↦ rw none_found refl
      | inr ((t, r), found) ↦
          let (row, its_run) = task_with_run-eq-some db (λ t. t.id == task) t r found in
          rw (found, other_tenant db tenant t r (foreign db task tenant db.tasks t h row) its_run)
            refl
    ]
