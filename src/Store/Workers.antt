-- ===== src/Store/Workers.antt =====
-- `WorkerHeartbeat` and `ListWorkers` of internal/storage/worker.go.
use run_mesh.Base.{ℕ, String, Bool, ◌&&◌, List, [], ◌∷◌, ◌++◌, str_eq, ◌==◌, leb, if◌then◌else◌}
use run_mesh.Base.Int.{ℤ}
use run_mesh.Base.Tables.{select, exists, update_where, order_by}
use run_mesh.Store.Db.{Db, Env, WorkerInfo}

-- PRIMARY KEY (tenant_id, worker_id)
abbrev pub same_worker : ℕ → String → WorkerInfo → Bool
same_worker tenant worker w = w.tenant_id == tenant && str_eq w.worker_id worker

-- INSERT ... ON CONFLICT(tenant_id,worker_id) DO UPDATE.
unfoldable pub worker_heartbeat : Env → ℕ → String → List String → ℤ → String → Db → Db
worker_heartbeat env tenant worker handlers active given db =
    if exists (same_worker tenant worker) db.workers
    then record db {
      workers =
          update_where (same_worker tenant worker)
            (λ w. record w {
              handlers = handlers;
              active_tasks = active;
              metadata = metadata;
              last_seen_at = env.now;
            })
            db.workers;
    }
    else record db { workers = db.workers ++ new_worker ∷ [] }
  where
    metadata : String
    metadata = if str_eq given "" then "{}" else given

    new_worker : WorkerInfo
    new_worker = record {
      tenant_id = tenant;
      worker_id = worker;
      handlers = handlers;
      active_tasks = active;
      metadata = metadata;
      last_seen_at = env.now;
    }

-- ORDER BY last_seen_at DESC
unfoldable pub list_workers : ℕ → Db → List WorkerInfo
list_workers tenant db =
    order_by (λ a b. leb b.last_seen_at a.last_seen_at)
      (select (λ w. w.tenant_id == tenant) db.workers)
