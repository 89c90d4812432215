-- ===== src/Store/Examples.antt =====
-- Calls of the store at concrete databases.
use run_mesh.Base.{
  ◌+◌, String, Bool, true, false, none, some, List, [], ◌∷◌, ◌≡◌, refl, Result, ok, err, ◌>>=◌,
  refuse_if, or_fail,
}
use run_mesh.Base.Int.{pos}
use run_mesh.Base.Tables.{find?, exists}
use run_mesh.Workflow.Model.{TaskSpec, with_defaults}
use run_mesh.Store.Db.{Db, Env, Run, empty_db, insert_event, insert_audit}
use run_mesh.Store.CreateRun.{
  create_run, input_uri, insert_run, attach_input, insert_tasks, insert_dependencies,
  insert_upstreams, insert_dependency, assign_ids, id_of, new_task, new_run,
}
use run_mesh.Store.Idempotency.{create_run-idempotent}

abbrev pub clock : Env
clock = record { now = 100; clock = 100; trace_parent = ""; new_uuid = λ n. 1000 + n }

abbrev spec : List String → TaskSpec
spec deps = record {
  handler = "run";
  depends_on = deps;
  maximum_attempts = pos 3;
  timeout_seconds = pos 60;
  priority = pos 0;
}

abbrev pub library : Db
library = record empty_db {
  definitions =
      record {
        id = 5;
        tenant_id = 7;
        name = "etl";
        version = 1;
        dag = record { name = "etl"; tasks = ("a", spec []) ∷ ("b", spec ("a" ∷ [])) ∷ [] };
        created_at = 1;
      }
      ∷ [];
}

abbrev pub run_after : Result ((Run × Bool) × Db) → Run
run_after (ok ((run, created), db)) = run
run_after (err e) = new_run clock empty_db 0 0 0 "" none ""

abbrev pub db_after : Result ((Run × Bool) × Db) → Db
db_after (ok (found, db)) = db
db_after (err e) = empty_db

abbrev pub first : Result ((Run × Bool) × Db)
first = create_run clock 7 none 5 "k" "" none library

pub created_example :
    create_run clock 7 none 5 "k" "" none library ≡ ok ((run_after first, true), db_after first)
unfolding create_run insert_run input_uri attach_input insert_tasks insert_dependencies
    insert_upstreams insert_dependency assign_ids id_of new_task with_defaults find? exists
    refuse_if or_fail ◌>>=◌ insert_event insert_audit
created_example = refl

create_run-idempotent_example :
    create_run clock 7 (some 3) 5 "k" "[]" none (db_after first)
    ≡ ok ((run_after first, false), db_after first)
create_run-idempotent_example =
    create_run-idempotent clock clock 7 none (some 3) 5 "k" "" "[]" none (run_after first) true
      library (db_after first) created_example
