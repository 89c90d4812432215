-- ===== src/Rpc/Examples.antt =====
-- A caller of another tenant, at a concrete database.
use run_mesh.Base.{none, some, [], ◌∷◌, ◌≡◌, refl, false, ◌&&◌, ◌==◌}
use run_mesh.Base.Int.{pos}
use run_mesh.Base.Tables.{exists, find?}
use run_mesh.Workflow.State.{RunStatus, dispatching}
use run_mesh.Store.Db.{Db, Env, empty_db}
use run_mesh.Store.Leases.{run_of}
use run_mesh.Store.DeadLetter.{belongs, tenant_of}
use run_mesh.Auth.Authenticate.{Principal}
use run_mesh.Worker.Examples.{runtime}
use run_mesh.Rpc.Transports.{IsSame, calls-IsSame}
use run_mesh.Rpc.Tenants.{IsHidden, foreign-IsHidden}

-- Task 10 of a run of tenant 7.
abbrev shared : Db
shared = record empty_db {
  runs =
      record {
        id = 1;
        tenant_id = 7;
        workflow_definition_id = 5;
        workflow_version = 1;
        status = RunStatus.running;
        input = "{}";
        input_artifact_uri = none;
        idempotency_key = "k";
        trace_parent = "";
        started_at = some 10;
        completed_at = none;
        created_at = 10;
      }
      ∷ [];
  tasks =
      record {
        id = 10;
        workflow_run_id = 1;
        task_key = "extract";
        handler = "etl";
        status = dispatching;
        priority = pos 0;
        available_at = 50;
        attempt_count = 0;
        maximum_attempts = 3;
        timeout_seconds = 300;
        lease_owner = none;
        lease_expires_at = none;
        input = "{}";
        output = none;
        output_artifact_uri = none;
        created_at = 10;
        updated_at = 10;
      }
      ∷ [];
}

abbrev stranger : Principal
stranger = record {
  tenant_id = 8;
  user_id = none;
  role = "viewer";
  kind = "api_key";
  scopes = "workers:execute" ∷ [];
}

not_owned : exists (λ t. t.id == 10 && belongs shared 8 t) shared.tasks ≡ false
unfolding exists tenant_of run_of find?
not_owned = refl

foreign-IsHidden_example : IsHidden runtime stranger 10 shared
foreign-IsHidden_example = foreign-IsHidden runtime shared stranger 10 not_owned

abbrev noon : Env
noon = record { now = 60; clock = 60; trace_parent = ""; new_uuid = λ n. n }

calls-IsSame_example : IsSame runtime stranger 10 "w1" noon shared
calls-IsSame_example = calls-IsSame runtime stranger 10 "w1" noon shared refl
