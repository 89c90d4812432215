-- ===== src/Workflow/Dag/Examples.antt =====
-- Small DAGs and delays: runs at concrete inputs.
use run_mesh.Base.{String, ◌≡◌, ◌≢◌, ◌↔◌, refl, some, none, List, [], ◌∷◌}
use run_mesh.Base.Int.{pos}
use run_mesh.Base.Tables.{exists}
use run_mesh.Workflow.Model.{TaskSpec, Tasks, Dag, lookup}
use run_mesh.Workflow.Dag.{
  validate_dag, cycle, no_fuel, visit_all, matches_task_key, check_tasks, check_task, check_deps,
  count_edges, visit, visit_each, verdict, finish, color, matches, is_letter, all_key_chars,
  is_key_char,
}
use run_mesh.Workflow.Dag.Cyclic.{Needs}
use run_mesh.Workflow.Dag.Fuel.{visit_all-ne-no_fuel}
use run_mesh.Workflow.Dag.Valid.{IsValidDag, validate_dag_iff, validate_dag-cycle}

abbrev spec : List String → TaskSpec
spec deps = record {
  handler = "run";
  depends_on = deps;
  maximum_attempts = pos 3;
  timeout_seconds = pos 60;
  priority = pos 0;
}

-- Each of the two tasks depends on the other.
abbrev ring : Tasks
ring = ("a", spec ("b" ∷ [])) ∷ ("b", spec ("a" ∷ [])) ∷ []

abbrev ring_dag : Dag
ring_dag = record { name = "ring"; tasks = ring }

abbrev chain_dag : Dag
chain_dag = record { name = "chain"; tasks = ("a", spec []) ∷ ("b", spec ("a" ∷ [])) ∷ [] }

ring_found : validate_dag ring_dag ≡ some (cycle "a")
unfolding validate_dag check_tasks check_task check_deps count_edges visit_all visit visit_each
    verdict finish color lookup exists matches_task_key matches is_letter all_key_chars is_key_char
ring_found = refl

validate_dag-cycle_example : Needs ring "a" "a"
validate_dag-cycle_example = validate_dag-cycle ring_dag "a" ring_found

validate_dag_iff_example : (validate_dag chain_dag ≡ none) ↔ IsValidDag chain_dag
validate_dag_iff_example = validate_dag_iff chain_dag

visit_all-ne-no_fuel_example : visit_all ring ≢ no_fuel
visit_all-ne-no_fuel_example = visit_all-ne-no_fuel ring
