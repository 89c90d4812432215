-- ===== src/Workflow/Dag/Errors.antt =====
-- The errors of `ValidateDAG` of internal/workflow/dag.go.
use run_mesh.Base.{
  String, Bool, true, false, ◌≡◌, ◌≢◌, refl, Option, none, some, List, [], ◌∷◌, arith,
}
use run_mesh.Workflow.Model.{TaskSpec, Tasks, Dag}
use run_mesh.Workflow.Dag.{
  DagError, out_of_fuel, first_error, verdict, check_deps, check_task, check_tasks, Visit, done,
  cyclic, no_fuel, visit_all, validate_dag,
}
use run_mesh.Workflow.Dag.Fuel.{visit_all-ne-no_fuel}

abbrev is_fuel : Option DagError → Bool
is_fuel (some out_of_fuel) = true
is_fuel _ = false

is_fuel-check_deps :
    (tasks : Tasks) (key : String) (seen deps : List String)
    → is_fuel (check_deps tasks key seen deps) ≡ false
unfolding check_deps
is_fuel-check_deps tasks key seen [] = refl
is_fuel-check_deps tasks key seen (dep ∷ deps) =
    let rest = is_fuel-check_deps tasks key (dep ∷ seen) deps in ground arith

is_fuel-check_task :
    (tasks : Tasks) (key : String) (spec : TaskSpec) → is_fuel (check_task tasks key spec) ≡ false
unfolding check_task
is_fuel-check_task tasks key spec =
    let rest = is_fuel-check_deps tasks key [] spec.depends_on in ground arith

is_fuel-first_error :
    (a b : Option DagError)
    → is_fuel a ≡ false
    → is_fuel b ≡ false
    → is_fuel (first_error a b) ≡ false
is_fuel-first_error none b ha hb = hb
is_fuel-first_error (some e) b ha hb = ha

is_fuel-check_tasks : (tasks rest : Tasks) → is_fuel (check_tasks tasks rest) ≡ false
unfolding check_tasks
is_fuel-check_tasks tasks [] = refl
is_fuel-check_tasks tasks ((key, spec) ∷ rest) =
    is_fuel-first_error (check_task tasks key spec) (check_tasks tasks rest)
      (is_fuel-check_task tasks key spec) (is_fuel-check_tasks tasks rest)

is_fuel-verdict : (v : Visit) → v ≢ no_fuel → is_fuel (verdict v) ≡ false
unfolding verdict
is_fuel-verdict (done colors) h = refl
is_fuel-verdict (cyclic key) h = refl
is_fuel-verdict no_fuel h = absurd (h refl)

is_fuel-validate_dag : (dag : Dag) → is_fuel (validate_dag dag) ≡ false
unfolding validate_dag
is_fuel-validate_dag dag =
    let checks = is_fuel-check_tasks dag.tasks dag.tasks in
    let visits = is_fuel-verdict (visit_all dag.tasks) (visit_all-ne-no_fuel dag.tasks) in
    ground arith

-- No error of the validation is that the fuel has run out.
pub validate_dag-ne_out_of_fuel :
    (dag : Dag) (e : DagError) → validate_dag dag ≡ some e → e ≢ out_of_fuel
validate_dag-ne_out_of_fuel dag out_of_fuel h same =
    let no = is_fuel-validate_dag dag in absurd (ground arith)
validate_dag-ne_out_of_fuel dag e h same = absurd (cc)
