-- ===== src/Workflow/Model.antt =====
-- internal/workflow/model.go, and `WithDefaults` of internal/workflow/dag.go.
use run_mesh.Base.{
  String, Option, none, some, List, [], ◌∷◌, map, str_eq, eq_iff, arith, ◌≡◌, ◌≢◌, if◌then◌else◌,
}
use run_mesh.Base.Int.{ℤ, pos, is_zero}

pub record TaskSpec : Type 0 where
  pub handler : String
  pub depends_on : List String
  pub maximum_attempts : ℤ
  pub timeout_seconds : ℤ
  pub priority : ℤ

-- `map[string]TaskSpec`: the entries in the order in which one run of the program ranges over them.
abbrev pub Tasks : Type 0
Tasks = List (String × TaskSpec)

pub record Dag : Type 0 where
  pub name : String
  pub tasks : Tasks

abbrev pub keys : Tasks → List String
keys = map (λ entry. entry.0)

-- `dag.Tasks[key]` with its `ok`.
unfoldable pub lookup : String → Tasks → Option TaskSpec
lookup key [] = none
lookup key ((k, spec) ∷ rest) = if str_eq k key then some spec else lookup key rest

abbrev pub dependencies_of : Option TaskSpec → List String
dependencies_of none = []
dependencies_of (some spec) = spec.depends_on

-- `dag.Tasks[key].DependsOn`, empty for a missing key.
abbrev pub depends_on : Tasks → String → List String
depends_on tasks key = dependencies_of (lookup key tasks)

pub lookup-cons_ne :
    (j k : String) (spec : TaskSpec) (tasks : Tasks)
    → j ≢ k
    → lookup k ((j, spec) ∷ tasks) ≡ lookup k tasks
unfolding lookup
lookup-cons_ne j k spec tasks h = ground (arith, eq_iff j k)

unfoldable pub with_defaults : TaskSpec → TaskSpec
with_defaults spec = record spec {
  maximum_attempts = if is_zero spec.maximum_attempts then pos 3 else spec.maximum_attempts;
  timeout_seconds = if is_zero spec.timeout_seconds then pos 300 else spec.timeout_seconds;
}
