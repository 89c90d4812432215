-- ===== src/Workflow/Dag.antt =====
-- `ValidateDAG` of internal/workflow/dag.go.
pub mod Steps
pub mod Acyclic
pub mod Cyclic
pub mod Fuel
pub mod Checks
pub mod Valid
pub mod Errors
pub mod Examples
use Prim.Native.Char.{code}
use run_mesh.Base.{
  ℕ, zero, suc, ◌+◌, String, Bool, true, false, not, ◌&&◌, ◌||◌, Option, none, some, List, [], ◌∷◌,
  str_eq, ltb, leb, ◌==◌, is_null, if◌then◌else◌,
}
use run_mesh.Base.Int.{is_negative, exceeds}
use run_mesh.Base.Tables.{length, exists}
use run_mesh.Workflow.Model.{TaskSpec, Tasks, Dag, keys, lookup, depends_on}

abbrev pub max_tasks : ℕ
max_tasks = 500

abbrev pub max_edges : ℕ
max_edges = 5000

abbrev pub codes : String → List ℕ
codes String.[] = []
codes (String.◌∷◌ c s) = code c ∷ codes s

is_letter : ℕ → Bool
is_letter c = leb b'A' c && leb c b'Z' || leb b'a' c && leb c b'z'

is_key_char : ℕ → Bool
unfolding is_letter
is_key_char c = is_letter c || leb b'0' c && leb c b'9' || c == b'_' || c == b'.' || c == b'-'

all_key_chars : List ℕ → Bool
unfolding is_key_char
all_key_chars [] = true
all_key_chars (c ∷ cs) = is_key_char c && all_key_chars cs

matches : List ℕ → Bool
unfolding is_letter all_key_chars
matches [] = false
matches (c ∷ cs) = is_letter c && (all_key_chars cs && leb (length cs) 127)

-- `taskKeyPattern.MatchString`: ^[A-Za-z][A-Za-z0-9_.-]{0,127}$
unfoldable pub matches_task_key : String → Bool
unfolding matches
matches_task_key s = matches (codes s)

-- The first of two checks that fails.
abbrev first_error {ℓ} : {A : Type ℓ} → Option A → Option A → Option A
first_error (some e) later = some e
first_error none later = later

pub data DagError : Type 0 where
  no_tasks too_many_tasks too_many_edges : DagError
  invalid_key invalid_handler attempts_range timeout_range : String → DagError
  self_dependency : String → DagError
  missing_dependency repeated_dependency : String → String → DagError
  cycle : String → DagError
  out_of_fuel : DagError

-- The loop over `task.DependsOn`. `seen` is a set, and `none` means that no check failed.
pub check_deps : Tasks → String → List String → List String → Option DagError
check_deps tasks key seen [] = none
check_deps tasks key seen (dep ∷ deps) =
    let rest = check_deps tasks key (dep ∷ seen) deps in
    if str_eq dep key
    then some (self_dependency key)
    else if is_null (lookup dep tasks)
    then some (missing_dependency key dep)
    else if exists (λ s. str_eq s dep) seen
    then some (repeated_dependency key dep)
    else rest

-- One round of the first loop: the checks of an entry, in their order.
pub check_task : Tasks → String → TaskSpec → Option DagError
check_task tasks key spec =
    if not (matches_task_key key)
    then some (invalid_key key)
    else if not (matches_task_key spec.handler)
    then some (invalid_handler key)
    else if is_negative spec.maximum_attempts || exceeds spec.maximum_attempts 100
    then some (attempts_range key)
    else if is_negative spec.timeout_seconds || exceeds spec.timeout_seconds 86400
    then some (timeout_range key)
    else check_deps tasks key [] spec.depends_on

-- The first loop, over the entries that are left.
pub check_tasks : Tasks → Tasks → Option DagError
check_tasks tasks [] = none
check_tasks tasks ((key, spec) ∷ rest) =
    first_error (check_task tasks key spec) (check_tasks tasks rest)

-- `edges` at the end of the first loop.
pub count_edges : Tasks → ℕ
count_edges [] = 0
count_edges ((key, spec) ∷ rest) = length spec.depends_on + count_edges rest

-- `color`: the latest entry of a key counts, and a key with no entry is 0. 1 is grey, 2 is black.
abbrev pub Colors : Type 0
Colors = List (String × ℕ)

pub color : Colors → String → ℕ
color [] key = 0
color ((k, c) ∷ colors) key = if str_eq k key then c else color colors key

-- How a visit ends: with the colors, or with the key that closes a cycle.
pub data Visit : Type 0 where
  done : Colors → Visit
  cyclic : String → Visit
  no_fuel : Visit

-- The loop over a task's dependencies, which stops at the first error.
pub visit_each : (String → Colors → Visit) → List String → Colors → Visit
visit_each visit [] colors = done colors
visit_each visit (dep ∷ deps) colors = elim (visit dep colors) [
  | done colors' ↦ visit_each visit deps colors'
  | cyclic key ↦ cyclic key
  | no_fuel ↦ no_fuel
]

-- `color[key] = 2; return nil` after the loop.
pub finish : String → Visit → Visit
finish key (done colors) = done ((key, 2) ∷ colors)
finish key (cyclic k) = cyclic k
finish key no_fuel = no_fuel

-- The closure `visit`; the fuel bounds the depth of the recursion.
pub visit : Tasks → ℕ → String → Colors → Visit
visit tasks zero key colors = no_fuel
visit tasks (suc fuel) key colors =
    let deeper = visit_each (visit tasks fuel) (depends_on tasks key) ((key, 1) ∷ colors) in
    if color colors key == 1
    then cyclic key
    else if color colors key == 2
    then done colors
    else finish key deeper

-- The last loop. A visit goes at most one level deeper than there are tasks.
pub visit_all : Tasks → Visit
unfolding visit visit_each
visit_all tasks = visit_each (visit tasks (suc (length tasks))) (keys tasks) []

verdict : Visit → Option DagError
verdict (done colors) = none
verdict (cyclic key) = some (cycle key)
verdict no_fuel = some out_of_fuel

-- `none` is Go's nil error.
unfoldable pub validate_dag : Dag → Option DagError
unfolding verdict
validate_dag dag =
    if length dag.tasks == 0
    then some no_tasks
    else if ltb max_tasks (length dag.tasks)
    then some too_many_tasks
    else first_error (check_tasks dag.tasks dag.tasks) (
        if ltb max_edges (count_edges dag.tasks)
        then some too_many_edges
        else verdict (visit_all dag.tasks))
