-- ===== src/Workflow/Dag/Valid.antt =====
-- `ValidateDAG` accepts exactly the valid graphs.
use run_mesh.Base.{
  ℕ, ◌≤◌, ◌<◌, String, ◌≡◌, ◌≢◌, refl, ◌⊎◌, ◌↔◌, inl, inr, List, [], ◌∷◌, Memᴰ, true, false, ◌||◌,
  none, some, arith,
}
use run_mesh.Base.Int.{ℤ, pos, negsuc, is_negative, exceeds}
use run_mesh.Base.Tables.{All, length}
use run_mesh.Workflow.Model.{Tasks, TaskSpec, Dag, keys}
use run_mesh.Workflow.Dag.{
  Colors, Visit, done, cyclic, no_fuel, check_deps, check_task, check_tasks, count_edges, visit_all,
  validate_dag, cycle, verdict, matches_task_key,
}
use run_mesh.Workflow.Dag.Checks.{
  IsValidTask, Within, All-Mem, All-of-Mem, check_deps-eq-none, none-check_deps,
}
use run_mesh.Workflow.Dag.Cyclic.{Needs, visit_all-Needs, visit_all-acyclic}
use run_mesh.Workflow.Dag.Fuel.{visit_all-ne-no_fuel}

pub record IsValidDag (dag : Dag) : Type 0 where
  pub some_task : 0 < length dag.tasks
  pub few_tasks : length dag.tasks ≤ 500
  pub few_edges : count_edges dag.tasks ≤ 5000
  pub entries : All (λ entry. IsValidTask dag.tasks entry.0 entry.1) dag.tasks
  pub acyclic : (k : String) → ¬ Needs dag.tasks k k

Within-tests : (v : ℤ) (n : ℕ) → (is_negative v || exceeds v n) ≡ false → Within v n
Within-tests (pos m) n h = ground arith
Within-tests (negsuc m) n h = absurd (cc)

tests-Within : (v : ℤ) (n : ℕ) → Within v n → (is_negative v || exceeds v n) ≡ false
tests-Within (pos m) n h = ground arith
tests-Within (negsuc m) n h = absurd h

module _ (tasks : Tasks) (key : String) (spec : TaskSpec) where
  check_task-IsValidTask : check_task tasks key spec ≡ none → IsValidTask tasks key spec
  check_task-IsValidTask h =
      let (named, handled, attempts, timeout, deps) = passed in
      let (each, distinct) = check_deps-eq-none tasks key [] spec.depends_on deps in
      record {
        named = named;
        handled = handled;
        attempts = Within-tests spec.maximum_attempts 100 attempts;
        timeout = Within-tests spec.timeout_seconds 86400 timeout;
        known =
            All-of-Mem (λ d. (d ≢ key) × Memᴰ d (keys tasks)) spec.depends_on
              (λ d m. let p = All-Mem _ spec.depends_on d each m in (p.0, p.1));
        distinct = distinct;
      }
    where
      passed :
          (matches_task_key key ≡ true)
          × (matches_task_key spec.handler ≡ true)
          × ((is_negative spec.maximum_attempts || exceeds spec.maximum_attempts 100) ≡ false)
          × ((is_negative spec.timeout_seconds || exceeds spec.timeout_seconds 86400) ≡ false)
          × (check_deps tasks key [] spec.depends_on ≡ none)
      passed = unfold check_task in ground arith

  IsValidTask-check_task : IsValidTask tasks key spec → check_task tasks key spec ≡ none
  unfolding check_task
  IsValidTask-check_task v =
      let attempts = tests-Within spec.maximum_attempts 100 v.attempts in
      let timeout = tests-Within spec.timeout_seconds 86400 v.timeout in
      let deps =
        none-check_deps tasks key [] spec.depends_on
          (All-of-Mem (λ d. (d ≢ key) × Memᴰ d (keys tasks) × (¬ Memᴰ d [])) spec.depends_on
            (λ d m. let p = All-Mem _ spec.depends_on d v.known m in (p.0, p.1, λ s. elim s [ ])))
          v.distinct in
      let named = v.named in let handled = v.handled in rw (named, handled, attempts, timeout) deps

module _ (tasks : Tasks) where
  abbrev EntryIsValid : String × TaskSpec → Type 0
  EntryIsValid entry = IsValidTask tasks entry.0 entry.1

  check_tasks-All : (rest : Tasks) → check_tasks tasks rest ≡ none → All EntryIsValid rest
  unfolding check_tasks
  check_tasks-All [] h = tt
  check_tasks-All ((key, spec) ∷ rest) h =
      (check_task-IsValidTask tasks key spec (ground arith), check_tasks-All rest (ground arith))

  All-check_tasks : (rest : Tasks) → All EntryIsValid rest → check_tasks tasks rest ≡ none
  unfolding check_tasks
  All-check_tasks [] h = refl
  All-check_tasks ((key, spec) ∷ rest) h =
      rw (IsValidTask-check_task tasks key spec h.0) (All-check_tasks rest h.1)

Visit-cases :
    (v : Visit) → ((cs : Colors) × (v ≡ done cs)) ⊎ ((k : String) × (v ≡ cyclic k)) ⊎ (v ≡ no_fuel)
Visit-cases (done cs) = inl (cs, refl)
Visit-cases (cyclic k) = inr (inl (k, refl))
Visit-cases no_fuel = inr (inr refl)

-- The order of the checks.
abbrev Passes : Dag → Type 0
Passes dag =
    (0 < length dag.tasks)
    × (length dag.tasks ≤ 500)
    × (check_tasks dag.tasks dag.tasks ≡ none)
    × (count_edges dag.tasks ≤ 5000)
    × (verdict (visit_all dag.tasks) ≡ none)

validate_dag-Passes : (dag : Dag) → validate_dag dag ≡ none → Passes dag
unfolding validate_dag
validate_dag-Passes dag h = ground arith

Passes-validate_dag : (dag : Dag) → Passes dag → validate_dag dag ≡ none
unfolding validate_dag
Passes-validate_dag dag h = ground arith

verdict-none : (v : Visit) → verdict v ≡ none → (cs : Colors) × (v ≡ done cs)
unfolding verdict
verdict-none (done cs) h = (cs, refl)
verdict-none (cyclic k) h = absurd (cc)
verdict-none no_fuel h = absurd (cc)

acyclic-verdict :
    (tasks : Tasks) → ((k : String) → ¬ Needs tasks k k) → verdict (visit_all tasks) ≡ none
unfolding verdict
acyclic-verdict tasks h = elim (Visit-cases (visit_all tasks)) [
  | inl (cs, e) ↦ rw e
  | inr (inl (k, e)) ↦ absurd (h k (visit_all-Needs tasks k e))
  | inr (inr e) ↦ absurd (visit_all-ne-no_fuel tasks e)
]

-- A DAG is accepted exactly if it has between 1 and 500 tasks and at most 5000 edges, each task
-- satisfies the checks on its key, handler, attempts, timeout and dependencies, and no task depends
-- on itself through any chain of dependencies.
pub validate_dag_iff : (dag : Dag) → (validate_dag dag ≡ none) ↔ IsValidDag dag
validate_dag_iff dag = (accepted, accepts)
  where
    accepted : validate_dag dag ≡ none → IsValidDag dag
    accepted h =
        let (some_task, few_tasks, checked, few_edges, visited) = validate_dag-Passes dag h in
        let (cs, e) = verdict-none (visit_all dag.tasks) visited in
        record {
          some_task = some_task;
          few_tasks = few_tasks;
          few_edges = few_edges;
          entries = check_tasks-All dag.tasks dag.tasks checked;
          acyclic = visit_all-acyclic dag.tasks cs e;
        }

    accepts : IsValidDag dag → validate_dag dag ≡ none
    accepts v = Passes-validate_dag dag (
      v.some_task,
      v.few_tasks,
      All-check_tasks dag.tasks dag.tasks v.entries,
      v.few_edges,
      acyclic-verdict dag.tasks v.acyclic,
    )

module _ (tasks : Tasks) (k : String) where
  check_deps-ne-cycle :
      (key : String) (seen ds : List String) → check_deps tasks key seen ds ≢ some (cycle k)
  unfolding check_deps
  check_deps-ne-cycle key seen [] h = cc
  check_deps-ne-cycle key seen (d ∷ ds) h = ground (arith, check_deps-ne-cycle key (d ∷ seen) ds)

  check_task-ne-cycle :
      (key : String) (spec : TaskSpec) → check_task tasks key spec ≢ some (cycle k)
  unfolding check_task
  check_task-ne-cycle key spec h = ground (arith, check_deps-ne-cycle key [] spec.depends_on)

  check_tasks-ne-cycle : (rest : Tasks) → check_tasks tasks rest ≢ some (cycle k)
  unfolding check_tasks
  check_tasks-ne-cycle [] h = cc
  check_tasks-ne-cycle ((key, spec) ∷ rest) h =
      ground (arith, check_task-ne-cycle key spec, check_tasks-ne-cycle rest)

  verdict-cycle : (v : Visit) → verdict v ≡ some (cycle k) → v ≡ cyclic k
  unfolding verdict
  verdict-cycle (done cs) h = absurd (cc)
  verdict-cycle (cyclic j) h = cc
  verdict-cycle no_fuel h = absurd (cc)

-- The key that a cycle error names depends on itself, directly or through other tasks.
pub validate_dag-cycle :
    (dag : Dag) (k : String) → validate_dag dag ≡ some (cycle k) → Needs dag.tasks k k
unfolding validate_dag
validate_dag-cycle dag k h =
    let closing : verdict (visit_all dag.tasks) ≡ some (cycle k) =
      ground (arith, check_tasks-ne-cycle dag.tasks k dag.tasks) in
    visit_all-Needs dag.tasks k (verdict-cycle dag.tasks k (visit_all dag.tasks) closing)
