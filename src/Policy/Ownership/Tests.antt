-- ===== src/Policy/Ownership/Tests.antt =====
-- Owned paths of concrete leaves, and the theorems about ownership at them.
use codex_mission_ledger.Prelude.{◌≡◌, ◌↔◌, ◌||◌, refl, true, false, List, [], ◌∷◌, ◌==◌}
use codex_mission_ledger.Prelude.Maps.{map_of, lookup, insert}
use codex_mission_ledger.Contracts.{LeafTask}
use codex_mission_ledger.Contracts.Samples.{task}
use codex_mission_ledger.Policy.Ownership.Conflicts.{
  tasks_of, task_transitively_depends_on, visit_task,
}
use codex_mission_ledger.Policy.Ownership.Ordering.{Reaches, task_transitively_depends_on_iff}
use codex_mission_ledger.Policy.Ownership.{
  normalize_owned_path, is_below, owned_paths_overlap, owned_path_contains,
}
use codex_mission_ledger.Policy.Ownership.Safety.{owned_paths_disjoint, owned_paths_overlap_lem}

program : Unit {0}
unfolding owned_paths_overlap owned_path_contains normalize_owned_path is_below
program = tt

spellings : owned_paths_overlap "./src/core//" "src\\core\\a.ts" ≡ true
unfolding program
spellings = refl

-- A common prefix of the names is no overlap.
siblings : owned_paths_overlap "src/core" "src/core2" ≡ false
unfolding program
siblings = refl

root : owned_paths_overlap "." "docs" ≡ true
unfolding program
root = refl

owned_paths_disjoint_example : owned_path_contains "src/mcp" "src/core/a.ts" ≡ false
unfolding program
owned_paths_disjoint_example = owned_paths_disjoint "src/core" "src/mcp" "src/core/a.ts" refl refl

owned_paths_overlap_lem_example :
    owned_paths_overlap "src" "src/core"
    ≡ (owned_path_contains "src" "src/core" || owned_path_contains "src/core" "src")
owned_paths_overlap_lem_example = owned_paths_overlap_lem "src" "src/core"

abbrev tasks : List LeafTask
tasks = task "a" ("b" ∷ []) ∷ task "b" ("c" ∷ "a" ∷ []) ∷ task "c" [] ∷ []

ordered : task_transitively_depends_on tasks "a" "c" ≡ true
unfolding task_transitively_depends_on visit_task map_of lookup insert
ordered = refl

unordered : task_transitively_depends_on tasks "c" "a" ≡ false
unfolding task_transitively_depends_on visit_task map_of lookup insert
unordered = refl

task_transitively_depends_on_iff_example :
    (task_transitively_depends_on tasks "a" "c" ≡ true)
    ↔ ((("a" == "c") ≡ false) × Reaches (tasks_of tasks) "c" "a")
task_transitively_depends_on_iff_example = task_transitively_depends_on_iff tasks "a" "c"
