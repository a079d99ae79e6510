-- ===== src/Policy/Ownership/Conflicts.antt =====
-- src/core/policy.ts: which writers may run at the same time on the same files. The walk of
-- `taskTransitivelyDependsOn` is on fuel, of which the number of tasks and one is enough.
use codex_mission_ledger.Prelude.{
  ℕ, zero, suc, String, Bool, true, false, not, ◌&&◌, none, some, List, [], ◌∷◌, ◌++◌, ◌==◌,
}
use codex_mission_ledger.Prelude.Tests.{if◌then◌else◌}
use codex_mission_ledger.Prelude.Lists.{includes, length, keep}
use codex_mission_ledger.Prelude.Maps.{Map, lookup, map_of}
use codex_mission_ledger.Contracts.{LeafTask, is_writer}
use codex_mission_ledger.Policy.Ownership.{owned_paths_overlap}

pub record OwnedPathConflict : Type 0 where
  pub left_task_id : String
  pub right_task_id : String
  pub left_path : String
  pub right_path : String

abbrev pub conflicts_at : LeafTask → LeafTask → String → List String → List OwnedPathConflict
conflicts_at left right left_path [] = []
conflicts_at left right left_path (right_path ∷ paths) =
    let rest = conflicts_at left right left_path paths in
    if owned_paths_overlap left_path right_path
    then record {
      left_task_id = left.id;
      right_task_id = right.id;
      left_path = left_path;
      right_path = right_path;
    }
      ∷ rest
    else rest

abbrev pub conflicts_between : LeafTask → LeafTask → List String → List OwnedPathConflict
conflicts_between left right [] = []
conflicts_between left right (path ∷ paths) =
    conflicts_at left right path right.owned_paths ++ conflicts_between left right paths

abbrev pub conflicts_of : LeafTask → List LeafTask → List OwnedPathConflict
conflicts_of left [] = []
conflicts_of left (right ∷ rights) =
    conflicts_between left right left.owned_paths ++ conflicts_of left rights

abbrev pub conflicts_among : List LeafTask → List OwnedPathConflict
conflicts_among [] = []
conflicts_among (left ∷ rights) = conflicts_of left rights ++ conflicts_among rights

-- `findOwnedPathConflicts`
abbrev pub find_owned_path_conflicts : List LeafTask → List OwnedPathConflict
find_owned_path_conflicts tasks = conflicts_among (keep (λ t. is_writer t.access) tasks)

-- `ids.some(visit)`, with the set `visited` that the visits share
abbrev pub visit_any :
    (List String → String → Bool × List String) → List String → List String → Bool × List String
visit_any visit visited [] = (false, visited)
visit_any visit visited (id ∷ ids) =
    let answer = visit visited id in
    let rest = visit_any visit answer.1 ids in if answer.0 then answer else rest

-- `visit` of `taskTransitivelyDependsOn`
unfoldable pub visit_task : ℕ → Map LeafTask → String → List String → String → Bool × List String
visit_task zero by_id dependency visited id = (false, visited)
visit_task (suc fuel) by_id dependency visited id =
    let below = visit_task fuel by_id dependency in
    if id == dependency
    then (true, visited)
    else if includes visited id
    then (false, visited)
    else elim (lookup id by_id) [
      | none ↦ (false, id ∷ visited)
      | some task ↦ visit_any below (id ∷ visited) task.depends_on
    ]

abbrev pub tasks_of : List LeafTask → Map LeafTask
tasks_of = map_of (λ t. t.id)

unfoldable pub task_transitively_depends_on : List LeafTask → String → String → Bool
unfolding visit_task
task_transitively_depends_on tasks task_id dependency =
    not (task_id == dependency)
    && (visit_task (suc (length tasks)) (tasks_of tasks) dependency [] task_id).0

abbrev pub same_answer : Bool → Bool → Bool
same_answer true b = b
same_answer false b = not b

-- `findConcurrentOwnedPathConflicts`
unfoldable pub find_concurrent_owned_path_conflicts : List LeafTask → List OwnedPathConflict
find_concurrent_owned_path_conflicts tasks =
    keep
      (λ c.
        same_answer (task_transitively_depends_on tasks c.left_task_id c.right_task_id)
          (task_transitively_depends_on tasks c.right_task_id c.left_task_id))
      (find_owned_path_conflicts tasks)
