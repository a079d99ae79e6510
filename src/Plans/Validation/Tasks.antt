-- ===== src/Plans/Validation/Tasks.antt =====
-- src/core/plan-validation.ts: what the checks on a task that is written as a JSON value say of it.
use codex_mission_ledger.Prelude.{
  ℕ, suc, ◌≡◌, refl, ap, subst, String, Bool, true, false, not, some, List, [], ◌∷◌, map, arith,
  ◌==◌,
}
use codex_mission_ledger.Prelude.Lists.{length, All}
use codex_mission_ledger.Prelude.Maps.{lookup}
use codex_mission_ledger.Prelude.Numbers.{Number}
use codex_mission_ledger.Contracts.{LeafTask, ModelTier, ReasoningEffort, TaskAccess, is_writer}
use codex_mission_ledger.Policy.Checks.{is_nil}
use codex_mission_ledger.Policy.Limits.{Result, ok, err, PolicyError, guard}
use codex_mission_ledger.Policy.Tiers.{
  tier_supports_effort, assert_tier_effort, assert_tier_assignment,
}
use codex_mission_ledger.Plans.Names.{value_of, tiers, efforts, tier_name, effort_name, access_name}
use codex_mission_ledger.Plans.Json.{
  text, items_list, items_of, members_map-members_of, items_list-items_of,
}
use codex_mission_ledger.Plans.Shape.{
  IssuePath, at_key, Issues, ◌also◌, issue_if, is_bounded_text, is_identifier, is_unit_number,
  is_workspace_relative_path,
}
use codex_mission_ledger.Plans.Shape.Tasks.{
  policy_issue, tier_effort_issues, tier_assignment_issues, task_members, owned_path_items,
  validate_owned_paths, validate_leaf_task,
}
use codex_mission_ledger.Plans.Codec.{write_list, task_entries, encode_task}
use codex_mission_ledger.Plans.Codec.Members.{also-nil, issue_if-nil}
use codex_mission_ledger.Plans.Codec.Trips.{tier_trip, effort_trip}

-- A task whose texts, effort, paths and tier are such as a plan may have.
pub record IsWellFormedTask (t : LeafTask) : Type 0 where
  pub identified : is_identifier t.id ≡ true
  pub told : is_bounded_text 8000 t.objective ≡ true
  pub supported : tier_supports_effort t.tier t.effort ≡ true
  pub owns : is_writer t.access ≡ true → is_nil t.owned_paths ≡ false
  pub safe_paths : All (λ p. is_workspace_relative_path p true ≡ true) t.owned_paths
  pub admitted :
      assert_tier_assignment t.tier (record {
        difficulty = t.difficulty;
        ambiguity = t.ambiguity;
        critical = t.critical;
        owned_path_count = length t.owned_paths;
      })
      ≡ ok tt

pub passes :
    (b : Bool) (path : IssuePath) (code : String) → issue_if (not b) path code ≡ [] → b ≡ true
passes true path code h = refl
passes false path code h = absurd cc

policy_issue-nil : (r : Result (Unit {0})) (path : IssuePath) → policy_issue r path ≡ [] → r ≡ ok tt
policy_issue-nil (ok u) path h = refl
policy_issue-nil (err e) path h = absurd cc

guard_holds : (b : Bool) (e : PolicyError) → guard b e ≡ ok tt → b ≡ true
guard_holds true e h = refl
guard_holds false e h = absurd (ground arith)

owned_paths-All :
    (ps : List String) (index : ℕ) (seen : List (List ℕ)) (path : IssuePath)
    → owned_path_items (map text ps) index seen path ≡ []
    → All (λ p. is_workspace_relative_path p true ≡ true) ps
owned_paths-All [] index seen path h = tt
owned_paths-All (p ∷ ps) index seen path h =
    let (safe, rest) = also-nil _ _ h in
    (passes _ _ _ safe, owned_paths-All ps (suc index) _ path (also-nil _ _ rest).1)

is_nil-map : (ps : List String) → is_nil (map text ps) ≡ is_nil ps
is_nil-map [] = refl
is_nil-map (p ∷ ps) = refl

writer_name : (a : TaskAccess) → is_writer a ≡ true → (access_name a == "workspaceWrite") ≡ true
writer_name TaskAccess.workspace_write h = refl
writer_name TaskAccess.read_only h = absurd cc

pub later : (first rest : Issues) → first also rest ≡ [] → rest ≡ []
later first rest h = (also-nil first rest h).1

owned_paths-formed :
    (ps : List String) (path : IssuePath) (access : TaskAccess)
    → validate_owned_paths (some (write_list text ps)) path (some (text (access_name access))) ≡ []
    → (is_writer access ≡ true → is_nil ps ≡ false)
      × All (λ p. is_workspace_relative_path p true ≡ true) ps
unfolding validate_owned_paths
owned_paths-formed ps path access h =
    let h1 = rw (items_list-items_of (map text ps)) at h in
    let (owned, rest) = also-nil _ _ h1 in
    (
      λ w.
          let none_owned = issue_if-nil _ _ _ owned in
          ground (arith, none_owned, writer_name access w, is_nil-map ps),
      owned_paths-All ps 0 [] path (later _ _ rest),
    )

effort_formed :
    (tier : ModelTier) (effort : ReasoningEffort) (path : IssuePath)
    → tier_effort_issues
        (value_of tiers (tier_name tier))
        (value_of efforts (effort_name effort))
        path
      ≡ []
    → tier_supports_effort tier effort ≡ true
unfolding assert_tier_effort
effort_formed tier effort path h =
    guard_holds _ _ (policy_issue-nil _ _ (rw (tier_trip tier, effort_trip effort) at h))

length-map_text : (ps : List String) → length (map text ps) ≡ length ps
length-map_text [] = refl
length-map_text (p ∷ ps) = ap suc (length-map_text ps)

tier_formed :
    (tier : ModelTier) (difficulty ambiguity : Number) (critical : Bool) (ps : List String)
    (path : IssuePath)
    → is_unit_number difficulty ≡ true
    → is_unit_number ambiguity ≡ true
    → tier_assignment_issues
        (value_of tiers (tier_name tier))
        (some difficulty)
        (some ambiguity)
        (some critical)
        (some (items_list (items_of (map text ps))))
        path
      ≡ []
    → assert_tier_assignment tier (record {
      difficulty = difficulty;
      ambiguity = ambiguity;
      critical = critical;
      owned_path_count = length ps;
    })
      ≡ ok tt
tier_formed tier difficulty ambiguity critical ps path d a h =
    policy_issue-nil _ path
      (rw (tier_trip tier, items_list-items_of (map text ps), length-map_text ps, d, a) at h)

task_members-IsWellFormedTask :
    (t : LeafTask) (path : IssuePath) → task_members (task_entries t) path ≡ [] → IsWellFormedTask t
unfolding lookup
task_members-IsWellFormedTask t path h =
    let h1 = later _ _ h in
    let h2 = later _ _ h1 in
    let h7 = later _ _ (later _ _ (later _ _ (later _ _ (later _ _ h2)))) in
    let h9 = later _ _ (later _ _ h7) in
    let (paths, h10) = also-nil _ _ h9 in
    let owned = owned_paths-formed t.owned_paths (at_key path "ownedPaths") t.access paths in
    let h16 = later _ _ (later _ _ (later _ _ (later _ _ (later _ _ (later _ _ h10))))) in
    let (difficult, h17) = also-nil _ _ h16 in
    let (unsure, h18) = also-nil _ _ h17 in
    let last = later _ _ (later _ _ (later _ _ h18)) in
    record {
      identified = passes _ _ _ (also-nil _ _ h1).0;
      told = passes _ _ _ (also-nil _ _ h2).0;
      supported = effort_formed t.tier t.effort (at_key path "effort") (also-nil _ _ h7).0;
      owns = owned.0;
      safe_paths = owned.1;
      admitted =
          tier_formed t.tier t.difficulty t.ambiguity t.critical t.owned_paths (at_key path "tier")
            (passes _ _ _ difficult) (passes _ _ _ unsure) last;
    }

pub validate_leaf_task-IsWellFormedTask :
    (t : LeafTask) (path : IssuePath)
    → validate_leaf_task (some (encode_task t)) path ≡ []
    → IsWellFormedTask t
unfolding validate_leaf_task encode_task
validate_leaf_task-IsWellFormedTask t path h =
    task_members-IsWellFormedTask t path
      (subst (λ ms. task_members ms path ≡ []) (members_map-members_of (task_entries t)) h)
