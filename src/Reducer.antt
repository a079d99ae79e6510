-- ===== src/Reducer.antt =====
-- src/core/reducer.ts: the response that is made of the results without a model. The walk over the
-- dependencies is on fuel, two more than there are tasks: it goes down only from a task that is new,
-- and an id that is no task has nothing below. A finding's key is its three members, where the source has
-- their JSON text.
pub mod Texts
pub mod Order
pub mod Writers
mod Tests
use Prim.Native.String.{◌++◌ as append}
use mathlib.Core.List.{flat_map}
use codex_mission_ledger.Prelude.{
  ℕ, zero, suc, ◌+◌, ◌/◌, ◌%◌, String, Bool, true, false, not, ◌&&◌, ◌||◌, Option, none, some, List,
  [], ◌∷◌, ◌++◌, map, ◌==◌,
}
use codex_mission_ledger.Prelude.Tests.{if◌then◌else◌, ltb, leb, nat_eq}
use codex_mission_ledger.Prelude.Lists.{any, all, includes, keep, length}
use codex_mission_ledger.Prelude.Maps.{Map, lookup, map_of}
use codex_mission_ledger.Prelude.Codes.{codes, codes_eq}
use codex_mission_ledger.Prelude.Text.{trim, is_empty, join}
use codex_mission_ledger.Reducer.Texts.{is_part, without_dots, decimal}
use codex_mission_ledger.Contracts.{
  LeafTask, LeafResult, ExecutionPlan, AggregationMode, Finding, FinalReview, Risk, is_completed,
  is_writer, is_failed_check,
}

-- `AgentOutcome` of a reduction: completed with a response, or failed
pub data ReducedOutcome : Type 0 where
  completed : (response : String) → ReducedOutcome
  failed : ReducedOutcome

-- `taskOrder.get(id) ?? Number.MAX_SAFE_INTEGER`; where an id stands twice the last index counts.
abbrev index_from : ℕ → List LeafTask → String → Option ℕ
index_from index [] id = none
index_from index (t ∷ ts) id = elim (index_from (suc index) ts id) [
  | some i ↦ some i
  | none ↦ if t.id == id then some index else none
]

abbrev or_max : Option ℕ → ℕ
or_max none = 9007199254740991
or_max (some i) = i

unfoldable pub order_of : List LeafTask → String → ℕ
order_of tasks id = or_max (index_from 0 tasks id)

-- The sort by the order of the plan. Results with equal order keep their places.
abbrev pub insert_by : (LeafResult → ℕ) → LeafResult → List LeafResult → List LeafResult
insert_by key leaf [] = leaf ∷ []
insert_by key leaf (l ∷ ls) =
    let rest = insert_by key leaf ls in if leb (key leaf) (key l) then leaf ∷ l ∷ ls else l ∷ rest

unfoldable pub sort_by : (LeafResult → ℕ) → List LeafResult → List LeafResult
sort_by key [] = []
sort_by key (l ∷ ls) = insert_by key l (sort_by key ls)

abbrev pub in_plan_order : ExecutionPlan → List LeafResult → List LeafResult
in_plan_order plan leaves =
    sort_by (λ l. order_of plan.tasks l.task_id) (keep (λ l. is_completed l.status) leaves)

abbrev pub gather_each :
    (List String → String → List String) → List String → List String → List String
gather_each visit visited [] = visited
gather_each visit visited (id ∷ ids) = gather_each visit (visit visited id) ids

abbrev pub dependencies_of : Option LeafTask → List String
dependencies_of none = []
dependencies_of (some task) = task.depends_on

-- `visit` of `terminalWriterTaskId`, with the set `dependencies`
unfoldable pub gather : ℕ → Map LeafTask → List String → String → List String
gather zero by_id visited id = visited
gather (suc fuel) by_id visited id =
    let below =
      gather_each (gather fuel by_id) (id ∷ visited) (dependencies_of (lookup id by_id)) in
    if includes visited id then visited else below

abbrev is_deterministic : Option AggregationMode → Bool
is_deterministic (some AggregationMode.deterministic) = true
is_deterministic _ = false

abbrev pub delivers_all : ExecutionPlan → LeafTask → Bool
delivers_all plan writer =
    let dependencies =
      gather_each (gather (length plan.tasks + 2) (map_of (λ t. t.id) plan.tasks)) []
        writer.depends_on in
    all (λ t. t.id == writer.id || includes dependencies t.id) plan.tasks

abbrev pub only_writer : ExecutionPlan → List LeafTask → Option String
only_writer plan (writer ∷ []) =
    if is_deterministic plan.integration.aggregation && delivers_all plan writer
    then some writer.id
    else none
only_writer plan _ = none

-- `terminalWriterTaskId`
unfoldable pub terminal_writer_task_id : ExecutionPlan → Option String
unfolding gather map_of
terminal_writer_task_id plan = only_writer plan (keep (λ t. is_writer t.access) plan.tasks)

abbrev pub delivered_by : Option String → List LeafResult → List LeafResult
delivered_by none leaves = leaves
delivered_by (some id) leaves = keep (λ l. l.task_id == id) leaves

-- `summaryContainsFinding`
abbrev pub summary_contains_finding : List ℕ → List ℕ → Bool
summary_contains_finding summary [] = true
summary_contains_finding summary (c ∷ cs) =
    is_part (c ∷ cs) summary
    || elim (without_dots (c ∷ cs)) [ none ↦ false | some short ↦ is_part short summary ]

abbrev same_text : Option String → Option String → Bool
same_text none none = true
same_text (some a) (some b) = a == b
same_text _ _ = false

abbrev same_line : Option ℕ → Option ℕ → Bool
same_line none none = true
same_line (some a) (some b) = nat_eq a b
same_line _ _ = false

abbrev pub same_finding : Finding → Finding → Bool
same_finding f g = same_text f.path g.path && same_line f.line g.line && f.text == g.text

abbrev pub dedupe_from : List Finding → List Finding → List Finding
dedupe_from seen [] = []
dedupe_from seen (f ∷ fs) =
    let old = any (same_finding f) seen in
    let rest = dedupe_from (if old then seen else f ∷ seen) fs in if old then rest else f ∷ rest

-- `dedupeFindings`
unfoldable pub dedupe_findings : List Finding → List Finding
dedupe_findings findings = dedupe_from [] findings

abbrev pub dedupe_texts : List String → List String → List String
dedupe_texts seen [] = []
dedupe_texts seen (s ∷ ss) =
    let old = is_empty s || includes seen s in
    let rest = dedupe_texts (if old then seen else s ∷ seen) ss in if old then rest else s ∷ rest

-- `dedupe`
unfoldable pub dedupe : List String → List String
dedupe values = dedupe_texts [] values

abbrev location : Finding → String
location f = elim f.path [
  | none ↦ ""
  | some path ↦ elim f.line [
    | none ↦ append path ": "
    | some line ↦ append path (append ":" (append (decimal line line) ": "))
  ]
]

abbrev pub finding_line : Finding → String
finding_line f = append "- " (append (location f) f.text)

abbrev ends_with_colon : List ℕ → Bool
ends_with_colon [] = false
ends_with_colon (c ∷ []) = nat_eq c b':'
ends_with_colon (c ∷ d ∷ cs) = ends_with_colon (d ∷ cs)

abbrev pub summary_line : LeafResult → String
summary_line leaf = append leaf.task_id (append ": " (trim leaf.summary))

abbrev pub summaries_of : List LeafResult → List String
summaries_of leaves = keep (λ s. not (ends_with_colon (codes s))) (map summary_line leaves)

abbrev is_told : List LeafResult → Finding → Bool
is_told leaves f =
    any (λ l. summary_contains_finding (codes (trim l.summary)) (codes (trim f.text))) leaves

abbrev pub findings_of : List LeafResult → List Finding
findings_of leaves =
    keep (λ f. not (is_told leaves f)) (dedupe_findings (flat_map (λ l. l.findings) leaves))

abbrev pub listed : String → List String → List String
listed label [] = []
listed label (v ∷ vs) = append label (join ", " (v ∷ vs)) ∷ []

abbrev pub lines_of : List LeafResult → List String
lines_of leaves =
    summaries_of leaves
    ++ map finding_line (findings_of leaves)
    ++ listed "Artifacts: " (dedupe (flat_map (λ l. map (λ a. a.path) l.artifacts) leaves))
    ++ listed "Sources: " (dedupe (flat_map (λ l. map (λ c. c.url) l.citations) leaves))

abbrev pub delivered : ExecutionPlan → List LeafResult → List LeafResult
delivered plan leaves = delivered_by (terminal_writer_task_id plan) (in_plan_order plan leaves)

-- `reduceLeafResults`
unfoldable pub reduce_leaf_results : ExecutionPlan → List LeafResult → ReducedOutcome
unfolding order_of sort_by terminal_writer_task_id dedupe dedupe_findings decimal is_part
    without_dots
reduce_leaf_results plan leaves =
    if nat_eq (length (in_plan_order plan leaves)) (length leaves)
    then completed (join "\n" (lines_of (delivered plan leaves)))
    else failed

abbrev is_low : Risk → Bool
is_low Risk.low = true
is_low _ = false

abbrev is_never : FinalReview → Bool
is_never FinalReview.never = true
is_never _ = false

abbrev is_empty_list {ℓ} : {A : Type ℓ} → List A → Bool
is_empty_list [] = true
is_empty_list (x ∷ xs) = false

-- `canAutomaticallyReduce`
unfoldable pub can_automatically_reduce : ExecutionPlan → List LeafResult → Bool
can_automatically_reduce plan leaves =
    is_low plan.risk
    && is_never plan.integration.final_review
    && nat_eq (length plan.tasks) (length leaves)
    && all
        (λ t.
          not (is_writer t.access)
          && is_empty_list t.depends_on
          && is_empty_list t.communication_with
          && not t.critical)
        plan.tasks
    && all (λ l. is_completed l.status && all (λ v. not (is_failed_check v.status)) l.validation)
        leaves
