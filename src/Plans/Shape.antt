-- ===== src/Plans/Shape.antt =====
-- src/core/plan-validation.ts: the checks on single members of a plan. Each gives the issues that it
-- adds, in their order. The messages of issues are left out.
pub mod Tasks
use codex_mission_ledger.Prelude.{
  ℕ, suc, ◌+◌, String, Bool, true, false, not, ◌&&◌, ◌||◌, Option, none, some, List, [], ◌∷◌, ◌++◌,
  map, ◌==◌,
}
use codex_mission_ledger.Prelude.Tests.{if◌then◌else◌, ltb, leb, nat_eq, is_some}
use codex_mission_ledger.Prelude.Lists.{any, all, includes, length}
use codex_mission_ledger.Prelude.Maps.{Map, lookup}
use codex_mission_ledger.Prelude.Numbers.{Number, pos, is_finite, is_integer, num_lt, num_le}
use codex_mission_ledger.Prelude.Text.{trim, is_empty}
use codex_mission_ledger.Prelude.Codes.{codes}
use codex_mission_ledger.Policy.Ownership.{drop_dot, drop_slashes}
use codex_mission_ledger.Plans.Json.{
  Json, null, boolean, number, text, array, object, items_list, members_map, as_array, as_record,
  as_text, as_number, as_list, as_object,
}

-- `$`, `$.effectivePlan`, `${path}.${key}` and `${path}[${index}]`
pub data IssuePath : Type 0 where
  root effective : IssuePath
  at_key : IssuePath → String → IssuePath
  at_index : IssuePath → ℕ → IssuePath

pub record PlanValidationIssue : Type 0 where
  pub path : IssuePath
  pub code : String

abbrev pub Issues : Type 0
Issues = List PlanValidationIssue

-- The issues of one check, then those of the checks after it.
infixr 5 ◌also◌
unfoldable pub ◌also◌ : Issues → Issues → Issues
first also rest = first ++ rest

-- `issue(issues, path, code, …)` under a condition
abbrev pub issue_if : Bool → IssuePath → String → Issues
issue_if true path code = record { path = path; code = code } ∷ []
issue_if false path code = []

-- The number of UTF-16 units; a code point above 65535 has two.
abbrev units : List ℕ → ℕ
units [] = 0
units (c ∷ cs) = (if leb 65536 c then 2 else 1) + units cs

-- `input.length` of a string
abbrev pub text_length : String → ℕ
text_length s = units (codes s)

abbrev pub has_code : ℕ → String → Bool
has_code c s = any (λ d. nat_eq d c) (codes s)

-- A text that is not blank, not too long and without a null character.
abbrev pub is_bounded_text : ℕ → String → Bool
is_bounded_text max_length s =
    not (is_empty (trim s)) && leb (text_length s) max_length && not (has_code 0 s)

abbrev pub satisfies {ℓ} : {A : Type ℓ} → (A → Bool) → Option A → Bool
satisfies test none = false
satisfies test (some a) = test a

-- `validateText`
abbrev pub validate_text : Option Json → IssuePath → ℕ → Issues
validate_text input path max_length =
    issue_if (not (satisfies (is_bounded_text max_length) (as_text input))) path "text"

abbrev is_letter_or_digit : ℕ → Bool
is_letter_or_digit c =
    (leb b'a' c && leb c b'z') || (leb b'A' c && leb c b'Z') || (leb b'0' c && leb c b'9')

abbrev is_identifier_code : ℕ → Bool
is_identifier_code c =
    is_letter_or_digit c || nat_eq c b'.' || nat_eq c b'_' || nat_eq c b':' || nat_eq c b'-'

abbrev matches_identifier : List ℕ → Bool
matches_identifier [] = false
matches_identifier (c ∷ cs) = is_letter_or_digit c && all is_identifier_code cs

abbrev pub is_identifier : String → Bool
is_identifier s = leb (text_length s) 128 && matches_identifier (codes s)

-- `validateIdentifier`
abbrev pub validate_identifier : Option Json → IssuePath → Issues
validate_identifier input path =
    issue_if (not (satisfies is_identifier (as_text input))) path "identifier"

-- `validateEnum`
abbrev pub validate_enum : Option Json → List String → IssuePath → Issues
validate_enum input values path =
    issue_if (not (satisfies (includes values) (as_text input))) path "enum"

abbrev pub is_positive_number : Number → Bool
is_positive_number n = is_finite n && not (num_le n (pos 0))

abbrev pub is_unit_number : Number → Bool
is_unit_number n = is_finite n && not (num_lt n (pos 0)) && not (num_lt (pos 1000000) n)

abbrev pub is_non_negative_number : Number → Bool
is_non_negative_number n = is_finite n && not (num_lt n (pos 0))

abbrev pub validate_positive_number : Option Json → IssuePath → Issues
validate_positive_number input path =
    issue_if (not (satisfies is_positive_number (as_number input))) path "number"

abbrev pub validate_unit_number : Option Json → IssuePath → Issues
validate_unit_number input path =
    issue_if (not (satisfies is_unit_number (as_number input))) path "number"

abbrev pub validate_non_negative_number : Option Json → IssuePath → Issues
validate_non_negative_number input path =
    issue_if (not (satisfies is_non_negative_number (as_number input))) path "number"

-- `rejectUnknownKeys`
abbrev pub reject_unknown_keys : Map Json → List String → IssuePath → Issues
reject_unknown_keys [] allowed path = []
reject_unknown_keys ((k, j) ∷ input) allowed path =
    issue_if (not (includes allowed k)) (at_key path k) "unknown_property"
    also reject_unknown_keys input allowed path

-- A check on a member that may be absent.
abbrev pub if_present : Option Json → (Option Json → Issues) → Issues
if_present none check = []
if_present (some j) check = check (some j)

abbrev pub and_seen : Option String → List String → List String
and_seen none seen = seen
and_seen (some s) seen = s ∷ seen

-- The loop of `validateStringArray`, from an index on; what is refused does not count as seen.
abbrev pub string_items : List Json → ℕ → List String → IssuePath → ℕ → Issues
string_items [] index seen path max_length = []
string_items (j ∷ js) index seen path max_length =
    let s = as_text (some j) in
    let good = satisfies (is_bounded_text max_length) s in
    issue_if (not good) (at_index path index) "text"
    also issue_if (good && satisfies (includes seen) s) (at_index path index) "duplicate"
    also string_items js (suc index) (if good then and_seen s seen else seen) path max_length

-- `validateStringArray`
unfoldable pub validate_string_array : Option Json → IssuePath → ℕ → ℕ → ℕ → Issues
validate_string_array input path min_items max_items max_length = elim (as_list input) [
  | none ↦ issue_if true path "type"
  | some js ↦
      issue_if (ltb (length js) min_items) path "minimum"
      also issue_if (ltb max_items (length js)) path "maximum"
      also string_items js 0 [] path max_length
]

-- The parts of `path.split("/")`
abbrev split_cons : ℕ → List (List ℕ) → List (List ℕ)
split_cons c [] = (c ∷ []) ∷ []
split_cons c (part ∷ parts) = if nat_eq c b'/' then [] ∷ part ∷ parts else (c ∷ part) ∷ parts

unfoldable pub split_slashes : List ℕ → List (List ℕ)
split_slashes [] = [] ∷ []
split_slashes (c ∷ cs) = split_cons c (split_slashes cs)

abbrev is_step : List ℕ → Bool
is_step [] = false
is_step (a ∷ []) = not (nat_eq a b'.')
is_step (a ∷ b ∷ []) = not (nat_eq a b'.' && nat_eq b b'.')
is_step _ = true

abbrev is_glob_code : ℕ → Bool
is_glob_code c =
    nat_eq c b'*'
    || nat_eq c b'?'
    || nat_eq c b'['
    || nat_eq c b']'
    || nat_eq c b'{'
    || nat_eq c b'}'

abbrev has_drive : List ℕ → Bool
has_drive (c ∷ d ∷ cs) = ((leb b'a' c && leb c b'z') || (leb b'A' c && leb c b'Z')) && nat_eq d b':'
has_drive _ = false

abbrev starts_outside : List ℕ → Bool
starts_outside [] = true
starts_outside (c ∷ cs) = nat_eq c b'/' || nat_eq c b'~'

abbrev is_dot : List ℕ → Bool
is_dot (c ∷ []) = nat_eq c b'.'
is_dot _ = false

abbrev pub is_relative_path : List ℕ → Bool → Bool
is_relative_path path allow_dot =
    if ltb 2000 (length path)
      || any (λ c. nat_eq c 0 || nat_eq c b'\\' || is_glob_code c) path
      || starts_outside path
      || has_drive path
    then false
    else if allow_dot && is_dot path
    then true
    else all is_step (split_slashes (drop_slashes (drop_dot path)))

-- `isWorkspaceRelativePath`
unfoldable pub is_workspace_relative_path : String → Bool → Bool
unfolding codes split_slashes drop_dot drop_slashes
is_workspace_relative_path path allow_dot = is_relative_path (codes path) allow_dot

-- `path.replace(/^\.\//, "").replace(/\/+$/, "")`
unfoldable pub trimmed_path : String → List ℕ
unfolding codes drop_dot drop_slashes
trimmed_path path = drop_slashes (drop_dot (codes path))
