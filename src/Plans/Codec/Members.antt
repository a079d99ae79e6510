-- ===== src/Plans/Codec/Members.antt =====
-- src/core/plan-validation.ts: a member that a check admits has the type that the check names.
use codex_mission_ledger.Prelude.{
  ℕ, ◌≡◌, refl, String, Bool, true, false, not, Option, none, some, List, [], ◌∷◌, ◌++◌, ◌==◌, inl,
  inr, arith,
}
use codex_mission_ledger.Prelude.Tests.{is_some, Option-cases, Bool-cases}
use codex_mission_ledger.Prelude.Lists.{includes}
use codex_mission_ledger.Prelude.Maps.{Map}
use codex_mission_ledger.Plans.Names.{names, value_of, value_of_member}
use codex_mission_ledger.Plans.Json.{Json, as_text, as_list, as_object}
use codex_mission_ledger.Plans.Shape.{
  IssuePath, at_index, Issues, issue_if, satisfies, is_bounded_text, if_present, ◌also◌,
  string_items, validate_string_array, validate_enum, is_workspace_relative_path,
}
use codex_mission_ledger.Plans.Shape.Tasks.{
  each_item, with_record, with_items, owned_path_items, validate_owned_paths,
}
use codex_mission_ledger.Plans.Codec.{◌>>=◌, optional, read_all, read_list, read_value}

-- The value is there.
pub record Decodes {ℓ} {A : Type ℓ} (o : Option A) : Type 0 where
  pub reads : is_some o ≡ true

pub append-nil {ℓ} : {A : Type ℓ} (xs ys : List A) → xs ++ ys ≡ [] → (xs ≡ []) × (ys ≡ [])
append-nil [] ys h = (refl, h)
append-nil (x ∷ xs) ys h = absurd cc

pub issue_if-nil :
    (b : Bool) (path : IssuePath) (code : String) → issue_if b path code ≡ [] → b ≡ false
issue_if-nil true path code h = absurd cc
issue_if-nil false path code h = refl

-- One check and the member that it admits, before the checks and members that follow.
pub also-nil : (first rest : Issues) → first also rest ≡ [] → (first ≡ []) × (rest ≡ [])
unfolding ◌also◌
also-nil = append-nil

pub then-Decodes {ℓ κ} :
    {A : Type ℓ} {B : Type κ} (o : Option A) (f : A → Option B) (first rest : Issues)
    → first also rest ≡ []
    → (first ≡ [] → Decodes o)
    → (rest ≡ [] → (a : A) → Decodes (f a))
    → Decodes (o >>= f)
then-Decodes none f first rest h member next =
    absurd (ground (arith, (member (also-nil first rest h).0).reads))
then-Decodes (some a) f first rest h member next = next (also-nil first rest h).1 a

pub last-Decodes {ℓ κ} :
    {A : Type ℓ} {B : Type κ} (o : Option A) (f : A → Option B)
    → Decodes o
    → ((a : A) → Decodes (f a))
    → Decodes (o >>= f)
last-Decodes none f h next = absurd (ground (arith, h.reads))
last-Decodes (some a) f h next = next a

pub found {ℓ} : {A : Type ℓ} (a : A) → Decodes (some a)
found a = record { reads = refl }

pub satisfies-Decodes {ℓ} :
    {A : Type ℓ} (test : A → Bool) (o : Option A) (path : IssuePath) (code : String)
    → issue_if (not (satisfies test o)) path code ≡ []
    → Decodes o
satisfies-Decodes test none path code h = absurd cc
satisfies-Decodes test (some a) path code h = found a

pub is_some-Decodes {ℓ} :
    {A : Type ℓ} (o : Option A) (path : IssuePath) (code : String)
    → issue_if (not (is_some o)) path code ≡ []
    → Decodes o
is_some-Decodes none path code h = absurd cc
is_some-Decodes (some a) path code h = found a

pub value_of-Decodes {ℓ} :
    {A : Type ℓ} (table : List (String × A)) (s : String)
    → includes (names table) s ≡ true
    → Decodes (value_of table s)
value_of-Decodes [] s h = absurd cc
value_of-Decodes ((name, a) ∷ rest) s h = elim (Bool-cases (name == s)) [
  | inl same ↦ record { reads = ground (arith, same) }
  | inr other ↦ record {
    reads = ground (arith, other, (value_of-Decodes rest s (ground (arith, other, h))).reads);
  }
]

text_value-Decodes {ℓ} :
    {A : Type ℓ} (table : List (String × A)) (o : Option String) (path : IssuePath)
    → issue_if (not (satisfies (includes (names table)) o)) path "enum" ≡ []
    → Decodes (value_of_member table o)
text_value-Decodes table none path h = absurd cc
text_value-Decodes table (some s) path h = value_of-Decodes table s (ground arith)

pub enum-Decodes {ℓ} :
    {A : Type ℓ} (table : List (String × A)) (input : Option Json) (path : IssuePath)
    → validate_enum input (names table) path ≡ []
    → Decodes (read_value table input)
enum-Decodes table input path h = text_value-Decodes table (as_text input) path h

pub optional-Decodes {ℓ} :
    {A : Type ℓ} (read : Option Json → Option A) (check : Option Json → Issues)
    (input : Option Json)
    → if_present input check ≡ []
    → ((j : Json) → check (some j) ≡ [] → Decodes (read (some j)))
    → Decodes (optional read input)
optional-Decodes read check none h each = found none
optional-Decodes read check (some j) h each = elim (Option-cases (read (some j))) [
  | inl gone ↦ absurd (ground (arith, gone, (each j h).reads))
  | inr (a, e) ↦ record { reads = ground (arith, e) }
]

-- An optional member whose value is one of a table.
pub optional_enum-Decodes {ℓ} :
    {A : Type ℓ} (table : List (String × A)) (input : Option Json) (path : IssuePath)
    → if_present input (λ v. validate_enum v (names table) path) ≡ []
    → Decodes (optional (read_value table) input)
optional_enum-Decodes table input path h =
    optional-Decodes (read_value table) (λ v. validate_enum v (names table) path) input h
      (λ j. enum-Decodes table (some j) path)

pub string_items-Decodes :
    (js : List Json) (index : ℕ) (seen : List String) (path : IssuePath) (most : ℕ)
    → string_items js index seen path most ≡ []
    → Decodes (read_all as_text js)
string_items-Decodes [] index seen path most h = found []
string_items-Decodes (j ∷ js) index seen path most h =
    then-Decodes (as_text (some j)) (λ a. read_all as_text js >>= λ rest. some (a ∷ rest)) _ _ h
      (satisfies-Decodes (is_bounded_text most) _ (at_index path index) "text")
      λ h2 s.
        last-Decodes (read_all as_text js) _
          (string_items-Decodes js _ _ path most (also-nil _ _ h2).1) λ rest. found _

pub each_item-Decodes {ℓ} :
    {A : Type ℓ} (read : Option Json → Option A) (check : Json → IssuePath → Issues)
    → ((j : Json) (at : IssuePath) → check j at ≡ [] → Decodes (read (some j)))
    → (js : List Json) (index : ℕ) (path : IssuePath) → each_item check js index path ≡ []
    → Decodes (read_all read js)
each_item-Decodes read check each [] index path h = found []
each_item-Decodes read check each (j ∷ js) index path h =
    then-Decodes (read (some j)) (λ a. read_all read js >>= λ rest. some (a ∷ rest)) _ _ h
      (each j _)
      λ h2 a.
        last-Decodes (read_all read js) _ (each_item-Decodes read check each js _ path h2)
          λ rest. found _

pub list-Decodes {ℓ} :
    {A : Type ℓ} (read : Option Json → Option A) (input : Option Json) (js : List Json)
    → as_list input ≡ some js
    → Decodes (read_all read js)
    → Decodes (read_list read input)
list-Decodes read input js e h = record { reads = ground (arith, e, h.reads) }

pub string_array-Decodes :
    (input : Option Json) (path : IssuePath) (least count most : ℕ)
    → validate_string_array input path least count most ≡ []
    → Decodes (read_list as_text input)
unfolding validate_string_array
string_array-Decodes input path least count most h = elim (Option-cases (as_list input)) [
  | inl gone ↦ absurd (ground (arith, gone, h))
  | inr (js, e) ↦
      let items = also-nil _ _ (rw (e, validate_string_array) at h) in
      list-Decodes as_text input js e
        (string_items-Decodes js 0 [] path most (also-nil _ _ items.1).1)
]

pub with_items-Decodes {ℓ} :
    {A : Type ℓ} (read : Option Json → Option A) (most : ℕ) (check : Json → IssuePath → Issues)
    → ((j : Json) (at : IssuePath) → check j at ≡ [] → Decodes (read (some j)))
    → (input : Option Json) (path : IssuePath) → with_items most check input path ≡ []
    → Decodes (read_list read input)
with_items-Decodes read most check each input path h = elim (Option-cases (as_list input)) [
  | inl gone ↦ absurd (ground (arith, gone, h))
  | inr (js, e) ↦
      list-Decodes read input js e
        (each_item-Decodes read check each js 0 path (also-nil _ _ (rw (e, with_items) at h)).1)
]

-- A check of the members, then the members.
pub with_record-Decodes {ℓ} :
    {A : Type ℓ} (check : Map Json → IssuePath → Issues) (read : Map Json → Option A)
    → ((ms : Map Json) (path : IssuePath) → check ms path ≡ [] → Decodes (read ms))
    → (input : Option Json) (path : IssuePath) → with_record check input path ≡ []
    → Decodes (as_object input >>= read)
with_record-Decodes check read each input path h = elim (Option-cases (as_object input)) [
  | inl gone ↦ absurd (ground (arith, gone, h))
  | inr (ms, e) ↦ record {
    reads = ground (arith, e, (each ms path (rw (e, with_record) at h)).reads);
  }
]

pub owned_path_items-Decodes :
    (js : List Json) (index : ℕ) (seen : List (List ℕ)) (path : IssuePath)
    → owned_path_items js index seen path ≡ []
    → Decodes (read_all as_text js)
owned_path_items-Decodes [] index seen path h = found []
owned_path_items-Decodes (j ∷ js) index seen path h =
    then-Decodes (as_text (some j)) (λ a. read_all as_text js >>= λ rest. some (a ∷ rest)) _ _ h
      (satisfies-Decodes (λ s. is_workspace_relative_path s true) _ (at_index path index)
        "unsafe_path")
      λ h2 s.
        last-Decodes (read_all as_text js) _
          (owned_path_items-Decodes js _ _ path (also-nil _ _ h2).1) λ rest. found _

pub owned_paths-Decodes :
    (input : Option Json) (path : IssuePath) (access : Option Json)
    → validate_owned_paths input path access ≡ []
    → Decodes (read_list as_text input)
unfolding validate_owned_paths
owned_paths-Decodes input path access h = elim (Option-cases (as_list input)) [
  | inl gone ↦ absurd (ground (arith, gone, h))
  | inr (js, e) ↦
      let items = also-nil _ _ (rw (e, validate_owned_paths) at h) in
      list-Decodes as_text input js e
        (owned_path_items-Decodes js 0 [] path (also-nil _ _ items.1).1)
]
