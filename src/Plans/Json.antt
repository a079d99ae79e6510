-- ===== src/Plans/Json.antt =====
-- Values of the type `unknown` that come from `JSON.parse`. The members of an object have one entry
-- for each key. `undefined` is the absence of a member.
use codex_mission_ledger.Prelude.{
  String, Bool, true, false, Option, none, some, List, [], ◌∷◌, ◌≡◌, refl,
}
use codex_mission_ledger.Prelude.Maps.{Map}
use codex_mission_ledger.Prelude.Numbers.{Number}

mutual
  pub data Json : Type 0 where
    null : Json
    boolean : Bool → Json
    number : Number → Json
    text : String → Json
    array : Items → Json
    object : Members → Json

  pub data Items : Type 0 where
    end : Items
    item : Json → Items → Items

  pub data Members : Type 0 where
    last : Members
    member : String → Json → Members → Members

abbrev pub items_list : Items → List Json
items_list end = []
items_list (item j js) = j ∷ items_list js

abbrev pub members_map : Members → Map Json
members_map last = []
members_map (member k j ms) = (k, j) ∷ members_map ms

abbrev pub items_of : List Json → Items
items_of [] = end
items_of (j ∷ js) = item j (items_of js)

abbrev pub members_of : Map Json → Members
members_of [] = last
members_of ((k, j) ∷ ms) = member k j (members_of ms)

abbrev pub arr : List Json → Json
arr js = array (items_of js)

abbrev pub obj : Map Json → Json
obj ms = object (members_of ms)

-- `Array.isArray(input)` and the array
abbrev pub as_array : Json → Option (List Json)
as_array (array js) = some (items_list js)
as_array _ = none

-- `isRecord(input)` and the record
abbrev pub as_record : Json → Option (Map Json)
as_record (object ms) = some (members_map ms)
as_record _ = none

-- `typeof input === "string"`, `"number"` and `"boolean"`, on a member that may be absent
abbrev pub as_text : Option Json → Option String
as_text (some (text s)) = some s
as_text _ = none

abbrev pub as_number : Option Json → Option Number
as_number (some (number n)) = some n
as_number _ = none

abbrev pub as_boolean : Option Json → Option Bool
as_boolean (some (boolean b)) = some b
as_boolean _ = none

abbrev pub as_list : Option Json → Option (List Json)
as_list (some j) = as_array j
as_list none = none

abbrev pub as_object : Option Json → Option (Map Json)
as_object (some j) = as_record j
as_object none = none

abbrev pub is_null : Option Json → Bool
is_null (some null) = true
is_null _ = false

pub items_list-items_of : (js : List Json) → items_list (items_of js) ≡ js
items_list-items_of [] = refl
items_list-items_of (j ∷ js) = cc (items_list-items_of js)

pub members_map-members_of : (ms : Map Json) → members_map (members_of ms) ≡ ms
members_map-members_of [] = refl
members_map-members_of ((k, j) ∷ ms) = cc (members_map-members_of ms)
