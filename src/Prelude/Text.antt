-- ===== src/Prelude/Text.antt =====
-- The string methods that the source uses, on the native strings.
use Prim.Native.Char.{code}
use Prim.Native.Nat.{ℕ}
use Prim.Native.String.{String, [], ◌∷◌, ◌++◌, compare}
use text.Mathlib.Text.{is_lt}
use mathlib.Core.List.{List}
use mathlib.Core.Bool.{Bool, true, false, ◌&&◌, ◌||◌}
use codex_mission_ledger.Prelude.Tests.{if◌then◌else◌, leb, nat_eq}

-- White space and line ends, as `String.prototype.trim` has them.
abbrev pub is_space : ℕ → Bool
is_space c =
    (leb 9 c && leb c 13)
    || nat_eq c 32
    || nat_eq c 0xa0
    || nat_eq c 0x1680
    || (leb 0x2000 c && leb c 0x200a)
    || nat_eq c 0x2028
    || nat_eq c 0x2029
    || nat_eq c 0x202f
    || nat_eq c 0x205f
    || nat_eq c 0x3000
    || nat_eq c 0xfeff

abbrev pub is_empty : String → Bool
is_empty [] = true
is_empty (c ∷ s) = false

pub trim_start : String → String
trim_start [] = []
trim_start (c ∷ s) = if is_space (code c) then trim_start s else c ∷ s

pub trim_end : String → String
trim_end [] = []
trim_end (c ∷ s) =
    let rest = trim_end s in if is_space (code c) && is_empty rest then [] else c ∷ rest

unfoldable pub trim : String → String
unfolding trim_start trim_end
trim s = trim_end (trim_start s)

-- `parts.join(separator)`
unfoldable pub join : String → List String → String
join separator List.[] = []
join separator (List.◌∷◌ s List.[]) = s
join separator (List.◌∷◌ s (List.◌∷◌ t ts)) = s ++ (separator ++ join separator (List.◌∷◌ t ts))

unfoldable pub sort_in : String → List String → List String
sort_in s List.[] = List.◌∷◌ s List.[]
sort_in s (List.◌∷◌ t ts) =
    if is_lt (compare t s) then List.◌∷◌ t (sort_in s ts) else List.◌∷◌ s (List.◌∷◌ t ts)

-- `strings.sort()`; identifiers are ASCII, where the order of code units is that of code points.
unfoldable pub sort : List String → List String
unfolding sort_in
sort List.[] = List.[]
sort (List.◌∷◌ s ts) = sort_in s (sort ts)
