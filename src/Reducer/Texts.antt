-- ===== src/Reducer/Texts.antt =====
-- src/core/reducer.ts: the methods of texts that the reduction uses, on their code points.
use Prim.Native.String.{◌++◌ as append}
use codex_mission_ledger.Prelude.{
  ℕ, zero, suc, ◌/◌, ◌%◌, String, Bool, true, false, ◌&&◌, ◌||◌, Option, none, some, List, [], ◌∷◌,
}
use codex_mission_ledger.Prelude.Tests.{if◌then◌else◌, ltb, nat_eq}
use codex_mission_ledger.Prelude.Codes.{codes_eq}

abbrev is_prefix : List ℕ → List ℕ → Bool
is_prefix [] cs = true
is_prefix (p ∷ ps) [] = false
is_prefix (p ∷ ps) (c ∷ cs) = nat_eq p c && is_prefix ps cs

-- `text.includes(part)`
unfoldable pub is_part : List ℕ → List ℕ → Bool
is_part part [] = is_prefix part []
is_part part (c ∷ cs) = is_prefix part (c ∷ cs) || is_part part cs

-- `finding.slice(0, -3)`, if the finding ends with three dots
unfoldable pub without_dots : List ℕ → Option (List ℕ)
without_dots [] = none
without_dots (c ∷ cs) =
    let rest = without_dots cs in
    if codes_eq (c ∷ cs) (b'.' ∷ b'.' ∷ b'.' ∷ [])
    then some []
    else elim rest [ none ↦ none | some kept ↦ some (c ∷ kept) ]

abbrev digit_in : List String → ℕ → String
digit_in [] n = ""
digit_in (d ∷ ds) zero = d
digit_in (d ∷ ds) (suc n) = digit_in ds n

abbrev digit : ℕ → String
digit = digit_in ("0" ∷ "1" ∷ "2" ∷ "3" ∷ "4" ∷ "5" ∷ "6" ∷ "7" ∷ "8" ∷ "9" ∷ [])

-- `String(n)`; a number has not more digits than its value and one.
unfoldable pub decimal : ℕ → ℕ → String
decimal zero n = digit (n % 10)
decimal (suc fuel) n =
    let high = decimal fuel (n / 10) in if ltb n 10 then digit n else append high (digit (n % 10))
