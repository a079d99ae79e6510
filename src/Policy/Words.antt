-- ===== src/Policy/Words.antt =====
-- The regular expressions of src/core/policy.ts, which look for fixed phrases in a text. Those with
-- the flag `i` compare ASCII letters without their case, and `\b` stands between a word character
-- and another one or an end of the text.
use Prim.Native.Char.{code}
use Prim.Native.String.{String}
use codex_mission_ledger.Prelude.{
  ℕ, ◌+◌, ◌≡◌, refl, Bool, true, false, not, ◌&&◌, ◌||◌, Option, none, some, List, [], ◌∷◌,
}
use codex_mission_ledger.Prelude.Tests.{if◌then◌else◌, leb, nat_eq}
use codex_mission_ledger.Prelude.Lists.{any}

abbrev pub lower : ℕ → ℕ
lower c = if leb b'A' c && leb c b'Z' then c + 32 else c

-- The code points of a text, in lower case.
pub folded : String → List ℕ
folded String.[] = []
folded (String.◌∷◌ c s) = lower (code c) ∷ folded s

-- `\w`
abbrev pub is_word_char : ℕ → Bool
is_word_char c =
    (leb b'a' c && leb c b'z')
    || (leb b'A' c && leb c b'Z')
    || (leb b'0' c && leb c b'9')
    || nat_eq c b'_'

-- The text behind a phrase that it begins with.
pub behind : List ℕ → List ℕ → Option (List ℕ)
behind [] text = some text
behind (p ∷ ps) [] = none
behind (p ∷ ps) (c ∷ text) = if nat_eq p c then behind ps text else none

abbrev ends_word : Option (List ℕ) → Bool
ends_word none = false
ends_word (some []) = true
ends_word (some (c ∷ rest)) = not (is_word_char c)

-- `\b(?:…)\b` at the start of the text, where the character before it is no word character. The
-- phrases begin and end with word characters.
pub word_here : List String → List ℕ → Bool
unfolding behind folded
word_here phrases text = any (λ p. ends_word (behind (folded p) text)) phrases

find_word : List String → Bool → List ℕ → Bool
unfolding word_here
find_word phrases inside [] = false
find_word phrases inside (c ∷ text) =
    (not inside && word_here phrases (c ∷ text)) || find_word phrases (is_word_char c) text

-- `/\b(?:…)\b/i.test(text)`
unfoldable pub has_word : List String → String → Bool
unfolding find_word
has_word phrases text = find_word phrases false (folded text)

begins : Option (List ℕ) → Bool
begins none = false
begins (some rest) = true

find_phrase : List String → List ℕ → Bool
unfolding behind folded begins
find_phrase phrases [] = false
find_phrase phrases (c ∷ text) =
    any (λ p. begins (behind (folded p) (c ∷ text))) phrases || find_phrase phrases text

-- `/(?:…)/i.test(text)`
unfoldable pub has_phrase : List String → String → Bool
unfolding find_phrase
has_phrase phrases text = find_phrase phrases (folded text)

-- "idempoten" is on the list of phrases and is no word: with `\b` behind it the expression misses
-- the words that it was put there for.
misses_idempotent : has_word ("idempoten" ∷ []) "make the import idempotent" ≡ false
unfolding has_word
misses_idempotent = refl

finds_resume : has_word ("resume" ∷ []) "Resume, then stop" ≡ true
unfolding has_word
finds_resume = refl
