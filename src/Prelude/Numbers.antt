-- ===== src/Prelude/Numbers.antt =====
-- JavaScript numbers in fixed point: a finite number counts millionths, and the values that are
-- not finite are kept, so that the guards `Number.isFinite` and `Number.isInteger` are those of
-- the source. Sums are exact, so the `Number.EPSILON` that the source adds before a comparison,
-- which is far below one unit, has no counterpart. A comparison with `nan` is false.
use Prim.Native.Nat.{ℕ, zero, suc, ◌+◌, ◌-◌, ◌*◌, ◌%◌, ◌/◌}
use mathlib.Core.Bool.{Bool, true, false, not, ◌&&◌, ◌||◌}
use codex_mission_ledger.Prelude.Tests.{if◌then◌else◌, ltb, leb, nat_eq}

-- `neg n` is minus n + 1 millionths.
pub data Number : Type 0 where
  nan infinity minus_infinity : Number
  pos neg : ℕ → Number

abbrev pub unit : ℕ
unit = 1000000

abbrev pub of_ℕ : ℕ → Number
of_ℕ n = pos (n * 1000000)

abbrev pub is_finite : Number → Bool
is_finite (pos n) = true
is_finite (neg n) = true
is_finite _ = false

-- `Number.isInteger`
abbrev pub is_integer : Number → Bool
is_integer (pos n) = nat_eq (n % 1000000) 0
is_integer (neg n) = nat_eq ((n + 1) % 1000000) 0
is_integer _ = false

-- The whole part of a number that is not negative.
abbrev pub whole : Number → ℕ
whole (pos n) = n / 1000000
whole _ = 0

-- `a < b`
abbrev pub num_lt : Number → Number → Bool
num_lt nan b = false
num_lt infinity b = false
num_lt minus_infinity nan = false
num_lt minus_infinity minus_infinity = false
num_lt minus_infinity b = true
num_lt (pos a) infinity = true
num_lt (pos a) (pos b) = ltb a b
num_lt (pos a) b = false
num_lt (neg a) infinity = true
num_lt (neg a) (pos b) = true
num_lt (neg a) (neg b) = ltb b a
num_lt (neg a) b = false

abbrev pub is_nan : Number → Bool
is_nan nan = true
is_nan _ = false

-- `a <= b`
abbrev pub num_le : Number → Number → Bool
num_le a b = not (is_nan a) && not (is_nan b) && not (num_lt b a)

-- `Math.max(a, b)`
abbrev pub num_max : Number → Number → Number
num_max a b = if is_nan a || is_nan b then nan else if num_lt a b then b else a

-- a - b for counts of millionths
abbrev pub sub_ℕ : ℕ → ℕ → Number
sub_ℕ a b = if leb b a then pos (a - b) else neg (b - a - 1)

-- `a + b`
abbrev pub num_add : Number → Number → Number
num_add nan b = nan
num_add infinity nan = nan
num_add infinity minus_infinity = nan
num_add infinity b = infinity
num_add minus_infinity nan = nan
num_add minus_infinity infinity = nan
num_add minus_infinity b = minus_infinity
num_add (pos a) (pos b) = pos (a + b)
num_add (pos a) (neg b) = sub_ℕ a (b + 1)
num_add (pos a) b = b
num_add (neg a) (pos b) = sub_ℕ b (a + 1)
num_add (neg a) (neg b) = neg (a + b + 1)
num_add (neg a) b = b

-- `a * k` for a positive whole number k
abbrev pub times : ℕ → Number → Number
times k (pos n) = pos (k * n)
times k (neg n) = neg (k * n + k - 1)
times k a = a

-- `-a`
abbrev pub num_neg : Number → Number
num_neg nan = nan
num_neg infinity = minus_infinity
num_neg minus_infinity = infinity
num_neg (pos zero) = pos 0
num_neg (pos (suc n)) = neg n
num_neg (neg n) = pos (n + 1)

-- `a - b`
abbrev pub num_sub : Number → Number → Number
num_sub a b = num_add a (num_neg b)
