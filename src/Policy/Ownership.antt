-- ===== src/Policy/Ownership.antt =====
-- src/core/policy.ts: which files a leaf owns, and when two writers own the same.
pub mod Safety
pub mod Conflicts
pub mod Ordering
mod Tests
use codex_mission_ledger.Prelude.{ℕ, String, Bool, true, false, ◌&&◌, ◌||◌, List, [], ◌∷◌}
use codex_mission_ledger.Prelude.Tests.{if◌then◌else◌, nat_eq}
use codex_mission_ledger.Prelude.Codes.{codes, codes_eq}

-- `path.replaceAll("\\", "/")`
unfoldable pub to_slashes : List ℕ → List ℕ
to_slashes [] = []
to_slashes (c ∷ p) = (if nat_eq c b'\\' then b'/' else c) ∷ to_slashes p

-- `.replace(/^\.\//, "")`
unfoldable pub drop_dot : List ℕ → List ℕ
drop_dot (c ∷ d ∷ p) = if nat_eq c b'.' && nat_eq d b'/' then p else c ∷ d ∷ p
drop_dot p = p

abbrev cons_unless_last : ℕ → List ℕ → List ℕ
cons_unless_last c [] = if nat_eq c b'/' then [] else c ∷ []
cons_unless_last c (d ∷ p) = c ∷ d ∷ p

-- `.replace(/\/+$/, "")`
unfoldable pub drop_slashes : List ℕ → List ℕ
drop_slashes [] = []
drop_slashes (c ∷ p) = cons_unless_last c (drop_slashes p)

abbrev dot_is_empty : List ℕ → List ℕ
dot_is_empty (c ∷ []) = if nat_eq c b'.' then [] else c ∷ []
dot_is_empty p = p

-- `normalizeOwnedPath`
unfoldable pub normalize_owned_path : String → List ℕ
unfolding codes to_slashes drop_dot drop_slashes
normalize_owned_path path = dot_is_empty (drop_slashes (drop_dot (to_slashes (codes path))))

-- `path.startsWith(`${directory}/`)`
unfoldable pub is_below : List ℕ → List ℕ → Bool
is_below directory [] = false
is_below [] (c ∷ path) = nat_eq c b'/'
is_below (d ∷ directory) (c ∷ path) = nat_eq d c && is_below directory path

abbrev pub is_root : List ℕ → Bool
is_root [] = true
is_root (c ∷ p) = false

abbrev pub overlap : List ℕ → List ℕ → Bool
overlap left right =
    if is_root left || is_root right
    then true
    else codes_eq left right || is_below right left || is_below left right

-- `ownedPathsOverlap`
unfoldable pub owned_paths_overlap : String → String → Bool
owned_paths_overlap left right = overlap (normalize_owned_path left) (normalize_owned_path right)

abbrev pub contains : List ℕ → List ℕ → Bool
contains owned candidate = is_root owned || codes_eq candidate owned || is_below owned candidate

-- `ownedPathContains`
unfoldable pub owned_path_contains : String → String → Bool
owned_path_contains owned candidate =
    contains (normalize_owned_path owned) (normalize_owned_path candidate)
