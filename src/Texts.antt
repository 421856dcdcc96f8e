-- ===== src/Texts.antt =====
-- The operations of Rust's `str` that the comment parsers use, on lists of code points.
pub mod Trim
pub mod Split
pub mod Names
use ast_serialize.Common.{
  ℕ, Bool, true, false, ◌&&◌, ◌||◌, List, [], ◌∷◌, Option, none, some, map, ltb, leb, ◌==◌,
  if◌then◌else◌, Text,
}

-- Code points.
abbrev pub quote : ℕ
quote = 34

abbrev pub hash : ℕ
hash = 35

abbrev pub comma : ℕ
comma = 44

abbrev pub equals : ℕ
equals = 61

-- `char::is_whitespace`: the Unicode property White_Space.
unfoldable pub is_whitespace : ℕ → Bool
is_whitespace c =
    (leb 9 c && leb c 13)
    || c == 32
    || c == 133
    || c == 160
    || c == 5760
    || (leb 8192 c && leb c 8202)
    || c == 8232
    || c == 8233
    || c == 8239
    || c == 8287
    || c == 12288

abbrev pub is_empty : Text → Bool
is_empty [] = true
is_empty (c ∷ s) = false

-- `filter(|s| !s.is_empty())`
abbrev pub not_empty : List Text → List Text
not_empty [] = []
not_empty (s ∷ ss) = if is_empty s then not_empty ss else s ∷ not_empty ss

unfoldable pub trim_start : Text → Text
unfolding is_whitespace
trim_start [] = []
trim_start (c ∷ s) = let rest = trim_start s in if is_whitespace c then rest else c ∷ s

unfoldable pub trim_end : Text → Text
unfolding is_whitespace
trim_end [] = []
trim_end (c ∷ s) =
    let rest = trim_end s in if is_whitespace c && is_empty rest then [] else c ∷ rest

unfoldable pub trim : Text → Text
unfolding trim_start trim_end
trim s = trim_end (trim_start s)

abbrev pub push_first : ℕ → List Text → List Text
push_first c [] = (c ∷ []) ∷ []
push_first c (p ∷ ps) = (c ∷ p) ∷ ps

-- `s.split(separator)`: one part more than there are separators.
unfoldable pub split_on : ℕ → Text → List Text
split_on separator [] = [] ∷ []
split_on separator (c ∷ s) =
    let parts = split_on separator s in if c == separator then [] ∷ parts else push_first c parts

abbrev pub push_left : ℕ → Option (Text × Text) → Option (Text × Text)
push_left c none = none
push_left c (some (left, right)) = some (c ∷ left, right)

-- `s.split_once(separator)`
unfoldable pub split_once : ℕ → Text → Option (Text × Text)
split_once separator [] = none
split_once separator (c ∷ s) =
    let later = split_once separator s in if c == separator then some ([], s) else push_left c later

-- `s.split(',').map(str::trim)`
unfoldable pub split_commas : Text → List Text
unfolding split_on trim
split_commas s = map trim (split_on comma s)
