-- ===== src/Strings.antt =====
-- The operations of `str` that the sources use, on lists of bytes; white space and case are ASCII's.
pub mod Lines
pub mod Edit
pub mod Trim
pub mod Plain
use surql_parser.Prelude.{
  ℕ, zero, suc, Bool, true, false, not, ◌&&◌, ◌||◌, Option, none, some, List, [], ◌∷◌, ◌++◌, ◌==◌,
  if◌then◌else◌, drop, length, is_empty, Text, is_whitespace, to_upper, map,
}

-- `text.starts_with(prefix)`
abbrev pub starts_with : Text → Text → Bool
starts_with [] text = true
starts_with (p ∷ prefix) [] = false
starts_with (p ∷ prefix) (c ∷ text) = c == p && starts_with prefix text

-- `text.contains(part)`
abbrev pub contains_text : Text → Text → Bool
contains_text part [] = starts_with part []
contains_text part (c ∷ text) = starts_with part (c ∷ text) || contains_text part text

abbrev pub shift : Option ℕ → Option ℕ
shift none = none
shift (some i) = some (suc i)

-- `text.find(part)`
unfoldable pub find_text : Text → Text → Option ℕ
find_text part [] = if starts_with part [] then some 0 else none
find_text part (c ∷ text) =
    let further = shift (find_text part text) in
    if starts_with part (c ∷ text) then some 0 else further

-- `text.ends_with(c)`
abbrev pub ends_with : ℕ → Text → Bool
ends_with b [] = false
ends_with b (c ∷ []) = c == b
ends_with b (c ∷ d ∷ text) = ends_with b (d ∷ text)

unfoldable pub trim_start : Text → Text
unfolding is_whitespace
trim_start [] = []
trim_start (c ∷ text) = if is_whitespace c then trim_start text else c ∷ text

-- The white space that `trim_start` takes off: `line[..line.len() - line.trim_start().len()]`.
unfoldable pub leading_ws : Text → Text
unfolding is_whitespace
leading_ws [] = []
leading_ws (c ∷ text) = let rest = leading_ws text in if is_whitespace c then c ∷ rest else []

unfoldable pub trim_end : Text → Text
unfolding is_whitespace
trim_end [] = []
trim_end (c ∷ text) =
    let rest = trim_end text in if is_empty rest && is_whitespace c then [] else c ∷ rest

unfoldable pub trim : Text → Text
unfolding trim_start trim_end
trim text = trim_end (trim_start text)

-- `text.pop()`
abbrev pub init : Text → Text
init [] = []
init (c ∷ []) = []
init (c ∷ d ∷ text) = c ∷ init (d ∷ text)

abbrev pub uppercase : Text → Text
uppercase text = map to_upper text
