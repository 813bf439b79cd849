-- ===== src/Signature.antt =====
-- lsp/src/signature.rs: the parameters in a signature's text, and the call around the cursor.
pub mod Split
use surql_parser.Prelude.{
  ℕ, zero, suc, Bool, true, false, not, ◌&&◌, ◌||◌, Option, none, some, List, [], ◌∷◌, ◌++◌, ◌==◌,
  if◌then◌else◌, is_empty, codes, Text, is_whitespace, is_ascii_alphanumeric,
}
use surql_parser.Strings.{contains_text, trim, trim_end}

-- The depth of brackets, an `i32`: it may fall below 0. Its bounds are not modelled.
pub data ℤ : Type 0 where
  pos negsuc : ℕ → ℤ

abbrev pub up : ℤ → ℤ
up (pos n) = pos (suc n)
up (negsuc zero) = pos 0
up (negsuc (suc n)) = negsuc n

abbrev pub down : ℤ → ℤ
down (pos zero) = negsuc 0
down (pos (suc n)) = pos n
down (negsuc n) = negsuc (suc n)

abbrev pub is_zero : ℤ → Bool
is_zero (pos zero) = true
is_zero _ = false

abbrev pub moved : ℤ → ℕ → ℤ
moved depth c =
    if c == b'<' || c == b'('
    then up depth
    else if c == b'>' || c == b')'
    then down depth
    else depth

-- A comma outside brackets.
abbrev pub is_cut : ℤ → ℕ → Bool
is_cut depth c = c == b',' && is_zero depth

-- `let trimmed = current.trim(); if !trimmed.is_empty() { params.push(trimmed) }`
abbrev pub pushed : Text → List Text → List Text
pushed current rest = if is_empty (trim current) then rest else trim current ∷ rest

abbrev pub kept : Text → ℕ → Bool → Text
kept current c true = []
kept current c false = current ++ c ∷ []

-- The loop, with the bytes since the last cut.
unfoldable pub split_from : ℤ → Text → Text → List Text
unfolding trim
split_from depth current [] = pushed current []
split_from depth current (c ∷ s) =
    let cut = is_cut depth c in
    let rest = split_from (moved depth c) (kept current c cut) s in
    if cut then pushed current rest else rest

unfoldable pub split_params : Text → List Text
unfolding split_from
split_params s = split_from (pos 0) [] s

-- The loop of `find_function_call`, over the bytes from the last to the first: what stands before the
-- open bracket, from the last byte to the first, and the commas behind it.
unfoldable pub scan_back : ℤ → ℕ → Text → Option (Text × ℕ)
scan_back depth commas [] = none
scan_back depth commas (c ∷ s) =
    let depth' = if c == b')' then up depth else if c == b'(' then down depth else depth in
    let commas' = if c == b',' && is_zero depth then suc commas else commas in
    let rest = scan_back depth' commas' s in
    if c == b'(' && is_zero depth then some (s, commas) else rest

abbrev pub is_name_byte : ℕ → Bool
is_name_byte c = is_ascii_alphanumeric c || c == b'_' || c == b':'

-- The name bytes that the reversed text begins with, put in order before what follows.
unfoldable pub name_before : Text → Text → Text
name_before [] name = name
name_before (c ∷ s) name =
    let more = name_before s (c ∷ name) in if is_name_byte c then more else name

unfoldable pub skip_blanks : Text → Text
skip_blanks [] = []
skip_blanks (c ∷ s) = if is_whitespace c then skip_blanks s else c ∷ s

-- On the reversed text before the bracket.
unfoldable pub extract_fn_name : Text → Option Text
unfolding name_before skip_blanks is_ascii_alphanumeric is_whitespace
extract_fn_name s =
    let candidate = name_before (skip_blanks s) [] in
    if contains_text (codes "::") candidate then some candidate else none

abbrev pub reversed : Text → Text → Text
reversed [] acc = acc
reversed (c ∷ s) acc = reversed s (c ∷ acc)

abbrev named_call : Option (Text × ℕ) → Option (Text × ℕ)
named_call none = none
named_call (some (before, commas)) = elim (extract_fn_name before) [
  | none ↦ none
  | some name ↦ some (name, commas)
]

unfoldable pub find_function_call : Text → Option (Text × ℕ)
unfolding scan_back extract_fn_name
find_function_call before_cursor = named_call (scan_back (pos 0) 0 (reversed before_cursor []))
