-- ===== src/Params.antt =====
-- src/params.rs: `scan_params`, the scan for `$param` tokens behind `extract_params`.
-- The index `i` into the bytes is modelled by the bytes from `i` on. Each inner loop is a function
-- from the bytes behind its opening mark to the bytes at which the outer loop goes on.
pub mod Total
pub mod Segments
use surql_parser.Prelude.{
  ℕ, zero, suc, Bool, true, false, not, ◌&&◌, ◌||◌, Option, none, some, List, [], ◌∷◌, ◌==◌,
  if◌then◌else◌, length, is_empty, Text, is_ascii_alphanumeric,
}
use surql_parser.Prelude.SortedSet.{insert}

-- A quote ends the string, unless a second one follows it.
unfoldable pub skip_single : Text → Text
skip_single [] = []
skip_single (c ∷ []) = []
skip_single (c ∷ d ∷ cs) =
    let escaped = skip_single cs in
    let plain = skip_single (d ∷ cs) in
    if c == b'\'' then (if d == b'\'' then escaped else d ∷ cs) else plain

-- A backslash takes the next byte with it, also past the end.
unfoldable pub skip_double : Text → Text
skip_double [] = []
skip_double (c ∷ []) = []
skip_double (c ∷ d ∷ cs) =
    let escaped = skip_double cs in
    let plain = skip_double (d ∷ cs) in
    if c == b'\\' then escaped else if c == b'"' then d ∷ cs else plain

skip_backtick : Text → Text
skip_backtick [] = []
skip_backtick (c ∷ cs) = if c == b'`' then cs else skip_backtick cs

-- Stops at the newline.
unfoldable pub skip_line : Text → Text
skip_line [] = []
skip_line (c ∷ cs) = if c == b'\n' then c ∷ cs else skip_line cs

-- The loop wants two bytes, so the last byte of an open comment is left to the outer loop.
unfoldable pub skip_block : ℕ → Text → Text
skip_block depth [] = []
skip_block depth (c ∷ []) = c ∷ []
skip_block zero (c ∷ d ∷ cs) = c ∷ d ∷ cs
skip_block (suc k) (c ∷ d ∷ cs) =
    let opened = skip_block (suc (suc k)) cs in
    let closed = skip_block k cs in
    let plain = skip_block (suc k) (d ∷ cs) in
    if c == b'/' && d == b'*' then opened else if c == b'*' && d == b'/' then closed else plain

unfoldable pub is_word : ℕ → Bool
unfolding is_ascii_alphanumeric
is_word c = is_ascii_alphanumeric c || c == b'_'

take_word : Text → Text
take_word [] = []
take_word (c ∷ cs) = let rest = take_word cs in if is_word c then c ∷ rest else []

drop_word : Text → Text
drop_word [] = []
drop_word (c ∷ cs) = if is_word c then drop_word cs else c ∷ cs

-- `bytes.get(0) == Some(&b)`, for the guards that look one byte ahead
abbrev pub starts_with_byte : ℕ → Text → Bool
starts_with_byte b [] = false
starts_with_byte b (c ∷ cs) = c == b

abbrev pub tail : Text → Text
tail [] = []
tail (c ∷ cs) = cs

-- The bytes at which the scan goes on, behind the byte `c`.
pub advance : ℕ → Text → Text
advance c cs =
    if c == b'\''
    then skip_single cs
    else if c == b'"'
    then skip_double cs
    else if c == b'`'
    then skip_backtick cs
    else if c == b'-' && starts_with_byte b'-' cs
    then skip_line (tail cs)
    else if c == b'/' && starts_with_byte b'*' cs
    then skip_block 1 (tail cs)
    else if c == b'$'
    then drop_word cs
    else cs

-- What the arm of the byte `c` adds to the set.
pub collect_param : ℕ → Text → List Text → List Text
collect_param c cs params =
    if c == b'$' && not (is_empty (take_word cs)) then insert (take_word cs) params else params

-- The outer loop, with fuel; `none` means that the fuel ran out.
unfoldable pub scan : ℕ → Text → List Text → Option (List Text)
scan zero bytes params = none
scan (suc fuel) [] params = some params
scan (suc fuel) (c ∷ cs) params = scan fuel (advance c cs) (collect_param c cs params)

-- One round for each byte at most, and one to see the end.
unfoldable pub scan_params : Text → Option (List Text)
unfolding scan advance collect_param skip_single skip_double skip_backtick skip_line skip_block
    drop_word take_word is_word insert
scan_params input = scan (suc (length input)) input []
