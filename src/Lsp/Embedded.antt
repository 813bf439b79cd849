-- ===== src/Lsp/Embedded.antt =====
-- lsp/src/embedded.rs: SurrealQL in the macros and attributes of a Rust source. The index `i` into the
-- bytes goes with the bytes from there on.
pub mod Regions
pub mod Found
use surql_parser.Prelude.{
  ℕ, zero, suc, ◌+◌, Bool, true, false, not, ◌&&◌, ◌||◌, Option, none, some, List, [], ◌∷◌, ◌++◌,
  leb, ltb, ◌==◌, if◌then◌else◌, length, take, drop, Text, codes,
}
use surql_parser.Params.{starts_with_byte, tail}
use surql_parser.Strings.{starts_with, shift}
use surql_parser.Lsp.Position.{offset_to_line_col}

pub data RegionKind : Type 0 where
  statement : RegionKind
  function_name : RegionKind

pub record EmbeddedRegion : Type 0 where
  pub content : Text
  pub offset : ℕ
  pub line : ℕ
  pub col : ℕ
  pub kind : RegionKind

abbrev pub query_macro : Text
query_macro = codes "surql_query!("

abbrev pub check_macro : Text
check_macro = codes "surql_check!("

abbrev pub function_attr : Text
function_attr = codes "#[surql_function("

-- `find_surql_macro`, as the length of the prefix that stands here
pub find_surql_macro : Text → Option ℕ
find_surql_macro rest =
    if starts_with query_macro rest
    then some (length query_macro)
    else if starts_with check_macro rest
    then some (length check_macro)
    else none

-- `u8::is_ascii_whitespace`
abbrev pub is_ascii_whitespace : ℕ → Bool
is_ascii_whitespace c = c == b' ' || c == b'\t' || c == b'\n' || c == 12 || c == 13

pub blanks : Text → ℕ
blanks [] = 0
blanks (c ∷ t) = let rest = blanks t in if is_ascii_whitespace c then suc rest else 0

-- The index of the closing quote; a backslash takes the next byte with it, also past the end.
pub string_end : Text → Option ℕ
string_end [] = none
string_end (c ∷ []) = if c == b'"' then some 0 else none
string_end (c ∷ d ∷ t) =
    let escaped = shift (shift (string_end t)) in
    let further = shift (string_end (d ∷ t)) in
    if c == b'\\' then escaped else if c == b'"' then some 0 else further

pub region_at : Text → ℕ → RegionKind → Text → Option ℕ → Option EmbeddedRegion
region_at source start kind body none = none
region_at source start kind body (some n) =
    let (line, col) = offset_to_line_col source start in
    some (record { content = take n body; offset = start; line = line; col = col; kind = kind })

pub extract_string_after : Text → ℕ → RegionKind → Option EmbeddedRegion
extract_string_after source pos kind =
    let rest = drop pos source in
    let body = drop (blanks rest) rest in
    if starts_with_byte b'"' body
    then region_at source (pos + blanks rest + 1) kind (tail body) (string_end (tail body))
    else none

abbrev pub with_index : ℕ → Option EmbeddedRegion → Option (EmbeddedRegion × ℕ)
with_index macro_end none = none
with_index macro_end (some r) = some (r, macro_end)

-- `find_surql_macro(bytes, i)` and the string behind it, with the index behind the prefix
pub statement_at : Text → ℕ → Option ℕ → Option (EmbeddedRegion × ℕ)
statement_at source i none = none
statement_at source i (some n) = with_index (i + n) (extract_string_after source (i + n) statement)

pub find_surql_function_attr : Text → ℕ → Option EmbeddedRegion
find_surql_function_attr source i =
    if starts_with function_attr (drop i source)
    then extract_string_after source (i + length function_attr) function_name
    else none

abbrev pub with_region : Option EmbeddedRegion → List EmbeddedRegion → List EmbeddedRegion
with_region none rs = rs
with_region (some r) rs = r ∷ rs

abbrev pub add_region :
    Option EmbeddedRegion → Option (List EmbeddedRegion) → Option (List EmbeddedRegion)
add_region o none = none
add_region o (some rs) = some (with_region o rs)

-- The body of the loop, with the rest of the loop as a function of the index.
pub round :
    (ℕ → Option (List EmbeddedRegion))
    → Text
    → ℕ
    → Option (EmbeddedRegion × ℕ)
    → Option (List EmbeddedRegion)
round rec source i (some (r, macro_end)) =
    add_region (some r) (rec (macro_end + length r.content + 2))
round rec source i none =
    let attr =
      if starts_with (codes "#[") (drop i source)
      then find_surql_function_attr source i
      else none in
    add_region attr (rec (i + 1))

-- The loop, with fuel; `none` means that the fuel ran out.
pub regions_from : ℕ → Text → ℕ → Option (List EmbeddedRegion)
regions_from zero source i = none
regions_from (suc fuel) source i =
    let here =
      round (regions_from fuel source) source i
        (statement_at source i (find_surql_macro (drop i source))) in
    if leb (length source) i then some [] else here

-- Each round takes a byte at least.
unfoldable pub extract_surql_from_rust : Text → Option (List EmbeddedRegion)
unfolding find_surql_macro blanks string_end region_at extract_string_after statement_at
    find_surql_function_attr round regions_from
extract_surql_from_rust source = regions_from (suc (length source)) source 0
