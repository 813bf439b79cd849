-- ===== src/Lsp/Position.antt =====
-- `position_to_byte_offset` of lsp/src/completion.rs and `offset_to_line_col` of lsp/src/context.rs.
-- A text is its UTF-8 bytes: a character begins at each byte that is no continuation byte.
pub mod Lines
pub mod Inverse
use surql_parser.Prelude.{
  ℕ, zero, suc, ◌+◌, ◌-◌, Bool, true, false, not, ◌&&◌, Option, none, some, List, [], ◌∷◌, leb, ltb,
  ◌==◌, if◌then◌else◌, length, take, min, Text,
}
use surql_parser.Strings.{ends_with, init}
use surql_parser.Recovery.{count, rfind, column_after}

abbrev pub is_continuation : ℕ → Bool
is_continuation c = leb 128 c && ltb c 192

-- `ch.len_utf16()`, from the first byte of the character
abbrev pub len_utf16 : ℕ → ℕ
len_utf16 c = if leb 240 c then 2 else 1

-- `for (byte_idx, ch) in clean_line.char_indices()`: the index of the first character that `target`
-- UTF-16 units stand before, and the length of the line where there is none.
pub char_index : ℕ → ℕ → ℕ → Text → ℕ
char_index target utf16_count index [] = index
char_index target utf16_count index (c ∷ cs) =
    let inside = char_index target utf16_count (suc index) cs in
    let further = char_index target (utf16_count + len_utf16 c) (suc index) cs in
    if is_continuation c then inside else if leb target utf16_count then index else further

abbrev pub push_line : ℕ → List Text → List Text
push_line c [] = (c ∷ []) ∷ []
push_line c (l ∷ ls) = (c ∷ l) ∷ ls

-- `source.split('\n')`
pub split_newlines : Text → List Text
split_newlines [] = [] ∷ []
split_newlines (c ∷ t) =
    let rest = split_newlines t in if c == b'\n' then [] ∷ rest else push_line c rest

-- `line.strip_suffix('\r').unwrap_or(line)`
abbrev pub strip_return : Text → Text
strip_return line = if ends_with 13 line then init line else line

-- The loop over the lines: `line` more of them stand before the one that is looked for.
pub offset_in : ℕ → ℕ → ℕ → List Text → Option ℕ
offset_in line character offset [] = none
offset_in zero character offset (l ∷ ls) = some (offset + char_index character 0 0 (strip_return l))
offset_in (suc line) character offset (l ∷ ls) =
    offset_in line character (offset + (length l + 1)) ls

abbrev pub or_end : Option ℕ → Text → ℕ
or_end none source = length source
or_end (some offset) source = offset

-- `position.line` and `position.character`
unfoldable pub position_to_byte_offset : Text → ℕ × ℕ → ℕ
unfolding char_index split_newlines offset_in
position_to_byte_offset source (line, character) =
    or_end (offset_in line character 0 (split_newlines source)) source

unfoldable pub offset_to_line_col : Text → ℕ → ℕ × ℕ
unfolding rfind
offset_to_line_col source offset =
    let before = take (min offset (length source)) source in
    (count b'\n' before, column_after (rfind b'\n' before) offset)
