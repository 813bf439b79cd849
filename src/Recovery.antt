-- ===== src/Recovery.antt =====
-- src/recovery.rs: the error-recovering parser. The lexer and the parser are parameters.
pub mod Chunks
pub mod Coverage
pub mod Position
pub mod Moved
use surql_parser.Prelude.{
  ℕ, suc, ◌+◌, ◌-◌, ◌^◌, min, Bool, not, ◌&&◌, Option, none, some, List, [], ◌∷◌, ◌++◌, ltb, ◌==◌,
  if◌then◌else◌, length, take, drop, is_empty, all, map, Text, is_whitespace,
}
use surql_parser.Token.{Token, TokenKind, Delim, token_end}

-- `u32::MAX as usize`
abbrev pub max_source : ℕ
max_source = 2 ^ 32 - 1

pub record Chunk : Type 0 where
  pub start : ℕ
  pub end : ℕ

-- `text.trim().is_empty()`
abbrev pub is_blank : Text → Bool
is_blank = all is_whitespace

-- The variables of the loop over the tokens.
pub record Splitter : Type 0 where
  pub chunks : List Chunk
  pub chunk_start : ℕ
  pub brace_depth : ℕ

-- The arm of a semicolon at brace depth 0.
cut : Token → Splitter → Splitter
cut t s =
    if ltb s.chunk_start t.offset
    then record s {
      chunks = s.chunks ++ record { start = s.chunk_start; end = t.offset } ∷ [];
      chunk_start = token_end t;
    }
    else record s { chunk_start = token_end t }

pub split_kind : TokenKind → Token → Splitter → Splitter
split_kind (TokenKind.open_delim Delim.brace) t s = record s { brace_depth = s.brace_depth + 1 }
split_kind (TokenKind.close_delim Delim.brace) t s = record s { brace_depth = s.brace_depth - 1 }
split_kind TokenKind.semi_colon t s = if s.brace_depth == 0 then cut t s else s
split_kind _ t s = s

pub split_tokens : List Token → Splitter → Splitter
split_tokens [] s = s
split_tokens (t ∷ ts) s = split_tokens ts (split_kind t.kind t s)

abbrev pub start_splitter : Splitter
start_splitter = record { chunks = []; chunk_start = 0; brace_depth = 0 }

-- The chunk behind the last cut, unless it is blank.
last_chunk : Text → Splitter → List Chunk
last_chunk source s =
    if ltb s.chunk_start (length source) && not (is_blank (drop s.chunk_start source))
    then s.chunks ++ record { start = s.chunk_start; end = length source } ∷ []
    else s.chunks

abbrev pub whole : Text → List Chunk
whole source = record { start = 0; end = length source } ∷ []

pub record Diagnostic : Type 0 where
  pub message : Text
  pub line : ℕ
  pub column : ℕ
  pub end_line : ℕ
  pub end_column : ℕ

-- `text.matches(b).count()`
abbrev pub count : ℕ → Text → ℕ
count b [] = 0
count b (c ∷ cs) = let rest = count b cs in if c == b then suc rest else rest

-- `text.rfind(b)`
unfoldable pub rfind : ℕ → Text → Option ℕ
rfind b [] = none
rfind b (c ∷ cs) = elim (rfind b cs) [
  | some i ↦ some (suc i)
  | none ↦ if c == b then some 0 else none
]

abbrev pub column_after : Option ℕ → ℕ → ℕ
column_after (some i) offset = offset - i - 1
column_after none offset = offset

unfoldable pub byte_offset_to_line_col : Text → ℕ → ℕ × ℕ
unfolding rfind
byte_offset_to_line_col source offset =
    let clamped = min offset (length source) in
    let before = take clamped source in
    (count b'\n' before, column_after (rfind b'\n' before) clamped)

-- One diagnostic of a chunk, moved to the place of the chunk; lines are counted from 1.
unfoldable pub move : ℕ → ℕ → Diagnostic → Diagnostic
move base_line base_col d =
    let columns =
      if d.line == 1
      then record d { column = d.column + base_col; end_column = d.end_column + base_col }
      else d in
    record columns { line = d.line + base_line; end_line = d.end_line + base_line }

-- What `parse_for_diagnostics` returns: statements, or diagnostics.
pub data Parsed (Statement : Type 0) : Type 0 where
  parsed : List Statement → Parsed Statement
  failed : List Diagnostic → Parsed Statement

module _ (lex : Text → List Token) where
  unfoldable pub split_into_chunks : Text → List Chunk
  unfolding cut split_kind split_tokens last_chunk
  split_into_chunks source =
      let split = split_tokens (lex source) start_splitter in
      let chunks = last_chunk source split in
      if ltb max_source (length source)
      then whole source
      else if is_empty chunks && not (is_blank source)
      then whole source
      else chunks

  module _ {Statement : Type 0} (parse_for_diagnostics : Text → Parsed Statement) where
    abbrev chunk_source : Text → Chunk → Text
    chunk_source source c = take (c.end - c.start) (drop c.start source)

    abbrev absorb :
        Text
        → Chunk
        → Parsed Statement
        → List Statement × List Diagnostic
        → List Statement × List Diagnostic
    absorb source c (parsed stmts) (all_stmts, all_diags) = (all_stmts ++ stmts, all_diags)
    absorb source c (failed diags) (all_stmts, all_diags) =
        let (base_line, base_col) = byte_offset_to_line_col source c.start in
        (all_stmts, all_diags ++ map (move base_line base_col) diags)

    pub parse_chunk :
        Text → Chunk → List Statement × List Diagnostic → List Statement × List Diagnostic
    parse_chunk source c out =
        if is_blank (chunk_source source c)
        then out
        else absorb source c (parse_for_diagnostics (chunk_source source c)) out

    pub parse_chunks :
        Text → List Chunk → List Statement × List Diagnostic → List Statement × List Diagnostic
    parse_chunks source [] out = out
    parse_chunks source (c ∷ cs) out = parse_chunks source cs (parse_chunk source c out)

    unfoldable pub parse_with_recovery : Text → List Statement × List Diagnostic
    unfolding parse_chunk parse_chunks
    parse_with_recovery source =
        if is_blank source
        then ([], [])
        else parse_chunks source (split_into_chunks source) ([], [])
