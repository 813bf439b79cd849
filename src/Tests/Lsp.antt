-- ===== src/Tests/Lsp.antt =====
-- Positions and references to tables in small documents.
use surql_parser.Prelude.{
  ℕ, All, true, false, none, some, List, [], ◌∷◌, ◌≡◌, ◌↔◌, refl, codes, Text, text_compare,
  to_lower, to_upper, arith, ◌++◌,
}
use mathlib.Core.List.{Memᴰ}
use surql_parser.Token.{Token, TokenKind}
use surql_parser.Lsp.Position.{position_to_byte_offset, offset_to_line_col}
use surql_parser.Lsp.Position.Inverse.{text_before, position_to_byte_offset-utf16_len}
use surql_parser.Lsp.Position.Lines.{utf16_len}
use surql_parser.Lsp.References.{
  token_text, is_the_keyword, strip_backticks, skip_modifiers, TableReference,
  extract_table_references, is_reference, reference,
}
use surql_parser.Prelude.Sorting.{sort_by, insert_by}
use surql_parser.Lsp.Embedded.{EmbeddedRegion, statement, function_name, extract_surql_from_rust}
use surql_parser.Lsp.Embedded.Regions.{IsRegion}
use surql_parser.Lsp.Embedded.Found.{extract_surql_from_rust-IsRegion}
use surql_parser.Lsp.Occurrences.{extract_all_table_occurrences}
use surql_parser.Lsp.Occurrences.Sound.{IsStrict, IsOccurrence, extract_all_table_occurrences_sound}
use surql_parser.Lsp.References.Exact.{Named, extract_table_references_iff}

-- Two lines that end with CRLF.
abbrev document : Text
document = codes "SELECT *" ++ 13 ∷ b'\n' ∷ codes "FROM user;" ++ 13 ∷ b'\n' ∷ []

position_found : offset_to_line_col document 15 ≡ (1, 5)
unfolding offset_to_line_col
position_found = refl

-- Behind a character of two bytes the byte column is no UTF-16 column.
abbrev accented : Text
accented = 195 ∷ 169 ∷ codes " x"

column_of_bytes : position_to_byte_offset accented (offset_to_line_col accented 3) ≡ 4
unfolding position_to_byte_offset offset_to_line_col
column_of_bytes = refl

position_to_byte_offset-utf16_len_example :
    position_to_byte_offset accented
      ((offset_to_line_col accented 3).0, utf16_len (text_before accented 3))
    ≡ 3
position_to_byte_offset-utf16_len_example =
    position_to_byte_offset-utf16_len accented 3 (omega arith) refl refl

abbrev at : TokenKind → ℕ → ℕ → Token
at kind offset len = record { kind = kind; offset = offset; len = len }

abbrev statements : Text
statements = codes "DEFINE TABLE a; DELETE ONLY b; INSERT INTO c"

abbrev tokens : List Token
tokens =
    at TokenKind.keyword 0 6
    ∷ at TokenKind.keyword 7 5
    ∷ at TokenKind.identifier 13 1
    ∷ at TokenKind.semi_colon 14 1
    ∷ at TokenKind.keyword 16 6
    ∷ at TokenKind.keyword 23 4
    ∷ at TokenKind.identifier 28 1
    ∷ at TokenKind.semi_colon 29 1
    ∷ at TokenKind.keyword 31 6
    ∷ at TokenKind.keyword 38 4
    ∷ at TokenKind.identifier 43 1
    ∷ []

abbrev to_b : TableReference
to_b = record { name = codes "b"; line = 0; col = 28; len = 1 }

references_found :
    extract_table_references (λ source. some tokens) statements
    ≡ to_b ∷ record { name = codes "c"; line = 0; col = 43; len = 1 } ∷ []
unfolding extract_table_references offset_to_line_col text_compare to_lower to_upper
references_found = refl

extract_table_references_iff_example :
    Memᴰ to_b (extract_table_references (λ source. some tokens) statements) ↔ (
      (t : Token) × Named statements none false tokens t
      × (is_reference statements t ≡ true)
      × (to_b ≡ reference statements t))
extract_table_references_iff_example =
    extract_table_references_iff (λ source. some tokens) statements tokens to_b refl refl refl

-- A macro with white space and an escaped quote, and an attribute.
abbrev rust_source : Text
rust_source = codes "surql_query!( \"a = \\\"b\\\"\");\n#[surql_function(\"fn::get\")]"

regions_found :
    extract_surql_from_rust rust_source
    ≡ some (
        record {
          content = codes "a = \\\"b\\\"";
          offset = 15;
          line = 0;
          col = 15;
          kind = statement;
        }
        ∷ record {
          content = codes "fn::get";
          offset = 46;
          line = 1;
          col = 18;
          kind = function_name;
        }
        ∷ [])
unfolding extract_surql_from_rust offset_to_line_col
regions_found = refl

extract_surql_from_rust-IsRegion_example :
    (rs : List EmbeddedRegion) × (extract_surql_from_rust rust_source ≡ some rs)
    × All (IsRegion rust_source) rs
extract_surql_from_rust-IsRegion_example = extract_surql_from_rust-IsRegion rust_source

extract_all_table_occurrences_sound_example :
    IsStrict (extract_all_table_occurrences (λ source. some tokens) statements (codes "B"))
    × All
        (IsOccurrence statements (codes "B") tokens)
        (extract_all_table_occurrences (λ source. some tokens) statements (codes "B"))
extract_all_table_occurrences_sound_example =
    extract_all_table_occurrences_sound (λ source. some tokens) statements (codes "B") tokens refl

occurrences_found :
    extract_all_table_occurrences (λ source. some tokens) statements (codes "B") ≡ to_b ∷ []
unfolding extract_all_table_occurrences sort_by insert_by skip_modifiers reference token_text
    is_the_keyword strip_backticks offset_to_line_col text_compare to_upper
occurrences_found = refl
