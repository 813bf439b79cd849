-- ===== src/Lsp/References.antt =====
-- `extract_table_references` of lsp/src/context.rs: the tables that the statements of a source name. The
-- lexer is a parameter, with no tokens where it panics; case is that of ASCII.
pub mod Exact
use surql_parser.Prelude.{
  ℕ, zero, suc, ◌+◌, Bool, true, false, not, ◌&&◌, ◌||◌, Option, none, some, List, [], ◌∷◌, ◌++◌,
  leb, ltb, ◌==◌, if◌then◌else◌, length, take, drop, is_empty, map, Text, codes, text_eq, to_lower,
}
use Prim.Native.String.{String}
use surql_parser.Prelude.SortedSet.{contains}
use surql_parser.Strings.{starts_with, ends_with, init, uppercase}
use surql_parser.Token.{Token, TokenKind, token_end}
use surql_parser.Recovery.{max_source}
use surql_parser.Lsp.Position.{offset_to_line_col}

pub record TableReference : Type 0 where
  pub name : Text
  pub line : ℕ
  pub col : ℕ
  pub len : ℕ

abbrev pub is_keyword : TokenKind → Bool
is_keyword TokenKind.keyword = true
is_keyword _ = false

-- `TokenKind::Identifier | TokenKind::Keyword(_)`
abbrev pub is_name_kind : TokenKind → Bool
is_name_kind TokenKind.keyword = true
is_name_kind TokenKind.identifier = true
is_name_kind _ = false

abbrev pub is_semi_colon : TokenKind → Bool
is_semi_colon TokenKind.semi_colon = true
is_semi_colon _ = false

unfoldable pub token_text : Token → Text → Text
token_text t source =
    if leb (token_end t) (length source) then take t.len (drop t.offset source) else []

-- `is_keyword(i) && text_of(i).eq_ignore_ascii_case(word)`
unfoldable pub is_the_keyword : String → Text → Token → Bool
is_the_keyword word source t =
    is_keyword t.kind && text_eq (uppercase (token_text t source)) (codes word)

abbrev strip_first : Text → Text
strip_first [] = []
strip_first (c ∷ t) = if c == b'`' then t else c ∷ t

abbrev strip_last : Text → Text
strip_last t = if ends_with b'`' t then init t else t

unfoldable pub strip_backticks : Text → Text
strip_backticks t = strip_last (strip_first t)

abbrev builtin_tables : List Text
builtin_tables =
    codes "none"
    ∷ codes "null"
    ∷ codes "true"
    ∷ codes "false"
    ∷ codes "only"
    ∷ codes "type"
    ∷ codes "if"
    ∷ codes "else"
    ∷ codes "then"
    ∷ codes "end"
    ∷ []

pub is_surql_builtin_table : Text → Bool
unfolding to_lower
is_surql_builtin_table name = contains builtin_tables (map to_lower name)

abbrev pub is_modifier : Text → Token → Bool
is_modifier source t = is_the_keyword "ONLY" source t || is_the_keyword "TABLE" source t

-- The token behind the modifiers.
unfoldable pub skip_modifiers : Text → List Token → Option Token
skip_modifiers source [] = none
skip_modifiers source (t ∷ ts) =
    let further = skip_modifiers source ts in if is_modifier source t then further else some t

-- `refs.push(TableReference { … })`
unfoldable pub reference : Text → Token → TableReference
reference source t =
    let (line, col) = offset_to_line_col source t.offset in
    record { name = strip_backticks (token_text t source); line = line; col = col; len = t.len }

abbrev pub is_reference : Text → Token → Bool
is_reference source t =
    let name = strip_backticks (token_text t source) in
    is_name_kind t.kind && not (is_empty name) && not (is_surql_builtin_table name)

abbrev pub named : Text → Option Token → List TableReference
named source none = []
named source (some t) = if is_reference source t then reference source t ∷ [] else []

-- The token before, `i > 0 && is_keyword(i - 1) && …`
abbrev pub is_insert : Text → Option Token → Bool
is_insert source none = false
is_insert source (some t) = is_the_keyword "INSERT" source t

-- A table is named behind this token.
pub introduces : Text → Option Token → Token → Bool
introduces source before t =
    is_the_keyword "FROM" source t
    || is_the_keyword "UPDATE" source t
    || is_the_keyword "CREATE" source t
    || is_the_keyword "DELETE" source t
    || is_the_keyword "UPSERT" source t
    || (is_the_keyword "INTO" source t && is_insert source before)

-- The loop, with the token before and `in_define`.
pub references_from : Text → Option Token → Bool → List Token → List TableReference
references_from source before in_define [] = []
references_from source before in_define (t ∷ ts) =
    let defined = references_from source (some t) true ts in
    let further = references_from source (some t) false ts in
    if is_semi_colon t.kind
    then further
    else if in_define || is_the_keyword "DEFINE" source t
    then defined
    else if introduces source before t
    then named source (skip_modifiers source ts) ++ further
    else further

abbrev pub from_tokens : Text → Option (List Token) → List TableReference
from_tokens source none = []
from_tokens source (some ts) = references_from source none false ts

unfoldable pub extract_table_references : (Text → Option (List Token)) → Text → List TableReference
unfolding token_text is_the_keyword strip_backticks is_surql_builtin_table skip_modifiers reference
    introduces references_from
extract_table_references lex source =
    if is_empty source || ltb max_source (length source)
    then []
    else from_tokens source (lex source)
