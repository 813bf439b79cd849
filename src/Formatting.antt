-- ===== src/Formatting.antt =====
-- src/formatting.rs: the formatter. The lexer is a parameter, with no tokens where it panics; upper case
-- is that of ASCII.
pub mod Config
pub mod Skeleton
use Prim.Native.Nat.{◌-◌}
use surql_parser.Prelude.{
  ℕ, zero, suc, ◌+◌, Bool, true, false, not, ◌&&◌, ◌||◌, Option, none, some, List, [], ◌∷◌, ◌++◌,
  ltb, leb, ◌==◌, if◌then◌else◌, length, take, drop, is_empty, any, map, codes, Text, text_eq,
  is_whitespace, to_upper,
}
use surql_parser.Prelude.SortedSet.{contains}
use surql_parser.Token.{Token, TokenKind, Delim, token_end}
use surql_parser.Recovery.{max_source, is_blank, count, rfind}
use surql_parser.Formatting.Config.{FormatConfig, indent_str, repeat}

abbrev pub uppercased : Text → Text
uppercased t = map to_upper t

abbrev formattable_keywords : List Text
formattable_keywords =
    codes "SELECT"
    ∷ codes "FROM"
    ∷ codes "WHERE"
    ∷ codes "AND"
    ∷ codes "OR"
    ∷ codes "NOT"
    ∷ codes "IN"
    ∷ codes "ORDER"
    ∷ codes "BY"
    ∷ codes "GROUP"
    ∷ codes "LIMIT"
    ∷ codes "OFFSET"
    ∷ codes "FETCH"
    ∷ codes "CREATE"
    ∷ codes "UPDATE"
    ∷ codes "DELETE"
    ∷ codes "INSERT"
    ∷ codes "INTO"
    ∷ codes "SET"
    ∷ codes "UPSERT"
    ∷ codes "MERGE"
    ∷ codes "CONTENT"
    ∷ codes "RETURN"
    ∷ codes "DEFINE"
    ∷ codes "REMOVE"
    ∷ codes "TABLE"
    ∷ codes "FIELD"
    ∷ codes "INDEX"
    ∷ codes "EVENT"
    ∷ codes "FUNCTION"
    ∷ codes "PARAM"
    ∷ codes "NAMESPACE"
    ∷ codes "DATABASE"
    ∷ codes "ANALYZER"
    ∷ codes "ACCESS"
    ∷ codes "SCHEMAFULL"
    ∷ codes "SCHEMALESS"
    ∷ codes "TYPE"
    ∷ codes "DEFAULT"
    ∷ codes "READONLY"
    ∷ codes "FLEXIBLE"
    ∷ codes "UNIQUE"
    ∷ codes "FIELDS"
    ∷ codes "ON"
    ∷ codes "WHEN"
    ∷ codes "THEN"
    ∷ codes "ELSE"
    ∷ codes "END"
    ∷ codes "IF"
    ∷ codes "FOR"
    ∷ codes "LET"
    ∷ codes "BEGIN"
    ∷ codes "COMMIT"
    ∷ codes "CANCEL"
    ∷ codes "TRANSACTION"
    ∷ codes "USE"
    ∷ codes "NS"
    ∷ codes "DB"
    ∷ codes "AS"
    ∷ codes "IS"
    ∷ codes "LIKE"
    ∷ codes "CONTAINS"
    ∷ codes "CONTAINSALL"
    ∷ codes "CONTAINSANY"
    ∷ codes "CONTAINSNONE"
    ∷ codes "INSIDE"
    ∷ codes "OUTSIDE"
    ∷ codes "INTERSECTS"
    ∷ codes "ALLINSIDE"
    ∷ codes "ANYINSIDE"
    ∷ codes "NONEINSIDE"
    ∷ codes "ASC"
    ∷ codes "DESC"
    ∷ codes "COLLATE"
    ∷ codes "NUMERIC"
    ∷ codes "COMMENT"
    ∷ codes "PERMISSIONS"
    ∷ codes "FULL"
    ∷ codes "NONE"
    ∷ codes "RELATE"
    ∷ codes "ONLY"
    ∷ codes "VALUE"
    ∷ codes "VALUES"
    ∷ codes "OVERWRITE"
    ∷ codes "EXISTS"
    ∷ codes "ASSERT"
    ∷ codes "ENFORCED"
    ∷ codes "DROP"
    ∷ codes "CHANGEFEED"
    ∷ codes "INCLUDE"
    ∷ codes "ORIGINAL"
    ∷ codes "LIVE"
    ∷ codes "DIFF"
    ∷ codes "KILL"
    ∷ codes "SHOW"
    ∷ codes "INFO"
    ∷ codes "SLEEP"
    ∷ codes "THROW"
    ∷ codes "BREAK"
    ∷ codes "CONTINUE"
    ∷ codes "PARALLEL"
    ∷ codes "TIMEOUT"
    ∷ codes "EXPLAIN"
    ∷ codes "SPLIT"
    ∷ codes "AT"
    ∷ codes "TOKENIZERS"
    ∷ codes "FILTERS"
    ∷ codes "WITH"
    ∷ codes "NOINDEX"
    ∷ codes "UNIQ"
    ∷ codes "SEARCH"
    ∷ []

unfoldable pub is_formattable_keyword : Text → Bool
is_formattable_keyword upper = contains formattable_keywords upper

-- `&source[a..b]`
abbrev pub slice : Text → ℕ → ℕ → Text
slice source a b = take (b - a) (drop a source)

-- The variables of the loop over the tokens.
pub record Formatter : Type 0 where
  pub result : Text
  pub last_end : ℕ
  pub depth : ℕ

module _ (config : FormatConfig) where
  pub formatted_token : TokenKind → Text → Text
  unfolding is_formattable_keyword
  formatted_token TokenKind.keyword original =
      if config.uppercase_keywords && is_formattable_keyword (uppercased original)
      then uppercased original
      else original
  formatted_token _ original = original

  -- `rest.find(…)`: is the first byte behind blanks and tabs a newline, or none there?
  pub already_newline : Text → Bool
  already_newline [] = true
  already_newline (c ∷ cs) =
      let rest = already_newline cs in if c == b' ' || c == b'\t' then rest else c == b'\n'

  -- The text between the last newline and the place.
  line_before : Text → Text
  unfolding rfind
  line_before preceding = elim (rfind b'\n' preceding) [
    | some pos ↦ drop (pos + 1) preceding
    | none ↦ preceding
  ]

  -- A newline and the indentation.
  pub broken : ℕ → Text
  broken levels = b'\n' ∷ repeat levels (indent_str config)

  pub should_newline : Text → Bool
  should_newline upper =
      (config.newline_before_where && text_eq upper (codes "WHERE"))
      || (config.newline_before_set && text_eq upper (codes "SET"))
      || (config.newline_before_from && text_eq upper (codes "FROM"))

  -- The loop over the bytes of a gap, by the newlines that are kept and those seen.
  pub collapsed : ℕ → ℕ → Text → Text
  collapsed limit seen [] = []
  collapsed limit seen (c ∷ cs) =
      let behind_newline = collapsed limit (suc seen) cs in
      let behind_other = collapsed limit seen cs in
      if c == b'\n'
      then (if leb (suc seen) limit then c ∷ behind_newline else behind_newline)
      else if leb seen limit
      then c ∷ behind_other
      else behind_other

  pub spaced : Text → Text
  unfolding collapsed
  spaced gap =
      if config.collapse_blank_lines
        && any (λ c. c == b'\n') gap
        && ltb (config.max_blank_lines + 1) (count b'\n' gap)
      then collapsed (config.max_blank_lines + 1) 0 gap
      else gap

  module _ (source : Text) where
    -- The token with the given bytes before it.
    abbrev pub placed : Token → Text → Formatter → Formatter
    placed t before f = record f {
      result = f.result ++ (before ++ formatted_token t.kind (slice source t.offset (token_end t)));
      last_end = token_end t;
    }

    pub format_semicolon : Token → Formatter → Formatter
    unfolding formatted_token already_newline broken spaced
    format_semicolon t f =
        let gap = slice source f.last_end t.offset in
        if not config.newline_after_semicolon
        then placed t (spaced gap) f
        else if already_newline (drop (token_end t) source)
        then placed t gap f
        else record (placed t gap f) { result = (placed t gap f).result ++ broken f.depth }

    pub format_keyword : Token → Formatter → Formatter
    unfolding formatted_token should_newline line_before broken spaced
    format_keyword t f =
        let gap = slice source f.last_end t.offset in
        let upper = uppercased (formatted_token t.kind (slice source t.offset (token_end t))) in
        if should_newline upper && not (is_blank (line_before (take t.offset source)))
        then placed t (broken (f.depth + 1)) f
        else placed t (spaced gap) f

    pub format_kind : TokenKind → Token → Formatter → Formatter
    unfolding formatted_token spaced
    format_kind (TokenKind.open_delim Delim.brace) t f =
        placed t (slice source f.last_end t.offset) (record f { depth = f.depth + 1 })
    format_kind (TokenKind.close_delim Delim.brace) t f =
        placed t (slice source f.last_end t.offset) (record f { depth = f.depth - 1 })
    format_kind TokenKind.semi_colon t f = format_semicolon t f
    format_kind TokenKind.keyword t f = format_keyword t f
    format_kind _ t f = placed t (spaced (slice source f.last_end t.offset)) f

    -- A token that ends behind the source is passed over.
    pub format_tokens : List Token → Formatter → Formatter
    format_tokens [] f = f
    format_tokens (t ∷ ts) f =
        format_tokens ts (if ltb (length source) (token_end t) then f else format_kind t.kind t f)

    -- `trim_end`
    trim_end : Text → Text
    trim_end [] = []
    trim_end (c ∷ cs) =
        let rest = trim_end cs in if is_empty rest && is_whitespace c then [] else c ∷ rest

    ends_with : ℕ → Text → Bool
    ends_with b [] = false
    ends_with b (c ∷ cs) = let rest = ends_with b cs in if is_empty cs then c == b else rest

    closed : Text → Text
    unfolding trim_end ends_with is_whitespace
    closed trailing =
        let trimmed = trim_end trailing in
        if not (is_empty trimmed) && not (ends_with b';' trimmed)
        then trimmed ++ b';' ∷ drop (length trimmed) trailing
        else trailing

    pub finish_text : Formatter → Text
    unfolding closed
    finish_text f =
        if ltb f.last_end (length source)
        then (if config.trailing_semicolon
            then f.result ++ closed (drop f.last_end source)
            else f.result ++ drop f.last_end source)
        else if config.trailing_semicolon
            && not (is_empty f.result)
            && not (ends_with b';' (trim_end f.result))
        then f.result ++ b';' ∷ []
        else f.result

  abbrev pub start_formatter : Formatter
  start_formatter = record { result = []; last_end = 0; depth = 0 }

  unfoldable pub format_with : Text → List Token → Text
  unfolding format_tokens format_kind format_semicolon format_keyword finish_text
  format_with source tokens = finish_text source (format_tokens source tokens start_formatter)

  -- `None` where nothing changes.
  unfoldable pub configurable_format : (Text → Option (List Token)) → Text → Option Text
  unfolding format_with
  configurable_format lex source =
      if is_empty source || ltb max_source (length source) then none else elim (lex source) [
        | none ↦ none
        | some tokens ↦
            let result = format_with source tokens in
            if text_eq result source then none else some result
      ]
