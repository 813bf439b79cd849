-- ===== src/Lint/Locations.antt =====
-- src/lint.rs: what a lint reports, and where the sources define a field, a table or a function.
use surql_parser.Prelude.{
  ℕ, suc, Bool, ◌&&◌, ◌||◌, Option, none, some, List, [], ◌∷◌, ◌++◌, if◌then◌else◌, codes, Text,
  to_upper,
}
use surql_parser.Strings.{contains_text, find_text, uppercase}
use surql_parser.Strings.Lines.{lines}

pub data LintSeverity : Type 0 where
  warning info : LintSeverity

pub record LintResult : Type 0 where
  pub file : Text
  pub line : ℕ
  pub col : ℕ
  pub code : Text
  pub message : Text
  pub severity : LintSeverity

-- A path with its content.
abbrev pub Source : Type 0
Source = Text × Text

-- A file, a line and a column, the latter two from 1.
abbrev pub Location : Type 0
Location = Text × ℕ × ℕ

abbrev pub or_one : Option ℕ → ℕ
or_one none = 1
or_one (some p) = suc p

abbrev pub in_file : Text → Option (ℕ × ℕ) → Option Location
in_file path none = none
in_file path (some (line, col)) = some (path, line, col)

-- The first line that passes the test, with the column on it; the number is that of the first line.
unfoldable pub find_line : (Text → Bool) → (Text → ℕ) → ℕ → List Text → Option (ℕ × ℕ)
find_line test column n [] = none
find_line test column n (l ∷ ls) =
    let rest = find_line test column (suc n) ls in if test l then some (n, column l) else rest

-- The loop over the sources and their lines.
unfoldable pub find_location : (Text → Bool) → (Text → ℕ) → List Source → Option Location
unfolding find_line lines
find_location test column [] = none
find_location test column ((path, content) ∷ sources) =
    let rest = find_location test column sources in
    elim (in_file path (find_line test column 1 (lines content))) [ none ↦ rest | some l ↦ some l ]

abbrev pub has_field : Text → Text → Text → Bool
has_field table field line =
    let upper = uppercase line in
    let define = codes "DEFINE FIELD " ++ field ++ codes " ON " in
    contains_text (uppercase (define ++ table)) upper
    || contains_text (uppercase (define ++ codes "TABLE " ++ table)) upper

unfoldable pub find_field_location : List Source → Text → Text → Option Location
unfolding find_location find_text to_upper
find_field_location sources table field =
    find_location (has_field table field)
      (λ line. or_one (find_text (codes "DEFINE FIELD") (uppercase line))) sources

abbrev pub has_table : Text → Text → Bool
has_table table line = contains_text (uppercase (codes "DEFINE TABLE " ++ table)) (uppercase line)

-- The column is found in the upper-cased line; upper-casing is that of ASCII here, which is what the
-- source's `to_uppercase` is on ASCII lines only.
unfoldable pub find_define_table_location : List Source → Text → Option Location
unfolding find_location find_text to_upper
find_define_table_location sources table =
    find_location (has_table table)
      (λ line. or_one (find_text (codes "DEFINE TABLE") (uppercase line))) sources

abbrev pub has_function : Text → Text → Bool
has_function name line =
    contains_text (codes "DEFINE FUNCTION") (uppercase line)
    && contains_text (codes "fn::" ++ name) line

unfoldable pub find_define_function_location : List Source → Text → Option Location
unfolding find_location find_text to_upper
find_define_function_location sources name =
    find_location (has_function name) (λ line. or_one (find_text (codes "DEFINE") line)) sources
