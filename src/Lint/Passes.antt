-- ===== src/Lint/Passes.antt =====
-- src/lint.rs: the five passes and `lint_schema`.
use Prim.Native.Nat.{◌%◌}
use surql_parser.Prelude.{
  flat, ℕ, suc, ◌+◌, Bool, true, false, not, ◌&&◌, ◌||◌, Option, none, some, List, [], ◌∷◌, ◌++◌,
  ◌==◌, leb, ltb, if◌then◌else◌, is_empty, take, drop, length, any, codes, Text, text_compare,
  Ordering, is_ascii_alphanumeric, to_upper,
}
use surql_parser.Prelude.Sorting.{sort_by}
use surql_parser.Strings.{starts_with, contains_text, find_text, trim, trim_start, uppercase}
use surql_parser.Strings.Lines.{lines, join_lines}
use surql_parser.Schema.{table, table_names, function_names, fields_of, indexes_of}
use surql_parser.Schema.Model.{SchemaGraph, FieldDef}
use surql_parser.Overshift.Migration.{decimal}
use surql_parser.Lint.Locations.{
  LintSeverity, LintResult, Source, Location, find_field_location, find_define_table_location,
  find_define_function_location,
}

-- The dash in the messages, U+2014.
abbrev dash : Text
dash = 226 ∷ 128 ∷ 148 ∷ []

-- `let Some((file, line, col)) = location else { continue }`, and the result that is pushed behind it.
abbrev pub report : Text → Text → LintSeverity → Option Location → List LintResult
report code message severity none = []
report code message severity (some (file, line, col)) =
    record {
      file = file;
      line = line;
      col = col;
      code = code;
      message = message;
      severity = severity;
    }
    ∷ []

abbrev pub missing_type : List Source → Text → FieldDef → List LintResult
missing_type sources name f = elim f.kind [
  | some kind ↦ []
  | none ↦
      report (codes "missing-type")
        (codes "DEFINE FIELD "
          ++ f.name
          ++ codes " ON "
          ++ name
          ++ codes " "
          ++ dash
          ++ codes " no TYPE specified")
        LintSeverity.warning (find_field_location sources name f.name)
]

unfoldable pub lint_missing_type : SchemaGraph → List Source → List LintResult
unfolding find_field_location
lint_missing_type g sources =
    flat (λ name. flat (missing_type sources name) (fields_of g name)) (table_names g)

abbrev pub schemaless : SchemaGraph → List Source → Text → List LintResult
schemaless g sources name = elim (table g name) [
  | none ↦ []
  | some t ↦
      if t.full
      then []
      else report (codes "schemaless-table")
          (codes "DEFINE TABLE " ++ name ++ codes " " ++ dash ++ codes " consider SCHEMAFULL")
          LintSeverity.warning (find_define_table_location sources name)
]

unfoldable pub lint_schemaless_table : SchemaGraph → List Source → List LintResult
unfolding find_define_table_location
lint_schemaless_table g sources = flat (schemaless g sources) (table_names g)

abbrev occurrences : ℕ → Text → ℕ
occurrences c [] = 0
occurrences c (d ∷ t) = let rest = occurrences c t in if d == c then suc rest else rest

abbrev is_odd : ℕ → Bool
is_odd n = n % 2 == 1

-- An odd number of quotes of a kind.
abbrev pub is_inside_string : Text → Bool
is_inside_string before = is_odd (occurrences b'\'' before) || is_odd (occurrences b'"' before)

abbrev pub is_comment : Text → Bool
is_comment trimmed = starts_with (codes "--") trimmed || starts_with (codes "//") trimmed

-- `trim_end_matches(';')`
abbrev without_semicolons : Text → Text
without_semicolons [] = []
without_semicolons (c ∷ t) =
    let rest = without_semicolons t in if is_empty rest && c == b';' then [] else c ∷ rest

abbrev pub takes_all : Text → Bool
takes_all after =
    starts_with (codes "FROM") (trim_start after)
    || starts_with (codes ",") (trim_start after)
    || is_empty (trim_start after)

-- One line, with its number from 1.
abbrev pub select_star : Text → ℕ → Text → List LintResult
select_star file n line =
    if is_comment (trim line) then [] else elim (find_text (codes "SELECT *") (uppercase line)) [
      | none ↦ []
      | some pos ↦
          let before = take pos line in
          if contains_text (codes "--") before
            || contains_text (codes "//") before
            || is_inside_string before
          then []
          else if takes_all (drop (pos + 8) (uppercase line))
          then report (codes "select-star")
              (without_semicolons (trim line)
                ++ codes " "
                ++ dash
                ++ codes " specify fields for production")
              LintSeverity.info (some (file, n, suc pos))
          else []
    ]

unfoldable pub select_stars : Text → ℕ → List Text → List LintResult
unfolding find_text trim trim_start to_upper
select_stars file n [] = []
select_stars file n (l ∷ ls) = select_star file n l ++ select_stars file (suc n) ls

unfoldable pub lint_select_star : List Source → List LintResult
unfolding select_stars lines
lint_select_star sources = flat (λ s. select_stars s.0 1 (lines s.1)) sources

abbrev pub missing_index : SchemaGraph → List Source → Text → List LintResult
missing_index g sources name =
    if leb 5 (length (fields_of g name)) && is_empty (indexes_of g name)
    then report (codes "missing-index")
        (codes "DEFINE TABLE "
          ++ name
          ++ codes " has "
          ++ decimal (length (fields_of g name)) (length (fields_of g name))
          ++ codes " fields but no indexes")
        LintSeverity.info (find_define_table_location sources name)
    else []

unfoldable pub lint_missing_index : SchemaGraph → List Source → List LintResult
unfolding find_define_table_location decimal
lint_missing_index g sources = flat (missing_index g sources) (table_names g)

-- The byte behind the name ends it.
abbrev at_boundary : Text → Bool
at_boundary [] = true
at_boundary (c ∷ t) = not (is_ascii_alphanumeric c) && not (c == b'_') && not (c == b':')

-- The line is no definition and no comment, and its first `fn::name` ends at a boundary.
abbrev calls : Text → Text → Bool
calls pattern line =
    not (starts_with (codes "DEFINE FUNCTION") (uppercase (trim line)))
    && not (is_comment (trim line))
    && elim (find_text pattern line) [
      | none ↦ false
      | some pos ↦ at_boundary (drop (pos + length pattern) line)
    ]

unfoldable pub is_called : List Source → Text → Bool
unfolding find_text trim to_upper is_ascii_alphanumeric lines
is_called sources name =
    any (calls (codes "fn::" ++ name)) (lines (join_lines (map_content sources)))
  where
    map_content : List Source → List Text
    map_content [] = []
    map_content (s ∷ ss) = s.1 ∷ map_content ss

abbrev pub unused : List Source → Text → List LintResult
unused sources name =
    if is_called sources name
    then []
    else report (codes "unused-function")
        (codes "fn::" ++ name ++ codes " is defined but never called in the project")
        LintSeverity.info (find_define_function_location sources name)

unfoldable pub lint_unused_function : SchemaGraph → List Source → List LintResult
unfolding is_called find_define_function_location
lint_unused_function g sources = flat (unused sources) (function_names g)

-- By file, line and column.
abbrev pub result_le : LintResult → LintResult → Bool
result_le a b = elim (text_compare a.file b.file) [
  | Ordering.lt ↦ true
  | Ordering.gt ↦ false
  | Ordering.eq ↦ ltb a.line b.line || (a.line == b.line && leb a.col b.col)
]

unfoldable pub lint_schema : SchemaGraph → List Source → List LintResult
unfolding lint_missing_type lint_schemaless_table lint_select_star lint_missing_index
    lint_unused_function sort_by
lint_schema g sources = sort_by result_le (
    lint_missing_type g sources
    ++ (lint_schemaless_table g sources
        ++ (lint_select_star sources
            ++ (lint_missing_index g sources ++ lint_unused_function g sources))))
