-- ===== src/Lint.antt =====
-- src/lint.rs: the lints over a schema graph and its sources, and the automatic fix. A source is the
-- text of its path with its content.
pub mod Fixes
pub mod Locations
pub mod Passes
pub mod Placed
pub mod Results
use surql_parser.Prelude.{
  ℕ, zero, suc, ◌+◌, Bool, true, false, not, ◌&&◌, ◌||◌, Option, none, some, List, [], ◌∷◌, ◌++◌,
  ◌==◌, leb, if◌then◌else◌, is_empty, take, drop, length, keep, codes, Text, is_whitespace,
  to_upper,
}
use surql_parser.Strings.{
  starts_with, contains_text, find_text, ends_with, trim, trim_start, trim_end, leading_ws,
  uppercase, init,
}
use surql_parser.Strings.Lines.{lines, unlines}
use surql_parser.Strings.Edit.{edit_lines}

-- A definition of a field on one line, without a type.
abbrev pub is_fixable : Text → Bool
is_fixable line =
    let trimmed = trim line in
    let upper = uppercase trimmed in
    starts_with (codes "DEFINE FIELD") upper
    && ends_with b';' trimmed
    && not (contains_text (codes " TYPE ") upper)
    && not (contains_text (codes " FLEXIBLE ") upper)

pub fix_line : Text → Text
fix_line line =
    if is_fixable line then leading_ws line ++ (init (trim line) ++ codes " TYPE any;") else line

abbrev pub fix_step : Unit {0} → Text → Unit {0} × Text
fix_step u line = (tt, fix_line line)

abbrev pub count_fixes : List Text → ℕ
count_fixes [] = 0
count_fixes (l ∷ ls) = let rest = count_fixes ls in if is_fixable l then suc rest else rest

-- The fixed text and the number of fixes.
unfoldable pub apply_fixes : Text → Text × ℕ
unfolding fix_line edit_lines lines trim trim_start trim_end leading_ws to_upper is_whitespace
apply_fixes source =
    let fixed = unlines (edit_lines fix_step tt (lines source)) in
    (
      if ends_with b'\n' source || is_empty fixed then fixed else init fixed,
      count_fixes (lines source),
    )
