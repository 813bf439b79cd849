-- ===== src/Tests/Lints.antt =====
-- The lints of a small schema.
use mathlib.Core.List.{Memᴰ}
use mathlib.Core.List.Memᴰ
use surql_parser.Prelude.{
  inl, inr, ℕ, none, List, [], ◌∷◌, ◌++◌, ◌≡◌, refl, codes, Text, map, text_compare,
}
use surql_parser.Prelude.HashMap.{lookup}
use surql_parser.Prelude.Sorting.{IsSortedBy}
use surql_parser.Schema.Model.{SchemaGraph, FieldDef}
use surql_parser.Lint.Locations.{LintResult, Source}
use surql_parser.Lint.Passes.{result_le, lint_schema}
use surql_parser.Lint.Placed.{IsPlaced}
use surql_parser.Lint.Results.{IsAscii, lint_schema-IsPlaced}
use surql_parser.Tests.Schema.{field, schemaless, of_tables, user}

abbrev untyped : FieldDef
untyped = record (field (codes "name") []) { kind = none }

abbrev graph : SchemaGraph
graph = of_tables ((user, schemaless user (untyped ∷ [])) ∷ [])

abbrev sources : List Source
sources =
    (
      codes "a.surql",
      codes "SELECT * FROM user;"
          ++ b'\n' ∷ codes "DEFINE TABLE user;"
          ++ b'\n' ∷ codes " DEFINE FIELD name ON user;",
    )
    ∷ []

abbrev brief : LintResult → ℕ × ℕ × Text
brief r = (r.line, r.col, r.code)

found :
    map brief (lint_schema graph sources)
    ≡ (1, 1, codes "select-star")
      ∷ (2, 1, codes "schemaless-table")
      ∷ (3, 2, codes "missing-type")
      ∷ []
unfolding lint_schema text_compare lookup
found = refl

sources-IsAscii : (s : Source) → Memᴰ s sources → IsAscii s
sources-IsAscii s m = elim (Memᴰ.cases_cons m) [
  | inl e ↦ rw e refl
  | inr n ↦ absurd (Memᴰ.not-nil n)
]

lint_schema-IsPlaced_example :
    ((r : LintResult) → Memᴰ r (lint_schema graph sources) → IsPlaced sources r)
    × IsSortedBy result_le (lint_schema graph sources)
lint_schema-IsPlaced_example = lint_schema-IsPlaced graph sources sources-IsAscii
