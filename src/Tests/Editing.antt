-- ===== src/Tests/Editing.antt =====
-- The line edits and the buckets of files on small inputs.
use surql_parser.Prelude.{arith, List, [], ◌∷◌, ◌++◌, ◌≡◌, refl, codes, Text}
use surql_parser.Mcp.{inject_overwrite}
use surql_parser.Mcp.Overwrite.{inject_overwrite_idempotent}
use surql_parser.Lint.{apply_fixes}
use surql_parser.Lint.Fixes.{apply_fixes_idempotent}

-- One definition, behind a blank and before a comment.
abbrev schema_file : Text
schema_file = codes " define Table user;" ++ b'\n' ∷ codes "-- DEFINE TABLE x"

overwritten :
    inject_overwrite schema_file
    ≡ codes " define Table OVERWRITE user;" ++ b'\n' ∷ codes "-- DEFINE TABLE x"
unfolding inject_overwrite
overwritten = refl

inject_overwrite_idempotent_example :
    inject_overwrite (inject_overwrite schema_file) ≡ inject_overwrite schema_file
inject_overwrite_idempotent_example = inject_overwrite_idempotent schema_file (ground arith)

abbrev field_file : Text
field_file = codes " Define field a ON t;" ++ b'\n' ∷ codes "DEFINE FIELD b ON t TYPE int;"

typed :
    apply_fixes field_file
    ≡ (codes " Define field a ON t TYPE any;" ++ b'\n' ∷ codes "DEFINE FIELD b ON t TYPE int;", 1)
unfolding apply_fixes
typed = refl

apply_fixes_idempotent_example :
    apply_fixes (apply_fixes field_file).0 ≡ ((apply_fixes field_file).0, 0)
apply_fixes_idempotent_example = apply_fixes_idempotent field_file (ground arith)

abbrev project_files : List (List Text)
project_files =
    (codes "schema" ∷ codes "user.surql" ∷ [])
    ∷ (codes "Tests" ∷ codes "schema.surql" ∷ [])
    ∷ (codes "schema_post.surql" ∷ [])
    ∷ []
