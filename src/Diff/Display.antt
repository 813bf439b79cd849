-- ===== src/Diff/Display.antt =====
-- The output of a diff as text, `impl Display for SchemaDiff` of src/diff.rs.
use surql_parser.Prelude.{Bool, List, [], ◌∷◌, ◌++◌, if◌then◌else◌, Text, codes}
use surql_parser.Diff.{SchemaDiff, TableChange, FieldTypeChange, diff_is_empty}

-- `for x in xs { writeln!(f, …)?; }`
writeln_each {ℓ} : {A : Type ℓ} → (A → Text) → List A → Text
writeln_each line [] = []
writeln_each line (x ∷ xs) = line x ++ codes "\n" ++ writeln_each line xs

abbrev show_mode : Bool → Text
show_mode full = if full then codes "SCHEMAFULL" else codes "SCHEMALESS"

abbrev show_table_change : TableChange → Text
show_table_change c =
    codes "~ TABLE "
    ++ c.name
    ++ codes ": "
    ++ show_mode c.before_full
    ++ codes " -> "
    ++ show_mode c.after_full

abbrev show_type_change : FieldTypeChange → Text
show_type_change c =
    codes "~ FIELD "
    ++ c.field
    ++ codes " ON "
    ++ c.table
    ++ codes ": "
    ++ c.before_type
    ++ codes " -> "
    ++ c.after_type

abbrev show_name : Text → Text → Text
show_name what name = what ++ name

abbrev show_on : Text → Text × Text → Text
show_on what (table, name) = what ++ name ++ codes " ON " ++ table

-- The lines of a diff that is not empty, in the order of the kinds of changes.
abbrev show_changes : SchemaDiff → Text
show_changes d =
    writeln_each (show_name (codes "+ TABLE ")) d.added_tables
    ++ writeln_each (show_name (codes "- TABLE ")) d.removed_tables
    ++ writeln_each show_table_change d.changed_tables
    ++ writeln_each (show_on (codes "+ FIELD ")) d.added_fields
    ++ writeln_each (show_on (codes "- FIELD ")) d.removed_fields
    ++ writeln_each show_type_change d.changed_fields
    ++ writeln_each (show_on (codes "+ INDEX ")) d.added_indexes
    ++ writeln_each (show_on (codes "- INDEX ")) d.removed_indexes
    ++ writeln_each (show_on (codes "+ EVENT ")) d.added_events
    ++ writeln_each (show_on (codes "- EVENT ")) d.removed_events
    ++ writeln_each (show_name (codes "+ FUNCTION fn::")) d.added_functions
    ++ writeln_each (show_name (codes "- FUNCTION fn::")) d.removed_functions

-- `to_string()`
unfoldable pub show_diff : SchemaDiff → Text
unfolding writeln_each
show_diff d = if diff_is_empty d then codes "No schema changes." else show_changes d
