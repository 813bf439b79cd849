-- ===== src/Tests/Schema.antt =====
-- The schema graph and its comparison on two small schemas.
use surql_parser.Prelude.{
  some, none, List, [], ◌∷◌, true, false, ◌≡◌, refl, codes, Text, text_compare,
}
use surql_parser.Prelude.SortedSet.{contains, insert}
use surql_parser.Prelude.HashMap.{HashMap, lookup}
use surql_parser.Schema.{function_names, rebuild_field_index, find_field}
use surql_parser.Schema.Model.{FieldDef, TableDef, SchemaGraph}
use surql_parser.Schema.Index.{scan_tables, find_field-rebuild_field_index}
use surql_parser.Schema.Merge.{merge}
use surql_parser.Schema.Merge.Laws.{both, lookup-merge}
use surql_parser.Diff.{compare_schemas, diff_is_empty}
use surql_parser.Diff.Display.{show_diff}
use surql_parser.Diff.Same.{Agree}
use surql_parser.Diff.Empty.{diff_is_empty-Agree}
use surql_parser.Diff.Reverse.{IsReverse, compare_schemas-IsReverse}

abbrev pub field : Text → Text → FieldDef
field name kind = record {
  name = name;
  kind = some kind;
  record_links = [];
  default = none;
  readonly = false;
  comment = none;
  source = none;
}

abbrev pub schemaless : Text → List FieldDef → TableDef
schemaless name fields = record {
  name = name;
  full = false;
  table_type = codes "NORMAL";
  comment = none;
  fields = fields;
  indexes = [];
  events = [];
  source = none;
  ns = none;
  db = none;
}

abbrev pub of_tables : HashMap TableDef → SchemaGraph
of_tables tables = record { tables = tables; functions = []; params = []; field_index = [] }

abbrev pub user : Text
user = codes "user"

abbrev pub post : Text
post = codes "post"

-- Two tables with a field `name` each.
abbrev old_schema : SchemaGraph
old_schema = of_tables (
    (
      user,
      schemaless user
          (field (codes "age") (codes "int") ∷ field (codes "name") (codes "string") ∷ []),
    )
    ∷ (post, schemaless post (field (codes "name") (codes "string") ∷ []))
    ∷ [])

-- A full table `user`, and no other.
abbrev new_schema : SchemaGraph
new_schema = of_tables (
    (
      user,
      record (schemaless user (field (codes "name") (codes "option<string>") ∷ [])) { full = true },
    )
    ∷ [])

find_field-rebuild_field_index_example :
    find_field (rebuild_field_index old_schema) (codes "name")
    ≡ scan_tables (codes "name") old_schema.tables
unfolding text_compare
find_field-rebuild_field_index_example =
    find_field-rebuild_field_index old_schema (codes "name") (refl, (refl, tt))

lookup-merge_example :
    lookup user (merge old_schema new_schema).tables
    ≡ both (lookup user old_schema.tables) (lookup user new_schema.tables)
lookup-merge_example = lookup-merge old_schema new_schema user (refl, tt)

compare_schemas-IsReverse_example :
    IsReverse (compare_schemas old_schema new_schema) (compare_schemas new_schema old_schema)
compare_schemas-IsReverse_example = compare_schemas-IsReverse old_schema new_schema

-- The tables and their fields in another order.
abbrev shuffled_schema : SchemaGraph
shuffled_schema = of_tables (
    (post, schemaless post (field (codes "name") (codes "string") ∷ []))
    ∷ (
      user,
      schemaless user
          (field (codes "name") (codes "string") ∷ field (codes "age") (codes "int") ∷ []),
    )
    ∷ [])

nothing_changed : diff_is_empty (compare_schemas old_schema shuffled_schema) ≡ true
unfolding compare_schemas text_compare lookup insert
nothing_changed = refl

diff_is_empty-Agree_example :
    Agree (lookup user old_schema.tables) (lookup user shuffled_schema.tables)
    × (contains (function_names old_schema) user ≡ contains (function_names shuffled_schema) user)
diff_is_empty-Agree_example = diff_is_empty-Agree old_schema shuffled_schema user nothing_changed

show_diff_new :
    show_diff (compare_schemas old_schema new_schema)
    ≡ codes
        "- TABLE post\n~ TABLE user: SCHEMALESS -> SCHEMAFULL\n- FIELD name ON post\n- FIELD age ON user\n~ FIELD name ON user: string -> option<string>\n"
unfolding show_diff compare_schemas text_compare lookup insert
show_diff_new = refl

show_diff_none : show_diff (compare_schemas old_schema shuffled_schema) ≡ codes "No schema changes."
unfolding show_diff compare_schemas text_compare lookup insert
show_diff_none = refl
