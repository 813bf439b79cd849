-- ===== src/Diff.antt =====
-- src/diff.rs: the comparison of two schema graphs.
pub mod Closed
pub mod Display
pub mod Empty
pub mod Same
pub mod Reverse
use surql_parser.Prelude.{
  Bool, true, false, not, ◌&&◌, Option, none, some, List, [], ◌∷◌, ◌++◌, if◌then◌else◌, Text,
  text_eq, find, keep, map, is_empty,
}
use surql_parser.Prelude.SortedSet.{collect, contains}
use surql_parser.Schema.Model.{
  SchemaGraph, TableDef, FieldDef, field_names, index_names, event_names,
}
use surql_parser.Schema.{table, table_names, function_names}

pub record TableChange : Type 0 where
  pub name : Text
  pub before_full : Bool
  pub after_full : Bool

pub record FieldTypeChange : Type 0 where
  pub table : Text
  pub field : Text
  pub before_type : Text
  pub after_type : Text

pub record SchemaDiff : Type 0 where
  pub added_tables : List Text
  pub removed_tables : List Text
  pub changed_tables : List TableChange
  pub added_fields : List (Text × Text)
  pub removed_fields : List (Text × Text)
  pub changed_fields : List FieldTypeChange
  pub added_indexes : List (Text × Text)
  pub removed_indexes : List (Text × Text)
  pub added_events : List (Text × Text)
  pub removed_events : List (Text × Text)
  pub added_functions : List Text
  pub removed_functions : List Text

abbrev pub no_diff : SchemaDiff
no_diff = record {
  added_tables = [];
  removed_tables = [];
  changed_tables = [];
  added_fields = [];
  removed_fields = [];
  changed_fields = [];
  added_indexes = [];
  removed_indexes = [];
  added_events = [];
  removed_events = [];
  added_functions = [];
  removed_functions = [];
}

-- `SchemaDiff::is_empty`
abbrev pub diff_is_empty : SchemaDiff → Bool
diff_is_empty d =
    is_empty d.added_tables
    && is_empty d.removed_tables
    && is_empty d.changed_tables
    && is_empty d.added_fields
    && is_empty d.removed_fields
    && is_empty d.changed_fields
    && is_empty d.added_indexes
    && is_empty d.removed_indexes
    && is_empty d.added_events
    && is_empty d.removed_events
    && is_empty d.added_functions
    && is_empty d.removed_functions

-- `(name.to_string(), x)` for each `x`
abbrev pub on_table : Text → List Text → List (Text × Text)
on_table name = map (λ x. (name, x))

-- The names of the first set that the second lacks, in the order of the first.
abbrev pub minus : List Text → List Text → List Text
minus xs ys = keep (λ x. not (contains ys x)) xs

abbrev pub intersection : List Text → List Text → List Text
intersection xs ys = keep (contains ys) xs

-- `for name in names`, with the state that the body changes
pub for_each {ℓ} : {S : Type ℓ} → (Text → S → S) → List Text → S → S
for_each body [] s = s
for_each body (name ∷ names) s = for_each body names (body name s)

-- What the loop over the tables of `after` pushes for a table that `before` lacks.
add_parts : Text → Option TableDef → SchemaDiff → SchemaDiff
add_parts name none d = d
add_parts name (some t) d = record d {
  added_fields = d.added_fields ++ on_table name (field_names t.fields);
  added_indexes = d.added_indexes ++ on_table name (index_names t.indexes);
  added_events = d.added_events ++ on_table name (event_names t.events);
}

add_table : SchemaGraph → Text → SchemaDiff → SchemaDiff
add_table after name d =
    add_parts name (table after name) (record d { added_tables = d.added_tables ++ name ∷ [] })

new_table : List Text → SchemaGraph → Text → SchemaDiff → SchemaDiff
new_table before_tables after name d =
    if contains before_tables name then d else add_table after name d

remove_parts : Text → Option TableDef → SchemaDiff → SchemaDiff
remove_parts name none d = d
remove_parts name (some t) d = record d {
  removed_fields = d.removed_fields ++ on_table name (field_names t.fields);
  removed_indexes = d.removed_indexes ++ on_table name (index_names t.indexes);
  removed_events = d.removed_events ++ on_table name (event_names t.events);
}

remove_table : SchemaGraph → Text → SchemaDiff → SchemaDiff
remove_table before name d =
    remove_parts name (table before name)
      (record d { removed_tables = d.removed_tables ++ name ∷ [] })

old_table : List Text → SchemaGraph → Text → SchemaDiff → SchemaDiff
old_table after_tables before name d =
    if contains after_tables name then d else remove_table before name d

-- `before_table.full != after_table.full`
pub mode_change : Text → Bool → Bool → List TableChange
mode_change name true true = []
mode_change name false false = []
mode_change name b a = record { name = name; before_full = b; after_full = a } ∷ []

abbrev pub same_kind : Option Text → Option Text → Bool
same_kind none none = true
same_kind (some a) (some b) = text_eq a b
same_kind _ _ = false

abbrev unwrap_or_default : Option Text → Text
unwrap_or_default none = []
unwrap_or_default (some t) = t

-- The change of one field of the table before, against the first field of that name after.
type_change : Text → FieldDef → Option FieldDef → List FieldTypeChange
type_change name f none = []
type_change name f (some g) =
    if same_kind f.kind g.kind
    then []
    else record {
      table = name;
      field = f.name;
      before_type = unwrap_or_default f.kind;
      after_type = unwrap_or_default g.kind;
    }
      ∷ []

pub type_changes : Text → List FieldDef → List FieldDef → List FieldTypeChange
type_changes name [] after_fields = []
type_changes name (f ∷ fs) after_fields =
    type_change name f (find (λ g. text_eq g.name f.name) after_fields)
    ++ type_changes name fs after_fields

-- The body of the loop over the common tables.
compare_table : Text → TableDef → TableDef → SchemaDiff → SchemaDiff
compare_table name b a d =
    let before_fields = collect (field_names b.fields) in
    let after_fields = collect (field_names a.fields) in
    let before_indexes = collect (index_names b.indexes) in
    let after_indexes = collect (index_names a.indexes) in
    let before_events = collect (event_names b.events) in
    let after_events = collect (event_names a.events) in
    record d {
      changed_tables = d.changed_tables ++ mode_change name b.full a.full;
      added_fields = d.added_fields ++ on_table name (minus after_fields before_fields);
      removed_fields = d.removed_fields ++ on_table name (minus before_fields after_fields);
      changed_fields = d.changed_fields ++ type_changes name b.fields a.fields;
      added_indexes = d.added_indexes ++ on_table name (minus after_indexes before_indexes);
      removed_indexes = d.removed_indexes ++ on_table name (minus before_indexes after_indexes);
      added_events = d.added_events ++ on_table name (minus after_events before_events);
      removed_events = d.removed_events ++ on_table name (minus before_events after_events);
    }

compare_found : Text → Option TableDef → Option TableDef → SchemaDiff → SchemaDiff
compare_found name (some b) (some a) d = compare_table name b a d
compare_found name _ _ d = d

common_table : SchemaGraph → SchemaGraph → Text → SchemaDiff → SchemaDiff
common_table before after name d = compare_found name (table before name) (table after name) d

unfoldable pub compare_schemas : SchemaGraph → SchemaGraph → SchemaDiff
unfolding for_each add_parts add_table new_table remove_parts remove_table old_table mode_change
    type_change type_changes compare_table compare_found common_table collect
compare_schemas before after =
    let before_tables = collect (table_names before) in
    let after_tables = collect (table_names after) in
    let before_fns = collect (function_names before) in
    let after_fns = collect (function_names after) in
    let added = for_each (new_table before_tables after) after_tables no_diff in
    let removed = for_each (old_table after_tables before) before_tables added in
    let compared =
      for_each (common_table before after) (intersection before_tables after_tables) removed in
    record compared {
      added_functions = compared.added_functions ++ minus after_fns before_fns;
      removed_functions = compared.removed_functions ++ minus before_fns after_fns;
    }
