-- ===== src/Schema.antt =====
-- src/schema_graph.rs: the schema graph, its index of fields, and its lookups.
pub mod Model
pub mod Merge
pub mod Index
pub mod Links
pub mod Reach
pub mod Trees
use surql_parser.Prelude.{
  ℕ, zero, suc, ◌+◌, Bool, true, false, not, ◌&&◌, Option, none, some, List, [], ◌∷◌, ◌++◌,
  if◌then◌else◌, Text, text_eq, find, map, to_upper,
}
use surql_parser.Prelude.HashMap.{HashMap, lookup, put, keys, has_key}
use Model.{SchemaGraph, TableDef, FieldDef, IndexDef, EventDef, FunctionDef}

abbrev pub empty : SchemaGraph
empty = record { tables = []; functions = []; params = []; field_index = [] }

abbrev or_default {ℓ} : {A : Type ℓ} → Option (List A) → List A
or_default none = []
or_default (some xs) = xs

-- `field_index.entry(field.name).or_default().push((table_name, field_idx))`
push_entry : Text → Text × ℕ → HashMap (List (Text × ℕ)) → HashMap (List (Text × ℕ))
push_entry name entry index = put name (or_default (lookup name index) ++ entry ∷ []) index

index_fields : Text → ℕ → List FieldDef → HashMap (List (Text × ℕ)) → HashMap (List (Text × ℕ))
index_fields table i [] index = index
index_fields table i (f ∷ fs) index =
    index_fields table (suc i) fs (push_entry f.name (table, i) index)

index_tables : HashMap TableDef → HashMap (List (Text × ℕ)) → HashMap (List (Text × ℕ))
index_tables [] index = index
index_tables ((name, t) ∷ ts) index = index_tables ts (index_fields name 0 t.fields index)

unfoldable pub rebuild_field_index : SchemaGraph → SchemaGraph
unfolding push_entry index_fields index_tables
rebuild_field_index g = record g { field_index = index_tables g.tables [] }

-- `table(name)`
abbrev pub table : SchemaGraph → Text → Option TableDef
table g name = lookup name g.tables

abbrev pub function : SchemaGraph → Text → Option FunctionDef
function g name = lookup name g.functions

abbrev pub table_names : SchemaGraph → List Text
table_names g = keys g.tables

abbrev pub function_names : SchemaGraph → List Text
function_names g = keys g.functions

abbrev pub fields_of : SchemaGraph → Text → List FieldDef
fields_of g name = elim (table g name) [ none ↦ [] | some t ↦ t.fields ]

abbrev pub indexes_of : SchemaGraph → Text → List IndexDef
indexes_of g name = elim (table g name) [ none ↦ [] | some t ↦ t.indexes ]

abbrev pub events_of : SchemaGraph → Text → List EventDef
events_of g name = elim (table g name) [ none ↦ [] | some t ↦ t.events ]

unfoldable pub field_on : SchemaGraph → Text → Text → Option FieldDef
field_on g name field = elim (table g name) [
  | none ↦ none
  | some t ↦ find (λ f. text_eq f.name field) t.fields
]

-- `fields.get(i)`
abbrev pub nth {ℓ} : {A : Type ℓ} → List A → ℕ → Option A
nth [] i = none
nth (x ∷ xs) zero = some x
nth (x ∷ xs) (suc i) = nth xs i

field_at : SchemaGraph → Text × ℕ → Option (Text × FieldDef)
field_at g (name, i) = elim (table g name) [
  | none ↦ none
  | some t ↦ elim (nth t.fields i) [ none ↦ none | some f ↦ some (name, f) ]
]

filter_map {ℓ κ} : {A : Type ℓ} {B : Type κ} → (A → Option B) → List A → List B
filter_map f [] = []
filter_map f (x ∷ xs) = let rest = filter_map f xs in elim (f x) [ none ↦ rest | some y ↦ y ∷ rest ]

unfoldable pub find_field : SchemaGraph → Text → List (Text × FieldDef)
unfolding field_at filter_map
find_field g name = filter_map (field_at g) (or_default (lookup name g.field_index))

abbrev eq_ignore_ascii_case : Text → Text → Bool
eq_ignore_ascii_case a b = text_eq (map to_upper a) (map to_upper b)

-- A table without the name is in every scope, and a missing filter takes every table.
matches : Option Text → Option Text → Bool
matches none filter = true
matches (some t) none = true
matches (some t) (some f) = eq_ignore_ascii_case t f

scope_matches : TableDef → Option Text → Option Text → Bool
scope_matches t ns db = matches t.ns ns && matches t.db db

filter_tables : Option Text → Option Text → HashMap TableDef → HashMap TableDef
filter_tables ns db [] = []
filter_tables ns db ((k, t) ∷ ts) =
    let rest = filter_tables ns db ts in if scope_matches t ns db then (k, t) ∷ rest else rest

unfoldable pub scoped : SchemaGraph → Option Text → Option Text → SchemaGraph
unfolding matches scope_matches filter_tables rebuild_field_index
scoped g ns db =
    rebuild_field_index (record g { tables = filter_tables ns db g.tables; field_index = [] })
