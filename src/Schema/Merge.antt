-- ===== src/Schema/Merge.antt =====
-- `SchemaGraph::merge`.
pub mod Laws
use surql_parser.Prelude.{
  Bool, not, Option, none, some, List, [], ◌∷◌, ◌++◌, ◌||◌, if◌then◌else◌, Text, text_eq, any, keep,
  map,
}
use surql_parser.Prelude.HashMap.{HashMap, lookup, put, has_key}
use surql_parser.Prelude.SortedSet.{contains}
use surql_parser.Schema.Model.{
  SchemaGraph, TableDef, FieldDef, IndexDef, EventDef, SourceLocation, field_names, index_names,
  event_names,
}
use surql_parser.Schema.{rebuild_field_index}

-- The loop that pushes what is not named yet; the names are those from before the loop.
abbrev pub push_new {ℓ} : {A : Type ℓ} → (A → Text) → List A → List A → List A
push_new name existing new = existing ++ keep (λ x. not (contains (map name existing) (name x))) new

abbrev or_else {ℓ} : {A : Type ℓ} → Option A → Option A → Option A
or_else none old = old
or_else (some a) old = some a

pub merge_table : TableDef → TableDef → TableDef
merge_table existing t = record existing {
  full = if t.full then Bool.true else existing.full;
  fields = push_new (λ f. f.name) existing.fields t.fields;
  indexes = push_new (λ i. i.name) existing.indexes t.indexes;
  events = push_new (λ e. e.name) existing.events t.events;
  source = or_else t.source existing.source;
}

pub merge_entry : Text → TableDef → HashMap TableDef → HashMap TableDef
merge_entry name t tables = elim (lookup name tables) [
  | some existing ↦ put name (merge_table existing t) tables
  | none ↦ put name t tables
]

-- The loop over the other graph's tables.
pub merge_tables : HashMap TableDef → HashMap TableDef → HashMap TableDef
merge_tables tables [] = tables
merge_tables tables ((name, t) ∷ ts) = merge_tables (merge_entry name t tables) ts

-- The loops over functions and parameters: the first definition is kept.
pub merge_first {ℓ} : {V : Type ℓ} → HashMap V → HashMap V → HashMap V
merge_first m [] = m
merge_first m ((k, v) ∷ rest) = merge_first (if has_key k m then m else put k v m) rest

unfoldable pub merge : SchemaGraph → SchemaGraph → SchemaGraph
unfolding merge_table merge_entry merge_tables merge_first rebuild_field_index
merge g other = rebuild_field_index (record g {
  tables = merge_tables g.tables other.tables;
  functions = merge_first g.functions other.functions;
  params = merge_first g.params other.params;
})
