-- ===== src/Diff/Closed.antt =====
-- The loops of `compare_schemas` in closed form: what each vector holds at the end.
use mathlib.Core.List.{append_assoc, append-nil}
use surql_parser.Prelude.{
  Bool, Option, none, some, List, [], ◌∷◌, ◌++◌, ◌≡◌, ◌∙◌, ap, if◌then◌else◌, Text, Bool-cases, inl,
  inr,
}
use surql_parser.Prelude.SortedSet.{collect, contains}
use surql_parser.Schema.Model.{SchemaGraph, TableDef, field_names, index_names, event_names}
use surql_parser.Schema.{table, table_names, function_names}
use surql_parser.Diff.{
  SchemaDiff, no_diff, on_table, minus, intersection, for_each, add_parts, add_table, new_table,
  remove_parts, remove_table, old_table, mode_change, type_changes, compare_table, compare_found,
  common_table, compare_schemas,
}

-- `f` of every name, one behind the other.
abbrev pub gather {ℓ} : {A : Type ℓ} → (Text → List A) → List Text → List A
gather f [] = []
gather f (name ∷ names) = f name ++ gather f names

-- Vector by vector.
abbrev pub append_diff : SchemaDiff → SchemaDiff → SchemaDiff
append_diff d e = record {
  added_tables = d.added_tables ++ e.added_tables;
  removed_tables = d.removed_tables ++ e.removed_tables;
  changed_tables = d.changed_tables ++ e.changed_tables;
  added_fields = d.added_fields ++ e.added_fields;
  removed_fields = d.removed_fields ++ e.removed_fields;
  changed_fields = d.changed_fields ++ e.changed_fields;
  added_indexes = d.added_indexes ++ e.added_indexes;
  removed_indexes = d.removed_indexes ++ e.removed_indexes;
  added_events = d.added_events ++ e.added_events;
  removed_events = d.removed_events ++ e.removed_events;
  added_functions = d.added_functions ++ e.added_functions;
  removed_functions = d.removed_functions ++ e.removed_functions;
}

abbrev pub gather_diff : (Text → SchemaDiff) → List Text → SchemaDiff
gather_diff f names = record {
  added_tables = gather (λ n. (f n).added_tables) names;
  removed_tables = gather (λ n. (f n).removed_tables) names;
  changed_tables = gather (λ n. (f n).changed_tables) names;
  added_fields = gather (λ n. (f n).added_fields) names;
  removed_fields = gather (λ n. (f n).removed_fields) names;
  changed_fields = gather (λ n. (f n).changed_fields) names;
  added_indexes = gather (λ n. (f n).added_indexes) names;
  removed_indexes = gather (λ n. (f n).removed_indexes) names;
  added_events = gather (λ n. (f n).added_events) names;
  removed_events = gather (λ n. (f n).removed_events) names;
  added_functions = gather (λ n. (f n).added_functions) names;
  removed_functions = gather (λ n. (f n).removed_functions) names;
}

-- A body that only pushes makes a loop that only pushes.
for_each-gather_diff :
    (body : Text → SchemaDiff → SchemaDiff) (f : Text → SchemaDiff)
    → ((name : Text) (d : SchemaDiff) → body name d ≡ append_diff d (f name))
    → (names : List Text) (d : SchemaDiff)
    → for_each body names d ≡ append_diff d (gather_diff f names)
unfolding for_each
for_each-gather_diff body f step [] d = simp append-nil
for_each-gather_diff body f step (name ∷ names) d =
    for_each-gather_diff body f step names (body name d) ∙ rw step (simp append_assoc)

abbrev pub none_or : SchemaDiff → Bool → SchemaDiff
none_or d b = if b then no_diff else d

-- What the body of the first loop pushes.
abbrev pub added_parts : Text → Option TableDef → SchemaDiff
added_parts name none = record no_diff { added_tables = name ∷ [] }
added_parts name (some t) = record no_diff {
  added_tables = name ∷ [];
  added_fields = on_table name (field_names t.fields);
  added_indexes = on_table name (index_names t.indexes);
  added_events = on_table name (event_names t.events);
}

abbrev pub removed_parts : Text → Option TableDef → SchemaDiff
removed_parts name none = record no_diff { removed_tables = name ∷ [] }
removed_parts name (some t) = record no_diff {
  removed_tables = name ∷ [];
  removed_fields = on_table name (field_names t.fields);
  removed_indexes = on_table name (index_names t.indexes);
  removed_events = on_table name (event_names t.events);
}

abbrev pub common_parts : Text → Option TableDef → Option TableDef → SchemaDiff
common_parts name (some b) (some a) = record no_diff {
  changed_tables = mode_change name b.full a.full;
  added_fields =
      on_table name (minus (collect (field_names a.fields)) (collect (field_names b.fields)));
  removed_fields =
      on_table name (minus (collect (field_names b.fields)) (collect (field_names a.fields)));
  changed_fields = type_changes name b.fields a.fields;
  added_indexes =
      on_table name (minus (collect (index_names a.indexes)) (collect (index_names b.indexes)));
  removed_indexes =
      on_table name (minus (collect (index_names b.indexes)) (collect (index_names a.indexes)));
  added_events =
      on_table name (minus (collect (event_names a.events)) (collect (event_names b.events)));
  removed_events =
      on_table name (minus (collect (event_names b.events)) (collect (event_names a.events)));
}
common_parts name _ _ = no_diff

add_parts-append :
    (name : Text) (o : Option TableDef) (d : SchemaDiff)
    → add_parts name o (record d { added_tables = d.added_tables ++ name ∷ [] })
      ≡ append_diff d (added_parts name o)
unfolding add_parts
add_parts-append name none d = simp append-nil
add_parts-append name (some t) d = simp append-nil

remove_parts-append :
    (name : Text) (o : Option TableDef) (d : SchemaDiff)
    → remove_parts name o (record d { removed_tables = d.removed_tables ++ name ∷ [] })
      ≡ append_diff d (removed_parts name o)
unfolding remove_parts
remove_parts-append name none d = simp append-nil
remove_parts-append name (some t) d = simp append-nil

compare_found-append :
    (name : Text) (b a : Option TableDef) (d : SchemaDiff)
    → compare_found name b a d ≡ append_diff d (common_parts name b a)
unfolding compare_found compare_table
compare_found-append name (some b) (some a) d = simp append-nil
compare_found-append name _ _ d = simp append-nil

module _ (before after : SchemaGraph) where
  abbrev pub before_tables : List Text
  before_tables = collect (table_names before)

  abbrev pub after_tables : List Text
  after_tables = collect (table_names after)

  abbrev pub from_new : Text → SchemaDiff
  from_new name = none_or (added_parts name (table after name)) (contains before_tables name)

  abbrev pub from_old : Text → SchemaDiff
  from_old name = none_or (removed_parts name (table before name)) (contains after_tables name)

  abbrev pub from_common : Text → SchemaDiff
  from_common name = common_parts name (table before name) (table after name)

  new_table-append :
      (name : Text) (d : SchemaDiff)
      → new_table before_tables after name d ≡ append_diff d (from_new name)
  unfolding new_table add_table
  new_table-append name d = elim (Bool-cases (contains before_tables name)) [
    | inl e ↦ rw e (simp append-nil)
    | inr e ↦ rw e (add_parts-append name (table after name) d)
  ]

  old_table-append :
      (name : Text) (d : SchemaDiff)
      → old_table after_tables before name d ≡ append_diff d (from_old name)
  unfolding old_table remove_table
  old_table-append name d = elim (Bool-cases (contains after_tables name)) [
    | inl e ↦ rw e (simp append-nil)
    | inr e ↦ rw e (remove_parts-append name (table before name) d)
  ]

  common_table-append :
      (name : Text) (d : SchemaDiff)
      → common_table before after name d ≡ append_diff d (from_common name)
  unfolding common_table
  common_table-append name d = compare_found-append name (table before name) (table after name) d

  abbrev with_functions : SchemaDiff → SchemaDiff
  with_functions d = record d {
    added_functions =
        d.added_functions
        ++ minus (collect (function_names after)) (collect (function_names before));
    removed_functions =
        d.removed_functions
        ++ minus (collect (function_names before)) (collect (function_names after));
  }

  abbrev pub closed : SchemaDiff
  closed = with_functions (
      append_diff
        (append_diff (append_diff no_diff (gather_diff from_new after_tables))
          (gather_diff from_old before_tables))
        (gather_diff from_common (intersection before_tables after_tables)))

  pub compare_schemas-closed : compare_schemas before after ≡ closed
  unfolding compare_schemas
  compare_schemas-closed =
      let new =
        for_each-gather_diff (new_table before_tables after) from_new new_table-append after_tables
          no_diff in
      let old =
        for_each-gather_diff (old_table after_tables before) from_old old_table-append
          before_tables in
      let common =
        for_each-gather_diff (common_table before after) from_common common_table-append
          (intersection before_tables after_tables) in
      ap with_functions (
        ap
          (λ d.
            for_each (common_table before after) (intersection before_tables after_tables)
              (for_each (old_table after_tables before) before_tables d))
          new
        ∙ ap (for_each (common_table before after) (intersection before_tables after_tables))
            (old _)
        ∙ common _)
