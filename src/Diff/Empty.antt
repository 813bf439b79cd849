-- ===== src/Diff/Empty.antt =====
-- What two schemas have in common where their comparison is empty.
use surql_parser.Prelude.{
  Bool, true, false, Option, none, some, List, [], ◌++◌, ◌≡◌, refl, sym, ap, ◌∙◌, arith, Text,
  is_empty, Bool-cases, inl, inr,
}
use surql_parser.Prelude.SortedSet.{contains, contains-collect}
use surql_parser.Prelude.SortedSet.Laws.{contains-keep}
use surql_parser.Prelude.HashMap.{has_key, lookup-none, lookup-ne-none}
use surql_parser.Schema.Model.{SchemaGraph, TableDef}
use surql_parser.Schema.{table, table_names, function_names}
use surql_parser.Diff.{SchemaDiff, diff_is_empty, intersection, compare_schemas}
use surql_parser.Diff.Closed.{
  gather, none_or, added_parts, removed_parts, from_new, from_old, from_common, before_tables,
  after_tables, closed, compare_schemas-closed,
}
use surql_parser.Diff.Same.{
  Agree, is_empty-append, is_empty-loops, gather-is_empty, same_functions, common_parts-Agree,
}

-- The vectors of an empty diff are empty.
record IsEmpty (d : SchemaDiff) : Type 0 where
  added_tables : is_empty d.added_tables ≡ true
  removed_tables : is_empty d.removed_tables ≡ true
  changed_tables : is_empty d.changed_tables ≡ true
  added_fields : is_empty d.added_fields ≡ true
  removed_fields : is_empty d.removed_fields ≡ true
  changed_fields : is_empty d.changed_fields ≡ true
  added_indexes : is_empty d.added_indexes ≡ true
  removed_indexes : is_empty d.removed_indexes ≡ true
  added_events : is_empty d.added_events ≡ true
  removed_events : is_empty d.removed_events ≡ true
  added_functions : is_empty d.added_functions ≡ true
  removed_functions : is_empty d.removed_functions ≡ true

diff_is_empty-IsEmpty : (d : SchemaDiff) → diff_is_empty d ≡ true → IsEmpty d
diff_is_empty-IsEmpty d h = record {
  added_tables = ground arith;
  removed_tables = ground arith;
  changed_tables = ground arith;
  added_fields = ground arith;
  removed_fields = ground arith;
  changed_fields = ground arith;
  added_indexes = ground arith;
  removed_indexes = ground arith;
  added_events = ground arith;
  removed_events = ground arith;
  added_functions = ground arith;
  removed_functions = ground arith;
}

new_table-known :
    (n : Text) (o : Option TableDef) (known : Bool)
    → is_empty (none_or (added_parts n o) known).added_tables ≡ true
    → known ≡ true
new_table-known n o true h = refl
new_table-known n none false h = absurd cc
new_table-known n (some t) false h = absurd cc

old_table-known :
    (n : Text) (o : Option TableDef) (known : Bool)
    → is_empty (none_or (removed_parts n o) known).removed_tables ≡ true
    → known ≡ true
old_table-known n o true h = refl
old_table-known n none false h = absurd cc
old_table-known n (some t) false h = absurd cc

module _ (before after : SchemaGraph) (e : IsEmpty (closed before after)) (n : Text) where
  -- What the three loops push for one name.
  is_empty-pushed :
      {A : Type 0} (vector : SchemaDiff → List A)
      → is_empty (
          (([] ++ gather (λ m. vector (from_new before after m)) (after_tables before after))
            ++ gather (λ m. vector (from_old before after m)) (before_tables before after))
          ++ gather
              (λ m. vector (from_common before after m))
              (intersection (before_tables before after) (after_tables before after)))
        ≡ true
      → (contains (after_tables before after) n ≡ true
          → is_empty (vector (from_new before after n)) ≡ true)
        × (contains (before_tables before after) n ≡ true
            → is_empty (vector (from_old before after n)) ≡ true)
        × (contains (intersection (before_tables before after) (after_tables before after)) n ≡ true
            → is_empty (vector (from_common before after n)) ≡ true)
  is_empty-pushed vector h =
      let (new, old, common) =
        is_empty-loops (gather _ (after_tables before after))
          (gather _ (before_tables before after)) _ h in
      (gather-is_empty _ _ n new, gather-is_empty _ _ n old, gather-is_empty _ _ n common)

  same_tables : contains (before_tables before after) n ≡ contains (after_tables before after) n
  same_tables =
      let new : contains (after_tables before after) n ≡ true
          → contains (before_tables before after) n ≡ true =
        λ k.
          new_table-known n (table after n) _
            ((is_empty-pushed (λ d. d.added_tables) e.added_tables).0 k) in
      let old : contains (before_tables before after) n ≡ true
          → contains (after_tables before after) n ≡ true =
        λ k.
          old_table-known n (table before n) _
            ((is_empty-pushed (λ d. d.removed_tables) e.removed_tables).1 k) in
      ground arith

  same_common :
      {b a : TableDef}
      → table before n ≡ some b
      → table after n ≡ some a
      → contains (intersection (before_tables before after) (after_tables before after)) n ≡ true
      → Agree (table before n) (table after n)
  same_common p q k =
      common_parts-Agree n (table before n) (table after n) p q
        ((is_empty-pushed (λ d. d.changed_tables) e.changed_tables).2 k)
        ((is_empty-pushed (λ d. d.added_fields) e.added_fields).2 k)
        ((is_empty-pushed (λ d. d.removed_fields) e.removed_fields).2 k)
        ((is_empty-pushed (λ d. d.changed_fields) e.changed_fields).2 k)
        ((is_empty-pushed (λ d. d.added_indexes) e.added_indexes).2 k)
        ((is_empty-pushed (λ d. d.removed_indexes) e.removed_indexes).2 k)
        ((is_empty-pushed (λ d. d.added_events) e.added_events).2 k)
        ((is_empty-pushed (λ d. d.removed_events) e.removed_events).2 k)

  IsEmpty-Agree : Agree (table before n) (table after n)
  IsEmpty-Agree =
      let same : has_key n before.tables ≡ has_key n after.tables =
        sym (contains-collect (table_names before) n)
        ∙ same_tables
        ∙ contains-collect (table_names after) n in
      elim (Bool-cases (has_key n before.tables)) [
        | inl k ↦
            let (b, p) = lookup-ne-none n before.tables k in
            let (a, q) = lookup-ne-none n after.tables (sym same ∙ k) in
            let here =
              contains-keep (contains (after_tables before after)) (before_tables before after) n in
            let there = contains-collect (table_names before) n in
            let known = same_tables in same_common p q (ground arith)
        | inr k ↦ rw (lookup-none n before.tables k, lookup-none n after.tables (sym same ∙ k)) tt
      ]

-- Where the comparison of two schemas is empty, each name is a function of both or of neither, and a
-- table of both or of neither. A table of both has the same mode in both, the same names of fields,
-- indexes and events, and the same kind of each field, read at the first field of its name.
pub diff_is_empty-Agree :
    (before after : SchemaGraph) (n : Text)
    → diff_is_empty (compare_schemas before after) ≡ true
    → Agree (table before n) (table after n)
      × (contains (function_names before) n ≡ contains (function_names after) n)
diff_is_empty-Agree before after n h =
    let e =
      diff_is_empty-IsEmpty (closed before after)
        (ap diff_is_empty (sym (compare_schemas-closed before after)) ∙ h) in
    (
      IsEmpty-Agree before after e n,
      same_functions _ _ (is_empty-append _ _ e.added_functions).1
          (is_empty-append _ _ e.removed_functions).1 n,
    )
