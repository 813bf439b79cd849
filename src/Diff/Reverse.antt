-- ===== src/Diff/Reverse.antt =====
-- The comparison the other way round.
use mathlib.Core.List.{append-nil}
use mathlib.Core.Path.{ap₂}
use surql_parser.Prelude.{
  Bool, Option, none, some, List, [], ◌∷◌, ◌++◌, ◌≡◌, refl, sym, ◌∙◌, ap, arith, Text, map,
}
use surql_parser.Prelude.SortedSet.{collect, collect-IsSorted}
use surql_parser.Prelude.SortedSet.Laws.{keep-contains_comm}
use surql_parser.Schema.Model.{SchemaGraph, TableDef}
use surql_parser.Schema.{table, table_names}
use surql_parser.Diff.{SchemaDiff, TableChange, intersection, mode_change, compare_schemas}
use surql_parser.Diff.Closed.{
  common_parts, gather, from_new, from_old, from_common, before_tables, after_tables, closed,
  compare_schemas-closed,
}

abbrev pub flip_change : TableChange → TableChange
flip_change c = record { name = c.name; before_full = c.after_full; after_full = c.before_full }

-- Every vector of `e` that speaks of additions holds what `d` holds for removals, in the same order,
-- and the other way round; changes of mode are turned over. Changes of field types are left out.
pub record IsReverse (d e : SchemaDiff) : Type 0 where
  pub added_tables : e.added_tables ≡ d.removed_tables
  pub removed_tables : e.removed_tables ≡ d.added_tables
  pub changed_tables : e.changed_tables ≡ map flip_change d.changed_tables
  pub added_fields : e.added_fields ≡ d.removed_fields
  pub removed_fields : e.removed_fields ≡ d.added_fields
  pub added_indexes : e.added_indexes ≡ d.removed_indexes
  pub removed_indexes : e.removed_indexes ≡ d.added_indexes
  pub added_events : e.added_events ≡ d.removed_events
  pub removed_events : e.removed_events ≡ d.added_events
  pub added_functions : e.added_functions ≡ d.removed_functions
  pub removed_functions : e.removed_functions ≡ d.added_functions

module _ {ℓ} {A : Type ℓ} where
  gather-ext :
      (f g : Text → List A) (names : List Text)
      → ((name : Text) → f name ≡ g name)
      → gather f names ≡ gather g names
  gather-ext f g [] h = refl
  gather-ext f g (name ∷ names) h = rw (h name, gather-ext f g names h)

  gather-none :
      (f : Text → List A) (names : List Text) → ((name : Text) → f name ≡ []) → gather f names ≡ []
  gather-none f [] h = refl
  gather-none f (name ∷ names) h = rw (h name) (gather-none f names h)

  -- Additions one way and removals the other way: the loops over one graph's tables change places.
  opposite :
      (new old common new' old' common' : Text → List A) (ns os cs cs' : List Text)
      → ((name : Text) → old name ≡ [])
      → ((name : Text) → new' name ≡ [])
      → ((name : Text) → new name ≡ old' name)
      → ((name : Text) → common name ≡ common' name)
      → cs ≡ cs'
      → ((([] ++ gather new ns) ++ gather old os) ++ gather common cs)
        ≡ ((([] ++ gather new' os) ++ gather old' ns) ++ gather common' cs')
  opposite new old common new' old' common' ns os cs cs' h k m n e = rw (
    gather-none old os h,
    gather-none new' os k,
    gather-ext new old' ns m,
    gather-ext common common' cs n,
    e,
    append-nil,
  )

module _ (before after : SchemaGraph) where
  common_comm :
      intersection (before_tables before after) (after_tables before after)
      ≡ intersection (before_tables after before) (after_tables after before)
  common_comm =
      keep-contains_comm (collect (table_names before)) (collect (table_names after))
        (collect-IsSorted (table_names before)) (collect-IsSorted (table_names after))

  -- The vector `p` of the comparison the other way round is the vector `q` of the comparison.
  swap_by {ℓ} :
      {A : Type ℓ} (p q : SchemaDiff → List A)
      → ((name : Text) → p (from_old after before name) ≡ [])
      → ((name : Text) → q (from_new before after name) ≡ [])
      → ((name : Text) → p (from_new after before name) ≡ q (from_old before after name))
      → ((name : Text) → p (from_common after before name) ≡ q (from_common before after name))
      → ((([] ++ gather (λ n. p (from_new after before n)) (after_tables after before))
            ++ gather (λ n. p (from_old after before n)) (before_tables after before))
          ++ gather
              (λ n. p (from_common after before n))
              (intersection (before_tables after before) (after_tables after before)))
        ≡ ((([] ++ gather (λ n. q (from_new before after n)) (after_tables before after))
              ++ gather (λ n. q (from_old before after n)) (before_tables before after))
            ++ gather
                (λ n. q (from_common before after n))
                (intersection (before_tables before after) (after_tables before after)))
  swap_by p q h k m n =
      opposite (λ n. p (from_new after before n)) (λ n. p (from_old after before n))
        (λ n. p (from_common after before n)) (λ n. q (from_new before after n))
        (λ n. q (from_old before after n)) (λ n. q (from_common before after n))
        (collect (table_names before)) (collect (table_names after))
        (intersection (before_tables after before) (after_tables after before))
        (intersection (before_tables before after) (after_tables before after)) h k m n
        (sym common_comm)

  added_tables_swap : (closed after before).added_tables ≡ (closed before after).removed_tables
  added_tables_swap =
      swap_by (λ d. d.added_tables) (λ d. d.removed_tables) (λ n. ground arith) (λ n. ground arith)
        (λ n. ground arith) (λ n. ground arith)

  added_fields_swap : (closed after before).added_fields ≡ (closed before after).removed_fields
  added_fields_swap =
      swap_by (λ d. d.added_fields) (λ d. d.removed_fields) (λ n. ground arith) (λ n. ground arith)
        (λ n. ground arith) (λ n. ground arith)

  added_indexes_swap : (closed after before).added_indexes ≡ (closed before after).removed_indexes
  added_indexes_swap =
      swap_by (λ d. d.added_indexes) (λ d. d.removed_indexes) (λ n. ground arith)
        (λ n. ground arith) (λ n. ground arith) (λ n. ground arith)

  added_events_swap : (closed after before).added_events ≡ (closed before after).removed_events
  added_events_swap =
      swap_by (λ d. d.added_events) (λ d. d.removed_events) (λ n. ground arith) (λ n. ground arith)
        (λ n. ground arith) (λ n. ground arith)

module _ (before after : SchemaGraph) where
  -- The loops over tables push no function, and the loops over one side's tables no change of mode.
  no_parts {ℓ} :
      {A : Type ℓ} (p : SchemaDiff → List A)
      → ((name : Text) → p (from_new before after name) ≡ [])
      → ((name : Text) → p (from_old before after name) ≡ [])
      → (([] ++ gather (λ n. p (from_new before after n)) (after_tables before after))
          ++ gather (λ n. p (from_old before after n)) (before_tables before after))
        ≡ []
  no_parts p h k = rw (
    gather-none (λ n. p (from_new before after n)) (after_tables before after) h,
    gather-none (λ n. p (from_old before after n)) (before_tables before after) k,
  )

map-append_flip :
    (xs ys : List TableChange)
    → map flip_change (xs ++ ys) ≡ map flip_change xs ++ map flip_change ys
map-append_flip [] ys = refl
map-append_flip (x ∷ xs) ys = ap (◌∷◌ (flip_change x)) (map-append_flip xs ys)

mode_change-flip :
    (name : Text) (b a : Bool) → mode_change name a b ≡ map flip_change (mode_change name b a)
unfolding mode_change
mode_change-flip name b a = ground arith

common_parts-flip :
    (name : Text) (b a : Option TableDef)
    → (common_parts name a b).changed_tables
      ≡ map flip_change (common_parts name b a).changed_tables
common_parts-flip name (some b) (some a) = mode_change-flip name b.full a.full
common_parts-flip name (some b) none = refl
common_parts-flip name none (some a) = refl
common_parts-flip name none none = refl

module _ (before after : SchemaGraph) where
  gather_changes :
      (names : List Text)
      → gather (λ n. (from_common after before n).changed_tables) names
        ≡ map flip_change (gather (λ n. (from_common before after n).changed_tables) names)
  gather_changes [] = refl
  gather_changes (name ∷ names) =
      ap₂ ◌++◌ (common_parts-flip name (table before name) (table after name))
        (gather_changes names)
      ∙ sym (map-append_flip (from_common before after name).changed_tables _)

  -- `intersection` is the same set both ways.
  changed_tables_swap :
      (closed after before).changed_tables ≡ map flip_change (closed before after).changed_tables
  changed_tables_swap =
      rw
        (
          no_parts after before (λ d. d.changed_tables) (λ n. ground arith) (λ n. ground arith),
          no_parts before after (λ d. d.changed_tables) (λ n. ground arith) (λ n. ground arith),
        )
        (rw (common_comm before after)
          (gather_changes (intersection (before_tables after before) (after_tables after before))))

  functions_swap : (closed after before).added_functions ≡ (closed before after).removed_functions
  functions_swap = rw (
    no_parts after before (λ d. d.added_functions) (λ n. ground arith) (λ n. ground arith),
    no_parts before after (λ d. d.removed_functions) (λ n. ground arith) (λ n. ground arith),
    gather-none (λ n. (from_common after before n).added_functions)
        (intersection (before_tables after before) (after_tables after before)) (λ n. ground arith),
    gather-none (λ n. (from_common before after n).removed_functions)
        (intersection (before_tables before after) (after_tables before after)) (λ n. ground arith),
  )

module _ (before after : SchemaGraph) where
  -- The comparison the other way round: what was added is removed and what was removed is added,
  -- name by name and in the same order, and each change of mode is turned over.
  pub compare_schemas-IsReverse :
      IsReverse (compare_schemas before after) (compare_schemas after before)
  compare_schemas-IsReverse =
      rw (compare_schemas-closed before after, compare_schemas-closed after before)
        (record {
          added_tables = added_tables_swap before after;
          removed_tables = sym (added_tables_swap after before);
          changed_tables = changed_tables_swap before after;
          added_fields = added_fields_swap before after;
          removed_fields = sym (added_fields_swap after before);
          added_indexes = added_indexes_swap before after;
          removed_indexes = sym (added_indexes_swap after before);
          added_events = added_events_swap before after;
          removed_events = sym (added_events_swap after before);
          added_functions = functions_swap before after;
          removed_functions = sym (functions_swap after before);
        })
