-- ===== src/Schema/Merge/Laws.antt =====
-- What `merge` does to each table and to each function.
use mathlib.Core.List.{append-nil}
use surql_parser.Prelude.{
  sym, true, false, not, ◌||◌, ◌++◌, Option, none, some, List, [], ◌∷◌, ◌≡◌, refl, ◌∙◌, ap, arith,
  map, if◌then◌else◌, Text, text_eq, text_eq_iff, text_eq_refl, keep, Bool-cases, Option-cases, inl,
  inr,
}
use surql_parser.Prelude.SortedSet.{contains}
use surql_parser.Prelude.HashMap.{
  HashMap, lookup, put, has_key, IsMap, lookup-put, lookup-none, lookup-ne-none,
}
use surql_parser.Schema.Model.{SchemaGraph, TableDef, FieldDef, IndexDef, EventDef}
use surql_parser.Schema.Merge.{push_new, merge_table, merge_entry, merge_tables, merge_first, merge}

-- What the second list has under names that the first has not.
abbrev pub unnamed {ℓ} : {A : Type ℓ} → (A → Text) → List A → List A → List A
unnamed name old [] = []
unnamed name old (x ∷ xs) =
    let rest = unnamed name old xs in if contains (map name old) (name x) then rest else x ∷ rest

-- One table of two definitions.
abbrev pub together : TableDef → TableDef → TableDef
together old new = record {
  name = old.name;
  full = old.full || new.full;
  table_type = old.table_type;
  fields = old.fields ++ unnamed (λ f. f.name) old.fields new.fields;
  indexes = old.indexes ++ unnamed (λ i. i.name) old.indexes new.indexes;
  events = old.events ++ unnamed (λ e. e.name) old.events new.events;
  comment = old.comment;
  source = elim new.source [ none ↦ old.source | some s ↦ some s ];
  ns = old.ns;
  db = old.db;
}

keep-unnamed {ℓ} :
    {A : Type ℓ} (name : A → Text) (old xs : List A)
    → keep (λ x. not (contains (map name old) (name x))) xs ≡ unnamed name old xs
keep-unnamed name old [] = refl
keep-unnamed name old (x ∷ xs) = ground (arith, keep-unnamed name old xs)

merge_table-together : (old new : TableDef) → merge_table old new ≡ together old new
unfolding merge_table
merge_table-together old new = ground (
  arith,
  keep-unnamed (λ (f : FieldDef). f.name) old.fields new.fields,
  keep-unnamed (λ (i : IndexDef). i.name) old.indexes new.indexes,
  keep-unnamed (λ (e : EventDef). e.name) old.events new.events,
)

-- The two definitions of one table, where there are two.
abbrev pub both : Option TableDef → Option TableDef → Option TableDef
both old none = old
both none (some t) = some t
both (some existing) (some t) = some (together existing t)

lookup-merge_entry :
    (name k : Text) (t : TableDef) (tables : HashMap TableDef)
    → lookup name (merge_entry k t tables)
      ≡ (if text_eq name k then both (lookup k tables) (some t) else lookup name tables)
unfolding merge_entry
lookup-merge_entry name k t tables = elim (Option-cases (lookup k tables)) [
  | inl e ↦ rw (e, merge_entry) (lookup-put k name t tables)
  | inr (existing, e) ↦
      rw (e, merge_entry, sym (merge_table-together existing t))
        (lookup-put k name (merge_table existing t) tables)
]

merged :
    (name k : Text) (t : TableDef) (ts tables : HashMap TableDef)
    → has_key k ts ≡ false
    → both
        (if text_eq name k then both (lookup k tables) (some t) else lookup name tables)
        (lookup name ts)
      ≡ both (lookup name tables) (lookup name ((k, t) ∷ ts))
unfolding lookup
merged name k t ts tables h = elim (Bool-cases (text_eq name k)) [
  | inl e ↦ let same : name ≡ k = (text_eq_iff name k).0 e in rw (e, same, lookup-none k ts h)
  | inr e ↦ rw e
]

lookup-merge_tables :
    (name : Text) (ts tables : HashMap TableDef)
    → IsMap ts
    → lookup name (merge_tables tables ts) ≡ both (lookup name tables) (lookup name ts)
unfolding merge_tables lookup
lookup-merge_tables name [] tables h = refl
lookup-merge_tables name ((k, t) ∷ ts) tables h =
    lookup-merge_tables name ts (merge_entry k t tables) h.1
    ∙ rw (lookup-merge_entry name k t tables) (merged name k t ts tables h.0)

-- Where the second graph has each table's name once: in the merged graph a table that only one side has is that side's, and a table that both have is
-- the merge of the two: the first side's, marked SCHEMAFULL if either is, with the fields, indexes
-- and events of the second whose names the first lacks, and the second's source where it has one.
pub lookup-merge :
    (g other : SchemaGraph) (name : Text)
    → IsMap other.tables
    → lookup name (merge g other).tables ≡ both (lookup name g.tables) (lookup name other.tables)
unfolding merge
lookup-merge g other name h = lookup-merge_tables name other.tables g.tables h

abbrev pub first {ℓ} : {A : Type ℓ} → Option A → Option A → Option A
first none later = later
first (some a) later = some a

lookup-merge_first {ℓ} :
    {V : Type ℓ} (name : Text) (rest m : HashMap V)
    → lookup name (merge_first m rest) ≡ first (lookup name m) (lookup name rest)
unfolding merge_first lookup
lookup-merge_first name [] m = ground arith
lookup-merge_first name ((k, v) ∷ rest) m =
    lookup-merge_first name rest (if has_key k m then m else put k v m)
    ∙ elim (Bool-cases (has_key k m)) [
      | inl e ↦
          let (w, found) = lookup-ne-none k m e in rw e (ground (arith, text_eq_iff name k, found))
      | inr e ↦
          rw (e, lookup-put k name v m) (ground (arith, text_eq_iff name k, lookup-none k m e))
    ]

-- A function that both graphs define keeps the first graph's definition; any other is looked up in the
-- graph that has it.
function-merge :
    (g other : SchemaGraph) (name : Text)
    → lookup name (merge g other).functions
      ≡ first (lookup name g.functions) (lookup name other.functions)
unfolding merge
function-merge g other name = lookup-merge_first name other.functions g.functions

keep_none {ℓ} :
    {A : Type ℓ} (name : A → Text) (all xs : List A)
    → ((y : A) → contains (map name xs) (name y) ≡ true → contains (map name all) (name y) ≡ true)
    → keep (λ x. not (contains (map name all) (name x))) xs ≡ []
keep_none name all [] h = refl
keep_none name all (x ∷ xs) h =
    ground (arith, text_eq_refl (name x), h x, keep_none name all xs (λ y k. h y (ground arith)))

push_new_self {ℓ} : {A : Type ℓ} (name : A → Text) (xs : List A) → push_new name xs xs ≡ xs
push_new_self name xs = rw (keep_none name xs xs (λ y h. h)) (append-nil xs)

merge_table_self : (t : TableDef) → merge_table t t ≡ t
unfolding merge_table
merge_table_self t = ground (
  arith,
  push_new_self (λ (f : FieldDef). f.name) t.fields,
  push_new_self (λ (i : IndexDef). i.name) t.indexes,
  push_new_self (λ (e : EventDef). e.name) t.events,
)

-- Where a graph has each table's name once, merging it into itself, as a second load of the same file
-- does, changes no table.
lookup-merge_self :
    (g : SchemaGraph) (name : Text)
    → IsMap g.tables
    → lookup name (merge g g).tables ≡ lookup name g.tables
lookup-merge_self g name h = lookup-merge g g name h ∙ elim (Option-cases (lookup name g.tables)) [
  | inl e ↦ rw e
  | inr (t, e) ↦ rw e (ap some (sym (merge_table-together t t) ∙ merge_table_self t))
]
