-- ===== src/Schema/Index.antt =====
-- `find_field` through the rebuilt index against a plain scan of all tables.
use mathlib.Core.List.{append_assoc, append-nil}
use surql_parser.Prelude.{
  ℕ, suc, true, false, Option, some, List, [], ◌∷◌, ◌++◌, ◌≡◌, refl, sym, ◌∙◌, arith, if◌then◌else◌,
  Text, text_eq, text_eq_iff, text_eq_refl, length, length-append, Bool-cases, inl, inr,
}
use surql_parser.Prelude.HashMap.{HashMap, lookup, has_key, IsMap, lookup-put, lookup-none}
use surql_parser.Schema.Model.{SchemaGraph, TableDef, FieldDef}
use surql_parser.Schema.{
  rebuild_field_index, push_entry, index_fields, index_tables, nth, field_at, filter_map,
  find_field, or_default,
}

-- The fields of this name, table by table, with no index.
abbrev pub named_fields : Text → Text → List FieldDef → List (Text × FieldDef)
named_fields name t [] = []
named_fields name t (f ∷ fs) =
    let rest = named_fields name t fs in if text_eq name f.name then (t, f) ∷ rest else rest

abbrev pub scan_tables : Text → HashMap TableDef → List (Text × FieldDef)
scan_tables name [] = []
scan_tables name ((k, t) ∷ ts) = named_fields name k t.fields ++ scan_tables name ts

-- What the index holds for a name.
abbrev places : Text → Text → ℕ → List FieldDef → List (Text × ℕ)
places name t i [] = []
places name t i (f ∷ fs) =
    let rest = places name t (suc i) fs in if text_eq name f.name then (t, i) ∷ rest else rest

abbrev all_places : Text → HashMap TableDef → List (Text × ℕ)
all_places name [] = []
all_places name ((k, t) ∷ ts) = places name k 0 t.fields ++ all_places name ts

abbrev entries : Text → HashMap (List (Text × ℕ)) → List (Text × ℕ)
entries name index = or_default (lookup name index)

entries-push_entry :
    (name n : Text) (e : Text × ℕ) (index : HashMap (List (Text × ℕ)))
    → entries name (push_entry n e index)
      ≡ (if text_eq name n then entries name index ++ e ∷ [] else entries name index)
unfolding push_entry
entries-push_entry name n e index =
    ground (arith, text_eq_iff name n, lookup-put n name (entries n index ++ e ∷ []) index)

entries-index_fields :
    (name t : Text) (i : ℕ) (fs : List FieldDef) (index : HashMap (List (Text × ℕ)))
    → entries name (index_fields t i fs index) ≡ entries name index ++ places name t i fs
unfolding index_fields
entries-index_fields name t i [] index = sym (append-nil (entries name index))
entries-index_fields name t i (f ∷ fs) index =
    entries-index_fields name t (suc i) fs (push_entry f.name (t, i) index)
    ∙ elim (Bool-cases (text_eq name f.name)) [
      | inl e ↦
          rw (entries-push_entry, e)
            (append_assoc (entries name index) ((t, i) ∷ []) (places name t (suc i) fs))
      | inr e ↦ rw (entries-push_entry, e)
    ]

entries-index_tables :
    (name : Text) (ts : HashMap TableDef) (index : HashMap (List (Text × ℕ)))
    → entries name (index_tables ts index) ≡ entries name index ++ all_places name ts
unfolding index_tables
entries-index_tables name [] index = sym (append-nil (entries name index))
entries-index_tables name ((k, t) ∷ ts) index =
    entries-index_tables name ts (index_fields k 0 t.fields index)
    ∙ rw entries-index_fields
        (append_assoc (entries name index) (places name k 0 t.fields) (all_places name ts))

nth_middle :
    (pre : List FieldDef) (f : FieldDef) (fs : List FieldDef)
    → nth (pre ++ f ∷ fs) (length pre) ≡ some f
nth_middle [] f fs = refl
nth_middle (x ∷ pre) f fs = nth_middle pre f fs

filter_map-append {ℓ κ} :
    {A : Type ℓ} {B : Type κ} (f : A → Option B) (xs ys : List A)
    → filter_map f (xs ++ ys) ≡ filter_map f xs ++ filter_map f ys
unfolding filter_map
filter_map-append f [] ys = refl
filter_map-append f (x ∷ xs) ys = ground (arith, filter_map-append f xs ys)

module _ (g : SchemaGraph) (name k : Text) (t : TableDef) (at : lookup k g.tables ≡ some t) where
  field_at-found :
      (pre fs : List FieldDef) (f : FieldDef)
      → t.fields ≡ pre ++ f ∷ fs
      → field_at g (k, length pre) ≡ some (k, f)
  unfolding field_at
  field_at-found pre fs f e = rw (at, field_at) (rw (e, nth_middle pre f fs))

  filter_map-places :
      (fs pre : List FieldDef)
      → t.fields ≡ pre ++ fs
      → filter_map (field_at g) (places name k (length pre) fs) ≡ named_fields name k fs
  unfolding filter_map
  filter_map-places [] pre e = refl
  filter_map-places (f ∷ fs) pre e =
      let longer : length (pre ++ f ∷ []) ≡ suc (length pre) =
        omega (arith, length-append pre (f ∷ [])) in
      let ih : filter_map (field_at g) (places name k (suc (length pre)) fs)
          ≡ named_fields name k fs =
        rw longer at
          (filter_map-places fs (pre ++ f ∷ []) (e ∙ sym (append_assoc pre (f ∷ []) fs))) in
      ground (arith, field_at-found pre fs f e, ih)

-- Each entry is what a lookup of its key finds.
abbrev Finds : HashMap TableDef → HashMap TableDef → Type 0
Finds tables [] = Unit
Finds tables ((k, t) ∷ ts) = (lookup k tables ≡ some t) × Finds tables ts

lookup-has_key :
    (k : Text) (m : HashMap TableDef) {t : TableDef} → lookup k m ≡ some t → has_key k m ≡ true
lookup-has_key k m h = elim (Bool-cases (has_key k m)) [
  | inl e ↦ e
  | inr e ↦ cc (lookup-none k m e)
]

Finds-extend :
    (ts m : HashMap TableDef) (k : Text) (t : TableDef)
    → has_key k m ≡ false
    → Finds m ts
    → Finds ((k, t) ∷ m) ts
unfolding lookup
Finds-extend [] m k t h f = tt
Finds-extend ((j, u) ∷ ts) m k t h (found, f) =
    (ground (arith, text_eq_iff j k, lookup-has_key j m found), Finds-extend ts m k t h f)

IsMap-Finds : (m : HashMap TableDef) → IsMap m → Finds m m
unfolding lookup
IsMap-Finds [] h = tt
IsMap-Finds ((k, t) ∷ m) h = (rw (text_eq_refl k), Finds-extend m m k t h.0 (IsMap-Finds m h.1))

filter_map-all_places :
    (g : SchemaGraph) (name : Text) (ts : HashMap TableDef)
    → Finds g.tables ts
    → filter_map (field_at g) (all_places name ts) ≡ scan_tables name ts
unfolding filter_map
filter_map-all_places g name [] h = refl
filter_map-all_places g name ((k, t) ∷ ts) (found, h) =
    filter_map-append (field_at g) (places name k 0 t.fields) (all_places name ts)
    ∙ rw (filter_map-places g name k t found t.fields [] refl, filter_map-all_places g name ts h)

-- In a graph whose index has been rebuilt, and whose tables have each name once, the lookup through
-- the index returns exactly what a scan of all fields of all tables returns, in the same order.
pub find_field-rebuild_field_index :
    (g : SchemaGraph) (name : Text)
    → IsMap g.tables
    → find_field (rebuild_field_index g) name ≡ scan_tables name g.tables
unfolding find_field rebuild_field_index lookup
find_field-rebuild_field_index g name h =
    rw (entries-index_tables name g.tables [])
      (filter_map-all_places (rebuild_field_index g) name g.tables (IsMap-Finds g.tables h))
