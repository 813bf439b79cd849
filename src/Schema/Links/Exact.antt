-- ===== src/Schema/Links/Exact.antt =====
-- What `tables_referencing` and `siblings_of` list.
use mathlib.Core.List.{Memᴰ}
use mathlib.Core.List.Memᴰ
use surql_parser.Prelude.{
  flat, true, not, Option, none, some, List, [], ◌∷◌, if◌then◌else◌, is_empty, keep, map, Text,
  text_eq, text_eq_iff, ◌≡◌, ◌≢◌, ◌↔◌, refl, sym, ap, ◌∙◌, arith, Bool-cases, Option-cases,
  List-cases, inl, inr,
}
use surql_parser.Prelude.HashMap.{HashMap, lookup, keys}
use surql_parser.Prelude.SortedSet.{contains}
use surql_parser.Prelude.Sorting.{
  sort_by, Memᴰ-sort_by, Memᴰ-flat, mem-flat, Memᴰ-map, mem-map, Memᴰ-keep,
}
use surql_parser.Schema.Model.{SchemaGraph, TableDef, FieldDef}
use surql_parser.Schema.Links.{
  links, links_of, text_le, references, tables_referencing, shared_links, siblings_with,
  siblings_of,
}

mem-keys : (V : Type 0) (k : Text) (v : V) (m : HashMap V) → lookup k m ≡ some v → Memᴰ k (keys m)
unfolding lookup
mem-keys V k v [] h = cc
mem-keys V k v ((j, w) ∷ m) h = elim (Bool-cases (text_eq k j)) [
  | inl e ↦ Memᴰ.head ((text_eq_iff k j).0 e)
  | inr e ↦ Memᴰ.tail (mem-keys V k v m (ground arith))
]

-- A table has a field that links to the target.
pub data Refers (g : SchemaGraph) (target : Text) : Text × Text → Type 0 where
  refers :
      (name : Text) (t : TableDef) (f : FieldDef)
      → lookup name g.tables ≡ some t
      → Memᴰ f t.fields
      → references target f ≡ true
      → Refers g target (name, f.name)

abbrev listed : SchemaGraph → Text → Text → List (Text × Text)
listed g target name = elim (lookup name g.tables) [
  | none ↦ []
  | some t ↦ map (λ f. (name, f.name)) (keep (references target) t.fields)
]

listed-Refers :
    (g : SchemaGraph) (target name : Text) (r : Text × Text)
    → Memᴰ r (listed g target name)
    → Refers g target r
listed-Refers g target name r m = elim (Option-cases (lookup name g.tables)) [
  | inl e ↦ absurd (Memᴰ.not-nil (rw (listed, e) at m))
  | inr (t, e) ↦
      let (f, mf, q) =
        Memᴰ-map (λ f. (name, f.name)) (keep (references target) t.fields) r
          (rw (listed, e) at m) in
      let (k, p) = (Memᴰ-keep (references target) t.fields f).0 mf in rw q (refers name t f e k p)
]

-- The table and field of a result refer to the target, and all that refer to it are listed.
tables_referencing_iff :
    (g : SchemaGraph) (target : Text) (r : Text × Text)
    → Memᴰ r (tables_referencing g target) ↔ Refers g target r
unfolding tables_referencing
tables_referencing_iff g target r = (
  λ m.
      let (name, k, l) = Memᴰ-flat (listed g target) (sort_by text_le (keys g.tables)) r m in
      listed-Refers g target name r l,
  back r,
)
  where
    back : (r : Text × Text) → Refers g target r → Memᴰ r (tables_referencing g target)
    back _ (refers name t f e k p) =
        mem-flat (listed g target) (sort_by text_le (keys g.tables)) name (name, f.name)
          ((Memᴰ-sort_by text_le name (keys g.tables)).1 (mem-keys TableDef name t g.tables e))
          (rw (listed, e)
            (mem-map (λ x. (name, x.name)) (keep (references target) t.fields) f
              ((Memᴰ-keep (references target) t.fields f).1 (k, p))))

abbrev pub targets_of : SchemaGraph → Text → List Text
targets_of g name = map (λ l. l.1) (links_of g name)

-- Another table links to a table that the given one links to.
pub data Sibling (g : SchemaGraph) (name : Text) : Text × Text × Text → Type 0 where
  sibling :
      (other field link : Text)
      → other ≢ name
      → Memᴰ (field, link) (links_of g other)
      → contains (targets_of g name) link ≡ true
      → Sibling g name (other, link, field)

abbrev Shared : List Text → Text → List (Text × Text) → Text × Text × Text → Type 0
Shared ts other ls r =
    (l : Text × Text) × Memᴰ l ls × (contains ts l.1 ≡ true) × (r ≡ (other, l.1, l.0))

shared_links-Shared :
    (ts : List Text) (other : Text) (ls : List (Text × Text)) (r : Text × Text × Text)
    → Memᴰ r (shared_links ts other ls)
    → Shared ts other ls r
unfolding shared_links
shared_links-Shared ts other [] r m = absurd (Memᴰ.not-nil m)
shared_links-Shared ts other (l ∷ ls) r m = elim (Bool-cases (contains ts l.1)) [
  | inl e ↦ elim (Memᴰ.cases_cons (rw (shared_links, e) at m)) [
    | inl q ↦ (l, Memᴰ.head refl, e, q)
    | inr k ↦ let (x, mx, c, q) = shared_links-Shared ts other ls r k in (x, Memᴰ.tail mx, c, q)
  ]
  | inr e ↦
      let (x, mx, c, q) = shared_links-Shared ts other ls r (rw (shared_links, e) at m) in
      (x, Memᴰ.tail mx, c, q)
]

mem-shared_links :
    (ts : List Text) (other : Text) (ls : List (Text × Text)) (l : Text × Text)
    → Memᴰ l ls
    → contains ts l.1 ≡ true
    → Memᴰ (other, l.1, l.0) (shared_links ts other ls)
unfolding shared_links
mem-shared_links ts other [] l m c = absurd (Memᴰ.not-nil m)
mem-shared_links ts other (k ∷ ls) l m c = elim (Memᴰ.cases_cons m) [
  | inl q ↦
      rw (shared_links, ap (λ x. contains ts x.1) (sym q) ∙ c)
        (Memᴰ.head (ap (λ x. (other, x.1, x.0)) q))
  | inr r ↦ elim (Bool-cases (contains ts k.1)) [
    | inl e ↦ rw (shared_links, e) (Memᴰ.tail (mem-shared_links ts other ls l r c))
    | inr e ↦ rw (shared_links, e) (mem-shared_links ts other ls l r c)
  ]
]

-- The loop over the other tables.
abbrev siblings : SchemaGraph → Text → List (Text × Text × Text)
siblings g name =
    flat (λ other. shared_links (targets_of g name) other (links_of g other))
      (sort_by text_le (keep (λ n. not (text_eq n name)) (keys g.tables)))

siblings-Sibling :
    (g : SchemaGraph) (name : Text) (r : Text × Text × Text)
    → Memᴰ r (siblings g name)
    → Sibling g name r
siblings-Sibling g name r m =
    let step : Text → List (Text × Text × Text) =
      λ other. shared_links (targets_of g name) other (links_of g other) in
    let others = keep (λ n. not (text_eq n name)) (keys g.tables) in
    let (other, k, s) = Memᴰ-flat step (sort_by text_le others) r m in
    let (l, ml, c, q) = shared_links-Shared (targets_of g name) other (links_of g other) r s in
    let (a, b) =
      (Memᴰ-keep (λ n. not (text_eq n name)) (keys g.tables) other).0
        ((Memᴰ-sort_by text_le other others).0 k) in
    let apart : other ≢ name = λ e. cc ((text_eq_iff other name).1 e, b) in
    rw q (sibling other l.0 l.1 apart ml c)

Sibling-siblings :
    (g : SchemaGraph) (name : Text) (r : Text × Text × Text)
    → Sibling g name r
    → Memᴰ r (siblings g name)
Sibling-siblings g name _ (sibling other field link apart m c) =
    let step : Text → List (Text × Text × Text) =
      λ o. shared_links (targets_of g name) o (links_of g o) in
    let others = keep (λ n. not (text_eq n name)) (keys g.tables) in
    let differs : not (text_eq other name) ≡ true = elim (Bool-cases (text_eq other name)) [
      | inl e ↦ absurd (apart ((text_eq_iff other name).0 e))
      | inr e ↦ rw e
    ] in
    let key : Memᴰ other (keys g.tables) = elim (Option-cases (lookup other g.tables)) [
      | inl e ↦ absurd (Memᴰ.not-nil (rw (links_of, e) at m))
      | inr (t, e) ↦ mem-keys TableDef other t g.tables e
    ] in
    mem-flat step (sort_by text_le others) other (other, link, field)
      ((Memᴰ-sort_by text_le other others).1
        ((Memᴰ-keep (λ n. not (text_eq n name)) (keys g.tables) other).1 (key, differs)))
      (mem-shared_links (targets_of g name) other (links_of g other) (field, link) m c)

no_target :
    (g : SchemaGraph) (name : Text)
    → is_empty (targets_of g name) ≡ true
    → (r : Text × Text × Text) → ¬ Sibling g name r
no_target g name e _ (sibling other field link apart m c) = elim (List-cases (targets_of g name)) [
  | inl q ↦ cc (q, c)
  | inr (x, xs, q) ↦ cc (ap is_empty q, e)
]

abbrev links_in : Option TableDef → List (Text × Text)
links_in o = elim o [ none ↦ [] | some t ↦ links t.fields ]

siblings_with-if :
    (g : SchemaGraph) (name : Text) (o : Option TableDef)
    → siblings_with g name o ≡ (
        if is_empty (map (λ l. l.1) (links_in o))
        then []
        else flat
            (λ other. shared_links (map (λ l. l.1) (links_in o)) other (links_of g other))
            (sort_by text_le (keep (λ n. not (text_eq n name)) (keys g.tables))))
unfolding siblings_with
siblings_with-if g name none = refl
siblings_with-if g name (some t) = refl

siblings_of-siblings :
    (g : SchemaGraph) (name : Text)
    → siblings_of g name ≡ (if is_empty (targets_of g name) then [] else siblings g name)
unfolding siblings_of
siblings_of-siblings g name = siblings_with-if g name (lookup name g.tables)

siblings_of_iff :
    (g : SchemaGraph) (name : Text) (r : Text × Text × Text)
    → Memᴰ r (siblings_of g name) ↔ Sibling g name r
siblings_of_iff g name r = elim (Bool-cases (is_empty (targets_of g name))) [
  | inl e ↦
      rw (siblings_of-siblings g name, e)
        (λ m. absurd (Memᴰ.not-nil m), λ s. absurd (no_target g name e r s))
  | inr e ↦
      rw (siblings_of-siblings g name, e) (siblings-Sibling g name r, Sibling-siblings g name r)
]

-- `tables_referencing` lists exactly the tables and fields that link to the target, and `siblings_of`
-- exactly the links of other tables to what the given table links to.
pub links_iff :
    (g : SchemaGraph) (name : Text)
    → ((r : Text × Text) → Memᴰ r (tables_referencing g name) ↔ Refers g name r)
      × ((r : Text × Text × Text) → Memᴰ r (siblings_of g name) ↔ Sibling g name r)
links_iff g name = (tables_referencing_iff g name, siblings_of_iff g name)
