-- ===== src/Diff/Same.antt =====
-- Two definitions of a table that agree, where the comparison of both pushes nothing.
use surql_parser.Prelude.{
  Bool, true, false, not, Option, none, some, List, [], ◌∷◌, ◌++◌, ◌≡◌, refl, sym, ap, ◌∙◌, arith,
  Text, text_eq, text_eq_iff, find, is_empty, Bool-cases, inl, inr,
}
use surql_parser.Prelude.SortedSet.{collect, contains, contains-collect}
use surql_parser.Prelude.SortedSet.Laws.{contains-keep}
use surql_parser.Schema.Model.{TableDef, FieldDef, field_names, index_names, event_names}
use surql_parser.Diff.{on_table, minus, same_kind, mode_change, type_change, type_changes}
use surql_parser.Diff.Closed.{gather, common_parts}

abbrev pub named : Text → FieldDef → Bool
named name f = text_eq f.name name

abbrev kind_of : Option FieldDef → Option (Option Text)
kind_of none = none
kind_of (some f) = some f.kind

-- The kind of the first field of a name.
abbrev pub kind_in : List FieldDef → Text → Option (Option Text)
kind_in fs name = kind_of (find (named name) fs)

-- The same mode, the same names of fields, indexes and events, and the same kind of each field.
pub record SameTable (b a : TableDef) : Type 0 where
  pub full : b.full ≡ a.full
  pub fields : (f : Text) → contains (field_names b.fields) f ≡ contains (field_names a.fields) f
  pub kinds : (f : Text) → kind_in b.fields f ≡ kind_in a.fields f
  pub indexes : (i : Text) → contains (index_names b.indexes) i ≡ contains (index_names a.indexes) i
  pub events : (e : Text) → contains (event_names b.events) e ≡ contains (event_names a.events) e

-- A table of both graphs or of neither, and the same table.
abbrev pub Agree : Option TableDef → Option TableDef → Type 0
Agree none none = Unit
Agree (some b) (some a) = SameTable b a
Agree _ _ = ⊥

module _ {ℓ} {A : Type ℓ} where
  pub is_empty-append :
      (xs ys : List A) → is_empty (xs ++ ys) ≡ true → (is_empty xs ≡ true) × (is_empty ys ≡ true)
  is_empty-append [] ys h = (refl, h)
  is_empty-append (x ∷ xs) ys h = absurd cc

  -- The three loops behind one vector.
  pub is_empty-loops :
      (xs ys zs : List A)
      → is_empty ((([] ++ xs) ++ ys) ++ zs) ≡ true
      → (is_empty xs ≡ true) × (is_empty ys ≡ true) × (is_empty zs ≡ true)
  is_empty-loops xs ys zs h =
      let (h', z) = is_empty-append (xs ++ ys) zs h in
      let (x, y) = is_empty-append xs ys h' in (x, y, z)

  pub gather-is_empty :
      (f : Text → List A) (names : List Text) (n : Text)
      → is_empty (gather f names) ≡ true
      → contains names n ≡ true
      → is_empty (f n) ≡ true
  gather-is_empty f [] n h k = absurd cc
  gather-is_empty f (m ∷ names) n h k =
      let (here, there) = is_empty-append (f m) (gather f names) h in
      elim (Bool-cases (text_eq n m)) [
        | inl q ↦ let same : n ≡ m = (text_eq_iff n m).0 q in rw same here
        | inr q ↦ gather-is_empty f names n there (ground arith)
      ]

is_empty-on_table : (name : Text) (xs : List Text) → is_empty (on_table name xs) ≡ is_empty xs
is_empty-on_table name [] = refl
is_empty-on_table name (x ∷ xs) = refl

is_empty-contains : (xs : List Text) (n : Text) → is_empty xs ≡ true → contains xs n ≡ false
is_empty-contains [] n h = refl
is_empty-contains (x ∷ xs) n h = absurd cc

minus-is_empty :
    (xs ys : List Text) (n : Text)
    → is_empty (minus xs ys) ≡ true
    → contains xs n ≡ true
    → contains ys n ≡ true
minus-is_empty xs ys n h k =
    let kept = contains-keep (λ x. not (contains ys x)) xs n in
    let out = is_empty-contains (minus xs ys) n h in ground arith

-- Two lists of names, neither of which has a name that the other lacks.
same_members :
    (tb : Text) (xs ys : List Text)
    → is_empty (on_table tb (minus (collect ys) (collect xs))) ≡ true
    → is_empty (on_table tb (minus (collect xs) (collect ys))) ≡ true
    → (n : Text) → contains xs n ≡ contains ys n
same_members tb xs ys h k n =
    let there = minus-is_empty (collect ys) (collect xs) n (sym (is_empty-on_table tb _) ∙ h) in
    let back = minus-is_empty (collect xs) (collect ys) n (sym (is_empty-on_table tb _) ∙ k) in
    let cx = contains-collect xs n in let cy = contains-collect ys n in ground arith

pub same_functions :
    (xs ys : List Text)
    → is_empty (minus (collect ys) (collect xs)) ≡ true
    → is_empty (minus (collect xs) (collect ys)) ≡ true
    → (n : Text) → contains xs n ≡ contains ys n
same_functions xs ys h k =
    same_members [] xs ys (is_empty-on_table [] _ ∙ h) (is_empty-on_table [] _ ∙ k)

mode_change-is_empty : (name : Text) (b a : Bool) → is_empty (mode_change name b a) ≡ true → b ≡ a
unfolding mode_change
mode_change-is_empty name true true h = refl
mode_change-is_empty name false false h = refl
mode_change-is_empty name true false h = absurd cc
mode_change-is_empty name false true h = absurd cc

same_kind-eq : (a b : Option Text) → same_kind a b ≡ true → a ≡ b
same_kind-eq none none h = refl
same_kind-eq (some a) (some b) h = ap some ((text_eq_iff a b).0 h)
same_kind-eq none (some b) h = absurd cc
same_kind-eq (some a) none h = absurd cc

type_change-is_empty :
    (name : Text) (f g : FieldDef) → is_empty (type_change name f (some g)) ≡ true → f.kind ≡ g.kind
unfolding type_change
type_change-is_empty name f g h = elim (Bool-cases (same_kind f.kind g.kind)) [
  | inl e ↦ same_kind-eq f.kind g.kind e
  | inr e ↦ absurd (ground arith)
]

find-contains :
    (fs : List FieldDef) (name : Text)
    → contains (field_names fs) name ≡ true
    → (f : FieldDef) × (find (named name) fs ≡ some f)
find-contains [] name h = absurd cc
find-contains (f ∷ fs) name h = elim (Bool-cases (text_eq f.name name)) [
  | inl e ↦ (f, rw e refl)
  | inr e ↦
      let (g, found) =
        find-contains fs name (ground (arith, text_eq_iff name f.name, text_eq_iff f.name name)) in
      (g, rw e found)
]

find-absent :
    (fs : List FieldDef) (name : Text)
    → contains (field_names fs) name ≡ false
    → find (named name) fs ≡ none
find-absent [] name h = refl
find-absent (f ∷ fs) name h =
    ground (arith, text_eq_iff name f.name, text_eq_iff f.name name, find-absent fs name)

type_changes-is_empty :
    (tb : Text) (fs gs : List FieldDef) (name : Text) (g : FieldDef)
    → is_empty (type_changes tb fs gs) ≡ true
    → contains (field_names fs) name ≡ true
    → find (named name) gs ≡ some g
    → kind_in fs name ≡ some g.kind
unfolding type_changes
type_changes-is_empty tb [] gs name g h k e = absurd cc
type_changes-is_empty tb (f ∷ fs) gs name g h k e =
    let (here, there) = is_empty-append (type_change tb f (find (named f.name) gs)) _ h in
    elim (Bool-cases (text_eq f.name name)) [
      | inl q ↦
          let same : f.name ≡ name = (text_eq_iff f.name name).0 q in
          let found : find (named f.name) gs ≡ some g = ap (λ n. find (named n) gs) same ∙ e in
          rw (kind_in, q)
            (ap some (
              type_change-is_empty tb f g
                (ap (λ o. is_empty (type_change tb f o)) (sym found) ∙ here)))
      | inr q ↦
          rw (kind_in, q)
            (type_changes-is_empty tb fs gs name g there
              (ground (arith, text_eq_iff name f.name, text_eq_iff f.name name)) e)
    ]

same_kinds :
    (tb : Text) (fs gs : List FieldDef)
    → is_empty (type_changes tb fs gs) ≡ true
    → ((n : Text) → contains (field_names fs) n ≡ contains (field_names gs) n)
    → (n : Text) → kind_in fs n ≡ kind_in gs n
same_kinds tb fs gs h k n = elim (Bool-cases (contains (field_names fs) n)) [
  | inl e ↦
      let (g, found) = find-contains gs n (sym (k n) ∙ e) in
      type_changes-is_empty tb fs gs n g h e found ∙ ap kind_of (sym found)
  | inr e ↦ ap kind_of (find-absent fs n e ∙ sym (find-absent gs n (sym (k n) ∙ e)))
]

pub common_parts-Agree :
    (name : Text) (o o' : Option TableDef) {b a : TableDef}
    → o ≡ some b
    → o' ≡ some a
    → is_empty (common_parts name o o').changed_tables ≡ true
    → is_empty (common_parts name o o').added_fields ≡ true
    → is_empty (common_parts name o o').removed_fields ≡ true
    → is_empty (common_parts name o o').changed_fields ≡ true
    → is_empty (common_parts name o o').added_indexes ≡ true
    → is_empty (common_parts name o o').removed_indexes ≡ true
    → is_empty (common_parts name o o').added_events ≡ true
    → is_empty (common_parts name o o').removed_events ≡ true
    → Agree o o'
common_parts-Agree name none o' p q mode af rf cf ai ri ae re = absurd cc
common_parts-Agree name (some b) none p q mode af rf cf ai ri ae re = absurd cc
common_parts-Agree name (some b) (some a) p q mode af rf cf ai ri ae re =
    let fields = same_members name (field_names b.fields) (field_names a.fields) af rf in
    record {
      full = mode_change-is_empty name b.full a.full mode;
      fields = fields;
      kinds = same_kinds name b.fields a.fields cf fields;
      indexes = same_members name (index_names b.indexes) (index_names a.indexes) ai ri;
      events = same_members name (event_names b.events) (event_names a.events) ae re;
    }
