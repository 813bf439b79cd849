-- ===== src/Lint/Placed.antt =====
-- Where the results of `lint_schema` lie.
use mathlib.Core.List.{Memᴰ}
use mathlib.Core.List.Memᴰ
use surql_parser.Prelude.{
  ℕ, suc, ◌+◌, ◌≤◌, ◌<◌, Bool, true, Option, none, some, List, [], ◌∷◌, length, codes, Text, ◌≡◌,
  refl, ap, arith, Bool-cases, Option-cases, inl, inr,
}
use surql_parser.Strings.{contains_text, find_text, uppercase}
use surql_parser.Strings.Lines.{lines}
use surql_parser.Schema.{nth}
use surql_parser.Lint.Locations.{
  LintSeverity, LintResult, Source, Location, or_one, find_line, find_location, has_field,
  has_table, has_function, find_field_location, find_define_table_location,
  find_define_function_location,
}
use surql_parser.Lint.Passes.{report}

-- A line of one of the sources, under its number, and a column on it.
pub record OnLine (sources : List Source) (test : Text → Bool) (column : Text → ℕ) (at : Location)
    : Type 0 where
  pub content : Text
  pub index : ℕ
  pub text : Text
  pub source : Memᴰ (at.0, content) sources
  pub numbered : at.1 ≡ suc index
  pub stands : nth (lines content) index ≡ some text
  pub passes : test text ≡ true
  pub placed : at.2 ≡ column text

find_line_lem :
    (test : Text → Bool) (column : Text → ℕ) (n : ℕ) (ls : List Text) (k c : ℕ)
    → find_line test column n ls ≡ some (k, c)
    → (i : ℕ) × (l : Text) × (k ≡ n + i) × (nth ls i ≡ some l) × (test l ≡ true) × (c ≡ column l)
unfolding find_line
find_line_lem test column n [] k c h = cc
find_line_lem test column n (l ∷ ls) k c h = elim (Bool-cases (test l)) [
  | inl e ↦ (0, l, ground arith, refl, e, ground arith)
  | inr e ↦
      let (i, t, q, s, p, r) = find_line_lem test column (suc n) ls k c (ground arith) in
      (suc i, t, omega (arith, q), s, p, r)
]

find_location-OnLine :
    (test : Text → Bool) (column : Text → ℕ) (sources : List Source) (at : Location)
    → find_location test column sources ≡ some at
    → OnLine sources test column at
unfolding find_location
find_location-OnLine test column [] at h = cc
find_location-OnLine test column ((path, content) ∷ sources) at h =
    elim (Option-cases (find_line test column 1 (lines content))) [
      | inl e ↦
          let o = find_location-OnLine test column sources at (rw (find_location, e) at h) in
          record {
            content = o.content;
            index = o.index;
            text = o.text;
            source = Memᴰ.tail o.source;
            numbered = o.numbered;
            stands = o.stands;
            passes = o.passes;
            placed = o.placed;
          }
      | inr ((k, c), e) ↦
          let (i, l, q, s, p, r) = find_line_lem test column 1 (lines content) k c e in
          let same : at ≡ (path, k, c) = let g = (rw (find_location, e) at h) in ground arith in
          rw same (record {
            content = content;
            index = i;
            text = l;
            source = Memᴰ.head refl;
            numbered = omega (arith, q);
            stands = s;
            passes = p;
            placed = r;
          })
    ]

pub find_text-lt : (c : ℕ) (p t : Text) (i : ℕ) → find_text (c ∷ p) t ≡ some i → i < length t
unfolding find_text
find_text-lt c p [] i h = cc
find_text-lt c p (d ∷ t) i h = elim (Option-cases (find_text (c ∷ p) t)) [
  | inl e ↦ ground arith
  | inr (j, e) ↦ let k = find_text-lt c p t j e in ground arith
]

or_one-bounds :
    (c : ℕ) (p t : Text)
    → 1 ≤ length t
    → (1 ≤ or_one (find_text (c ∷ p) t)) × (or_one (find_text (c ∷ p) t) ≤ length t)
or_one-bounds c p t h = elim (Option-cases (find_text (c ∷ p) t)) [
  | inl e ↦ rw e (omega arith, h)
  | inr (i, e) ↦ let k = find_text-lt c p t i e in rw e (omega arith, omega (arith, k))
]

contains-length : (c : ℕ) (p t : Text) → contains_text (c ∷ p) t ≡ true → 1 ≤ length t
contains-length c p [] h = cc
contains-length c p (d ∷ t) h = omega arith

pub length-uppercase : (t : Text) → length (uppercase t) ≡ length t
length-uppercase [] = refl
length-uppercase (c ∷ t) = ap suc (length-uppercase t)

-- A result in a line of a source: the file is a source's path, the line is one of the content's lines,
-- the column one of its bytes.
pub record IsPlaced (sources : List Source) (r : LintResult) : Type 0 where
  pub content : Text
  pub index : ℕ
  pub text : Text
  pub source : Memᴰ (r.file, content) sources
  pub numbered : r.line ≡ suc index
  pub stands : nth (lines content) index ≡ some text
  pub column : (1 ≤ r.col) × (r.col ≤ length text)

abbrev pub at_of : LintResult → Location
at_of r = (r.file, r.line, r.col)

OnLine-IsPlaced :
    (sources : List Source) (test : Text → Bool) (column : Text → ℕ) (r : LintResult)
    → ((t : Text) → test t ≡ true → (1 ≤ column t) × (column t ≤ length t))
    → OnLine sources test column (at_of r)
    → IsPlaced sources r
OnLine-IsPlaced sources test column r bound o = record {
  content = o.content;
  index = o.index;
  text = o.text;
  source = o.source;
  numbered = o.numbered;
  stands = o.stands;
  column = rw o.placed (bound o.text o.passes);
}

pub mem-report :
    (code message : Text) (severity : LintSeverity) (o : Option Location) (r : LintResult)
    → Memᴰ r (report code message severity o)
    → o ≡ some (at_of r)
mem-report code message severity none r m = absurd (Memᴰ.not-nil m)
mem-report code message severity (some (file, line, col)) r m =
    let e = Memᴰ.eq_of_singleton m in rw e refl

field_bound :
    (table field t : Text)
    → has_field table field t ≡ true
    → (1 ≤ or_one (find_text (codes "DEFINE FIELD") (uppercase t)))
      × (or_one (find_text (codes "DEFINE FIELD") (uppercase t)) ≤ length t)
field_bound table field [] h = cc
field_bound table field (c ∷ t) h =
    let (a, b) =
      or_one-bounds b'D' (codes "EFINE FIELD") (uppercase (c ∷ t))
        (omega (arith, length-uppercase t)) in
    (a, omega (arith, b, length-uppercase t))

table_bound :
    (table t : Text)
    → has_table table t ≡ true
    → (1 ≤ or_one (find_text (codes "DEFINE TABLE") (uppercase t)))
      × (or_one (find_text (codes "DEFINE TABLE") (uppercase t)) ≤ length t)
table_bound table [] h = cc
table_bound table (c ∷ t) h =
    let (a, b) =
      or_one-bounds b'D' (codes "EFINE TABLE") (uppercase (c ∷ t))
        (omega (arith, length-uppercase t)) in
    (a, omega (arith, b, length-uppercase t))

function_bound :
    (name t : Text)
    → has_function name t ≡ true
    → (1 ≤ or_one (find_text (codes "DEFINE") t))
      × (or_one (find_text (codes "DEFINE") t) ≤ length t)
function_bound name [] h = cc
function_bound name (c ∷ t) h = or_one-bounds b'D' (codes "EFINE") (c ∷ t) (omega arith)

module _ (sources : List Source) (r : LintResult) where
  pub field-IsPlaced :
      (table field : Text)
      → find_field_location sources table field ≡ some (at_of r)
      → IsPlaced sources r
  unfolding find_field_location
  field-IsPlaced table field h =
      OnLine-IsPlaced sources (has_field table field)
        (λ line. or_one (find_text (codes "DEFINE FIELD") (uppercase line))) r
        (field_bound table field)
        (find_location-OnLine (has_field table field)
          (λ line. or_one (find_text (codes "DEFINE FIELD") (uppercase line))) sources (at_of r) h)

  pub table-IsPlaced :
      (table : Text)
      → find_define_table_location sources table ≡ some (at_of r)
      → IsPlaced sources r
  unfolding find_define_table_location
  table-IsPlaced table h =
      OnLine-IsPlaced sources (has_table table)
        (λ line. or_one (find_text (codes "DEFINE TABLE") (uppercase line))) r (table_bound table)
        (find_location-OnLine (has_table table)
          (λ line. or_one (find_text (codes "DEFINE TABLE") (uppercase line))) sources (at_of r) h)

  pub function-IsPlaced :
      (name : Text)
      → find_define_function_location sources name ≡ some (at_of r)
      → IsPlaced sources r
  unfolding find_define_function_location
  function-IsPlaced name h =
      OnLine-IsPlaced sources (has_function name) (λ line. or_one (find_text (codes "DEFINE") line))
        r (function_bound name)
        (find_location-OnLine (has_function name) (λ line. or_one (find_text (codes "DEFINE") line))
          sources (at_of r) h)
