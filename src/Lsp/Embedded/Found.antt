-- ===== src/Lsp/Embedded/Found.antt =====
-- The extraction ends, and each region that it finds is one of the source.
use mathlib.Core.Path.{subst}
use surql_parser.Prelude.{
  ℕ, zero, suc, ◌+◌, ◌-◌, ◌≤◌, ◌<◌, true, Option, none, some, List, [], ◌∷◌, ◌++◌, ◌≡◌, ◌≢◌, refl,
  ap, ◌∙◌, arith, leb, length, length-take, take, drop, All, Text, codes, Bool-cases, Option-cases,
  inl, inr,
}
use surql_parser.Params.{starts_with_byte, tail}
use surql_parser.Strings.{starts_with}
use surql_parser.Lsp.Embedded.{
  RegionKind, statement, function_name, EmbeddedRegion, query_macro, check_macro, function_attr,
  find_surql_macro, blanks, string_end, region_at, extract_string_after, statement_at,
  find_surql_function_attr, add_region, round, regions_from, extract_surql_from_rust,
}
use surql_parser.Lsp.Embedded.Regions.{
  Opens, IsRegion, starts_with-split, take-drop, drop-drop, blanks-all, blanks-le,
  starts_with_byte-split, string_end-ClosesAt, string_end-IsStringBody,
}

some-eq : (a b : EmbeddedRegion) → some a ≡ some b → a ≡ b
some-eq a b e = cc

module _ (source : Text) (i : ℕ) (kind : RegionKind) (opener : Text) (inside : i ≤ length source)
    (opens : Opens kind opener) (begins : starts_with opener (drop i source) ≡ true) where
  abbrev rest : Text
  rest = drop (i + length opener) source

  abbrev body : Text
  body = drop (blanks rest) rest

  source-split : source ≡ take i source ++ (opener ++ rest)
  source-split =
      take-drop i source
      ∙ ap (λ t. take i source ++ t)
          (starts_with-split opener (drop i source) begins
            ∙ ap (λ t. opener ++ t) (drop-drop i (length opener) source))

  region_at-IsRegion :
      (n : ℕ) (r : EmbeddedRegion)
      → starts_with_byte b'"' body ≡ true
      → string_end (tail body) ≡ some n
      → region_at source (i + length opener + blanks rest + 1) kind (tail body) (some n) ≡ some r
      → IsRegion source r
  unfolding region_at
  region_at-IsRegion n r quoted ends e =
      let (short, split) = string_end-ClosesAt (tail body) n ends in
      subst (IsRegion source) (some-eq _ r e) (record {
        before = take i source;
        opener = opener;
        space = take (blanks rest) rest;
        after = drop (suc n) (tail body);
        splits =
            source-split
            ∙ ap (λ t. take i source ++ (opener ++ t))
                (take-drop (blanks rest) rest
                  ∙ ap (λ t. take (blanks rest) rest ++ t)
                      (starts_with_byte-split b'"' body quoted ∙ ap (λ t. b'"' ∷ t) split));
        opens = opens;
        blank = blanks-all rest;
        closed = string_end-IsStringBody (tail body) n ends;
        offset_is =
            let front = length-take i source inside in
            let spaces = length-take (blanks rest) rest (blanks-le rest) in omega arith;
        place = refl;
      })

  extract_string_after-IsRegion :
      (r : EmbeddedRegion)
      → extract_string_after source (i + length opener) kind ≡ some r
      → IsRegion source r
  unfolding extract_string_after region_at
  extract_string_after-IsRegion r e = elim (Bool-cases (starts_with_byte b'"' body)) [
    | inl q ↦ elim (Option-cases (string_end (tail body))) [
      | inl none_found ↦ absurd (cc (rw (q, none_found) at e))
      | inr (n, found) ↦ region_at-IsRegion n r q found (rw (q, found) at e)
    ]
    | inr q ↦ absurd (cc (rw q at e))
  ]

pair-eq :
    (a b : EmbeddedRegion) (m n : ℕ)
    → ◌≡◌ {A = Option (EmbeddedRegion × ℕ)} (some (a, m)) (some (b, n))
    → (a ≡ b) × (m ≡ n)
pair-eq a b m n e = (cc, cc)

statement_at-none :
    (source : Text) (i : ℕ) (r : EmbeddedRegion) (macro_end : ℕ)
    → statement_at source i none ≢ some (r, macro_end)
unfolding statement_at
statement_at-none source i r macro_end e = cc

macro-IsRegion :
    (source : Text) (i : ℕ) (opener : Text) (r : EmbeddedRegion) (macro_end : ℕ)
    → i ≤ length source
    → Opens statement opener
    → starts_with opener (drop i source) ≡ true
    → statement_at source i (some (length opener)) ≡ some (r, macro_end)
    → IsRegion source r × (i ≤ macro_end)
unfolding statement_at
macro-IsRegion source i opener r macro_end h opens begins e =
    elim (Option-cases (extract_string_after source (i + length opener) statement)) [
      | inl q ↦ absurd (cc (rw q at e))
      | inr (s, q) ↦
          let (same, stop) = pair-eq s r (i + length opener) macro_end (rw q at e) in
          (
            subst (IsRegion source) same
                (extract_string_after-IsRegion source i statement opener h opens begins s q),
            omega arith,
          )
    ]

statement_at-IsRegion :
    (source : Text) (i : ℕ) (r : EmbeddedRegion) (macro_end : ℕ)
    → i ≤ length source
    → statement_at source i (find_surql_macro (drop i source)) ≡ some (r, macro_end)
    → IsRegion source r × (i ≤ macro_end)
unfolding find_surql_macro
statement_at-IsRegion source i r macro_end h e =
    elim (Bool-cases (starts_with query_macro (drop i source))) [
      | inl b ↦ macro-IsRegion source i query_macro r macro_end h (inl refl) b (rw b at e)
      | inr b ↦ elim (Bool-cases (starts_with check_macro (drop i source))) [
        | inl c ↦ macro-IsRegion source i check_macro r macro_end h (inr refl) c (rw (b, c) at e)
        | inr c ↦ absurd (statement_at-none source i r macro_end (rw (b, c) at e))
      ]
    ]

find_surql_function_attr-IsRegion :
    (source : Text) (i : ℕ) (r : EmbeddedRegion)
    → i ≤ length source
    → find_surql_function_attr source i ≡ some r
    → IsRegion source r
unfolding find_surql_function_attr
find_surql_function_attr-IsRegion source i r h e =
    elim (Bool-cases (starts_with function_attr (drop i source))) [
      | inl b ↦
          extract_string_after-IsRegion source i function_name function_attr h refl b r (rw b at e)
      | inr b ↦ absurd (cc (rw b at e))
    ]

Found : Text → Option (List EmbeddedRegion) → Type 0
Found source o = (rs : List EmbeddedRegion) × (o ≡ some rs) × All (IsRegion source) rs

add_region-Found :
    (source : Text) (o : Option EmbeddedRegion) (further : Option (List EmbeddedRegion))
    → ((r : EmbeddedRegion) → o ≡ some r → IsRegion source r)
    → Found source further
    → Found source (add_region o further)
unfolding Found
add_region-Found source none further h (rs, e, all_rs) = (rs, rw e refl, all_rs)
add_region-Found source (some r) further h (rs, e, all_rs) = (r ∷ rs, rw e refl, (h r refl, all_rs))

-- One round, where the loop behind it ends.
round-Found :
    (rec : ℕ → Option (List EmbeddedRegion)) (source : Text) (i : ℕ)
    → i ≤ length source
    → ((j : ℕ) → i < j → Found source (rec j))
    → Found source (round rec source i (statement_at source i (find_surql_macro (drop i source))))
unfolding round
round-Found rec source i h further =
    elim (Option-cases (statement_at source i (find_surql_macro (drop i source)))) [
      | inl e ↦ rw e (elim (Bool-cases (starts_with (codes "#[") (drop i source))) [
        | inl b ↦ rw b (
            add_region-Found source (find_surql_function_attr source i) (rec (i + 1))
              (λ r q. find_surql_function_attr-IsRegion source i r h q)
              (further (i + 1) (omega arith)))
        | inr b ↦ rw b (
            add_region-Found source none (rec (i + 1)) (λ r q. absurd (cc q))
              (further (i + 1) (omega arith)))
      ])
      | inr ((r, macro_end), e) ↦
          let (region, behind) = statement_at-IsRegion source i r macro_end h e in
          rw e (
            add_region-Found source (some r) (rec (macro_end + length r.content + 2))
              (λ s q. subst (IsRegion source) (some-eq r s q) region)
              (further (macro_end + length r.content + 2) (omega arith)))
    ]

regions_from-Found :
    (fuel : ℕ) (source : Text) (i : ℕ)
    → length source - i < fuel
    → Found source (regions_from fuel source i)
unfolding regions_from
regions_from-Found zero source i h = absurd (omega arith)
regions_from-Found (suc fuel) source i h = elim (Bool-cases (leb (length source) i)) [
  | inl e ↦ rw e (unfold Found in ([], refl, tt))
  | inr e ↦ rw e (
      round-Found (regions_from fuel source) source i (ground arith)
        (λ j k. regions_from-Found fuel source j (ground arith)))
]

-- The extraction ends on every source, and each region that it returns is a string of the source behind
-- a macro or an attribute, with its content, its kind, its line and its column; its offset is that
-- of the first byte behind the opening quote.
pub extract_surql_from_rust-IsRegion :
    (source : Text)
    → (rs : List EmbeddedRegion) × (extract_surql_from_rust source ≡ some rs)
      × All (IsRegion source) rs
unfolding extract_surql_from_rust Found
extract_surql_from_rust-IsRegion source =
    regions_from-Found (suc (length source)) source 0 (omega arith)
