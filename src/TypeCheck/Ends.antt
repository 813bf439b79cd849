-- ===== src/TypeCheck/Ends.antt =====
-- The type check ends, and more fuel changes nothing.
use surql_parser.Prelude.{
  ℕ, zero, suc, ◌≤◌, ◌<◌, Bool, true, false, not, ◌||◌, Option, none, some, List, [], ◌∷◌,
  if◌then◌else◌, length, any, keep, map, All, All-map, codes, Text, text_eq, ◌≡◌, refl, arith,
  Bool-cases, Option-cases, List-cases, inl, inr,
}
use surql_parser.Strings.{starts_with, contains_text, trim}
use surql_parser.TypeCheck.{
  strip_wrapper, extract_option_inner, extract_generic_inner, list_wrappers, set_wrappers,
  set_inner, is_none, mentions, split_bars, text_types, simple_match, any_matches, inner_matches,
  nullable, union, collection, plain, check, normalized, matches, surql_type_matches_rust,
}
use surql_parser.TypeCheck.Shorter.{
  length-normalized, length-strip_wrapper, split_bars_short, All-trimmed, All-keep,
}

-- Two runs return the same answer.
pub record Agree (o p : Option Bool) : Type 0 where
  pub answer : Bool
  pub left : o ≡ some answer
  pub right : p ≡ some answer

agreed : (b : Bool) → Agree (some b) (some b)
agreed b = record { answer = b; left = refl; right = refl }

module _ (n : ℕ) (f g : Text → Text → Option Bool)
    (same : (t r : Text) → length t < n → Agree (f t r) (g t r)) where
  any_matches-Agree :
      (ps : List Text) (rust : Text)
      → All (λ p. length p < n) ps
      → Agree (any_matches f ps rust) (any_matches g ps rust)
  unfolding any_matches
  any_matches-Agree [] rust h = agreed false
  any_matches-Agree (p ∷ ps) rust h =
      let one = same p rust h.0 in
      let rest = any_matches-Agree ps rust h.1 in
      elim (Bool-cases one.answer) [
        | inl e ↦ record {
          answer = true;
          left = rw (any_matches, one.left, e);
          right = rw (any_matches, one.right, e);
        }
        | inr e ↦ record {
          answer = rest.answer;
          left = rw (any_matches, one.left, e) rest.left;
          right = rw (any_matches, one.right, e) rest.right;
        }
      ]

  inner_matches-Agree :
      (ty : Text) (o : Option Text)
      → length ty < n
      → Agree (inner_matches f ty o) (inner_matches g ty o)
  unfolding inner_matches
  inner_matches-Agree ty none h = agreed true
  inner_matches-Agree ty (some inner) h = same ty inner h

  pub nullable-Agree :
      (ty rust : Text) → length ty < n → Agree (nullable f ty rust) (nullable g ty rust)
  unfolding nullable
  nullable-Agree ty rust h = elim (Bool-cases (contains_text (codes "Option") rust)) [
    | inl e ↦ rw e (inner_matches-Agree ty (extract_option_inner rust) h)
    | inr e ↦ rw e (same ty rust h)
  ]

  several :
      (ps : List Text) (rust : Text)
      → All (λ p. length p < n) ps
      → Agree
          (if contains_text (codes "Option") rust then some true else any_matches f ps rust)
          (if contains_text (codes "Option") rust then some true else any_matches g ps rust)
  several ps rust h = elim (Bool-cases (contains_text (codes "Option") rust)) [
    | inl e ↦ rw e (agreed true)
    | inr e ↦ rw e (any_matches-Agree ps rust h)
  ]

  union-Agree :
      (ps : List Text) (rust : Text)
      → All (λ p. length p < n) ps
      → Agree (union f ps rust) (union g ps rust)
  unfolding union
  union-Agree ps rust h = elim (Bool-cases (any is_none ps)) [
    | inr e ↦ rw e (any_matches-Agree ps rust h)
    | inl e ↦
        let others = keep (λ p. not (is_none p)) ps in
        elim (List-cases others) [
          | inl k ↦ rw (e, k) (several ps rust h)
          | inr (ty, rest, k) ↦ elim (List-cases rest) [
            | inl j ↦
                let short : All (λ p. length p < n) others =
                  All-keep (λ p. length p < n) (λ p. not (is_none p)) ps h in
                rw (e, k, j) (nullable-Agree ty rust (let a = (rw k at short) in a.0))
            | inr (u, more, j) ↦ rw (e, k, j) (several ps rust h)
          ]
        ]
  ]

  collection-Agree :
      (ws : List Text) (ty : Text) (o : Option Text) (rust : Text)
      → length ty < n
      → Agree (collection f ws ty o rust) (collection g ws ty o rust)
  unfolding collection
  collection-Agree ws ty o rust h = elim (Bool-cases (mentions rust ws)) [
    | inl e ↦ rw e (inner_matches-Agree ty o h)
    | inr e ↦ rw e (agreed false)
  ]

  plain-Agree : (ty rust : Text) → length ty ≤ n → Agree (plain f ty rust) (plain g ty rust)
  unfolding plain
  plain-Agree ty rust h =
      elim (Bool-cases (starts_with (codes "record<") ty || text_eq ty (codes "record"))) [
        | inl e ↦ rw e (agreed (mentions rust text_types))
        | inr e ↦ elim (Option-cases (strip_wrapper ty (codes "array<"))) [
          | inr (inner, a) ↦
              rw (e, a)
                (collection-Agree list_wrappers inner (extract_generic_inner rust (codes "Vec"))
                  rust (omega (arith, length-strip_wrapper b'a' (codes "rray<") ty inner a, h)))
          | inl a ↦ elim (Option-cases (strip_wrapper ty (codes "set<"))) [
            | inr (inner, s) ↦
                rw (e, a, s)
                  (collection-Agree set_wrappers inner (set_inner rust) rust
                    (omega (arith, length-strip_wrapper b's' (codes "et<") ty inner s, h)))
            | inl s ↦ rw (e, a, s) (agreed (simple_match ty rust))
          ]
        ]
      ]

  check-Agree : (ty rust : Text) → length ty ≤ n → Agree (check f ty rust) (check g ty rust)
  unfolding check
  check-Agree ty rust h = elim (Bool-cases (contains_text (codes "|") ty)) [
    | inl e ↦ rw e (
        union-Agree (map (λ t. trim t) (split_bars ty)) rust (
          All-trimmed n (split_bars ty)
            (All-map (λ p k. omega (arith, k, h)) (split_bars ty) (split_bars_short ty e))))
    | inr e ↦ elim (Option-cases (strip_wrapper ty (codes "option<"))) [
      | inr (inner, o) ↦
          rw (e, o)
            (nullable-Agree inner rust
              (omega (arith, length-strip_wrapper b'o' (codes "ption<") ty inner o, h)))
      | inl o ↦ rw (e, o) (plain-Agree ty rust h)
    ]
  ]

-- With more fuel than the type is long, the answer does not depend on the fuel.
pub matches-Agree :
    (f g : ℕ) (ty rust : Text)
    → length ty < f
    → length ty < g
    → Agree (matches f ty rust) (matches g ty rust)
unfolding matches
matches-Agree zero g ty rust h k = absurd (omega (arith, h))
matches-Agree (suc f) zero ty rust h k = absurd (omega (arith, k))
matches-Agree (suc f) (suc g) ty rust h k =
    check-Agree (length ty) (matches f) (matches g)
      (λ t r s. matches-Agree f g t r (omega (arith, s, h)) (omega (arith, s, k))) (normalized ty)
      rust (length-normalized ty)

-- The type check returns an answer for each pair of types, however they are nested.
pub surql_type_matches_rust_returns :
    (ty rust : Text) → (b : Bool) × (surql_type_matches_rust ty rust ≡ some b)
unfolding surql_type_matches_rust
surql_type_matches_rust_returns ty rust =
    let a = matches-Agree (suc (length ty)) (suc (length ty)) ty rust (omega arith) (omega arith) in
    (a.answer, a.left)
