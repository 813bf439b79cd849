-- ===== src/Overshift/Modules/Released.antt =====
-- The loop over the dependents of a module: what it does to the degrees.
use surql_parser.Prelude.{
  ℕ, zero, suc, ◌+◌, ◌≤◌, none, some, List, [], ◌∷◌, ◌==◌, if◌then◌else◌, length, Text, text_eq,
  text_eq_iff, text_eq_refl, ◌≡◌, ◌⊎◌, refl, sym, ◌∙◌, arith, Bool-cases, Option-cases, inl, inr,
}
use surql_parser.Prelude.HashMap.{HashMap, lookup, put}
use surql_parser.Overshift.Modules.{release, total}
use surql_parser.Overshift.Modules.Counts.{is, count, degree, degree-put}

-- A degree above 0, or none.
degree-cases :
    (n : Text) (d : HashMap ℕ) → (degree n d ≡ 0) ⊎ ((k : ℕ) × (lookup n d ≡ some (suc k)))
degree-cases n d = elim (Option-cases (lookup n d)) [
  | inl e ↦ inl (rw e)
  | inr (zero, e) ↦ inl (rw e)
  | inr (suc k, e) ↦ inr (k, e)
]

stuck :
    (name : Text) (names : List Text) (d : HashMap ℕ)
    → degree name d ≡ 0
    → release (name ∷ names) d ≡ none
unfolding release
stuck name names d h = elim (Option-cases (lookup name d)) [
  | inl e ↦ rw (release, e)
  | inr (zero, e) ↦ rw (release, e)
  | inr (suc k, e) ↦ absurd (ground arith)
]

abbrev Out : Type 0
Out = HashMap ℕ × List Text

abbrev next_with : ℕ → Text → List Text → List Text
next_with k name next = if k == 0 then name ∷ next else next

one_more :
    (name : Text) (names : List Text) (d : HashMap ℕ) (k : ℕ) (out : Out)
    → lookup name d ≡ some (suc k)
    → release names (put name k d) ≡ some out
    → release (name ∷ names) d ≡ some (out.0, next_with k name out.1)
unfolding release
one_more name names d k out e h = rw (release, e, h)

one_less :
    (name : Text) (names : List Text) (d : HashMap ℕ) (k : ℕ)
    → lookup name d ≡ some (suc k)
    → release names (put name k d) ≡ none
    → release (name ∷ names) d ≡ none
unfolding release
one_less name names d k e h = rw (release, e, h)

-- A release of one name more is one of the others behind it.
data Round (name : Text) (names : List Text) (d : HashMap ℕ) (out : Out) : Type 0 where
  round :
      (k : ℕ) (rest : Out)
      → lookup name d ≡ some (suc k)
      → release names (put name k d) ≡ some rest
      → out ≡ (rest.0, next_with k name rest.1)
      → Round name names d out

release-Round :
    (name : Text) (names : List Text) (d : HashMap ℕ) (out : Out)
    → release (name ∷ names) d ≡ some out
    → Round name names d out
release-Round name names d out h = elim (degree-cases name d) [
  | inl e ↦ cc (stuck name names d e, h)
  | inr (k, e) ↦ elim (Option-cases (release names (put name k d))) [
    | inl r ↦ cc (one_less name names d k e r, h)
    | inr (rest, r) ↦
        round k rest e r (let s = sym h ∙ one_more name names d k rest e r in ground arith)
  ]
]

-- What a release does to the degree of one name, and whether the name is among the next ones.
pub record Released (n : Text) (ns : List Text) (d : HashMap ℕ) (out : Out) : Type 0 where
  pub lowered : degree n out.0 + count n ns ≡ degree n d
  pub once : count n out.1 ≤ 1
  pub from_above : 1 ≤ count n out.1 → 1 ≤ degree n d
  pub to_zero : 1 ≤ count n out.1 → degree n out.0 ≡ 0
  pub met : 1 ≤ degree n d → degree n out.0 ≡ 0 → 1 ≤ count n out.1

pub release-Released :
    (n : Text) (ns : List Text) (d : HashMap ℕ) (out : Out)
    → release ns d ≡ some out
    → Released n ns d out
unfolding release
release-Released n [] d out h =
    let e : out ≡ (d, []) = ground arith in
    rw e (record {
      lowered = omega arith;
      once = omega arith;
      from_above = λ p. absurd (omega (arith, p));
      to_zero = λ p. absurd (omega (arith, p));
      met = λ p q. absurd (omega (arith, p, q));
    })
release-Released n (name ∷ ns) d out h = elim (release-Round name ns d out h) [
  | round k rest e r o ↦
      let i = release-Released n ns (put name k d) rest r in
      let at = degree-put n name k d in
      let here : degree name d ≡ suc k = rw e in
      let same = text_eq_iff n name in
      rw o (record {
        lowered = ground (arith, i.lowered);
        once = ground (arith, i.once, i.from_above);
        from_above = ground (arith, i.from_above);
        to_zero = ground (arith, i.to_zero, i.lowered);
        met = ground (arith, i.met);
      })
]

total-put :
    (n : Text) (k : ℕ) (d : HashMap ℕ)
    → lookup n d ≡ some (suc k)
    → suc (total (put n k d)) ≡ total d
unfolding lookup put
total-put n k [] h = cc
total-put n k ((m, j) ∷ d) h = elim (Bool-cases (text_eq n m)) [
  | inl e ↦ let s : j ≡ suc k = ground arith in rw (put, e) (omega (arith, s))
  | inr e ↦ rw (put, e) (omega (arith, total-put n k d (ground arith)))
]

-- The names that come next are paid for by the sum of the degrees.
pub release-total :
    (ns : List Text) (d : HashMap ℕ) (out : Out)
    → release ns d ≡ some out
    → total out.0 + length out.1 ≤ total d
unfolding release
release-total [] d out h = let e : out ≡ (d, []) = ground arith in rw e (omega arith)
release-total (name ∷ ns) d out h = elim (release-Round name ns d out h) [
  | round k rest e r o ↦
      rw o (ground (arith, release-total ns (put name k d) rest r, total-put name k d e))
]

is_self : (n : Text) → is n n ≡ 1
is_self n = rw (text_eq_refl n)

-- With high enough degrees nothing panics.
pub release_fine :
    (ns : List Text) (d : HashMap ℕ)
    → ((n : Text) → count n ns ≤ degree n d)
    → (out : Out) × (release ns d ≡ some out)
unfolding release
release_fine [] d h = ((d, []), refl)
release_fine (name ∷ ns) d h = elim (degree-cases name d) [
  | inl e ↦ absurd (omega (arith, h name, e, is_self name))
  | inr (k, e) ↦
      let (rest, r) = release_fine ns (put name k d) (λ n.
        let here : degree name d ≡ suc k = rw e in
        ground (arith, degree-put n name k d, text_eq_iff n name, h n)) in
      ((rest.0, next_with k name rest.1), one_more name ns d k rest e r)
]
