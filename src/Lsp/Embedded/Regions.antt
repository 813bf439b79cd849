-- ===== src/Lsp/Embedded/Regions.antt =====
-- The regions that are extracted are where they say, and the extraction ends.
use surql_parser.Prelude.{
  ℕ, zero, suc, ◌+◌, ◌≤◌, ◌<◌, true, Option, none, some, [], ◌∷◌, ◌++◌, ◌≡◌, ◌⊎◌, refl, sym, ap,
  arith, ◌==◌, length, take, drop, all, Text, Bool-cases, inl, inr,
}
use surql_parser.Params.{starts_with_byte, tail}
use surql_parser.Strings.{starts_with, shift}
use surql_parser.Lsp.Position.{offset_to_line_col}
use surql_parser.Lsp.Embedded.{
  false, RegionKind, statement, function_name, EmbeddedRegion, query_macro, check_macro,
  function_attr, is_ascii_whitespace, blanks, string_end,
}

-- What opens a region of a kind.
abbrev pub Opens : RegionKind → Text → Type 0
Opens statement opener = (opener ≡ query_macro) ⊎ (opener ≡ check_macro)
Opens function_name opener = opener ≡ function_attr

-- A text with no quote but behind a backslash, and no backslash at its end that escapes nothing.
pub data IsStringBody : Text → Type 0 where
  done : IsStringBody []
  plain :
      (c : ℕ) (t : Text)
      → (c == b'\\') ≡ false
      → (c == b'"') ≡ false
      → IsStringBody t
      → IsStringBody (c ∷ t)
  escaped : (c d : ℕ) (t : Text) → (c == b'\\') ≡ true → IsStringBody t → IsStringBody (c ∷ d ∷ t)

-- The region is the content of a string of the source, up to its first quote with no backslash before,
-- behind a macro or an attribute and white space; offset, line and column are those of its first byte.
pub record IsRegion (source : Text) (r : EmbeddedRegion) : Type 0 where
  pub before : Text
  pub opener : Text
  pub space : Text
  pub after : Text
  pub splits : source ≡ before ++ (opener ++ (space ++ b'"' ∷ (r.content ++ b'"' ∷ after)))
  pub opens : Opens r.kind opener
  pub blank : all is_ascii_whitespace space ≡ true
  pub closed : IsStringBody r.content
  pub offset_is : r.offset ≡ length before + length opener + length space + 1
  pub place : (r.line, r.col) ≡ offset_to_line_col source r.offset

pub starts_with-split : (p t : Text) → starts_with p t ≡ true → t ≡ p ++ drop (length p) t
starts_with-split [] t h = refl
starts_with-split (c ∷ p) [] h = absurd cc
starts_with-split (c ∷ p) (d ∷ t) h = ground (arith, starts_with-split p t)

pub take-drop : (n : ℕ) (t : Text) → t ≡ take n t ++ drop n t
take-drop zero t = refl
take-drop (suc n) [] = refl
take-drop (suc n) (c ∷ t) = ap (◌∷◌ c) (take-drop n t)

drop-nil : (n : ℕ) → ◌≡◌ {A = Text} (drop n []) []
drop-nil zero = refl
drop-nil (suc n) = refl

pub drop-drop : (m n : ℕ) (t : Text) → drop n (drop m t) ≡ drop (m + n) t
drop-drop zero n t = let e : 0 + n ≡ n = omega arith in rw e refl
drop-drop (suc m) n [] = let e : suc m + n ≡ suc (m + n) = omega arith in rw e (drop-nil n)
drop-drop (suc m) n (c ∷ t) =
    let e : suc m + n ≡ suc (m + n) = omega arith in rw e (drop-drop m n t)

pub blanks-all : (t : Text) → all is_ascii_whitespace (take (blanks t) t) ≡ true
unfolding blanks
blanks-all [] = refl
blanks-all (c ∷ t) = ground (arith, blanks-all t)

pub blanks-le : (t : Text) → blanks t ≤ length t
unfolding blanks
blanks-le [] = omega arith
blanks-le (c ∷ t) = ground (arith, blanks-le t)

pub starts_with_byte-split : (b : ℕ) (t : Text) → starts_with_byte b t ≡ true → t ≡ b ∷ tail t
starts_with_byte-split b [] h = absurd cc
starts_with_byte-split b (c ∷ t) h = ground arith

some-eq : {m n : ℕ} → some m ≡ some n → m ≡ n
some-eq e = cc

-- The closing quote is the byte at the index.
abbrev pub ClosesAt : Text → ℕ → Type 0
ClosesAt t n = (n < length t) × (t ≡ take n t ++ b'"' ∷ drop (suc n) t)

ClosesAt-suc : (c : ℕ) (t : Text) (n : ℕ) → ClosesAt t n → ClosesAt (c ∷ t) (suc n)
ClosesAt-suc c t n (h, e) = (omega arith, ap (◌∷◌ c) e)

ClosesAt-zero :
    (c : ℕ) (t : Text) (n : ℕ) → (c == b'"') ≡ true → some 0 ≡ some n → ClosesAt (c ∷ t) n
ClosesAt-zero c t n h e =
    let zero_n : n ≡ 0 = sym (some-eq e) in
    let quote : c ≡ b'"' = ground arith in rw (zero_n, quote) (omega arith, refl)

ClosesAt-shift :
    (c : ℕ) (t : Text) (o : Option ℕ) (n : ℕ)
    → ((k : ℕ) → o ≡ some k → ClosesAt t k)
    → shift o ≡ some n
    → ClosesAt (c ∷ t) n
ClosesAt-shift c t none n h e = absurd cc
ClosesAt-shift c t (some k) n h e = rw (← some-eq e) (ClosesAt-suc c t k (h k refl))

pub string_end-ClosesAt : (t : Text) (n : ℕ) → string_end t ≡ some n → ClosesAt t n
unfolding string_end
string_end-ClosesAt [] n h = absurd cc
string_end-ClosesAt (c ∷ []) n h = elim (Bool-cases (c == b'"')) [
  | inl q ↦ ClosesAt-zero c [] n q (rw q at h)
  | inr q ↦ absurd (cc (rw q at h))
]
string_end-ClosesAt (c ∷ d ∷ t) n h = elim (Bool-cases (c == b'\\')) [
  | inl b ↦
      ClosesAt-shift c (d ∷ t) (shift (string_end t)) n
        (λ k. ClosesAt-shift d t (string_end t) k (string_end-ClosesAt t)) (rw b at h)
  | inr b ↦ elim (Bool-cases (c == b'"')) [
    | inl q ↦ ClosesAt-zero c (d ∷ t) n q (rw (b, q) at h)
    | inr q ↦
        ClosesAt-shift c (d ∷ t) (string_end (d ∷ t)) n (string_end-ClosesAt (d ∷ t))
          (rw (b, q) at h)
  ]
]

shift-some : (o : Option ℕ) (n : ℕ) → shift o ≡ some n → (k : ℕ) × (o ≡ some k) × (n ≡ suc k)
shift-some none n h = absurd cc
shift-some (some k) n h = (k, refl, sym (some-eq h))

pub string_end-IsStringBody : (t : Text) (n : ℕ) → string_end t ≡ some n → IsStringBody (take n t)
unfolding string_end
string_end-IsStringBody [] n h = absurd cc
string_end-IsStringBody (c ∷ []) n h = elim (Bool-cases (c == b'"')) [
  | inl q ↦ rw (← some-eq (rw q at h)) done
  | inr q ↦ absurd (cc (rw q at h))
]
string_end-IsStringBody (c ∷ d ∷ t) n h = elim (Bool-cases (c == b'\\')) [
  | inl b ↦
      let (m, e, behind) = shift-some (shift (string_end t)) n (rw b at h) in
      let (k, f, next) = shift-some (string_end t) m e in
      rw (behind, next) (escaped c d (take k t) b (string_end-IsStringBody t k f))
  | inr b ↦ elim (Bool-cases (c == b'"')) [
    | inl q ↦ rw (← some-eq (rw (b, q) at h)) done
    | inr q ↦
        let (k, e, behind) = shift-some (string_end (d ∷ t)) n (rw (b, q) at h) in
        rw behind (plain c (take k (d ∷ t)) b q (string_end-IsStringBody (d ∷ t) k e))
  ]
]
