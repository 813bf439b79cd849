-- ===== src/TypeCheck/Shorter.antt =====
-- The types of the recursive calls are shorter.
use surql_parser.Prelude.{
  ℕ, suc, ◌≤◌, ◌<◌, Bool, true, ◌&&◌, some, List, [], ◌∷◌, ◌==◌, is_empty, drop, length,
  length-drop, map, keep, All, All-map, codes, Text, is_whitespace, to_lower, ◌≡◌, refl, ap, arith,
  Bool-cases, inl, inr,
}
use surql_parser.Strings.{starts_with, contains_text, ends_with, trim, trim_start, trim_end, init}
use surql_parser.TypeCheck.{push_front, split_bars, strip_wrapper, normalized}

length-trim_start : (t : Text) → length (trim_start t) ≤ length t
unfolding trim_start
length-trim_start [] = omega arith
length-trim_start (c ∷ t) = elim (Bool-cases (is_whitespace c)) [
  | inl e ↦ rw (trim_start, e) (omega (arith, length-trim_start t))
  | inr e ↦ rw (trim_start, e) (omega arith)
]

length-trim_end : (t : Text) → length (trim_end t) ≤ length t
unfolding trim_end
length-trim_end [] = omega arith
length-trim_end (c ∷ t) = elim (Bool-cases (is_empty (trim_end t) && is_whitespace c)) [
  | inl e ↦ rw (trim_end, e) (omega arith)
  | inr e ↦ rw (trim_end, e) (omega (arith, length-trim_end t))
]

pub length-trim : (t : Text) → length (trim t) ≤ length t
unfolding trim
length-trim t = omega (arith, length-trim_end (trim_start t), length-trim_start t)

length-lower : (t : Text) → length (map to_lower t) ≡ length t
length-lower [] = refl
length-lower (c ∷ t) = ap suc (length-lower t)

pub length-normalized : (t : Text) → length (normalized t) ≤ length t
length-normalized t = omega (arith, length-trim (map to_lower t), length-lower t)

length-init : (t : Text) → length (init t) ≤ length t
length-init [] = omega arith
length-init (c ∷ []) = omega arith
length-init (c ∷ d ∷ t) = omega (arith, length-init (d ∷ t))

-- The inner type of a wrapper.
pub length-strip_wrapper :
    (c : ℕ) (p s inner : Text) → strip_wrapper s (c ∷ p) ≡ some inner → length inner < length s
length-strip_wrapper c p [] inner h = cc
length-strip_wrapper c p (d ∷ s) inner h =
    elim (Bool-cases (starts_with (c ∷ p) (d ∷ s) && ends_with b'>' (d ∷ s))) [
      | inl e ↦
          let q : inner ≡ init (drop (length p) s) = ground arith in
          rw q (omega (arith, length-init (drop (length p) s), length-drop (length p) s))
      | inr e ↦ absurd (ground arith)
    ]

push_front-short :
    (n c : ℕ) (ps : List Text)
    → 1 ≤ n
    → All (λ p. length p < n) ps
    → All (λ p. length p < suc n) (push_front c ps)
push_front-short n c [] h a = (omega (arith, h), tt)
push_front-short n c (p ∷ ps) h a = (omega (arith, a.0), All-map (λ q k. omega (arith, k)) ps a.1)

split_bars_bound : (t : Text) → All (λ p. length p < suc (length t)) (split_bars t)
unfolding split_bars
split_bars_bound [] = (omega arith, tt)
split_bars_bound (c ∷ t) = elim (Bool-cases (c == b'|')) [
  | inl e ↦
      rw (split_bars, e)
        (omega arith, All-map (λ q k. omega (arith, k)) (split_bars t) (split_bars_bound t))
  | inr e ↦
      rw (split_bars, e)
        (push_front-short (suc (length t)) c (split_bars t) (omega arith) (split_bars_bound t))
]

-- Where there is a bar, each part is shorter.
pub split_bars_short :
    (t : Text) → contains_text (codes "|") t ≡ true → All (λ p. length p < length t) (split_bars t)
unfolding split_bars
split_bars_short [] h = cc
split_bars_short (c ∷ t) h = elim (Bool-cases (c == b'|')) [
  | inl e ↦
      rw (split_bars, e)
        (omega arith, All-map (λ q k. omega (arith, k)) (split_bars t) (split_bars_bound t))
  | inr e ↦
      let k : contains_text (codes "|") t ≡ true = ground arith in
      rw (split_bars, e)
        (push_front-short (length t) c (split_bars t) (non_empty t k) (split_bars_short t k))
]
  where
    non_empty : (u : Text) → contains_text (codes "|") u ≡ true → 1 ≤ length u
    non_empty [] g = cc
    non_empty (d ∷ u) g = omega arith

pub All-trimmed :
    (n : ℕ) (ps : List Text)
    → All (λ p. length p < n) ps
    → All (λ p. length p < n) (map (λ t. trim t) ps)
All-trimmed n [] h = tt
All-trimmed n (p ∷ ps) h = (omega (arith, h.0, length-trim p), All-trimmed n ps h.1)

pub All-keep {ℓ κ} :
    {A : Type ℓ} (P : A → Type κ) (p : A → Bool) (xs : List A) → All P xs → All P (keep p xs)
All-keep P p [] h = tt
All-keep P p (x ∷ xs) h = elim (Bool-cases (p x)) [
  | inl e ↦ rw e (h.0, All-keep P p xs h.1)
  | inr e ↦ rw e (All-keep P p xs h.1)
]
