-- ===== src/Strings/Trim.antt =====
-- Laws of trimming, prefixes and parts.
use surql_parser.Prelude.{
  ℕ, true, false, [], ◌∷◌, ◌++◌, ◌==◌, is_empty, take, length, Text, is_whitespace, to_upper, ◌≡◌,
  refl, ap, arith, Bool-cases, inl, inr,
}
use surql_parser.Strings.{starts_with, contains_text, trim_start, trim_end, leading_ws, uppercase}

pub uppercase-append : (xs ys : Text) → uppercase (xs ++ ys) ≡ uppercase xs ++ uppercase ys
uppercase-append [] ys = refl
uppercase-append (x ∷ xs) ys = ap (◌∷◌ (to_upper x)) (uppercase-append xs ys)

-- The text is empty, or begins with no white space.
abbrev pub BeginsBlack : Text → Type 0
BeginsBlack [] = Unit
BeginsBlack (c ∷ t) = is_whitespace c ≡ false

pub trim_start-BeginsBlack : (t : Text) → BeginsBlack (trim_start t)
unfolding trim_start
trim_start-BeginsBlack [] = tt
trim_start-BeginsBlack (c ∷ t) = elim (Bool-cases (is_whitespace c)) [
  | inl e ↦ rw (trim_start, e) (trim_start-BeginsBlack t)
  | inr e ↦ rw (trim_start, e) e
]

pub trim_start_black : (t : Text) → BeginsBlack t → trim_start t ≡ t
unfolding trim_start
trim_start_black [] h = refl
trim_start_black (c ∷ t) h = rw (trim_start, h)

pub trim_start-leading_ws : (l r : Text) → trim_start (leading_ws l ++ r) ≡ trim_start r
unfolding trim_start leading_ws
trim_start-leading_ws [] r = refl
trim_start-leading_ws (c ∷ l) r = elim (Bool-cases (is_whitespace c)) [
  | inl e ↦ rw (leading_ws, e, trim_start, e) (trim_start-leading_ws l r)
  | inr e ↦ rw (leading_ws, e)
]

trim_end-ne-nil :
    (xs : Text) (c : ℕ) → is_whitespace c ≡ false → is_empty (trim_end (xs ++ c ∷ [])) ≡ false
unfolding trim_end
trim_end-ne-nil [] c h = rw (trim_end, h)
trim_end-ne-nil (x ∷ xs) c h = rw (trim_end, trim_end-ne-nil xs c h)

pub trim_end-append :
    (xs : Text) (c : ℕ) → is_whitespace c ≡ false → trim_end (xs ++ c ∷ []) ≡ xs ++ c ∷ []
unfolding trim_end
trim_end-append [] c h = rw (trim_end, h)
trim_end-append (x ∷ xs) c h =
    rw (trim_end, trim_end-ne-nil xs c h) (ap (◌∷◌ x) (trim_end-append xs c h))

pub starts_with-append : (p t : Text) → starts_with p (p ++ t) ≡ true
starts_with-append [] t = refl
starts_with-append (c ∷ p) t =
    let e : (c == c) ≡ true = ground arith in rw (e, starts_with-append p t)

pub contains_text-append : (p xs ys : Text) → contains_text p (xs ++ (p ++ ys)) ≡ true
contains_text-append [] [] [] = refl
contains_text-append [] [] (y ∷ ys) = refl
contains_text-append (c ∷ p) [] ys =
    let e : (c == c) ≡ true = ground arith in rw (e, starts_with-append p ys)
contains_text-append p (x ∷ xs) ys = rw (contains_text-append p xs ys) (ground arith)

-- Where the text begins with the prefix, up to case, so does what the prefix's length takes of it.
pub uppercase-take :
    (p t : Text) → starts_with p (uppercase t) ≡ true → uppercase (take (length p) t) ≡ p
uppercase-take [] t h = refl
uppercase-take (c ∷ p) [] h = cc
uppercase-take (c ∷ p) (d ∷ t) h =
    let e : to_upper d ≡ c = ground arith in rw (e, uppercase-take p t (ground arith))
