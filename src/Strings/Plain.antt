-- ===== src/Strings/Plain.antt =====
-- Parts of a line that stay on one line, and where a line begins.
use surql_parser.Prelude.{
  ℕ, false, ◌&&◌, [], ◌∷◌, ◌++◌, is_empty, Text, is_whitespace, to_upper, ◌≡◌, refl, arith,
  Bool-cases, inl, inr,
}
use surql_parser.Strings.{trim_start, trim_end, leading_ws, init}
use surql_parser.Strings.Lines.{IsPlain}
use surql_parser.Strings.Trim.{BeginsBlack}

-- The first byte is a D, in some case.
abbrev pub BeginsWithD : Text → Type 0
BeginsWithD [] = ⊥
BeginsWithD (c ∷ t) = to_upper c ≡ b'D'

pub BeginsWithD-black : (t : Text) → BeginsWithD t → BeginsBlack t
unfolding to_upper is_whitespace
BeginsWithD-black [] h = tt
BeginsWithD-black (c ∷ t) h = ground arith

pub leading_ws-IsPlain : (l : Text) → IsPlain l → IsPlain (leading_ws l)
unfolding leading_ws
leading_ws-IsPlain [] p = tt
leading_ws-IsPlain (c ∷ l) p = elim (Bool-cases (is_whitespace c)) [
  | inl e ↦ rw (leading_ws, e) (p.0, leading_ws-IsPlain l p.1)
  | inr e ↦ rw (leading_ws, e) tt
]

pub trim_start-IsPlain : (l : Text) → IsPlain l → IsPlain (trim_start l)
unfolding trim_start
trim_start-IsPlain [] p = tt
trim_start-IsPlain (c ∷ l) p = elim (Bool-cases (is_whitespace c)) [
  | inl e ↦ rw (trim_start, e) (trim_start-IsPlain l p.1)
  | inr e ↦ rw (trim_start, e) p
]

pub trim_end-IsPlain : (l : Text) → IsPlain l → IsPlain (trim_end l)
unfolding trim_end
trim_end-IsPlain [] p = tt
trim_end-IsPlain (c ∷ l) p = elim (Bool-cases (is_empty (trim_end l) && is_whitespace c)) [
  | inl e ↦ rw (trim_end, e) tt
  | inr e ↦ rw (trim_end, e) (p.0, trim_end-IsPlain l p.1)
]

pub init-IsPlain : (l : Text) → IsPlain l → IsPlain (init l)
init-IsPlain [] p = tt
init-IsPlain (c ∷ []) p = tt
init-IsPlain (c ∷ d ∷ l) p = (p.0, init-IsPlain (d ∷ l) p.1)

pub append-ne-nil : (xs : Text) (c : ℕ) (ys : Text) → is_empty (xs ++ c ∷ ys) ≡ false
append-ne-nil [] c ys = refl
append-ne-nil (x ∷ xs) c ys = refl
