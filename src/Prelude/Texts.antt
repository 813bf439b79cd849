-- ===== src/Prelude/Texts.antt =====
-- A Rust `str`, as the list of its UTF-8 bytes, with the byte order of `Ord for str`.
use Prim.Native.Char.{code}
use Prim.Native.Nat.{ℕ, compare, Ordering, ◌+◌, ◌-◌}
use Prim.Native.String.{String}
use mathlib.Core.Path.{◌≡◌, refl}
use mathlib.Core.Logic.{◌↔◌}
use mathlib.Core.Bool.{Bool, true, false, ◌&&◌, ◌||◌}
use mathlib.Core.List.{List, [], ◌∷◌}
use native.Mathlib.Omega.{arith}
use surql_parser.Prelude.Tests.{leb, ◌==◌, if◌then◌else◌}

abbrev pub Text : Type 0
Text = List ℕ

-- The bytes of an ASCII literal.
abbrev pub codes : String → Text
codes String.[] = []
codes (String.◌∷◌ c s) = code c ∷ codes s

unfoldable pub text_compare : Text → Text → Ordering
text_compare [] [] = Ordering.eq
text_compare [] (y ∷ ys) = Ordering.lt
text_compare (x ∷ xs) [] = Ordering.gt
text_compare (x ∷ xs) (y ∷ ys) =
    let rest = text_compare xs ys in
    elim (compare x y) [
      | Ordering.lt ↦ Ordering.lt
      | Ordering.eq ↦ rest
      | Ordering.gt ↦ Ordering.gt
    ]

abbrev pub text_eq : Text → Text → Bool
text_eq a b = elim (text_compare a b) [ Ordering.eq ↦ true | _ ↦ false ]

pub text_compare_refl : (a : Text) → text_compare a a ≡ Ordering.eq
unfolding text_compare
text_compare_refl [] = refl
text_compare_refl (x ∷ xs) = ground (arith, text_compare_refl xs)

pub text_compare_eq : (a b : Text) → text_compare a b ≡ Ordering.eq → a ≡ b
unfolding text_compare
text_compare_eq [] [] h = refl
text_compare_eq [] (y ∷ ys) h = cc
text_compare_eq (x ∷ xs) [] h = cc
text_compare_eq (x ∷ xs) (y ∷ ys) h = ground (arith, text_compare_eq xs ys)

pub text_eq_refl : (a : Text) → text_eq a a ≡ true
text_eq_refl a = rw (text_compare_refl a, text_eq)

pub text_eq_iff : (a b : Text) → (text_eq a b ≡ true) ↔ (a ≡ b)
text_eq_iff a b = (λ h. text_compare_eq a b (ground arith), λ e. rw e (text_eq_refl b))

-- The order is total: the other way round the answer is turned over.
pub text_compare_gt : (a b : Text) → text_compare a b ≡ Ordering.gt → text_compare b a ≡ Ordering.lt
unfolding text_compare
text_compare_gt [] [] h = cc
text_compare_gt [] (y ∷ ys) h = cc
text_compare_gt (x ∷ xs) [] h = refl
text_compare_gt (x ∷ xs) (y ∷ ys) h = ground (arith, text_compare_gt xs ys)

pub text_compare_lt : (a b : Text) → text_compare a b ≡ Ordering.lt → text_compare b a ≡ Ordering.gt
unfolding text_compare
text_compare_lt [] [] h = cc
text_compare_lt [] (y ∷ ys) h = refl
text_compare_lt (x ∷ xs) [] h = cc
text_compare_lt (x ∷ xs) (y ∷ ys) h = ground (arith, text_compare_lt xs ys)

pub text_lt_trans :
    (a b c : Text)
    → text_compare a b ≡ Ordering.lt
    → text_compare b c ≡ Ordering.lt
    → text_compare a c ≡ Ordering.lt
unfolding text_compare
text_lt_trans [] [] c h k = cc
text_lt_trans [] (y ∷ ys) [] h k = cc
text_lt_trans [] (y ∷ ys) (z ∷ zs) h k = refl
text_lt_trans (x ∷ xs) [] c h k = cc
text_lt_trans (x ∷ xs) (y ∷ ys) [] h k = cc
text_lt_trans (x ∷ xs) (y ∷ ys) (z ∷ zs) h k = ground (arith, text_lt_trans xs ys zs)

pub text_eq_comm : (a b : Text) → text_eq a b ≡ text_eq b a
text_eq_comm a b =
    ground (arith, text_compare_gt a b, text_compare_lt a b, text_eq_iff a b, text_eq_iff b a)

abbrev within : ℕ → ℕ → ℕ → Bool
within lo hi c = leb lo c && leb c hi

-- `u8::is_ascii_alphanumeric`
unfoldable pub is_ascii_alphanumeric : ℕ → Bool
is_ascii_alphanumeric c = within b'a' b'z' c || within b'A' b'Z' c || within b'0' b'9' c

-- `u8::is_ascii_digit`
unfoldable pub is_ascii_digit : ℕ → Bool
is_ascii_digit c = within b'0' b'9' c

-- `char::is_whitespace` on ASCII bytes: tab, line feed, vertical tab, form feed, return, space.
unfoldable pub is_whitespace : ℕ → Bool
is_whitespace c = within 9 13 c || c == 32

-- `str::to_uppercase` on an ASCII byte.
unfoldable pub to_upper : ℕ → ℕ
to_upper c = if within b'a' b'z' c then c - 32 else c

-- `str::to_lowercase` on an ASCII byte.
unfoldable pub to_lower : ℕ → ℕ
to_lower c = if within b'A' b'Z' c then c + 32 else c
