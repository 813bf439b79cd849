-- ===== src/Prelude/SortedSet/Laws.antt =====
-- Sorted sets with the same members are equal, and what a filter keeps of one.
use Prim.Native.Nat.{Ordering}
use mathlib.Core.Path.{subst, ◌≡◌, refl, sym, ap, ap₂, ◌∙◌}
use mathlib.Core.Bool.{Bool, false, ◌&&◌}
use mathlib.Core.Logic.{inl, inr}
use mathlib.Core.List.{List, [], ◌∷◌}
use native.Mathlib.Omega.{arith}
use surql_parser.Prelude.Tests.{Bool-cases}
use surql_parser.Prelude.Lists.{keep}
use surql_parser.Prelude.Texts.{
  Text, text_compare, text_eq, text_compare_eq, text_compare_gt, text_eq_iff, text_eq_refl,
  text_lt_trans,
}
use surql_parser.Prelude.SortedSet.{contains, Below, IsSorted}

Below-trans : (a b : Text) (s : List Text) → text_compare a b ≡ Ordering.lt → Below b s → Below a s
Below-trans a b [] h k = tt
Below-trans a b (c ∷ s) h k = text_lt_trans a b c h k

-- What is below the first member is no member.
Below-contains : (a : Text) (s : List Text) → Below a s → IsSorted s → contains s a ≡ false
Below-contains a [] h k = refl
Below-contains a (b ∷ s) h (below, k) =
    ground (arith, Below-contains a s (Below-trans a b s h below) k)

Below-keep :
    (p : Text → Bool) (a : Text) (s : List Text) → Below a s → IsSorted s → Below a (keep p s)
Below-keep p a [] h k = tt
Below-keep p a (b ∷ s) h (below, k) = ground (arith, Below-keep p a s (Below-trans a b s h below) k)

pub keep-IsSorted : (p : Text → Bool) (s : List Text) → IsSorted s → IsSorted (keep p s)
keep-IsSorted p [] h = tt
keep-IsSorted p (a ∷ s) (below, h) = ground (arith, Below-keep p a s below h, keep-IsSorted p s h)

pub contains-keep :
    (p : Text → Bool) (s : List Text) (a : Text) → contains (keep p s) a ≡ (p a && contains s a)
contains-keep p [] a = ground arith
contains-keep p (b ∷ s) a = elim (Bool-cases (text_eq a b)) [
  | inl e ↦ ground (arith, (text_eq_iff a b).0 e, contains-keep p s a)
  | inr e ↦ ground (arith, contains-keep p s a)
]

sorted_tails :
    (a : Text) (s t : List Text)
    → IsSorted (a ∷ s)
    → IsSorted (a ∷ t)
    → ((c : Text) → contains (a ∷ s) c ≡ contains (a ∷ t) c)
    → (c : Text) → contains s c ≡ contains t c
sorted_tails a s t (hs, ks) (ht, kt) h c = elim (Bool-cases (text_eq c a)) [
  | inl e ↦
      let same = (text_eq_iff c a).0 e in
      rw same (Below-contains a s hs ks ∙ sym (Below-contains a t ht kt))
  | inr e ↦ ground (arith, h c)
]

-- Two sorted sets with the same members are the same list.
pub sorted_ext :
    (s t : List Text) → IsSorted s → IsSorted t → ((c : Text) → contains s c ≡ contains t c) → s ≡ t
sorted_ext [] [] hs ht h = refl
sorted_ext [] (b ∷ t) hs ht h = cc (h b, text_eq_refl b)
sorted_ext (a ∷ s) [] hs ht h = cc (h a, text_eq_refl a)
sorted_ext (a ∷ s) (b ∷ t) hs ht h = split (text_compare a b) refl (λ e. sorted_ext s t hs.1 ht.1 (
    sorted_tails a s t hs (subst (λ x. IsSorted (x ∷ t)) (sym e) ht)
      (λ c. h c ∙ ap (λ x. contains (x ∷ t) c) (sym e))))
  where
    split : (o : Ordering) → text_compare a b ≡ o → (a ≡ b → s ≡ t) → a ∷ s ≡ b ∷ t
    split Ordering.lt e tails = ground (arith, h a, text_eq_refl a, Below-contains a (b ∷ t) e ht)
    split Ordering.gt e tails =
        ground (arith, h b, text_eq_refl b, Below-contains b (a ∷ s) (text_compare_gt a b e) hs)
    split Ordering.eq e tails = let same = text_compare_eq a b e in ap₂ (◌∷◌) same (tails same)

pub keep-contains_comm :
    (s t : List Text) → IsSorted s → IsSorted t → keep (contains t) s ≡ keep (contains s) t
keep-contains_comm s t hs ht =
    sorted_ext (keep (contains t) s) (keep (contains s) t) (keep-IsSorted (contains t) s hs)
      (keep-IsSorted (contains s) t ht)
      (λ c. ground (arith, contains-keep (contains t) s c, contains-keep (contains s) t c))
