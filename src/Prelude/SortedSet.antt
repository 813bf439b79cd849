-- ===== src/Prelude/SortedSet.antt =====
-- `BTreeSet<&str>`: the names in strictly increasing order, which is also the order of iteration.
pub mod Laws
use Prim.Native.Nat.{Ordering}
use mathlib.Core.Path.{◌≡◌, refl}
use mathlib.Core.Bool.{Bool, ◌||◌}
use mathlib.Core.List.{List, [], ◌∷◌}
use native.Mathlib.Omega.{arith}
use surql_parser.Prelude.Texts.{Text, text_compare, text_eq, text_compare_eq, text_compare_gt}
use surql_parser.Prelude.Lists.{any}

unfoldable pub insert : Text → List Text → List Text
insert a [] = a ∷ []
insert a (b ∷ s) =
    let rest = insert a s in
    elim (text_compare a b) [
      | Ordering.lt ↦ a ∷ b ∷ s
      | Ordering.eq ↦ b ∷ s
      | Ordering.gt ↦ b ∷ rest
    ]

-- `BTreeSet::contains`, `HashSet::contains`, `Vec::contains`
abbrev pub contains : List Text → Text → Bool
contains s a = any (text_eq a) s

-- `iter().collect::<BTreeSet<_>>()`
unfoldable pub collect : List Text → List Text
collect [] = []
collect (a ∷ names) = insert a (collect names)

-- `a` is below the first name.
abbrev pub Below : Text → List Text → Type 0
Below a [] = Unit
Below a (b ∷ s) = text_compare a b ≡ Ordering.lt

-- Strictly increasing, so no name twice.
abbrev pub IsSorted : List Text → Type 0
IsSorted [] = Unit
IsSorted (a ∷ s) = Below a s × IsSorted s

pub contains-insert :
    (a b : Text) (s : List Text) → contains (insert a s) b ≡ (text_eq b a || contains s b)
unfolding insert
contains-insert a b [] = refl
contains-insert a b (c ∷ s) = ground (arith, contains-insert a b s, text_compare_eq a c)

Below-insert :
    (a b : Text) (s : List Text) → text_compare b a ≡ Ordering.lt → Below b s → Below b (insert a s)
unfolding insert
Below-insert a b [] h k = h
Below-insert a b (c ∷ s) h k = ground arith

pub insert-IsSorted : (a : Text) (s : List Text) → IsSorted s → IsSorted (insert a s)
unfolding insert
insert-IsSorted a [] h = (tt, tt)
insert-IsSorted a (b ∷ s) (below, h) =
    ground (arith, text_compare_gt a b, Below-insert a b s, insert-IsSorted a s h)

pub collect-IsSorted : (names : List Text) → IsSorted (collect names)
unfolding collect
collect-IsSorted [] = tt
collect-IsSorted (a ∷ names) = insert-IsSorted a (collect names) (collect-IsSorted names)

pub contains-collect :
    (names : List Text) (a : Text) → contains (collect names) a ≡ contains names a
unfolding collect
contains-collect [] a = refl
contains-collect (b ∷ names) a =
    ground (arith, contains-insert b a (collect names), contains-collect names a)
