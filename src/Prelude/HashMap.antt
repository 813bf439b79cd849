-- ===== src/Prelude/HashMap.antt =====
-- `HashMap<String, V>`, as an association list with each key once. The order of the entries stands
-- for the order of iteration, of which the standard library says nothing.
use mathlib.Core.Path.{◌≡◌, refl}
use mathlib.Core.Logic.{inl, inr}
use mathlib.Core.Bool.{Bool, true, false, ◌||◌}
use mathlib.Core.List.{List, [], ◌∷◌}
use mathlib.Core.Option.{Option, none, some}
use native.Mathlib.Omega.{arith}
use surql_parser.Prelude.Tests.{if◌then◌else◌, Bool-cases}
use surql_parser.Prelude.Lists.{any}
use surql_parser.Prelude.Texts.{Text, text_eq, text_eq_iff}

abbrev pub HashMap {ℓ} : Type ℓ → Type ℓ
HashMap V = List (Text × V)

abbrev pub keys {ℓ} : {V : Type ℓ} → HashMap V → List Text
keys [] = []
keys ((k, v) ∷ m) = k ∷ keys m

abbrev pub has_key {ℓ} : {V : Type ℓ} → Text → HashMap V → Bool
has_key k m = any (text_eq k) (keys m)

-- Each key stands once.
abbrev pub IsMap {ℓ} : {V : Type ℓ} → HashMap V → Type 0
IsMap [] = Unit
IsMap ((k, v) ∷ m) = (has_key k m ≡ false) × IsMap m

module _ {ℓ} {V : Type ℓ} where
  -- `m.get(k)`
  unfoldable pub lookup : Text → HashMap V → Option V
  lookup k [] = none
  lookup k ((j, v) ∷ m) = if text_eq k j then some v else lookup k m

  -- `m.insert(k, v)`
  unfoldable pub put : Text → V → HashMap V → HashMap V
  put k v [] = (k, v) ∷ []
  put k v ((j, w) ∷ m) = if text_eq k j then (k, v) ∷ m else (j, w) ∷ put k v m

  pub lookup-put :
      (k j : Text) (v : V) (m : HashMap V)
      → lookup j (put k v m) ≡ (if text_eq j k then some v else lookup j m)
  unfolding lookup put
  lookup-put k j v [] = refl
  lookup-put k j v ((i, w) ∷ m) =
      ground (arith, text_eq_iff k i, text_eq_iff j k, text_eq_iff j i, lookup-put k j v m)

  pub has_key-put :
      (k j : Text) (v : V) (m : HashMap V) → has_key j (put k v m) ≡ (text_eq j k || has_key j m)
  unfolding put
  has_key-put k j v [] = refl
  has_key-put k j v ((i, w) ∷ m) =
      ground (arith, text_eq_iff k i, text_eq_iff j k, text_eq_iff j i, has_key-put k j v m)

  pub put-IsMap : (k : Text) (v : V) (m : HashMap V) → IsMap m → IsMap (put k v m)
  unfolding put
  put-IsMap k v [] h = (refl, tt)
  put-IsMap k v ((j, w) ∷ m) h =
      ground (arith, text_eq_iff k j, text_eq_iff j k, has_key-put k j v m, put-IsMap k v m)

  pub lookup-none : (k : Text) (m : HashMap V) → has_key k m ≡ false → lookup k m ≡ none
  unfolding lookup
  lookup-none k [] h = refl
  lookup-none k ((j, w) ∷ m) h = ground (arith, lookup-none k m)

  pub lookup-ne-none :
      (k : Text) (m : HashMap V) → has_key k m ≡ true → (v : V) × (lookup k m ≡ some v)
  unfolding lookup
  lookup-ne-none k [] h = cc
  lookup-ne-none k ((j, w) ∷ m) h = elim (Bool-cases (text_eq k j)) [
    | inl e ↦ (w, rw e)
    | inr e ↦ rw e (lookup-ne-none k m (ground arith))
  ]

  pub has_key-lookup : (k : Text) (m : HashMap V) {v : V} → lookup k m ≡ some v → has_key k m ≡ true
  has_key-lookup k m h = elim (Bool-cases (has_key k m)) [
    | inl e ↦ e
    | inr e ↦ cc (lookup-none k m e)
  ]
