-- ===== src/Prelude/Sorting.antt =====
-- `sort_by` and `sort`, which are stable, as an insertion from the back, and membership in lists.
use mathlib.Core.Path.{◌≡◌, refl, ap, subst, ◌∙◌}
use mathlib.Core.Logic.{◌⊎◌, inl, inr, ◌↔◌, ⊎_elim}
use mathlib.Core.Bool.{Bool, true, false}
use mathlib.Core.List.{List, [], ◌∷◌, ◌++◌, Memᴰ, map}
use mathlib.Core.List.Memᴰ
use native.Mathlib.Omega.{arith}
use surql_parser.Prelude.Tests.{if◌then◌else◌, Bool-cases}
use surql_parser.Prelude.Lists.{All, All-map, flat, keep}

module _ {ℓ} {A : Type ℓ} where
  pub Memᴰ-cons : (a x : A) (xs : List A) → Memᴰ a (x ∷ xs) ↔ ((a ≡ x) ⊎ Memᴰ a xs)
  Memᴰ-cons a x xs = (Memᴰ.cases_cons, ⊎_elim Memᴰ.head Memᴰ.tail)

  pub Memᴰ-concat : (a x : A) (xs : List A) → Memᴰ a (xs ++ x ∷ []) ↔ (Memᴰ a xs ⊎ (a ≡ x))
  Memᴰ-concat a x xs = (
    λ m. ⊎_elim inl (λ last. inr (Memᴰ.eq_of_singleton last)) (Memᴰ.append_cases xs m),
    ⊎_elim (Memᴰ.append_left _) (λ e. Memᴰ.append_right xs (Memᴰ.head e)),
  )

  pub All_mem {κ} : (P : A → Type κ) (xs : List A) → All P xs → (a : A) → Memᴰ a xs → P a
  All_mem P [] h a m = absurd (Memᴰ.not-nil m)
  All_mem P (x ∷ xs) h a m = elim (Memᴰ.cases_cons m) [
    | inl e ↦ rw e h.0
    | inr r ↦ All_mem P xs h.1 a r
  ]

module _ {ℓ} {A : Type ℓ} (le : A → A → Bool) where
  unfoldable pub insert_by : A → List A → List A
  insert_by x [] = x ∷ []
  insert_by x (y ∷ ys) = let rest = insert_by x ys in if le x y then x ∷ y ∷ ys else y ∷ rest

  unfoldable pub sort_by : List A → List A
  unfolding insert_by
  sort_by [] = []
  sort_by (x ∷ xs) = insert_by x (sort_by xs)

  Memᴰ-insert_by : (a x : A) (xs : List A) → Memᴰ a (insert_by x xs) ↔ ((a ≡ x) ⊎ Memᴰ a xs)
  unfolding insert_by
  Memᴰ-insert_by a x [] = Memᴰ-cons a x []
  Memᴰ-insert_by a x (y ∷ ys) = elim (Bool-cases (le x y)) [
    | inl e ↦ rw (insert_by, e) (Memᴰ-cons a x (y ∷ ys))
    | inr e ↦
        rw (insert_by, e)
          (ground (arith, Memᴰ-cons a y (insert_by x ys), Memᴰ-cons a y ys, Memᴰ-insert_by a x ys))
  ]

  -- Sorting keeps the elements.
  pub Memᴰ-sort_by : (a : A) (xs : List A) → Memᴰ a (sort_by xs) ↔ Memᴰ a xs
  unfolding sort_by
  Memᴰ-sort_by a [] = (λ m. m, λ m. m)
  Memᴰ-sort_by a (x ∷ xs) =
      ground (arith, Memᴰ-insert_by a x (sort_by xs), Memᴰ-cons a x xs, Memᴰ-sort_by a xs)

  -- Each element is at most every later one.
  abbrev pub IsSortedBy : List A → Type 0
  IsSortedBy [] = Unit
  IsSortedBy (x ∷ xs) = All (λ y. le x y ≡ true) xs × IsSortedBy xs

  pub record IsOrder : Type ℓ where
    pub total : (a b : A) → le a b ≡ false → le b a ≡ true
    pub trans : (a b c : A) → le a b ≡ true → le b c ≡ true → le a c ≡ true

  All-insert_by {κ} :
      (P : A → Type κ) (x : A) (xs : List A) → P x → All P xs → All P (insert_by x xs)
  unfolding insert_by
  All-insert_by P x [] p h = (p, tt)
  All-insert_by P x (y ∷ ys) p h = elim (Bool-cases (le x y)) [
    | inl e ↦ rw (insert_by, e) (p, h)
    | inr e ↦ rw (insert_by, e) (h.0, All-insert_by P x ys p h.1)
  ]

  insert_by-IsSortedBy :
      IsOrder → (x : A) (xs : List A) → IsSortedBy xs → IsSortedBy (insert_by x xs)
  unfolding insert_by
  insert_by-IsSortedBy o x [] h = (tt, tt)
  insert_by-IsSortedBy o x (y ∷ ys) h = elim (Bool-cases (le x y)) [
    | inl e ↦ rw (insert_by, e) ((e, All-map (λ z k. o.trans x y z e k) ys h.0), h)
    | inr e ↦
        rw (insert_by, e)
          (
            All-insert_by (λ z. le y z ≡ true) x ys (o.total x y e) h.0,
            insert_by-IsSortedBy o x ys h.1,
          )
  ]

  pub sort_by-IsSortedBy : IsOrder → (xs : List A) → IsSortedBy (sort_by xs)
  unfolding sort_by
  sort_by-IsSortedBy o [] = tt
  sort_by-IsSortedBy o (x ∷ xs) = insert_by-IsSortedBy o x (sort_by xs) (sort_by-IsSortedBy o xs)

pub Memᴰ-flat {ℓ κ} :
    {A : Type ℓ} {B : Type κ} (f : A → List B) (xs : List A) (b : B)
    → Memᴰ b (flat f xs)
    → (a : A) × Memᴰ a xs × Memᴰ b (f a)
Memᴰ-flat f [] b m = absurd (Memᴰ.not-nil m)
Memᴰ-flat f (x ∷ xs) b m = elim (Memᴰ.append_cases (f x) m) [
  | inl here ↦ (x, Memᴰ.head refl, here)
  | inr there ↦ let (a, ma, mb) = Memᴰ-flat f xs b there in (a, Memᴰ.tail ma, mb)
]

pub mem-flat {ℓ κ} :
    {A : Type ℓ} {B : Type κ} (f : A → List B) (xs : List A) (a : A) (b : B)
    → Memᴰ a xs
    → Memᴰ b (f a)
    → Memᴰ b (flat f xs)
mem-flat f [] a b m k = absurd (Memᴰ.not-nil m)
mem-flat f (x ∷ xs) a b m k = elim (Memᴰ.cases_cons m) [
  | inl e ↦ Memᴰ.append_left {s = f x} _ (subst (λ y. Memᴰ b (f y)) e k)
  | inr r ↦ Memᴰ.append_right (f x) (mem-flat f xs a b r k)
]

pub Memᴰ-map {ℓ κ} :
    {A : Type ℓ} {B : Type κ} (f : A → B) (xs : List A) (b : B)
    → Memᴰ b (map f xs)
    → (a : A) × Memᴰ a xs × (b ≡ f a)
Memᴰ-map f [] b m = absurd (Memᴰ.not-nil m)
Memᴰ-map f (x ∷ xs) b m = elim (Memᴰ.cases_cons m) [
  | inl e ↦ (x, Memᴰ.head refl, e)
  | inr r ↦ let (a, ma, e) = Memᴰ-map f xs b r in (a, Memᴰ.tail ma, e)
]

pub mem-map {ℓ κ} :
    {A : Type ℓ} {B : Type κ} (f : A → B) (xs : List A) (a : A) → Memᴰ a xs → Memᴰ (f a) (map f xs)
mem-map f [] a m = absurd (Memᴰ.not-nil m)
mem-map f (x ∷ xs) a m = elim (Memᴰ.cases_cons m) [
  | inl e ↦ Memᴰ.head (ap f e)
  | inr r ↦ Memᴰ.tail (mem-map f xs a r)
]

pub Memᴰ-keep {ℓ} :
    {A : Type ℓ} (p : A → Bool) (xs : List A) (a : A)
    → Memᴰ a (keep p xs) ↔ (Memᴰ a xs × (p a ≡ true))
Memᴰ-keep p [] a = (λ m. absurd (Memᴰ.not-nil m), λ h. absurd (Memᴰ.not-nil h.0))
Memᴰ-keep p (x ∷ xs) a = elim (Bool-cases (p x)) [
  | inl e ↦ rw e (
    λ m. elim (Memᴰ.cases_cons m) [
      | inl q ↦ (Memᴰ.head q, ap p q ∙ e)
      | inr r ↦ let (k, t) = (Memᴰ-keep p xs a).0 r in (Memᴰ.tail k, t)
    ],
    λ h. elim (Memᴰ.cases_cons h.0) [
      | inl q ↦ Memᴰ.head q
      | inr r ↦ Memᴰ.tail ((Memᴰ-keep p xs a).1 (r, h.1))
    ],
  )
  | inr e ↦ rw e (
    λ m. let (k, t) = (Memᴰ-keep p xs a).0 m in (Memᴰ.tail k, t),
    λ h. elim (Memᴰ.cases_cons h.0) [
      | inl q ↦ cc (ap p q, h.1, e)
      | inr r ↦ (Memᴰ-keep p xs a).1 (r, h.1)
    ],
  )
]
