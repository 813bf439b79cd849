-- ===== src/Overshift/Modules/Counts.antt =====
-- How often names stand in lists, and what the maps of `topological_sort` hold of them.
use surql_parser.Prelude.{
  ℕ, suc, ◌+◌, Bool, true, false, not, ◌||◌, List, [], ◌∷◌, ◌++◌, if◌then◌else◌, any, length, keep,
  Text, text_eq, text_eq_iff, text_eq_refl, text_eq_comm, ◌≡◌, refl, arith, Bool-cases, inl, inr,
}
use surql_parser.Prelude.HashMap.{HashMap, lookup, put, has_key, lookup-put, has_key-put}
use surql_parser.Prelude.SortedSet.{contains}
use surql_parser.Prelude.Sorting.{insert_by, sort_by}
use surql_parser.Overshift.Modules.{
  ModuleConfig, or_zero, or_nothing, raise_by, count_deps, in_degree, push_dependents, dependents,
}

abbrev pub is : Text → Text → ℕ
is n m = if text_eq n m then 1 else 0

-- How often the name stands in the list.
abbrev pub count : Text → List Text → ℕ
count n [] = 0
count n (m ∷ ms) = is n m + count n ms

abbrev pub degree : Text → HashMap ℕ → ℕ
degree n degrees = or_zero (lookup n degrees)

abbrev pub dependents_on : Text → HashMap (List Text) → List Text
dependents_on x m = or_nothing (lookup x m)

pub count-append : (n : Text) (xs ys : List Text) → count n (xs ++ ys) ≡ count n xs + count n ys
count-append n [] ys = omega arith
count-append n (x ∷ xs) ys = omega (arith, count-append n xs ys)

module _ (le : Text → Text → Bool) where
  count-insert_by :
      (n x : Text) (xs : List Text) → count n (insert_by le x xs) ≡ is n x + count n xs
  unfolding insert_by
  count-insert_by n x [] = refl
  count-insert_by n x (y ∷ ys) = elim (Bool-cases (le x y)) [
    | inl e ↦ rw (insert_by, e)
    | inr e ↦ rw (insert_by, e) (omega (arith, count-insert_by n x ys))
  ]

  pub count-sort_by : (n : Text) (xs : List Text) → count n (sort_by le xs) ≡ count n xs
  unfolding sort_by
  count-sort_by n [] = refl
  count-sort_by n (x ∷ xs) = omega (arith, count-insert_by n x (sort_by le xs), count-sort_by n xs)

  length-insert_by : (x : Text) (xs : List Text) → length (insert_by le x xs) ≡ suc (length xs)
  unfolding insert_by
  length-insert_by x [] = refl
  length-insert_by x (y ∷ ys) = elim (Bool-cases (le x y)) [
    | inl e ↦ rw (insert_by, e)
    | inr e ↦ rw (insert_by, e) (omega (arith, length-insert_by x ys))
  ]

  pub length-sort_by : (xs : List Text) → length (sort_by le xs) ≡ length xs
  unfolding sort_by
  length-sort_by [] = refl
  length-sort_by (x ∷ xs) = omega (arith, length-insert_by x (sort_by le xs), length-sort_by xs)

pub degree-put :
    (n m : Text) (k : ℕ) (d : HashMap ℕ)
    → degree n (put m k d) ≡ (if text_eq n m then k else degree n d)
degree-put n m k d = ground (arith, lookup-put m n k d)

-- The dependencies of the modules of a name that are not among the given ones.
abbrev pub lacking : List Text → List Text → ℕ
lacking done deps = length (keep (λ d. not (contains done d)) deps)

abbrev pub unmet : List Text → Text → List ModuleConfig → ℕ
unmet done n [] = 0
unmet done n (m ∷ ms) =
    (if text_eq n m.name then lacking done m.depends_on else 0) + unmet done n ms

-- How often modules of the first name depend on the second.
abbrev pub uses : Text → Text → List ModuleConfig → ℕ
uses n x [] = 0
uses n x (m ∷ ms) = (if text_eq n m.name then count x m.depends_on else 0) + uses n x ms

abbrev pub is_named : List ModuleConfig → Text → Bool
is_named ms n = any (λ m. text_eq n m.name) ms

degree-count_deps :
    (n name : Text) (deps : List Text) (d : HashMap ℕ)
    → degree n (count_deps name deps d)
      ≡ degree n d + (if text_eq n name then lacking [] deps else 0)
unfolding count_deps
degree-count_deps n name [] d = ground arith
degree-count_deps n name (dep ∷ deps) d = ground (
  arith,
  text_eq_iff n name,
  degree-put n name (degree name d + 1) d,
  degree-count_deps n name deps (raise_by 1 name d),
)

pub degree-in_degree :
    (n : Text) (ms : List ModuleConfig) (d : HashMap ℕ)
    → degree n (in_degree ms d) ≡ degree n d + unmet [] n ms
unfolding in_degree
degree-in_degree n [] d = omega arith
degree-in_degree n (m ∷ ms) d = ground (
  arith,
  text_eq_iff n m.name,
  degree-put n m.name (degree m.name d + 0) d,
  degree-count_deps n m.name m.depends_on (raise_by 0 m.name d),
  degree-in_degree n ms (count_deps m.name m.depends_on (raise_by 0 m.name d)),
)

has_key-count_deps :
    (n name : Text) (deps : List Text) (d : HashMap ℕ)
    → has_key name d ≡ true
    → has_key n (count_deps name deps d) ≡ has_key n d
unfolding count_deps
has_key-count_deps n name [] d h = refl
has_key-count_deps n name (dep ∷ deps) d h = ground (
  arith,
  text_eq_iff n name,
  has_key-put name n (degree name d + 1) d,
  has_key-put name name (degree name d + 1) d,
  has_key-count_deps n name deps (raise_by 1 name d),
)

pub has_key-in_degree :
    (n : Text) (ms : List ModuleConfig) (d : HashMap ℕ)
    → has_key n (in_degree ms d) ≡ (has_key n d || is_named ms n)
unfolding in_degree
has_key-in_degree n [] d = ground arith
has_key-in_degree n (m ∷ ms) d = ground (
  arith,
  text_eq_refl m.name,
  has_key-put m.name n (degree m.name d + 0) d,
  has_key-put m.name m.name (degree m.name d + 0) d,
  has_key-count_deps n m.name m.depends_on (raise_by 0 m.name d),
  has_key-in_degree n ms (count_deps m.name m.depends_on (raise_by 0 m.name d)),
)

count-push_dependents :
    (n x name : Text) (deps : List Text) (m : HashMap (List Text))
    → count n (dependents_on x (push_dependents name deps m))
      ≡ count n (dependents_on x m) + (if text_eq n name then count x deps else 0)
unfolding push_dependents
count-push_dependents n x name [] m = ground arith
count-push_dependents n x name (dep ∷ deps) m = ground (
  arith,
  text_eq_iff x dep,
  lookup-put dep x (dependents_on dep m ++ name ∷ []) m,
  count-append n (dependents_on dep m) (name ∷ []),
  count-push_dependents n x name deps (put dep (dependents_on dep m ++ name ∷ []) m),
)

pub count-dependents :
    (n x : Text) (ms : List ModuleConfig) (m : HashMap (List Text))
    → count n (dependents_on x (dependents ms m)) ≡ count n (dependents_on x m) + uses n x ms
unfolding dependents
count-dependents n x [] m = omega arith
count-dependents n x (c ∷ ms) m = omega (
  arith,
  count-push_dependents n x c.name c.depends_on m,
  count-dependents n x ms (push_dependents c.name c.depends_on m),
)

-- A dependency that is not met yet is no longer lacking once it is.
lacking-cons :
    (done : List Text) (x : Text) (deps : List Text)
    → contains done x ≡ false
    → lacking done deps ≡ lacking (x ∷ done) deps + count x deps
lacking-cons done x [] h = refl
lacking-cons done x (d ∷ deps) h =
    ground (arith, text_eq_iff d x, text_eq_comm d x, lacking-cons done x deps h)

pub unmet-cons :
    (done : List Text) (x n : Text) (ms : List ModuleConfig)
    → contains done x ≡ false
    → unmet done n ms ≡ unmet (x ∷ done) n ms + uses n x ms
unmet-cons done x n [] h = refl
unmet-cons done x n (m ∷ ms) h =
    ground (arith, lacking-cons done x m.depends_on h, unmet-cons done x n ms h)
