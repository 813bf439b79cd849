-- ===== src/Overshift/Migration/Sequence.antt =====
-- Which sequences of migrations are accepted.
use mathlib.Core.List.{Memᴰ}
use surql_parser.Prelude.{
  ◌≢◌, ◌<◌, ◌^◌, codes, leb, some, Bool-cases, inl, inr, ℕ, true, false, List, [], ◌∷◌, ◌≡◌, refl,
  sym, ◌∙◌, arith,
}
use surql_parser.Prelude.Sorting.{IsSortedBy}
use surql_parser.Overshift.Types.{migration, Result, migration, ok, err, Migration}
use surql_parser.Overshift.Migration.{
  log_gaps, has_duplicates, starts_at_one, validate_migration_sequence,
}
use surql_parser.Overshift.Planning.{has_repeats}
use surql_parser.Overshift.Planning.Consistent.{IsUnique, has_repeats-IsUnique}

-- There is no first migration, or it has version 1.
abbrev pub StartsAtOne : List Migration → Type 0
StartsAtOne [] = Unit
StartsAtOne (m ∷ ms) = m.version ≡ 1

-- The two checks for duplicates are the same.
has_duplicates-has_repeats :
    (seen : List ℕ) (ms : List Migration) → has_duplicates seen ms ≡ has_repeats seen ms
unfolding has_duplicates has_repeats
has_duplicates-has_repeats seen [] = refl
has_duplicates-has_repeats seen (m ∷ ms) = rw (has_duplicates-has_repeats (m.version ∷ seen) ms)

starts_at_one-StartsAtOne : (ms : List Migration) → starts_at_one ms ≡ true → StartsAtOne ms
unfolding starts_at_one
starts_at_one-StartsAtOne [] h = tt
starts_at_one-StartsAtOne (m ∷ ms) h = ground arith

checks_passed :
    (ms : List Migration)
    → validate_migration_sequence ms ≡ some (ok tt)
    → (has_duplicates [] ms ≡ false) × (starts_at_one ms ≡ true)
unfolding validate_migration_sequence
checks_passed ms h = ground arith

has_duplicates-IsUnique : (ms : List Migration) → has_duplicates [] ms ≡ false → IsUnique ms
has_duplicates-IsUnique ms d =
    (has_repeats-IsUnique [] ms (sym (has_duplicates-has_repeats [] ms) ∙ d)).0

-- In an accepted sequence no two migrations share a version, and the first, if there is one, has
-- version 1.
pub validate_migration_sequence_accepts :
    (ms : List Migration)
    → validate_migration_sequence ms ≡ some (ok tt)
    → IsUnique ms × StartsAtOne ms
validate_migration_sequence_accepts ms h =
    let (d, s) = checks_passed ms h in
    (has_duplicates-IsUnique ms d, starts_at_one-StartsAtOne ms s)

-- Where the versions rise, the arithmetic of the gaps stays in the range of a `u32`.
log_gaps_returns :
    (ms : List Migration)
    → IsUnique ms
    → IsSortedBy (λ a b. leb a.version b.version) ms
    → ((m : Migration) → Memᴰ m ms → m.version < 2 ^ 32)
    → log_gaps ms ≡ some tt
unfolding log_gaps
log_gaps_returns [] u s b = refl
log_gaps_returns (m ∷ []) u s b = refl
log_gaps_returns (m ∷ n ∷ ms) u s b =
    let rest = log_gaps_returns (n ∷ ms) u.1 s.1 (λ x k. b x (Memᴰ.tail k)) in
    let bound = b n (Memᴰ.tail (Memᴰ.head refl)) in
    let le : leb m.version n.version ≡ true = s.0.0 in
    let ne : n.version ≢ m.version = u.0.0 in ground (arith, rest, bound, le, ne)

-- On migrations in the order of their `u32` versions the check returns.
pub validate_migration_sequence_returns :
    (ms : List Migration)
    → IsSortedBy (λ a b. leb a.version b.version) ms
    → ((m : Migration) → Memᴰ m ms → m.version < 2 ^ 32)
    → (r : Result (Unit {0})) × (validate_migration_sequence ms ≡ some r)
unfolding validate_migration_sequence
validate_migration_sequence_returns ms s b = elim (Bool-cases (has_duplicates [] ms)) [
  | inl d ↦ (err (migration (codes "duplicate migration version")), rw d refl)
  | inr d ↦ elim (Bool-cases (starts_at_one ms)) [
    | inr n ↦ (err (migration (codes "migrations must start at version 1")), rw (d, n) refl)
    | inl n ↦ (ok tt, rw (d, n, log_gaps_returns ms (has_duplicates-IsUnique ms d) s b) refl)
  ]
]
