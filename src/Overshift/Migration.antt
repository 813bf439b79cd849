-- ===== src/Overshift/Migration.antt =====
-- overshift/src/migration.rs: the names of migration files and the checks of a sequence of migrations;
-- the format `v{:03}_{name}` of overshift/src/plan.rs. Walking the directory is not modelled.
pub mod Names
pub mod Sequence
use Prim.Native.Nat.{◌*◌, ◌-◌, ◌^◌, ◌/◌, ◌%◌}
use surql_parser.Prelude.{
  ℕ, zero, suc, ◌+◌, Bool, true, false, ◌&&◌, ◌||◌, Option, none, some, List, [], ◌∷◌, ◌++◌,
  if◌then◌else◌, ◌==◌, ltb, leb, codes, Text, is_ascii_digit, any, is_empty, length,
}
use surql_parser.Overshift.Types.{Error, migration, Result, ok, err, Migration}

-- `u32::from_str` on the digits behind the sign: each step checks for overflow.
unfoldable pub parse_digits : ℕ → Text → Option ℕ
parse_digits n [] = some n
parse_digits n (c ∷ rest) =
    let next = n * 10 + (c - b'0') in
    let result = parse_digits next rest in
    if is_ascii_digit c && ltb next (2 ^ 32) then result else none

-- `u32::from_str`: a leading plus is taken, the empty text and a lone sign are refused.
unfoldable pub parse_u32 : Text → Option ℕ
unfolding parse_digits
parse_u32 [] = none
parse_u32 (c ∷ rest) =
    if c == b'+'
    then (if is_empty rest then none else parse_digits 0 rest)
    else parse_digits 0 (c ∷ rest)

-- `split_once('_')`
unfoldable pub split_once : Text → Option (Text × Text)
split_once [] = none
split_once (c ∷ rest) =
    let further = split_once rest in
    if c == b'_'
    then some ([], rest)
    else elim further [ none ↦ none | some (before, behind) ↦ some (c ∷ before, behind) ]

checked_version : Option ℕ → Text → Result (ℕ × Text)
checked_version none name = err (migration (codes "invalid version number"))
checked_version (some zero) name = err (migration (codes "migration version must be >= 1"))
checked_version (some (suc v)) name = ok (suc v, name)

split_version : Option (Text × Text) → Result (ℕ × Text)
unfolding checked_version parse_u32
split_version none = err (migration (codes "migration filename must have format v{NNN}_{name}"))
split_version (some (version_str, name)) = checked_version (parse_u32 version_str) name

unfoldable pub parse_migration_filename : Text → Result (ℕ × Text)
unfolding split_version split_once
parse_migration_filename [] = err (migration (codes "migration filename must start with 'v'"))
parse_migration_filename (c ∷ rest) =
    if c == b'v'
    then split_version (split_once rest)
    else err (migration (codes "migration filename must start with 'v'"))

-- Decimal digits, the first argument bounding their number.
unfoldable pub decimal : ℕ → ℕ → Text
decimal zero n = []
decimal (suc fuel) n =
    let before = decimal fuel (n / 10) in
    if ltb n 10 then (b'0' + n) ∷ [] else before ++ (b'0' + n % 10) ∷ []

unfoldable pub pad : ℕ → Text → Text
pad zero t = t
pad (suc k) t = b'0' ∷ pad k t

-- `{:03}` of a `u32`, which has at most ten digits
unfoldable pub show_version : ℕ → Text
unfolding decimal pad
show_version v = let t = decimal 10 v in pad (3 - length t) t

-- `format!("v{:03}_{}", version, name)`
unfoldable pub label : ℕ → Text → Text
unfolding show_version
label version name = b'v' ∷ (show_version version ++ b'_' ∷ name)

-- The version was seen.
unfoldable pub is_seen : List ℕ → ℕ → Bool
is_seen seen v = any (λ s. s == v) seen

has_duplicates : List ℕ → List Migration → Bool
unfolding is_seen
has_duplicates seen [] = false
has_duplicates seen (m ∷ ms) =
    let rest = has_duplicates (m.version ∷ seen) ms in if is_seen seen m.version then true else rest

starts_at_one : List Migration → Bool
starts_at_one [] = true
starts_at_one (m ∷ ms) = m.version == 1

-- `for pair in migrations.windows(2)`, which logs the gaps: `none` is a panic, where `version + 1` or
-- `version - 1` is out of the range of a `u32` and overflow is checked.
unfoldable pub log_gaps : List Migration → Option (Unit {0})
log_gaps [] = some tt
log_gaps (m ∷ []) = some tt
log_gaps (m ∷ n ∷ ms) =
    let rest = log_gaps (n ∷ ms) in
    if leb (2 ^ 32) (m.version + 1)
    then none
    else if n.version == m.version + 1
    then rest
    else if n.version == 0
    then none
    else rest

-- `none` is a panic of the loop.
unfoldable pub validate_migration_sequence : List Migration → Option (Result (Unit {0}))
unfolding has_duplicates starts_at_one log_gaps
validate_migration_sequence ms =
    if has_duplicates [] ms
    then some (err (migration (codes "duplicate migration version")))
    else if starts_at_one ms
    then elim (log_gaps ms) [ none ↦ none | some u ↦ some (ok tt) ]
    else some (err (migration (codes "migrations must start at version 1")))
