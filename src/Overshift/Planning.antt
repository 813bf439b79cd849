-- ===== src/Overshift/Planning.antt =====
-- overshift/src/plan.rs: `plan` and `read_applied`; overshift/src/changelog.rs:
-- `read_schema_checksums`. The migrations and modules are those of a manifest with preloaded data; the
-- checksum and the names of a script's functions are parameters.
pub mod Consistent
use Prim.Native.Nat.{◌^◌, ◌%◌}
use surql_parser.Prelude.{
  ℕ, Bool, true, false, not, ◌&&◌, ◌||◌, Option, none, some, List, [], ◌∷◌, if◌then◌else◌, ◌==◌,
  leb, codes, Text, text_eq, is_empty, any, all, keep, find, length,
}
use surql_parser.Prelude.HashMap.{HashMap, lookup, put, has_key}
use surql_parser.Overshift.Types.{
  Error, migration, schema, checksum_mismatch, Result, ok, err, Migration, AppliedMigration,
  SchemaModule, Plan,
}
use surql_parser.Overshift.Db.{
  Database, M, World, Request, Reply, Row, Target, bootstrap, read_applied, read_schema_checksums,
  pure, raise, continue, ◌>>=◌, ◌>>◌, ask, sent, taken, switch_to,
}
use surql_parser.Overshift.Migration.{is_seen}

-- `Manifest` with `preloaded_migrations` and `preloaded_modules`
pub record Manifest : Type 0 where
  pub preloaded_migrations : List Migration
  pub preloaded_modules : List SchemaModule

unfoldable pub lift : {A : Type 0} → Result A → M A
unfolding pure raise
lift (ok a) = pure a
lift (err e) = raise e

corrupt : Error
corrupt = migration (codes "corrupt migration_lock")

-- One row; the version is cut to 32 bits.
read_row : Row → Result AppliedMigration
unfolding corrupt
read_row row = elim row.version [
  | none ↦ err corrupt
  | some v ↦ elim row.applied_at [
    | none ↦ err corrupt
    | some at ↦ elim row.checksum [
      | none ↦ err corrupt
      | some c ↦ elim row.instance_id [
        | none ↦ err corrupt
        | some i ↦
            ok (record { version = v % 2 ^ 32; applied_at = at; checksum = c; instance_id = i })
      ]
    ]
  ]
]

push_row : Result AppliedMigration → Result (List AppliedMigration) → Result (List AppliedMigration)
push_row (err e) rest = err e
push_row (ok a) (err e) = err e
push_row (ok a) (ok more) = ok (a ∷ more)

read_rows : List Row → Result (List AppliedMigration)
unfolding read_row push_row
read_rows [] = ok []
read_rows (r ∷ rs) = push_row (read_row r) (read_rows rs)

unfoldable pub applied_migrations : Database → M (List AppliedMigration)
unfolding read_rows lift
applied_migrations db = do
  r ← ask db read_applied
  rs ← taken (migration (codes "read applied migrations failed")) r
  lift (read_rows rs)

abbrev pub has_version : ℕ → Migration → Bool
has_version v m = m.version == v

-- The migration an applied one is checked against, where it is known and differs.
unfoldable pub mismatch : List Migration → AppliedMigration → Option Error
mismatch migrations a = elim (find (has_version a.version) migrations) [
  | none ↦ none
  | some m ↦
      if text_eq a.checksum m.checksum
      then none
      else some (checksum_mismatch a.version m.name m.checksum a.checksum)
]

-- The loop of the first check: the first mismatch.
unfoldable pub first_mismatch : List Migration → List AppliedMigration → Option Error
unfolding mismatch
first_mismatch migrations [] = none
first_mismatch migrations (a ∷ more) =
    let rest = first_mismatch migrations more in
    elim (mismatch migrations a) [ none ↦ rest | some e ↦ some e ]

-- The second check, over the versions that are both applied and known, each by its first entry; the
-- versions come in the order of the applied ones.
overlap_mismatch : List Migration → List AppliedMigration → List AppliedMigration → Option Error
unfolding mismatch
overlap_mismatch migrations applied [] = none
overlap_mismatch migrations applied (a ∷ more) =
    let rest = overlap_mismatch migrations applied more in
    elim (find (λ b. b.version == a.version) applied) [
      | none ↦ rest
      | some b ↦ elim (mismatch migrations b) [ none ↦ rest | some e ↦ some e ]
    ]

unfoldable pub has_repeats : List ℕ → List Migration → Bool
unfolding is_seen
has_repeats seen [] = false
has_repeats seen (m ∷ ms) =
    let rest = has_repeats (m.version ∷ seen) ms in if is_seen seen m.version then true else rest

-- `applied_versions.contains(&m.version)`
abbrev pub is_applied : List AppliedMigration → ℕ → Bool
is_applied applied v = any (λ a. a.version == v) applied

-- The checks, and the migrations that are not applied yet.
unfoldable pub pending_of : List AppliedMigration → List Migration → Result (List Migration)
unfolding first_mismatch overlap_mismatch has_repeats
pending_of applied migrations = elim (first_mismatch migrations applied) [
  | some e ↦ err e
  | none ↦ elim (overlap_mismatch migrations applied applied) [
    | some e ↦ err e
    | none ↦
        if has_repeats [] migrations
        then err (migration (codes "duplicate migration version in plan"))
        else ok (keep (λ m. not (is_applied applied m.version)) migrations)
  ]
]

-- The rows come newest first, and the first entry of a name is kept.
record_checksum : Option Text → Option Text → HashMap Text → HashMap Text
record_checksum none c m = m
record_checksum (some n) none m = m
record_checksum (some n) (some c) m = if has_key n m then m else put n c m

schema_checksums_of : List Row → HashMap Text → HashMap Text
unfolding record_checksum
schema_checksums_of [] m = m
schema_checksums_of (r ∷ rs) m = schema_checksums_of rs (record_checksum r.name r.checksum m)

unfoldable pub schema_checksums : Database → M (HashMap Text)
unfolding schema_checksums_of
schema_checksums db = do
  r ← ask db read_schema_checksums
  rs ← taken (migration (codes "read schema checksums failed")) r
  pure (schema_checksums_of rs [])

module _ (checksum_of : Text → Text) where
  -- The recorded checksum of the module is that of its content.
  abbrev pub is_recorded : HashMap Text → SchemaModule → Bool
  is_recorded recorded m = elim (lookup m.name recorded) [
    | none ↦ false
    | some prev ↦ text_eq prev (checksum_of m.content)
  ]

  all_match : HashMap Text → List SchemaModule → Bool
  all_match recorded ms = leb (length ms) (length recorded) && all (is_recorded recorded) ms

  -- A failed read means to apply them all.
  unfoldable pub changed_modules : Result (HashMap Text) → List SchemaModule → List SchemaModule
  unfolding all_match
  changed_modules (ok recorded) ms = if all_match recorded ms then [] else ms
  changed_modules (err e) ms = ms

  unfoldable pub modules_to_apply : Database → List SchemaModule → M (List SchemaModule)
  unfolding changed_modules schema_checksums
  modules_to_apply db [] w = (ok [], w)
  modules_to_apply db (m ∷ ms) w =
      let (recorded, w') = schema_checksums db w in (ok (changed_modules recorded (m ∷ ms)), w')

  unfoldable pub plan : (List SchemaModule → Result (List Text)) → Database → Manifest → M Plan
  unfolding modules_to_apply pending_of applied_migrations
  plan extract_function_names db manifest = do
    functions ← lift (extract_function_names manifest.preloaded_modules)
    switch_to db Target.system
    _ ← ask db bootstrap
    applied ← applied_migrations db
    pending ← lift (pending_of applied manifest.preloaded_migrations)
    modules ← modules_to_apply db manifest.preloaded_modules
    pure (record {
      pending_migrations = pending;
      schema_modules = modules;
      functions_to_validate = functions;
    })
