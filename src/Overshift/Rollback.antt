-- ===== src/Overshift/Rollback.antt =====
-- overshift/src/plan.rs: `rollback`, on a manifest with preloaded migrations.
pub mod Leaks
use surql_parser.Prelude.{
  ℕ, Bool, true, false, not, Option, none, some, List, [], ◌∷◌, ◌++◌, if◌then◌else◌, ltb, leb,
  codes, Text, is_empty, keep, find,
}
use surql_parser.Overshift.Types.{
  Error, migration, Result, ok, err, Migration, AppliedMigration, RollbackResult,
}
use surql_parser.Overshift.Db.{
  Database, M, World, Request, Reply, EntryType, Target, bootstrap, run_transaction,
  delete_migration, pure, raise, continue, ◌>>=◌, ◌>>◌, ask, sent, switch_to,
}
use surql_parser.Overshift.Lock.{acquire, release_lock}
use surql_parser.Overshift.Migration.{label, show_version}
use surql_parser.Overshift.Planning.{applied_migrations, has_version}
use surql_parser.Overshift.Apply.{wrapped, is_fine, log_entry}

-- `sort_by(|a, b| b.version.cmp(&a.version))`, which is stable
insert_newest : AppliedMigration → List AppliedMigration → List AppliedMigration
insert_newest a [] = a ∷ []
insert_newest a (b ∷ bs) =
    let rest = insert_newest a bs in if leb b.version a.version then a ∷ b ∷ bs else b ∷ rest

unfoldable pub newest_first : List AppliedMigration → List AppliedMigration
unfolding insert_newest
newest_first [] = []
newest_first (a ∷ more) = insert_newest a (newest_first more)

unfoldable pub to_rollback : ℕ → List AppliedMigration → List AppliedMigration
unfolding newest_first
to_rollback target applied = newest_first (keep (λ a. ltb target a.version) applied)

-- `rolled_back` and `errors`
pub record Progress : Type 0 where
  pub rolled_back : List Text
  pub errors : List Text

module _ (checksum_of : Text → Text) (db : Database) where
  -- The transaction of one down migration, between the two switches; does it succeed?
  run_down : Text → M Bool
  run_down sql = do
    switch_to db Target.main
    r ← ask db (run_transaction (wrapped sql))
    switch_to db Target.system
    pure (is_fine r)

  record_rollback : AppliedMigration → Text → M (Unit {0})
  record_rollback a name = do
    r ← ask db (delete_migration a.version)
    _ ← sent (migration (codes "failed to remove from migration_lock")) r
    log_entry checksum_of db EntryType.rollback a.version name a.checksum

  -- One applied migration by the migration that is known of it; the rest of the loop is run unless the
  -- down migration fails.
  rollback_one :
      Option Migration → AppliedMigration → (Progress → M Progress) → Progress → M Progress
  unfolding run_down record_rollback
  rollback_one none a rest p = rest (record p {
    errors =
        p.errors ++ (codes "v" ++ (show_version a.version ++ codes ": no .down.surql file")) ∷ [];
  })
  rollback_one (some m) a rest p = elim m.down_content [
    | none ↦ rest (record p {
      errors =
          p.errors ++ (codes "v" ++ (show_version a.version ++ codes ": no .down.surql file")) ∷ [];
    })
    | some sql ↦ run_down sql >>= λ fine.
        if fine
        then record_rollback a m.name
          >> rest (record p { rolled_back = p.rolled_back ++ label a.version m.name ∷ [] })
        else pure (record p {
          errors =
              p.errors
              ++ (codes "v" ++ (show_version a.version ++ codes ": down migration failed")) ∷ [];
        })
  ]

  pub rollback_all : List Migration → List AppliedMigration → Progress → M Progress
  unfolding rollback_one
  rollback_all migrations [] p = pure p
  rollback_all migrations (a ∷ more) p =
      rollback_one (find (has_version a.version) migrations) a (rollback_all migrations more) p

  -- The release behind the loop; its failure is only logged.
  release_quietly : M (Unit {0})
  release_quietly w = let (_, released) = release_lock db w in (ok tt, released)

  -- The loop and what is behind it.
  unfoldable pub rollback_held : ℕ → List Migration → List AppliedMigration → M RollbackResult
  unfolding rollback_all release_quietly
  rollback_held target migrations newest = do
    p ← rollback_all migrations newest (record { rolled_back = []; errors = [] })
    release_quietly
    switch_to db Target.main
    pure (record { rolled_back = p.rolled_back; target_version = target; errors = p.errors })

  rollback_found : ℕ → List Migration → List AppliedMigration → M RollbackResult
  unfolding rollback_held
  rollback_found target migrations [] = do
    switch_to db Target.main
    pure (record { rolled_back = []; target_version = target; errors = [] })
  rollback_found target migrations (a ∷ more) = do
    acquire db
    rollback_held target migrations (a ∷ more)

  unfoldable pub rollback : List Migration → ℕ → M RollbackResult
  unfolding rollback_found
  rollback migrations target = do
    switch_to db Target.system
    _ ← ask db bootstrap
    applied ← applied_migrations db
    rollback_found target migrations (to_rollback target applied)
