-- ===== src/Overshift/Apply.antt =====
-- overshift/src/plan.rs: `Plan::apply` and `apply_inner`, without the feature `shadow`;
-- overshift/src/changelog.rs: `record_entry`. Log lines and the texts of errors are not modelled.
pub mod Locking
pub mod Books
pub mod Ran
pub mod Counts
use surql_parser.Prelude.{
  ℕ, ◌+◌, Bool, true, false, not, ◌&&◌, List, [], ◌∷◌, ◌++◌, if◌then◌else◌, codes, Text, is_empty,
  length,
}
use surql_parser.Overshift.Types.{
  Error, migration, schema, Result, ok, err, Migration, SchemaModule, Plan, ApplyResult,
}
use surql_parser.Overshift.Db.{
  Database, M, World, Request, Reply, EntryType, Target, query_error, statement_error, pure, raise,
  continue, ◌>>=◌, ◌>>◌, ask, sent, checked, switch_to, bootstrap, run_transaction, run_schema,
  record_migration, record_entry,
}
use surql_parser.Overshift.Lock.{acquire, release_lock}
use surql_parser.Overshift.Validate.{validate_functions}

-- `Plan::is_empty`
abbrev pub plan_is_empty : Plan → Bool
plan_is_empty p = is_empty p.pending_migrations && is_empty p.schema_modules

-- `BEGIN TRANSACTION;\n{content}\nCOMMIT TRANSACTION;`
unfoldable pub wrapped : Text → Text
wrapped content = codes "BEGIN TRANSACTION;\n" ++ (content ++ codes "\nCOMMIT TRANSACTION;")

-- `Ok(response)` with `response.check()` passed
abbrev pub is_fine : Reply → Bool
is_fine query_error = false
is_fine statement_error = false
is_fine _ = true

-- What `apply_inner` counts, and the names of the migrations that failed.
pub record Progress : Type 0 where
  pub applied : ℕ
  pub failed : List Text

module _ (checksum_of : Text → Text) (db : Database) where
  pub log_entry : EntryType → ℕ → Text → Text → M (Unit {0})
  log_entry type version name checksum = do
    r ← ask db (record_entry type version name checksum)
    sent (migration (codes "changelog write failed")) r

  -- The transaction of one migration, between the two switches of the database; does it succeed?
  pub run_migration : Migration → M Bool
  run_migration m = do
    switch_to db Target.main
    r ← ask db (run_transaction (wrapped m.content))
    switch_to db Target.system
    pure (is_fine r)

  pub record_applied : Migration → M (Unit {0})
  record_applied m = do
    r ← ask db (record_migration m.version m.checksum)
    _ ← sent (migration (codes "failed to record migration")) r
    log_entry EntryType.migration m.version m.name m.checksum

  -- The loop over the pending migrations, which stops at the first that fails.
  pub run_migrations : List Migration → Progress → M Progress
  run_migrations [] p = pure p
  run_migrations (m ∷ ms) p =
      let rest = run_migrations ms (record p { applied = p.applied + 1 }) in
      do
        fine ← run_migration m
        if fine then (record_applied m >> rest) else do
          log_entry EntryType.migration_failed m.version m.name m.checksum
          pure (record p { failed = p.failed ++ m.name ∷ [] })

  pub run_modules : List SchemaModule → ℕ → M ℕ
  run_modules [] applied = pure applied
  run_modules (s ∷ ss) applied =
      let rest = run_modules ss (applied + 1) in
      do r ← ask db (run_schema s.content); checked (schema (codes "schema module failed")) r; rest

  pub log_modules : List SchemaModule → M (Unit {0})
  log_modules [] = pure tt
  log_modules (s ∷ ss) =
      let rest = log_modules ss in
      do log_entry EntryType.schema_module 0 s.name (checksum_of s.content); rest

  pub validate_plan : List Text → M (Unit {0})
  validate_plan functions =
      if is_empty functions
      then pure tt
      else do switch_to db Target.main; validate_functions db functions

  pub finish : Progress → ℕ → M (ℕ × ℕ)
  finish p modules =
      if is_empty p.failed
      then pure (p.applied, modules)
      else raise (migration (codes "migration(s) failed"))

  unfoldable pub apply_inner : Plan → M (ℕ × ℕ)
  unfolding log_entry run_migration record_applied run_migrations run_modules log_modules
      validate_plan finish
  apply_inner plan = do
    p ← run_migrations plan.pending_migrations (record { applied = 0; failed = [] })
    switch_to db Target.main
    modules ← run_modules plan.schema_modules 0
    switch_to db Target.system
    log_modules plan.schema_modules
    validate_plan plan.functions_to_validate
    finish p modules

  -- A failed release is only logged.
  pub locked : {A : Type 0} → M A → M A
  locked body w =
      let (result, behind) = body w in
      let (_, released) = release_lock db behind in (result, released)

  unfoldable pub apply : Plan → M ApplyResult
  unfolding apply_inner locked acquire release_lock
  apply plan =
      if plan_is_empty plan
      then (do
        switch_to db Target.main
        pure (record { applied_migrations = 0; applied_modules = 0 }))
      else do
        switch_to db Target.system
        r ← ask db bootstrap
        sent (migration (codes "bootstrap failed")) r
        acquire db
        (migrations, modules) ← locked (apply_inner plan)
        switch_to db Target.main
        pure (record { applied_migrations = migrations; applied_modules = modules })
