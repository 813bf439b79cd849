-- ===== src/Overshift/Apply/Locking.antt =====
-- `Plan::apply` and the lock: what it asks between a won attempt and its request to release the lock,
-- and that this request is always made.
use surql_parser.Prelude.{ℕ, ◌+◌, none, some, List, [], ◌∷◌, refl, Text}
use surql_parser.Overshift.Types.{Result, ok, err, Migration, SchemaModule, Plan, ApplyResult}
use surql_parser.Overshift.Db.{
  rows, info, Database, M, World, Reply, EntryType, Target, use_db, bootstrap, run_transaction,
  run_schema, record_migration, record_entry, info_for_db, pure, ◌>>=◌, ◌>>◌, continue, switch_to,
}
use surql_parser.Overshift.Db.Keeps.{
  continue_keeps, Keeps-pure, Keeps-sent, Keeps-then, Keeps, Keeps-bind, Keeps-then, Keeps-pure,
  Keeps-raise, Keeps-checked, Keeps-sent, Keeps-if, keeps_rules,
}
use surql_parser.Overshift.Lock.{acquire}
use surql_parser.Overshift.Lock.Holding.{
  ask-Unclaimed, Claimed, Unclaimed, ask-Claimed, Acquired, acquire-Acquired,
  release_lock-Unclaimed,
}
use surql_parser.Overshift.Validate.{validate_functions, defined_functions}
use surql_parser.Overshift.Apply.{
  Progress, wrapped, log_entry, run_migration, record_applied, run_migrations, run_modules,
  log_modules, validate_plan, finish, apply_inner, locked, apply,
}

module _ (checksum_of : Text → Text) (db : Database) where
  pub switch_to-Claimed : (t : Target) → Keeps (Claimed db) (switch_to db t)
  unfolding switch_to
  switch_to-Claimed t = search (keeps_rules, ask-Claimed db (use_db t) refl refl)

  pub log_entry-Claimed :
      (type : EntryType) (version : ℕ) (name checksum : Text)
      → Keeps (Claimed db) (log_entry checksum_of db type version name checksum)
  unfolding log_entry
  log_entry-Claimed type version name checksum =
      search (keeps_rules, ask-Claimed db (record_entry type version name checksum) refl refl)

  run_migration-Claimed : (m : Migration) → Keeps (Claimed db) (run_migration checksum_of db m)
  unfolding run_migration
  run_migration-Claimed m =
      let run = ask-Claimed db (run_transaction (wrapped m.content)) refl refl in
      Keeps-then _ _ (switch_to-Claimed Target.main) (
        Keeps-bind _ _ run
          λ r. Keeps-then _ _ (switch_to-Claimed Target.system) (search keeps_rules))

  record_applied-Claimed : (m : Migration) → Keeps (Claimed db) (record_applied checksum_of db m)
  unfolding record_applied
  record_applied-Claimed m =
      Keeps-bind _ _ (ask-Claimed db (record_migration m.version m.checksum) refl refl)
        λ r. Keeps-bind _ _ (Keeps-sent _ r) λ u. search log_entry-Claimed

  run_migrations-Claimed :
      (ms : List Migration) (p : Progress) → Keeps (Claimed db) (run_migrations checksum_of db ms p)
  unfolding run_migrations
  run_migrations-Claimed [] p = Keeps-pure p
  run_migrations-Claimed (m ∷ ms) p =
      let rest = run_migrations-Claimed ms (record p { applied = p.applied + 1 }) in
      Keeps-bind _ _ (run_migration-Claimed m) λ fine.
        Keeps-if fine _ _ (Keeps-then _ _ (record_applied-Claimed m) rest)
          (Keeps-then _ _ (log_entry-Claimed _ _ _ _) (search keeps_rules))

  run_modules-Claimed :
      (ss : List SchemaModule) (n : ℕ) → Keeps (Claimed db) (run_modules checksum_of db ss n)
  unfolding run_modules
  run_modules-Claimed [] n = Keeps-pure n
  run_modules-Claimed (s ∷ ss) n =
      Keeps-bind _ _ (ask-Claimed db (run_schema s.content) refl refl)
        λ r. Keeps-then _ _ (Keeps-checked _ r) (run_modules-Claimed ss (n + 1))

  log_modules-Claimed :
      (ss : List SchemaModule) → Keeps (Claimed db) (log_modules checksum_of db ss)
  unfolding log_modules
  log_modules-Claimed [] = Keeps-pure tt
  log_modules-Claimed (s ∷ ss) = Keeps-then _ _ (log_entry-Claimed _ _ _ _) (log_modules-Claimed ss)

  defined_functions-Claimed : (r : Reply) → Keeps (Claimed db) (defined_functions r)
  unfolding defined_functions
  defined_functions-Claimed (info none) = Keeps-pure _
  defined_functions-Claimed (info (some fs)) = Keeps-pure _
  defined_functions-Claimed (rows rs) = Keeps-pure _
  defined_functions-Claimed _ = Keeps-raise _

  validate_functions-Claimed : (fs : List Text) → Keeps (Claimed db) (validate_functions db fs)
  unfolding validate_functions
  validate_functions-Claimed [] = Keeps-pure tt
  validate_functions-Claimed (f ∷ fs) = Keeps-bind _ _ (ask-Claimed db info_for_db refl refl) λ r.
      Keeps-bind _ _ (defined_functions-Claimed r)
        λ defined. Keeps-if _ _ _ (Keeps-pure tt) (Keeps-raise _)

  validate_plan-Claimed : (fs : List Text) → Keeps (Claimed db) (validate_plan checksum_of db fs)
  unfolding validate_plan
  validate_plan-Claimed fs =
      Keeps-if _ _ _ (Keeps-pure tt)
        (Keeps-then _ _ (switch_to-Claimed Target.main) (validate_functions-Claimed fs))

  finish-Claimed : (p : Progress) (n : ℕ) → Keeps (Claimed db) (finish checksum_of db p n)
  unfolding finish
  finish-Claimed p n = Keeps-if _ _ _ (Keeps-pure _) (Keeps-raise _)

  pub apply_inner-Claimed : (plan : Plan) → Keeps (Claimed db) (apply_inner checksum_of db plan)
  unfolding apply_inner
  apply_inner-Claimed plan = Keeps-bind _ _ (run_migrations-Claimed plan.pending_migrations _) λ p.
      Keeps-then _ _ (switch_to-Claimed Target.main) (
        Keeps-bind _ _ (run_modules-Claimed plan.schema_modules 0) λ modules.
          Keeps-then _ _ (switch_to-Claimed Target.system) (
            Keeps-then _ _ (log_modules-Claimed plan.schema_modules) (
              Keeps-then _ _ (validate_plan-Claimed plan.functions_to_validate)
                (finish-Claimed p modules))))

  -- Behind the lock's acquisition: with a won attempt, or failed without one.
  behind_lock : Plan → M ApplyResult
  behind_lock plan = do
    (migrations, modules) ← locked checksum_of db (apply_inner checksum_of db plan)
    switch_to db Target.main
    pure (record { applied_migrations = migrations; applied_modules = modules })

  pub switch_to-Unclaimed : (t : Target) → Keeps (Unclaimed db) (switch_to db t)
  unfolding switch_to
  switch_to-Unclaimed t =
      Keeps-bind _ _ (ask-Unclaimed db (use_db t) refl refl refl) λ r. Keeps-sent _ r

  locked-Unclaimed :
      {A : Type 0} (body : M A) (w : World)
      → Keeps (Claimed db) body
      → Claimed db w
      → Unclaimed db (locked checksum_of db body w).1
  unfolding locked
  locked-Unclaimed body w k h = release_lock-Unclaimed db (body w).1 (k.at w h)

  behind_lock-Unclaimed :
      (plan : Plan) (r : Result (Unit {0}) × World)
      → Acquired db r
      → Unclaimed db (continue r.0 (λ u. behind_lock plan) r.1).1
  unfolding behind_lock ◌>>=◌
  behind_lock-Unclaimed plan (ok u, w) h =
      continue_keeps {B = ApplyResult} (locked checksum_of db (apply_inner checksum_of db plan) w).0
        _ _ (λ a. Keeps-then _ _ (switch_to-Unclaimed Target.main) (Keeps-pure _))
        (locked-Unclaimed (apply_inner checksum_of db plan) w (apply_inner-Claimed plan) h)
  behind_lock-Unclaimed plan (err e, w) h = h

  acquire_then-Unclaimed : (plan : Plan) → Keeps (Unclaimed db) (acquire db >> behind_lock plan)
  unfolding ◌>>◌
  acquire_then-Unclaimed plan = record {
    at = λ w h. behind_lock-Unclaimed plan (acquire db w) (acquire-Acquired db w h);
  }

  apply-Keeps-Unclaimed : (plan : Plan) → Keeps (Unclaimed db) (apply checksum_of db plan)
  unfolding apply behind_lock
  apply-Keeps-Unclaimed plan =
      Keeps-if _ _ _ (Keeps-then _ _ (switch_to-Unclaimed Target.main) (Keeps-pure _)) (
        Keeps-then _ _ (switch_to-Unclaimed Target.system) (
          Keeps-bind _ _ (ask-Unclaimed db bootstrap refl refl refl)
            λ r. Keeps-then _ _ (Keeps-sent _ r) (acquire_then-Unclaimed plan)))

  -- From a trace in which no won attempt stands without a later request to release the lock, and each
  -- request that needs the lock stands between a won attempt and the next request to release it,
  -- `apply` leaves such a trace, whatever the database answers and whether `apply` returns or fails. The
  -- requests that need the lock are scripts, entries in the books of migrations and changelog entries.
  -- Whether a requested release succeeds, and whether a claim has expired, is not said.
  pub apply-Unclaimed :
      (plan : Plan) (w : World) → Unclaimed db w → Unclaimed db (apply checksum_of db plan w).1
  apply-Unclaimed plan w h = (apply-Keeps-Unclaimed plan).at w h
