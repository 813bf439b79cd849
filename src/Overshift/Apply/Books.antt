-- ===== src/Overshift/Apply/Books.antt =====
-- The books of the migrations, and what leaves them alone.
use surql_parser.Prelude.{
  ℕ, zero, suc, ◌+◌, Bool, true, false, if◌then◌else◌, none, some, List, [], ◌∷◌, ◌≡◌, refl, sym,
  arith, ◌==◌, Text, length,
}
use surql_parser.Overshift.Types.{Migration, SchemaModule}
use surql_parser.Overshift.Db.{
  Database, World, Request, Reply, EntryType, Target, use_db, run_transaction, run_schema,
  record_migration, record_entry, query_error, statement_error, info_for_db, rows, info, claim,
  check_held, define_lock_table, seed_lock, sleep, ask, switch_to,
}
use surql_parser.Overshift.Db.Keeps.{
  Keeps, Keeps-ask, Keeps-bind, Keeps-then, Keeps-pure, Keeps-raise, Keeps-checked, Keeps-sent,
  Keeps-taken, Keeps-if,
}
use surql_parser.Overshift.Db.Ensures.{Ensures, Ensures-pure, Ensures-then, Ensures-from}
use surql_parser.Overshift.Lock.{is_held, try_acquire, attempts, acquire, max_retries}
use surql_parser.Overshift.Validate.{validate_functions, defined_functions}
use surql_parser.Overshift.Apply.{
  wrapped, log_entry, run_migration, run_modules, log_modules, validate_plan,
}

-- Neither the query nor its statement failed.
abbrev pub is_done : Reply → Bool
is_done query_error = false
is_done statement_error = false
is_done _ = true

abbrev pub booked_by : Request → Reply → List (ℕ × Text) → List (ℕ × Text)
booked_by (record_migration version checksum) r older =
    if is_done r then (version, checksum) ∷ older else older
booked_by _ r older = older

module _ (db : Database) where
  -- The versions and checksums that the database recorded, newest first: those of the requests to record
  -- a migration that it did not answer with an error.
  abbrev pub books : World → List (ℕ × Text)
  books [] = []
  books (q ∷ w) = booked_by q (db w q) (books w)

  abbrev pub Booked : List (ℕ × Text) → World → Type 0
  Booked b w = books w ≡ b

module _ (checksum_of : Text → Text) (db : Database) (b : List (ℕ × Text)) where
  pub ask-Booked :
      (q : Request) → ((r : Reply) → booked_by q r b ≡ b) → Keeps (Booked db b) (ask db q)
  ask-Booked q h = Keeps-ask db q (λ w k. rw k (h (db w q)))

  pub switch_to-Booked : (t : Target) → Keeps (Booked db b) (switch_to db t)
  unfolding switch_to
  switch_to-Booked t = Keeps-bind _ _ (ask-Booked (use_db t) (λ r. refl)) λ r. Keeps-sent _ r

  pub log_entry-Booked :
      (type : EntryType) (version : ℕ) (name checksum : Text)
      → Keeps (Booked db b) (log_entry checksum_of db type version name checksum)
  unfolding log_entry
  log_entry-Booked type version name checksum =
      Keeps-bind _ _ (ask-Booked (record_entry type version name checksum) (λ r. refl))
        λ r. Keeps-sent _ r

  pub run_migration-Booked : (m : Migration) → Keeps (Booked db b) (run_migration checksum_of db m)
  unfolding run_migration
  run_migration-Booked m = Keeps-then _ _ (switch_to-Booked Target.main) (
      Keeps-bind _ _ (ask-Booked (run_transaction (wrapped m.content)) (λ r. refl))
        λ r. Keeps-then _ _ (switch_to-Booked Target.system) (Keeps-pure _))

  pub log_modules-Booked :
      (ss : List SchemaModule) → Keeps (Booked db b) (log_modules checksum_of db ss)
  unfolding log_modules
  log_modules-Booked [] = Keeps-pure tt
  log_modules-Booked (s ∷ ss) = Keeps-then _ _ (log_entry-Booked _ _ _ _) (log_modules-Booked ss)

  defined_functions-Booked : (r : Reply) → Keeps (Booked db b) (defined_functions r)
  unfolding defined_functions
  defined_functions-Booked (info none) = Keeps-pure _
  defined_functions-Booked (info (some fs)) = Keeps-pure _
  defined_functions-Booked (rows rs) = Keeps-pure _
  defined_functions-Booked _ = Keeps-raise _

  validate_functions-Booked : (fs : List Text) → Keeps (Booked db b) (validate_functions db fs)
  unfolding validate_functions
  validate_functions-Booked [] = Keeps-pure tt
  validate_functions-Booked (f ∷ fs) = Keeps-bind _ _ (ask-Booked info_for_db (λ r. refl)) λ r.
      Keeps-bind _ _ (defined_functions-Booked r)
        λ defined. Keeps-if _ _ _ (Keeps-pure tt) (Keeps-raise _)

  pub validate_plan-Booked :
      (fs : List Text) → Keeps (Booked db b) (validate_plan checksum_of db fs)
  unfolding validate_plan
  validate_plan-Booked fs =
      Keeps-if _ _ _ (Keeps-pure tt)
        (Keeps-then _ _ (switch_to-Booked Target.main) (validate_functions-Booked fs))

  is_held-Booked : Keeps (Booked db b) (is_held db)
  unfolding is_held
  is_held-Booked =
      Keeps-bind _ _ (ask-Booked check_held (λ r. refl))
        λ r. Keeps-bind _ _ (Keeps-taken _ r) λ rs. Keeps-pure _

  try_acquire-Booked : Keeps (Booked db b) (try_acquire db)
  unfolding try_acquire
  try_acquire-Booked = Keeps-then _ _ (ask-Booked define_lock_table (λ r. refl)) (
      Keeps-then _ _ (ask-Booked seed_lock (λ r. refl)) (
        Keeps-bind _ _ is_held-Booked λ held. Keeps-if held _ _ (Keeps-pure true) (
          Keeps-bind _ _ (ask-Booked claim (λ r. refl))
            λ r. Keeps-bind _ _ (Keeps-taken _ r) λ rs. Keeps-pure _)))

  attempts-Booked : (left : ℕ) → Keeps (Booked db b) (attempts db left)
  unfolding attempts
  attempts-Booked zero = Keeps-raise _
  attempts-Booked (suc left) =
      let again = attempts-Booked left in
      Keeps-bind _ _ try_acquire-Booked λ acquired.
        Keeps-if acquired _ _ (Keeps-pure tt)
          (Keeps-if (left == 0) _ _ again (Keeps-then _ _ (ask-Booked sleep (λ r. refl)) again))

  pub acquire-Booked : Keeps (Booked db b) (acquire db)
  unfolding acquire
  acquire-Booked = attempts-Booked max_retries

  pub run_modules-Counted :
      (ss : List SchemaModule) (n : ℕ)
      → Ensures
          (Booked db b)
          (λ k w. (k ≡ n + length ss) × Booked db b w)
          (run_modules checksum_of db ss n)
  unfolding run_modules
  run_modules-Counted [] n = Ensures-pure _ _ n (λ w h. (omega arith, h))
  run_modules-Counted (s ∷ ss) n =
      let e : n + 1 + length ss ≡ n + suc (length ss) = omega arith in
      let rest : Ensures (Booked db b) (λ k w. (k ≡ n + suc (length ss)) × Booked db b w)
          (run_modules checksum_of db ss (n + 1)) =
        rw (sym e) (run_modules-Counted ss (n + 1)) in
      Ensures-from _ _ _ _ (ask-Booked (run_schema s.content) (λ r. refl))
        λ r. Ensures-then _ _ _ _ (Keeps-checked _ r) rest
