-- ===== src/Overshift/Db.antt =====
-- The requests of the engine and the database that answers them. The database is any function of the
-- requests so far, newest first, and of the new one, so that it may fail, lose the connection, be
-- changed by others or let the lock expire at every step.
pub mod Keeps
pub mod Ensures
use surql_parser.Prelude.{ℕ, Bool, true, false, Option, none, some, List, [], ◌∷◌, Text}
use surql_parser.Overshift.Types.{Error, Result, ok, err, database}

pub data Target : Type 0 where
  main system : Target

-- The kinds of changelog entries.
pub data EntryType : Type 0 where
  migration migration_failed schema_module rollback : EntryType

pub data Request : Type 0 where
  -- `db.use_ns(ns).use_db(…)`
  use_db : Target → Request
  -- `BOOTSTRAP_SQL`, `DEFINE_TABLE_SQL`, and the seed of the lock's record
  bootstrap : Request
  define_lock_table : Request
  seed_lock : Request
  -- the lock's record: is it ours, the conditional update, the two releases
  check_held : Request
  claim : Request
  release : Request
  force_release : Request
  -- `tokio::time::sleep(RETRY_INTERVAL)`
  sleep : Request
  -- a script in a transaction, and a schema module's script
  run_transaction : Text → Request
  run_schema : Text → Request
  -- `RECORD_MIGRATION_SQL`, `DELETE_MIGRATION_SQL`, `READ_APPLIED_SQL` with version and checksum
  record_migration : ℕ → Text → Request
  delete_migration : ℕ → Request
  read_applied : Request
  -- `CREATE_CHANGELOG_SQL`, `READ_SCHEMA_CHECKSUMS_SQL`, `INFO_FOR_DB_SQL`
  record_entry : EntryType → ℕ → Text → Text → Request
  read_schema_checksums : Request
  info_for_db : Request

-- A row, by what the typed reads of its columns give.
pub record Row : Type 0 where
  pub version : Option ℕ
  pub name : Option Text
  pub applied_at : Option Text
  pub checksum : Option Text
  pub instance_id : Option Text

pub data Reply : Type 0 where
  -- the query itself fails
  query_error : Reply
  -- the query is answered, and its statement failed: `check` and `take` give an error
  statement_error : Reply
  rows : List Row → Reply
  -- `INFO FOR DB`, by the names of the functions, where there is a result at all
  info : Option (List Text) → Reply

abbrev pub World : Type 0
World = List Request

abbrev pub Database : Type 0
Database = World → Request → Reply

-- Actions with errors; the requests that were made stay made.
abbrev pub M : Type 0 → Type 0
M A = World → Result A × World

module _ {A : Type 0} where
  unfoldable pub pure : A → M A
  pure a w = (ok a, w)

  unfoldable pub raise : Error → M A
  raise e w = (err e, w)

-- One request.
unfoldable pub ask : Database → Request → M Reply
ask db q w = (ok (db w q), q ∷ w)

-- `.await.map_err(…)?`
unfoldable pub sent : Error → Reply → M (Unit {0})
sent e query_error w = (err e, w)
sent e _ w = (ok tt, w)

-- `.await.map_err(…)?` and then `response.check().map_err(…)?`, or `take(0)` with its error
unfoldable pub checked : Error → Reply → M (Unit {0})
checked e query_error w = (err e, w)
checked e statement_error w = (err e, w)
checked e _ w = (ok tt, w)

-- `take(0)` into rows
unfoldable pub taken : Error → Reply → M (List Row)
taken e (rows rs) w = (ok rs, w)
taken e _ w = (err e, w)

module _ {A B : Type 0} where
  abbrev pub continue : Result A → (A → M B) → World → Result B × World
  continue (ok a) f w = f a w
  continue (err e) f w = (err e, w)

  infixl 5 ◌>>=◌ ◌>>◌
  -- To open this is to open the actions above.
  unfoldable pub ◌>>=◌ : M A → (A → M B) → M B
  unfolding pure raise ask sent checked taken
  ◌>>=◌ m f w = let (r, w') = m w in continue r f w'

  unfoldable pub ◌>>◌ : M A → M B → M B
  unfolding ◌>>=◌
  m >> k = m >>= λ _. k

-- `use_ns(…).use_db(…).await?`
unfoldable pub switch_to : Database → Target → M (Unit {0})
switch_to db t = do r ← ask db (use_db t); sent database r
