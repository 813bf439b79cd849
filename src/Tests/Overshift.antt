-- ===== src/Tests/Overshift.antt =====
-- The migration engine against a small database.
use surql_parser.Prelude.{arith, some, none, [], ◌∷◌, ◌≡◌, ◌↔◌, refl, codes, Text, length}
use surql_parser.Overshift.Types.{ApplyResult, Migration, AppliedMigration, Plan, ok}
use surql_parser.Overshift.Db.{
  ◌>>◌, switch_to, Database, World, Request, Reply, Row, rows, info, query_error, claim,
  info_for_db, delete_migration,
}
use surql_parser.Overshift.Lock.Holding.{Unclaimed}
use surql_parser.Overshift.Apply.{apply}
use surql_parser.Overshift.Apply.Books.{books}
use surql_parser.Overshift.Apply.Ran.{booked}
use surql_parser.Overshift.Apply.Counts.{apply_lem}
use surql_parser.Overshift.Apply.Locking.{apply-Unclaimed}
use surql_parser.Overshift.Migration.{label, parse_migration_filename}
use surql_parser.Overshift.Migration.Names.{parse_migration_filename-label}
use surql_parser.Overshift.Planning.{pending_of}
use surql_parser.Overshift.Planning.Consistent.{IsConsistent, unapplied, pending_of_iff}
use surql_parser.Overshift.Rollback.{rollback_all, rollback_held}
use surql_parser.Overshift.Rollback.Leaks.{Left, rollback_held-Left}

abbrev blank_row : Row
blank_row = record {
  version = none;
  name = none;
  applied_at = none;
  checksum = none;
  instance_id = none;
}

-- Each claim is won, and each deletion of a migration fails.
abbrev answers : Request → Reply
answers claim = rows (blank_row ∷ [])
answers (delete_migration v) = query_error
answers info_for_db = info none
answers _ = rows []

abbrev db : Database
db older q = answers q

abbrev initial : Migration
initial = record {
  version = 1;
  name = codes "initial";
  content = codes "DEFINE TABLE user";
  checksum = codes "c1";
  down_content = some (codes "REMOVE TABLE user");
}

abbrev second : Migration
second = record initial { version = 2; name = codes "second"; checksum = codes "c2" }

abbrev initial_applied : AppliedMigration
initial_applied = record {
  version = 1;
  applied_at = codes "now";
  checksum = codes "c1";
  instance_id = codes "i";
}

abbrev both_pending : Plan
both_pending = record {
  pending_migrations = initial ∷ second ∷ [];
  schema_modules = [];
  functions_to_validate = [];
}

abbrev checksum_of : Text → Text
checksum_of content = content

apply-Unclaimed_example : Unclaimed db (apply checksum_of db both_pending []).1
apply-Unclaimed_example = apply-Unclaimed checksum_of db both_pending [] (refl, tt)

-- What a plan leaves behind an empty trace.
abbrev behind : Plan → World
behind plan = (apply checksum_of db plan []).1

abbrev two_applied : ApplyResult
two_applied = record { applied_migrations = 2; applied_modules = 0 }

both_return : apply checksum_of db both_pending [] ≡ (ok two_applied, behind both_pending)
unfolding apply ◌>>◌ switch_to
both_return = refl

apply_lem_example :
    (two_applied.applied_migrations ≡ length both_pending.pending_migrations)
    × (two_applied.applied_modules ≡ length both_pending.schema_modules)
    × (books db (behind both_pending) ≡ booked both_pending.pending_migrations [])
apply_lem_example =
    apply_lem checksum_of db (λ w version checksum h. cc) both_pending [] (behind both_pending)
      two_applied both_return

parse_migration_filename-label_example :
    parse_migration_filename (label 12 (codes "seed")) ≡ ok (12, codes "seed")
parse_migration_filename-label_example =
    parse_migration_filename-label 11 (codes "seed") (omega arith)

twelfth : label 12 (codes "seed") ≡ codes "v012_seed"
unfolding label
twelfth = refl

pending_of_iff_example :
    (pending_of (initial_applied ∷ []) (initial ∷ second ∷ []) ≡ ok (second ∷ [])) ↔ (
      IsConsistent (initial_applied ∷ []) (initial ∷ second ∷ [])
      × (unapplied (initial_applied ∷ []) (initial ∷ second ∷ []) ≡ second ∷ []))
pending_of_iff_example = pending_of_iff (initial_applied ∷ []) (initial ∷ second ∷ []) (second ∷ [])

-- The requests of an instance that won the lock.
abbrev won : World
won = claim ∷ []

-- The deletion from the books fails, and no release is requested.
rollback_held-Left_example :
    Left checksum_of db
      (rollback_all checksum_of db
        (initial ∷ [])
        (initial_applied ∷ [])
        (record { rolled_back = []; errors = [] })
        won).0
      (rollback_held checksum_of db 0 (initial ∷ []) (initial_applied ∷ []) won).1
rollback_held-Left_example =
    rollback_held-Left checksum_of db 0 (initial ∷ []) (initial_applied ∷ []) won
      (record { unreleased = refl; guarded = ((λ n. absurd cc), tt) })
