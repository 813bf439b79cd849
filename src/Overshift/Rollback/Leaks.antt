-- ===== src/Overshift/Rollback/Leaks.antt =====
-- `rollback` and the lock: what the loop leaves, whether it ends or fails.
use surql_parser.Prelude.{ℕ, Option, none, some, List, [], ◌∷◌, ◌≡◌, refl, Text, find}
use surql_parser.Overshift.Types.{Result, ok, err, Migration, AppliedMigration, RollbackResult}
use surql_parser.Overshift.Db.{
  Database, M, World, Target, run_transaction, delete_migration, pure, ◌>>=◌, ◌>>◌, continue,
  switch_to,
}
use surql_parser.Overshift.Db.Keeps.{
  Keeps, Keeps-bind, Keeps-then, Keeps-pure, Keeps-sent, Keeps-if,
}
use surql_parser.Overshift.Lock.{release_lock}
use surql_parser.Overshift.Lock.Holding.{Claimed, Unclaimed, ask-Claimed, release_lock-Unclaimed}
use surql_parser.Overshift.Planning.{has_version}
use surql_parser.Overshift.Apply.{wrapped}
use surql_parser.Overshift.Apply.Locking.{switch_to-Claimed, log_entry-Claimed, switch_to-Unclaimed}
use surql_parser.Overshift.Rollback.{
  Progress, run_down, record_rollback, rollback_one, rollback_all, release_quietly, rollback_held,
}

module _ (checksum_of : Text → Text) (db : Database) where
  run_down-Claimed : (sql : Text) → Keeps (Claimed db) (run_down checksum_of db sql)
  unfolding run_down
  run_down-Claimed sql = Keeps-then _ _ (switch_to-Claimed checksum_of db Target.main) (
      Keeps-bind _ _ (ask-Claimed db (run_transaction (wrapped sql)) refl refl)
        λ r. Keeps-then _ _ (switch_to-Claimed checksum_of db Target.system) (Keeps-pure _))

  record_rollback-Claimed :
      (a : AppliedMigration) (name : Text)
      → Keeps (Claimed db) (record_rollback checksum_of db a name)
  unfolding record_rollback
  record_rollback-Claimed a name =
      Keeps-bind _ _ (ask-Claimed db (delete_migration a.version) refl refl)
        λ r. Keeps-bind _ _ (Keeps-sent _ r) λ u. log_entry-Claimed checksum_of db _ _ _ _

  down-Claimed :
      (down : Option Text) (m : Migration) (a : AppliedMigration) (rest : Progress → M Progress)
      (p : Progress)
      → m.down_content ≡ down
      → ((q : Progress) → Keeps (Claimed db) (rest q))
      → Keeps (Claimed db) (rollback_one checksum_of db (some m) a rest p)
  unfolding rollback_one
  down-Claimed none m a rest p e k = rw e (k _)
  down-Claimed (some sql) m a rest p e k = rw e (
      Keeps-bind _ _ (run_down-Claimed sql) λ fine.
        Keeps-if fine _ _ (Keeps-then _ _ (record_rollback-Claimed a m.name) (k _)) (Keeps-pure _))

  rollback_one-Claimed :
      (known : Option Migration) (a : AppliedMigration) (rest : Progress → M Progress)
      (p : Progress)
      → ((q : Progress) → Keeps (Claimed db) (rest q))
      → Keeps (Claimed db) (rollback_one checksum_of db known a rest p)
  unfolding rollback_one
  rollback_one-Claimed none a rest p k = k _
  rollback_one-Claimed (some m) a rest p k = down-Claimed m.down_content m a rest p refl k

  rollback_all-Claimed :
      (ms : List Migration) (xs : List AppliedMigration) (p : Progress)
      → Keeps (Claimed db) (rollback_all checksum_of db ms xs p)
  unfolding rollback_all
  rollback_all-Claimed ms [] p = Keeps-pure p
  rollback_all-Claimed ms (a ∷ xs) p =
      rollback_one-Claimed (find (has_version a.version) ms) a _ p (rollback_all-Claimed ms xs)

  -- What is left behind a loop: a requested release if it ends, and none if it fails.
  abbrev pub Left : Result Progress → World → Type 0
  Left (ok p) w = Unclaimed db w
  Left (err e) w = Claimed db w

  started : Progress
  started = record { rolled_back = []; errors = [] }

  ended : ℕ → Progress → M RollbackResult
  ended target p = do
    release_quietly checksum_of db
    switch_to db Target.main
    pure (record { rolled_back = p.rolled_back; target_version = target; errors = p.errors })

  ended-Unclaimed :
      (target : ℕ) (p : Progress) (w : World) → Claimed db w → Unclaimed db (ended target p w).1
  unfolding ended release_quietly ◌>>◌
  ended-Unclaimed target p w h =
      (Keeps-then (switch_to db Target.main) _ (switch_to-Unclaimed checksum_of db Target.main)
          (Keeps-pure _)).at
        (release_lock db w).1 (release_lock-Unclaimed db w h)

  ended-Left :
      (target : ℕ) (r : Result Progress) (w : World)
      → Claimed db w
      → Left r (continue r (ended target) w).1
  ended-Left target (ok p) w h = ended-Unclaimed target p w h
  ended-Left target (err e) w h = h

  -- From a trace that ends with an attempt that was won and no request to release the lock behind it,
  -- `rollback` requests the release if the loop over the migrations ends, stopped by a failing migration
  -- or not; if the loop fails with an error, no release is requested behind the won attempt. In both
  -- cases each script and each change of the books stands in the trace between a won attempt and the
  -- next request to release, if it does so in the trace at the start. Whether a requested release
  -- succeeds, and whether the claim has expired, is not said.
  pub rollback_held-Left :
      (target : ℕ) (ms : List Migration) (xs : List AppliedMigration) (w : World)
      → Claimed db w
      → Left
          (rollback_all checksum_of db ms xs (record { rolled_back = []; errors = [] }) w).0
          (rollback_held checksum_of db target ms xs w).1
  unfolding rollback_held ended ◌>>=◌
  rollback_held-Left target ms xs w h =
      let start : Progress = record { rolled_back = []; errors = [] } in
      let (r, w') = rollback_all checksum_of db ms xs start w in
      ended-Left target r w' ((rollback_all-Claimed ms xs start).at w h)
