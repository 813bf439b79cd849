-- ===== src/Overshift/Lock.antt =====
-- overshift/src/lock.rs: the lock over several instances, a record of the table `leader_lock`.
pub mod Holding
pub mod Granted
use surql_parser.Prelude.{
  ℕ, zero, suc, Bool, true, false, not, ◌&&◌, ◌||◌, List, [], ◌∷◌, ◌==◌, if◌then◌else◌, codes, Text,
  all, is_empty, is_ascii_alphanumeric,
}
use surql_parser.Overshift.Types.{Error, lock}
use surql_parser.Overshift.Db.{
  Database, M, pure, raise, ◌>>=◌, ◌>>◌, ask, sent, checked, taken, define_lock_table, seed_lock,
  check_held, claim, release, force_release, sleep,
}

-- `MAX_RETRIES`
abbrev pub max_retries : ℕ
max_retries = 30

-- The test of `SurrealLock::new`.
unfoldable pub is_scope : Text → Bool
unfolding is_ascii_alphanumeric
is_scope scope = not (is_empty scope) && all (λ c. is_ascii_alphanumeric c || c == b'_') scope

module _ (db : Database) where
  unfoldable pub is_held : M Bool
  is_held = do
    r ← ask db check_held
    rs ← taken (lock (codes "lock check failed")) r
    pure (not (is_empty rs))

  -- The two statements that set the record up may fail unseen.
  unfoldable pub try_acquire : M Bool
  unfolding is_held
  try_acquire = do
    ask db define_lock_table
    ask db seed_lock
    held ← is_held
    if held then pure true else do
      r ← ask db claim
      rs ← taken (lock (codes "lock acquire failed")) r
      pure (not (is_empty rs))

  -- `for attempt in 1..=MAX_RETRIES`, by the attempts left; no sleep behind the last one.
  unfoldable pub attempts : ℕ → M (Unit {0})
  attempts zero = raise (lock (codes "failed to acquire lock"))
  attempts (suc left) =
      let again = attempts left in
      do
        acquired ← try_acquire
        if acquired then pure tt else if left == 0 then again else do ask db sleep; again

  unfoldable pub acquire : M (Unit {0})
  unfolding attempts try_acquire
  acquire = attempts max_retries

  unfoldable pub release_lock : M (Unit {0})
  release_lock = do r ← ask db release; sent (lock (codes "lock release failed")) r

  unfoldable pub force_release_lock : M (Unit {0})
  force_release_lock = do r ← ask db force_release; sent (lock (codes "force release failed")) r
