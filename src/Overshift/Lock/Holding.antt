-- ===== src/Overshift/Lock/Holding.antt =====
-- What the engine knows of the lock from its own requests and their replies: the lock is claimed behind
-- an attempt that was won, up to the next request to release it. Whether that release succeeds, and
-- whether the lock's 60 seconds have run out meanwhile, is not looked at, as in the engine.
use surql_parser.Prelude.{
  Bool, true, false, not, ◌&&◌, [], ◌∷◌, ◌≡◌, arith, if◌then◌else◌, is_empty, Bool-cases, inl, inr,
  ℕ, zero, suc, ◌==◌,
}
use surql_parser.Overshift.Types.{Result, ok, err}
use surql_parser.Overshift.Db.{
  World, Request, Reply, Database, M, rows, run_transaction, run_schema, record_migration,
  delete_migration, record_entry, claim, release, force_release, check_held, sleep, pure, ask,
  ◌>>=◌, ◌>>◌, continue,
}
use surql_parser.Overshift.Db.Keeps.{Keeps, Keeps-ask}
use surql_parser.Overshift.Lock.{try_acquire, attempts, acquire, release_lock, max_retries}

-- Scripts and the books of the migrations.
abbrev pub needs_lock : Request → Bool
needs_lock (run_transaction script) = true
needs_lock (run_schema script) = true
needs_lock (record_migration version checksum) = true
needs_lock (delete_migration version) = true
needs_lock (record_entry type version name checksum) = true
needs_lock _ = false

abbrev pub is_release : Request → Bool
is_release release = true
is_release force_release = true
is_release _ = false

abbrev pub is_attempt : Request → Bool
is_attempt claim = true
is_attempt check_held = true
is_attempt _ = false

-- A claim, or a check, that is answered by a row.
abbrev pub is_won : Reply → Bool
is_won (rows rs) = not (is_empty rs)
is_won _ = false

module _ (db : Database) where
  -- Was an attempt won, and no release requested since? The answer to a release, and the time that has
  -- passed since the claim, do not count.
  abbrev pub claimed : World → Bool
  claimed [] = false
  claimed (q ∷ older) =
      let before = claimed older in
      if is_release q then false else if is_attempt q && is_won (db older q) then true else before

  -- Whatever needs the lock was asked behind an attempt that was won, and before a release was requested.
  abbrev pub IsGuarded : World → Type 0
  IsGuarded [] = Unit
  IsGuarded (q ∷ older) = (needs_lock q ≡ true → claimed older ≡ true) × IsGuarded older

  pub record Claimed (w : World) : Type 0 where
    pub unreleased : claimed w ≡ true
    pub guarded : IsGuarded w

  Claimed-cons :
      (q : Request) (w : World)
      → is_release q ≡ false
      → is_attempt q ≡ false
      → Claimed w
      → Claimed (q ∷ w)
  Claimed-cons q w h k l = record {
    unreleased = rw (h, k) l.unreleased;
    guarded = ((λ n. l.unreleased), l.guarded);
  }

  -- Where the lock is claimed everything but its own requests may be asked.
  pub ask-Claimed :
      (q : Request) → is_release q ≡ false → is_attempt q ≡ false → Keeps Claimed (ask db q)
  ask-Claimed q h k = Keeps-ask db q (λ w. Claimed-cons q w h k)

  -- What an attempt leaves, by its answer.
  abbrev pub Attempted : Result Bool × World → Type 0
  Attempted (ok true, w) = Claimed w
  Attempted (ok false, w) = (claimed w ≡ false) × IsGuarded w
  Attempted (err e, w) = (claimed w ≡ false) × IsGuarded w

  abbrev pub Unclaimed : World → Type 0
  Unclaimed w = (claimed w ≡ false) × IsGuarded w

  -- Where it is not, everything but its own requests and what needs it may be asked.
  pub ask-Unclaimed :
      (q : Request)
      → is_release q ≡ false
      → is_attempt q ≡ false
      → needs_lock q ≡ false
      → Keeps Unclaimed (ask db q)
  ask-Unclaimed q h k n = Keeps-ask db q (λ w f. (rw (h, k) f.0, ((λ m. cc), f.1)))

  try_acquire-Attempted : (w : World) → Unclaimed w → Attempted (try_acquire db w)
  unfolding try_acquire ◌>>◌
  try_acquire-Attempted w h = ground arith

  -- What the retries leave: the lock claimed if they return, and not if they fail.
  abbrev pub Acquired : Result (Unit {0}) × World → Type 0
  Acquired (ok u, w) = Claimed w
  Acquired (err e, w) = Unclaimed w

  -- Behind one attempt: done, one more round at once, or one more round behind a sleep.
  after_attempt : ℕ → M (Unit {0}) → Bool → M (Unit {0})
  after_attempt left again acquired =
      if acquired then pure tt else if left == 0 then again else (ask db sleep >> again)

  after_attempt-Acquired :
      (left : ℕ) (again : M (Unit {0}))
      → ((w : World) → Unclaimed w → Acquired (again w))
      → (r : Result Bool × World) → Attempted r
      → Acquired (continue r.0 (after_attempt left again) r.1)
  unfolding after_attempt ◌>>◌
  after_attempt-Acquired left again ih (ok true, w) h = h
  after_attempt-Acquired left again ih (ok false, w) h = elim (Bool-cases (left == 0)) [
    | inl e ↦ rw e (ih w h)
    | inr e ↦ rw e (ih (sleep ∷ w) (h.0, ((λ n. cc), h.1)))
  ]
  after_attempt-Acquired left again ih (err e, w) h = h

  attempts-Acquired : (left : ℕ) (w : World) → Unclaimed w → Acquired (attempts db left w)
  unfolding attempts ◌>>◌ after_attempt
  attempts-Acquired zero w h = h
  attempts-Acquired (suc left) w h =
      after_attempt-Acquired left (attempts db left) (attempts-Acquired left) (try_acquire db w)
        (try_acquire-Attempted w h)

  -- From a trace where the lock is not claimed, `acquire` returns only behind an attempt that was won, and
  -- fails only where none was.
  pub acquire-Acquired : (w : World) → Unclaimed w → Acquired (acquire db w)
  unfolding acquire
  acquire-Acquired w h = attempts-Acquired max_retries w h

  -- Behind the request to release it, the lock is not claimed.
  pub release_lock-Unclaimed : (w : World) → Claimed w → Unclaimed (release_lock db w).1
  unfolding release_lock ◌>>=◌
  release_lock-Unclaimed w h = ground arith
