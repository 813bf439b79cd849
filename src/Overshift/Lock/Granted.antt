-- ===== src/Overshift/Lock/Granted.antt =====
-- When `acquire` comes to the lock, and how often it tries.
use surql_parser.Prelude.{
  ℕ, zero, suc, ◌+◌, ◌≤◌, ◌<◌, true, false, List, [], ◌∷◌, ◌==◌, ◌≡◌, refl, arith, is_empty, leb,
  leb→le, Bool-cases, inl, inr,
}
use surql_parser.Overshift.Types.{Result, lock, ok, err}
use surql_parser.Overshift.Db.{
  World, Row, Database, rows, claim, check_held, sleep, define_lock_table, seed_lock, ◌>>◌,
}
use surql_parser.Overshift.Lock.{codes, is_held, try_acquire, attempts, acquire, max_retries}
use surql_parser.Overshift.Lock.Holding.{is_won, claimed, Unclaimed, Acquired, acquire-Acquired}

-- How many claims of the lock were made.
abbrev pub claims : World → ℕ
claims [] = 0
claims (claim ∷ w) = suc (claims w)
claims (_ ∷ w) = claims w

abbrev asked : World → World
asked w = check_held ∷ seed_lock ∷ define_lock_table ∷ w

module _ (db : Database) where
  -- Checks and claims are answered, with rows or without.
  pub record IsUp : Type 0 where
    pub check_answered : (w : World) → (rs : List Row) × (db w check_held ≡ rows rs)
    pub claim_answered : (w : World) → (rs : List Row) × (db w claim ≡ rows rs)

  -- An attempt has the lock, or its claim was answered without a row.
  data Tried (w : World) : Type 0 where
    won : (w' : World) → try_acquire db w ≡ (ok true, w') → Tried w
    lost :
        is_won (db (asked w) claim) ≡ false
        → try_acquire db w ≡ (ok false, claim ∷ asked w)
        → Tried w

  tried : IsUp → (w : World) → Tried w
  unfolding try_acquire is_held ◌>>◌
  tried up w =
      let (rs, e) = up.check_answered (seed_lock ∷ define_lock_table ∷ w) in
      let (ts, f) = up.claim_answered (asked w) in
      elim (Bool-cases (is_empty rs)) [
        | inr n ↦ won (asked w) (rw (e, n) refl)
        | inl n ↦ elim (Bool-cases (is_empty ts)) [
          | inr m ↦ won (claim ∷ asked w) (rw (e, n, f, m) refl)
          | inl m ↦ lost (rw (f, m) refl) (rw (e, n, f, m) refl)
        ]
      ]

  module _ (up : IsUp) (n : ℕ)
      (granted : (w : World) → n ≤ claims w → is_won (db w claim) ≡ true) where
    after_won :
        (left : ℕ) (w : World) (w' : World)
        → try_acquire db w ≡ (ok true, w')
        → (attempts db (suc left) w).0 ≡ ok tt
    unfolding attempts ◌>>◌
    after_won left w w' e = rw e refl

    after_lost :
        (left : ℕ) (w w' : World)
        → try_acquire db w ≡ (ok false, w')
        → ((v : World) → claims v ≡ claims w' → (attempts db left v).0 ≡ ok tt)
        → (attempts db (suc left) w).0 ≡ ok tt
    unfolding attempts ◌>>◌
    after_lost left w w' e ih = elim (Bool-cases (left == 0)) [
      | inl z ↦ rw (attempts, e, z) (ih w' refl)
      | inr z ↦ rw (attempts, e, z) (ih (sleep ∷ w') refl)
    ]

    attempts_win :
        (left : ℕ) (w : World) → claims w ≤ n → n < claims w + left → (attempts db left w).0 ≡ ok tt
    attempts_win zero w k h = absurd (omega (arith, k, h))
    attempts_win (suc left) w k h = elim (tried up w) [
      | won w' e ↦ after_won left w w' e
      | lost l e ↦ elim (Bool-cases (leb n (claims w))) [
        | inl t ↦ cc (granted (asked w) (leb→le n (claims w) t), l)
        | inr t ↦
            let more : claims w < n = ground arith in
            after_lost left w (claim ∷ asked w) e
              (λ v q. attempts_win left v (omega (arith, q, more)) (omega (arith, q, h)))
      ]
    ]

claimed_where_ok :
    (db : Database) (o : Result (Unit {0}) × World)
    → Acquired db o
    → o.0 ≡ ok tt
    → claimed db o.1 ≡ true
claimed_where_ok db (ok u, w) h e = h.unreleased
claimed_where_ok db (err x, w) h e = absurd cc

-- From a trace in which no won attempt stands without a later request to release the lock: where the
-- database answers every check and every claim with rows, some or none, and wins each claim that is
-- made behind n further claims or more, with n less than 30, `acquire` returns without an error, and
-- behind an attempt that was won and no request to release the lock since.
pub acquire_granted :
    (db : Database) (w : World) (n : ℕ)
    → Unclaimed db w
    → IsUp db
    → n < 30
    → ((v : World) → claims w + n ≤ claims v → is_won (db v claim) ≡ true)
    → ((acquire db w).0 ≡ ok tt) × (claimed db (acquire db w).1 ≡ true)
unfolding acquire
acquire_granted db w n free up small granted =
    let returns : (acquire db w).0 ≡ ok tt =
      attempts_win db up (claims w + n) granted max_retries w (omega arith)
        (omega (arith, small)) in
    (returns, claimed_where_ok db (acquire db w) (acquire-Acquired db w free) returns)

module _ (db : Database) where
  -- Another instance has the lock all the time.
  pub record IsTaken : Type 0 where
    pub check_refused : (w : World) → db w check_held ≡ rows []
    pub claim_refused : (w : World) → db w claim ≡ rows []

  module _ (taken_by_other : IsTaken) where
    refused : (w : World) → try_acquire db w ≡ (ok false, claim ∷ asked w)
    unfolding try_acquire is_held ◌>>◌
    refused w =
        rw
          (
            taken_by_other.check_refused (seed_lock ∷ define_lock_table ∷ w),
            taken_by_other.claim_refused (asked w),
          )
          refl

    -- All attempts are made, each with one claim, and then it fails.
    attempts-IsExhausted :
        (left : ℕ) (w : World)
        → ((attempts db left w).0 ≡ err (lock (codes "failed to acquire lock")))
          × (claims (attempts db left w).1 ≡ claims w + left)
    unfolding attempts ◌>>◌
    attempts-IsExhausted zero w = (refl, omega arith)
    attempts-IsExhausted (suc left) w = elim (Bool-cases (left == 0)) [
      | inl z ↦
          let (e, n) = attempts-IsExhausted left (claim ∷ asked w) in
          rw (attempts, refused w, z) (e, omega (arith, n))
      | inr z ↦
          let (e, n) = attempts-IsExhausted left (sleep ∷ claim ∷ asked w) in
          rw (attempts, refused w, z) (e, omega (arith, n))
    ]

-- Where the database answers every check and every claim without a row, `acquire` fails with its error for a lock
-- that was not acquired, behind exactly 30 claims.
pub acquire_exhausted :
    (db : Database) (w : World)
    → IsTaken db
    → ((acquire db w).0 ≡ err (lock (codes "failed to acquire lock")))
      × (claims (acquire db w).1 ≡ claims w + 30)
unfolding acquire
acquire_exhausted db w t = attempts-IsExhausted db t max_retries w
