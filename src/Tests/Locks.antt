-- ===== src/Tests/Locks.antt =====
-- The lock against a database that grants the third claim.
use surql_parser.Prelude.{
  true, codes, ◌+◌, none, List, [], ◌∷◌, ◌≡◌, refl, arith, leb, if◌then◌else◌,
}
use surql_parser.Overshift.Types.{lock, ok, err}
use surql_parser.Overshift.Db.{World, Row, Database, rows, claim, ◌>>◌}
use surql_parser.Overshift.Lock.{acquire}
use surql_parser.Overshift.Lock.Granted.{claims, IsUp, IsTaken, acquire_granted, acquire_exhausted}
use surql_parser.Overshift.Lock.Holding.{claimed}

abbrev blank_row : Row
blank_row = record {
  version = none;
  name = none;
  applied_at = none;
  checksum = none;
  instance_id = none;
}

abbrev claim_rows : World → List Row
claim_rows older = if leb 2 (claims older) then blank_row ∷ [] else []

abbrev busy : Database
busy older claim = rows (claim_rows older)
busy older _ = rows []

busy-IsUp : IsUp busy
busy-IsUp = record { check_answered = λ w. ([], refl); claim_answered = λ w. (claim_rows w, refl) }

claims_made : claims (acquire busy []).1 ≡ 3
unfolding acquire ◌>>◌
claims_made = refl

acquire_granted_example : ((acquire busy []).0 ≡ ok tt) × (claimed busy (acquire busy []).1 ≡ true)
acquire_granted_example =
    acquire_granted busy [] 2 (refl, tt) busy-IsUp (omega arith) (λ v h. ground arith)

abbrev never : Database
never older _ = rows []

never-IsTaken : IsTaken never
never-IsTaken = record { check_refused = λ w. refl; claim_refused = λ w. refl }

acquire_exhausted_example :
    ((acquire never []).0 ≡ err (lock (codes "failed to acquire lock")))
    × (claims (acquire never []).1 ≡ 0 + 30)
acquire_exhausted_example = acquire_exhausted never [] never-IsTaken
