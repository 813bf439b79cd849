-- ===== src/Overshift/Db/Keeps.antt =====
-- Invariants of actions over the requests made so far, one rule for each way to build an action.
use surql_parser.Prelude.{Bool, true, false, if◌then◌else◌, ◌∷◌}
use surql_parser.Overshift.Types.{Error, Result, ok, err}
use surql_parser.Overshift.Db.{
  World, Request, Reply, Database, M, query_error, statement_error, rows, pure, raise, ask, sent,
  checked, taken, ◌>>=◌, ◌>>◌, continue,
}

-- The action keeps `P`, whether it returns or fails.
pub record Keeps {A : Type 0} (P : World → Type 0) (m : M A) : Type 0 where
  pub at : (w : World) → P w → P (m w).1

module _ {A : Type 0} {P : World → Type 0} where
  pub Keeps-pure : (a : A) → Keeps P (pure a)
  unfolding pure
  Keeps-pure a = record { at = λ w h. h }

  pub Keeps-raise : (e : Error) → Keeps P (raise {A = A} e)
  unfolding raise
  Keeps-raise e = record { at = λ w h. h }

  pub Keeps-if : (b : Bool) (m n : M A) → Keeps P m → Keeps P n → Keeps P (if b then m else n)
  Keeps-if true m n km kn = km
  Keeps-if false m n km kn = kn

module _ {P : World → Type 0} where
  pub Keeps-ask :
      (db : Database) (q : Request) → ((w : World) → P w → P (q ∷ w)) → Keeps P (ask db q)
  unfolding ask
  Keeps-ask db q h = record { at = h }

  pub Keeps-sent : (e : Error) (r : Reply) → Keeps P (sent e r)
  unfolding sent
  Keeps-sent e query_error = record { at = λ w h. h }
  Keeps-sent e _ = record { at = λ w h. h }

  pub Keeps-checked : (e : Error) (r : Reply) → Keeps P (checked e r)
  unfolding checked
  Keeps-checked e query_error = record { at = λ w h. h }
  Keeps-checked e statement_error = record { at = λ w h. h }
  Keeps-checked e _ = record { at = λ w h. h }

  pub Keeps-taken : (e : Error) (r : Reply) → Keeps P (taken e r)
  unfolding taken
  Keeps-taken e (rows rs) = record { at = λ w h. h }
  Keeps-taken e _ = record { at = λ w h. h }

module _ {A B : Type 0} {P : World → Type 0} where
  pub continue_keeps :
      (r : Result A) (f : A → M B) (w : World)
      → ((a : A) → Keeps P (f a))
      → P w
      → P (continue r f w).1
  continue_keeps (ok a) f w kf h = (kf a).at w h
  continue_keeps (err e) f w kf h = h

  pub Keeps-bind :
      (m : M A) (f : A → M B) → Keeps P m → ((a : A) → Keeps P (f a)) → Keeps P (m >>= f)
  unfolding ◌>>=◌
  Keeps-bind m f km kf = record {
    at = λ w h. let (r, w') = m w in continue_keeps r f w' kf (km.at w h);
  }

  pub Keeps-then : (m : M A) (k : M B) → Keeps P m → Keeps P k → Keeps P (m >> k)
  unfolding ◌>>◌
  Keeps-then m k km kk = Keeps-bind m (λ _. k) km (λ _. kk)

pub ruleset keeps_rules =
    (Keeps-pure, Keeps-raise, Keeps-sent, Keeps-checked, Keeps-taken, Keeps-bind, Keeps-then)
