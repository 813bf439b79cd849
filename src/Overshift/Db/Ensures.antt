-- ===== src/Overshift/Db/Ensures.antt =====
-- What an action ensures where it returns, one rule for each way to build an action.
use surql_parser.Prelude.{Bool, true, false, if◌then◌else◌, ◌≡◌, refl}
use surql_parser.Overshift.Types.{Error, Result, ok, err}
use surql_parser.Overshift.Db.{World, M, pure, raise, ◌>>=◌, ◌>>◌, continue}
use surql_parser.Overshift.Db.Keeps.{Keeps}

module _ {A : Type 0} where
  -- Nothing is asked of a failure.
  abbrev pub OnReturn : (A → World → Type 0) → Result A × World → Type 0
  OnReturn Q (ok a, w) = Q a w
  OnReturn Q (err e, w) = Unit

  -- Begun where `P` holds, the action returns only where `Q` holds of what it returns.
  pub record Ensures (P : World → Type 0) (Q : A → World → Type 0) (m : M A) : Type 0 where
    pub at : (w : World) → P w → OnReturn Q (m w)

  kept-OnReturn :
      (P : World → Type 0) (r : Result A) (w : World) → P w → OnReturn (λ a v. P v) (r, w)
  kept-OnReturn P (ok a) w h = h
  kept-OnReturn P (err e) w h = tt

  pub Ensures-Keeps : (P : World → Type 0) (m : M A) → Keeps P m → Ensures P (λ a w. P w) m
  Ensures-Keeps P m k = record { at = λ w h. let (r, w') = m w in kept-OnReturn P r w' (k.at w h) }

  pub Ensures-pure :
      (P : World → Type 0) (Q : A → World → Type 0) (a : A)
      → ((w : World) → P w → Q a w)
      → Ensures P Q (pure a)
  unfolding pure
  Ensures-pure P Q a h = record { at = h }

  pub Ensures-raise :
      (P : World → Type 0) (Q : A → World → Type 0) (e : Error) → Ensures P Q (raise e)
  unfolding raise
  Ensures-raise P Q e = record { at = λ w h. tt }

  pub Ensures-if :
      (P : World → Type 0) (Q : A → World → Type 0) (b : Bool) (m n : M A)
      → (b ≡ true → Ensures P Q m)
      → (b ≡ false → Ensures P Q n)
      → Ensures P Q (if b then m else n)
  Ensures-if P Q true m n h k = h refl
  Ensures-if P Q false m n h k = k refl

module _ {A B : Type 0} (P : World → Type 0) (R : A → World → Type 0) (Q : B → World → Type 0) where
  continue-Ensures :
      (r : Result A) (f : A → M B) (w : World)
      → ((a : A) → Ensures (R a) Q (f a))
      → OnReturn R (r, w)
      → OnReturn Q (continue r f w)
  continue-Ensures (ok a) f w h k = (h a).at w k
  continue-Ensures (err e) f w h k = tt

  pub Ensures-bind :
      (m : M A) (f : A → M B)
      → Ensures P R m
      → ((a : A) → Ensures (R a) Q (f a))
      → Ensures P Q (m >>= f)
  unfolding ◌>>=◌
  Ensures-bind m f km kf = record {
    at = λ w h. let (r, w') = m w in continue-Ensures r f w' kf (km.at w h);
  }

-- An action that keeps what holds, before another.
pub Ensures-then :
    {A B : Type 0} (P : World → Type 0) (Q : B → World → Type 0) (m : M A) (k : M B)
    → Keeps P m
    → Ensures P Q k
    → Ensures P Q (m >> k)
unfolding ◌>>◌
Ensures-then P Q m k km kk =
    Ensures-bind P (λ a w. P w) Q m (λ a. k) (Ensures-Keeps P m km) (λ a. kk)

pub Ensures-from :
    {A B : Type 0} (P : World → Type 0) (Q : B → World → Type 0) (m : M A) (f : A → M B)
    → Keeps P m
    → ((a : A) → Ensures P Q (f a))
    → Ensures P Q (m >>= f)
Ensures-from P Q m f km kf = Ensures-bind P (λ a w. P w) Q m f (Ensures-Keeps P m km) kf

pub Ensures-seq :
    {A B : Type 0} (P R : World → Type 0) (Q : B → World → Type 0) (m : M A) (k : M B)
    → Ensures P (λ a w. R w) m
    → Ensures R Q k
    → Ensures P Q (m >> k)
unfolding ◌>>◌
Ensures-seq P R Q m k km kk = Ensures-bind P (λ a w. R w) Q m (λ a. k) km (λ a. kk)
