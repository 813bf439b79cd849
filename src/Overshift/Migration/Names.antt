-- ===== src/Overshift/Migration/Names.antt =====
-- The names of migration files, printed and read back.
use Prim.Native.Nat.{◌*◌, ◌-◌, ◌^◌, ◌/◌, ◌%◌}
use surql_parser.Prelude.{
  sym, ◌∙◌, ℕ, zero, suc, ◌+◌, ◌<◌, true, false, some, [], ◌∷◌, ◌++◌, ◌==◌, ltb, Text,
  is_ascii_digit, All, ◌≡◌, refl, sym, ap, ◌∙◌, arith, Bool-cases, inl, inr,
}
use mathlib.Core.List.{append_assoc, append-nil}
use surql_parser.Overshift.Types.{ok}
use surql_parser.Overshift.Migration.{
  parse_digits, parse_u32, split_once, parse_migration_filename, decimal, pad, show_version, label,
  checked_version, split_version,
}

-- Behind more digits the reading goes on from what was read.
parse_digits-step :
    (n c : ℕ) (rest : Text)
    → is_ascii_digit c ≡ true
    → n * 10 + (c - b'0') < 2 ^ 32
    → parse_digits n (c ∷ rest) ≡ parse_digits (n * 10 + (c - b'0')) rest
unfolding parse_digits
parse_digits-step n c rest h k = ground arith

digit-Is : (d : ℕ) → d < 10 → is_ascii_digit (b'0' + d) ≡ true
unfolding is_ascii_digit
digit-Is d h = ground arith

parse_digits-decimal :
    (fuel n : ℕ) (rest : Text)
    → n < 10 ^ fuel
    → n < 2 ^ 32
    → parse_digits 0 (decimal fuel n ++ rest) ≡ parse_digits n rest
unfolding decimal
parse_digits-decimal zero n rest h k = let e : n ≡ 0 = omega arith in rw e refl
parse_digits-decimal (suc fuel) n rest h k =
    let e : n / 10 * 10 + ((b'0' + n % 10) - b'0') ≡ n = omega arith in
    let e' : 0 * 10 + ((b'0' + n) - b'0') ≡ n = omega arith in
    elim (Bool-cases (ltb n 10)) [
      | inl t ↦ rw t (
          parse_digits-step 0 (b'0' + n) rest (digit-Is n (ground arith)) (omega arith)
          ∙ ap (λ m. parse_digits m rest) e')
      | inr t ↦
          rw (t, append_assoc (decimal fuel (n / 10)) ((b'0' + n % 10) ∷ []) rest)
            (parse_digits-decimal fuel (n / 10) ((b'0' + n % 10) ∷ rest) (omega arith) (omega arith)
              ∙ parse_digits-step (n / 10) (b'0' + n % 10) rest (digit-Is (n % 10) (omega arith))
                  (omega arith)
              ∙ ap (λ m. parse_digits m rest) e)
    ]

abbrev Digits : Text → Type 0
Digits t = All (λ c. is_ascii_digit c ≡ true) t

decimal-Digits : (fuel n : ℕ) (rest : Text) → Digits rest → Digits (decimal fuel n ++ rest)
unfolding decimal
decimal-Digits zero n rest h = h
decimal-Digits (suc fuel) n rest h = elim (Bool-cases (ltb n 10)) [
  | inl t ↦ rw t (digit-Is n (ground arith), h)
  | inr t ↦
      rw (t, append_assoc (decimal fuel (n / 10)) ((b'0' + n % 10) ∷ []) rest)
        (decimal-Digits fuel (n / 10) ((b'0' + n % 10) ∷ rest) (digit-Is (n % 10) (omega arith), h))
]

pad-Digits : (k : ℕ) (t : Text) → Digits t → Digits (pad k t)
unfolding pad
pad-Digits zero t h = h
pad-Digits (suc k) t h = (digit-Is 0 (omega arith), pad-Digits k t h)

parse_digits-pad : (k : ℕ) (t : Text) → parse_digits 0 (pad k t) ≡ parse_digits 0 t
unfolding pad
parse_digits-pad zero t = refl
parse_digits-pad (suc k) t =
    parse_digits-step 0 b'0' (pad k t) (digit-Is 0 (omega arith)) (omega arith)
    ∙ parse_digits-pad k t

-- The empty text apart, digits are read as such.
parse_u32-Digits :
    (t : Text) (v : ℕ) → Digits t → parse_digits 0 t ≡ some (suc v) → parse_u32 t ≡ some (suc v)
unfolding parse_u32 parse_digits is_ascii_digit
parse_u32-Digits [] v h k = ground arith
parse_u32-Digits (c ∷ rest) v h k = ground arith

split_once-Digits : (t name : Text) → Digits t → split_once (t ++ b'_' ∷ name) ≡ some (t, name)
unfolding split_once is_ascii_digit
split_once-Digits [] name h = refl
split_once-Digits (c ∷ t) name h =
    let e : (c == b'_') ≡ false = ground arith in rw (e, split_once-Digits t name h.1)

show_version-Digits : (v : ℕ) → Digits (show_version v)
unfolding show_version
show_version-Digits v =
    pad-Digits _ (decimal 10 v) (rw (sym (append-nil (decimal 10 v))) (decimal-Digits 10 v [] tt))

parse_digits-show_version : (v : ℕ) → v < 2 ^ 32 → parse_digits 0 (show_version v) ≡ some v
unfolding show_version parse_digits
parse_digits-show_version v h =
    parse_digits-pad _ (decimal 10 v)
    ∙ ap (parse_digits 0) (sym (append-nil (decimal 10 v)))
    ∙ parse_digits-decimal 10 v [] (omega arith) h

-- A version from 1 up to the largest `u32` and any name, printed as `v{:03}_{name}`, are read back by
-- `parse_migration_filename`.
pub parse_migration_filename-label :
    (v : ℕ) (name : Text)
    → suc v < 2 ^ 32
    → parse_migration_filename (label (suc v) name) ≡ ok (suc v, name)
unfolding label parse_migration_filename split_version checked_version
parse_migration_filename-label v name h = rw (
  split_once-Digits (show_version (suc v)) name (show_version-Digits (suc v)),
  parse_u32-Digits (show_version (suc v)) v (show_version-Digits (suc v))
      (parse_digits-show_version (suc v) h),
)
