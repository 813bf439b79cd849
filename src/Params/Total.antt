-- ===== src/Params/Total.antt =====
-- The scan ends within its fuel, and what it returns is a sorted set.
use surql_parser.Prelude.{
  ℕ, zero, suc, ◌≤◌, ◌<◌, some, List, [], ◌∷◌, ◌≡◌, refl, arith, length, Text,
}
use surql_parser.Prelude.SortedSet.{insert-IsSorted, IsSorted}
use surql_parser.Params.{
  skip_single, skip_double, skip_backtick, skip_line, skip_block, drop_word, advance, collect_param,
  scan, scan_params, tail, take_word,
}

skip_single-le : (cs : Text) → length (skip_single cs) ≤ length cs
unfolding skip_single
skip_single-le [] = omega arith
skip_single-le (c ∷ []) = omega arith
skip_single-le (c ∷ d ∷ cs) = ground (arith, skip_single-le cs, skip_single-le (d ∷ cs))

skip_double-le : (cs : Text) → length (skip_double cs) ≤ length cs
unfolding skip_double
skip_double-le [] = omega arith
skip_double-le (c ∷ []) = omega arith
skip_double-le (c ∷ d ∷ cs) = ground (arith, skip_double-le cs, skip_double-le (d ∷ cs))

skip_backtick-le : (cs : Text) → length (skip_backtick cs) ≤ length cs
unfolding skip_backtick
skip_backtick-le [] = omega arith
skip_backtick-le (c ∷ cs) = ground (arith, skip_backtick-le cs)

skip_line-le : (cs : Text) → length (skip_line cs) ≤ length cs
unfolding skip_line
skip_line-le [] = omega arith
skip_line-le (c ∷ cs) = ground (arith, skip_line-le cs)

skip_block-le : (k : ℕ) (cs : Text) → length (skip_block k cs) ≤ length cs
unfolding skip_block
skip_block-le k [] = omega arith
skip_block-le k (c ∷ []) = omega arith
skip_block-le zero (c ∷ d ∷ cs) = omega arith
skip_block-le (suc k) (c ∷ d ∷ cs) =
    ground
      (arith, skip_block-le k cs, skip_block-le (suc (suc k)) cs, skip_block-le (suc k) (d ∷ cs))

drop_word-le : (cs : Text) → length (drop_word cs) ≤ length cs
unfolding drop_word
drop_word-le [] = omega arith
drop_word-le (c ∷ cs) = ground (arith, drop_word-le cs)

tail-le : (cs : Text) → length (tail cs) ≤ length cs
tail-le [] = omega arith
tail-le (c ∷ cs) = omega arith

pub advance-le : (c : ℕ) (cs : Text) → length (advance c cs) ≤ length cs
unfolding advance
advance-le c cs = ground (
  arith,
  tail-le cs,
  skip_single-le cs,
  skip_double-le cs,
  skip_backtick-le cs,
  skip_line-le (tail cs),
  skip_block-le 1 (tail cs),
  drop_word-le cs,
)

collect_param-IsSorted :
    (c : ℕ) (cs : Text) (params : List Text)
    → IsSorted params
    → IsSorted (collect_param c cs params)
unfolding collect_param
collect_param-IsSorted c cs params h = ground (arith, insert-IsSorted (take_word cs) params h)

scan_total :
    (fuel : ℕ) (bytes : Text) (params : List Text)
    → length bytes < fuel
    → IsSorted params
    → (found : List Text) × (scan fuel bytes params ≡ some found) × IsSorted found
unfolding scan
scan_total zero bytes params h s = absurd (omega arith)
scan_total (suc fuel) [] params h s = (params, refl, s)
scan_total (suc fuel) (c ∷ cs) params h s =
    scan_total fuel (advance c cs) (collect_param c cs params) (omega (arith, advance-le c cs))
      (collect_param-IsSorted c cs params s)

-- On every input the scan ends, and returns its names in strictly increasing order, so without
-- repetition.
pub scan_params_total :
    (input : Text) → (found : List Text) × (scan_params input ≡ some found) × IsSorted found
unfolding scan_params
scan_params_total input = scan_total (suc (length input)) input [] (omega arith) tt
