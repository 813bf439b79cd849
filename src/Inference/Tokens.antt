-- ===== src/Inference/Tokens.antt =====
-- The tokens of a written query are read back.
use mathlib.Core.List.{append_assoc, append-nil}
use Prim.Native.Nat.{◌-◌}
use surql_parser.Prelude.{
  ℕ, zero, suc, ◌≤◌, ◌<◌, false, true, some, List, [], ◌∷◌, ◌++◌, ◌≡◌, refl, sym, ap, ◌∙◌, arith,
  length, length-append, is_empty, all, Text,
}
use surql_parser.Params.Segments.{single_body, double_body}
use surql_parser.Inference.{Arm, arm, pending, resume, tokens_from, tokenize_for_inference}
use surql_parser.Inference.Written.{
  Piece, word, sign, sign_equal, single, double, line, block, space, text_of, tokens_of, is_plain,
  Cuts, IsWellFormed, Ready, arm_plain, char_of_plain, arm_sign, arm_sign_equal, arm_space,
  arm_single, arm_double, arm_line, arm_block,
}

module _ (fuel : ℕ) (c : ℕ) (cs current rest : Text) {ts : List Text} where
  tokens_gap :
      arm c cs ≡ Arm.gap rest
      → tokens_from fuel rest [] ≡ some ts
      → tokens_from (suc fuel) (c ∷ cs) current ≡ some (pending current ++ ts)
  unfolding tokens_from resume
  tokens_gap e h = rw (e, h) refl

  tokens_operator :
      (t : Text)
      → arm c cs ≡ Arm.operator t rest
      → tokens_from fuel rest [] ≡ some ts
      → tokens_from (suc fuel) (c ∷ cs) current ≡ some (pending current ++ t ∷ ts)
  unfolding tokens_from resume
  tokens_operator t e h = rw (e, h) (ap some (append_assoc (pending current) (t ∷ []) ts))

tokens_word :
    (w rest : Text) (fuel : ℕ) (current : Text)
    → all is_plain w ≡ true
    → length w ≤ fuel
    → tokens_from fuel (w ++ rest) current ≡ tokens_from (fuel - length w) rest (current ++ w)
unfolding tokens_from resume
tokens_word [] rest fuel current h k =
    let e : fuel - 0 ≡ fuel = omega arith in rw (e, append-nil {A = ℕ}) refl
tokens_word (c ∷ w) rest zero current h k = absurd (omega arith)
tokens_word (c ∷ w) rest (suc fuel) current h k =
    let plain : is_plain c ≡ true = ground arith in
    let e : suc fuel - suc (length w) ≡ fuel - length w = omega arith in
    rw (arm_plain c (w ++ rest) plain, char_of_plain c plain, e)
      (tokens_word w rest fuel (current ++ c ∷ []) (ground arith) (omega arith)
        ∙ ap (tokens_from (fuel - length w) rest) (append_assoc current (c ∷ []) w))

-- No token is pending before a word.
no_pending :
    (current w rest : Text)
    → is_empty w ≡ false
    → all is_plain w ≡ true
    → Ready current (w ++ rest)
    → current ≡ []
no_pending [] w rest h k r = refl
no_pending (d ∷ current) [] rest h k r = absurd cc
no_pending (d ∷ current) (c ∷ w) rest h k r = absurd (cc (arm_plain c (w ++ rest) (ground arith)))

Ready-word : (w rest : Text) → is_empty w ≡ false → Cuts rest → Ready w rest
Ready-word [] rest h k = absurd cc
Ready-word (c ∷ w) rest h k = k

pending-word : (w : Text) → is_empty w ≡ false → pending w ≡ w ∷ []
pending-word w h = rw h refl

tokens_from-text_of :
    (ps : List Piece) (fuel : ℕ) (current : Text)
    → length (text_of ps) < fuel
    → IsWellFormed ps
    → Ready current (text_of ps)
    → tokens_from fuel (text_of ps) current ≡ some (pending current ++ tokens_of ps)
tokens_from-text_of ps zero current h w r = absurd (omega arith)
tokens_from-text_of [] (suc fuel) current h w r =
    unfold tokens_from in ap some (sym (append-nil (pending current)))
tokens_from-text_of (word x ∷ ps) (suc fuel) current h ((full, plain, cuts), w) r =
    let none_pending = no_pending current x (text_of ps) full plain r in
    let size = length-append x (text_of ps) in
    rw none_pending (
      tokens_word x (text_of ps) (suc fuel) [] plain (omega arith)
      ∙ tokens_from-text_of ps (suc fuel - length x) x (omega arith) w
          (Ready-word x (text_of ps) full cuts)
      ∙ ap (λ ts. some (ts ++ tokens_of ps)) (pending-word x full))
tokens_from-text_of (sign c ∷ ps) (suc fuel) current h ((is, next), w) r =
    tokens_operator fuel c (text_of ps) current (text_of ps) (c ∷ [])
      (arm_sign c (text_of ps) is next) (tokens_from-text_of ps fuel [] (omega arith) w tt)
tokens_from-text_of (sign_equal c ∷ ps) (suc fuel) current h (is, w) r =
    tokens_operator fuel c (b'=' ∷ text_of ps) current (text_of ps) (c ∷ b'=' ∷ [])
      (arm_sign_equal c (text_of ps) is) (tokens_from-text_of ps fuel [] (omega arith) w tt)
tokens_from-text_of (single body ∷ ps) (suc fuel) current h (fits, w) r =
    tokens_gap fuel b'\'' _ current (text_of ps) (arm_single body (text_of ps) fits) (
      tokens_from-text_of ps fuel []
        (omega (arith, length-append (single_body body) (b'\'' ∷ text_of ps))) w tt)
tokens_from-text_of (double body ∷ ps) (suc fuel) current h (fits, w) r =
    tokens_gap fuel b'"' _ current (text_of ps) (arm_double body (text_of ps)) (
      tokens_from-text_of ps fuel []
        (omega (arith, length-append (double_body body) (b'"' ∷ text_of ps))) w tt)
tokens_from-text_of (line body ∷ ps) (suc zero) current h (fits, w) r = absurd (omega arith)
tokens_from-text_of (line body ∷ ps) (suc (suc fuel)) current h (fits, w) r =
    tokens_gap (suc fuel) b'-' _ current (b'\n' ∷ text_of ps) (arm_line body (text_of ps) fits) (
      tokens_gap fuel b'\n' (text_of ps) [] (text_of ps) (arm_space b'\n' (text_of ps) refl) (
        tokens_from-text_of ps fuel [] (omega (arith, length-append body (b'\n' ∷ text_of ps))) w
          tt))
tokens_from-text_of (block body ∷ ps) (suc fuel) current h (fits, w) r =
    tokens_gap fuel b'/' _ current (text_of ps) (arm_block body (text_of ps) fits) (
      tokens_from-text_of ps fuel [] (omega (arith, length-append body (b'*' ∷ b'/' ∷ text_of ps)))
        w tt)
tokens_from-text_of (space c ∷ ps) (suc fuel) current h (is, w) r =
    tokens_gap fuel c (text_of ps) current (text_of ps) (arm_space c (text_of ps) is)
      (tokens_from-text_of ps fuel [] (omega arith) w tt)

-- A query that is written as well-formed pieces is cut into its words and operators, in order:
-- strings, comments of the forms `--` and `/* */`, white space and separators give no token.
pub tokenize_for_inference-text_of :
    (ps : List Piece) → IsWellFormed ps → tokenize_for_inference (text_of ps) ≡ some (tokens_of ps)
unfolding tokenize_for_inference
tokenize_for_inference-text_of ps w =
    tokens_from-text_of ps (suc (length (text_of ps))) [] (omega arith) w tt
