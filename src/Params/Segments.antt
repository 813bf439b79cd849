-- ===== src/Params/Segments.antt =====
-- The scan against a grammar: a text that is written as a sequence of segments, each a string, a
-- quoted identifier, a comment, a parameter or another byte.
use surql_parser.Prelude.{
  ℕ, zero, suc, ◌<◌, Bool, false, true, not, ◌&&◌, ◌||◌, some, List, [], ◌∷◌, ◌++◌, ◌≡◌, refl, ◌∙◌,
  arith, length, length-append, is_empty, all, ◌==◌, if◌then◌else◌, Text,
}
use surql_parser.Prelude.SortedSet.{insert}
use surql_parser.Params.{
  skip_single, skip_double, skip_backtick, skip_line, skip_block, drop_word, advance, collect_param,
  scan, scan_params, is_word, take_word, starts_with_byte,
}

pub data Segment : Type 0 where
  single : Text → Segment
  double : Text → Segment
  backtick : Text → Segment
  line : Text → Segment
  block : Text → Segment
  param : Text → Segment
  other : ℕ → Segment

-- A single-quoted string doubles its quotes.
abbrev pub single_body : Text → Text
single_body [] = []
single_body (c ∷ cs) = let rest = single_body cs in if c == b'\'' then c ∷ c ∷ rest else c ∷ rest

-- A double-quoted string puts a backslash before its quotes and backslashes.
abbrev pub double_body : Text → Text
double_body [] = []
double_body (c ∷ cs) =
    let rest = double_body cs in if c == b'"' || c == b'\\' then b'\\' ∷ c ∷ rest else c ∷ rest

-- A segment before the text `rest`; a line comment ends with its newline.
abbrev pub put : Segment → Text → Text
put (single body) rest = b'\'' ∷ (single_body body ++ b'\'' ∷ rest)
put (double body) rest = b'"' ∷ (double_body body ++ b'"' ∷ rest)
put (backtick body) rest = b'`' ∷ (body ++ b'`' ∷ rest)
put (line body) rest = b'-' ∷ b'-' ∷ (body ++ b'\n' ∷ rest)
put (block body) rest = b'/' ∷ b'*' ∷ (body ++ b'*' ∷ b'/' ∷ rest)
put (param name) rest = b'$' ∷ (name ++ rest)
put (other c) rest = c ∷ rest

abbrev pub text_of : List Segment → Text
text_of [] = []
text_of (s ∷ ss) = put s (text_of ss)

abbrev starts_with_word : Text → Bool
starts_with_word [] = false
starts_with_word (c ∷ cs) = is_word c

-- No byte of the text is `b`.
abbrev pub without : ℕ → Text → Bool
without b = all (λ c. not (c == b))

-- The segment is what the scan reads at this place, with `rest` behind it.
abbrev pub FitsBefore : Segment → Text → Type 0
FitsBefore (single body) rest = starts_with_byte b'\'' rest ≡ false
FitsBefore (double body) rest = Unit
FitsBefore (backtick body) rest = without b'`' body ≡ true
FitsBefore (line body) rest = without b'\n' body ≡ true
FitsBefore (block body) rest = without b'/' body ≡ true
FitsBefore (param name) rest = (all is_word name ≡ true) × (starts_with_word rest ≡ false)
FitsBefore (other c) rest =
    ((c == b'\'') ≡ false)
    × ((c == b'"') ≡ false)
    × ((c == b'`') ≡ false)
    × ((c == b'$') ≡ false)
    × ((c == b'-' && starts_with_byte b'-' rest) ≡ false)
    × ((c == b'/' && starts_with_byte b'*' rest) ≡ false)

abbrev pub IsWellFormed : List Segment → Type 0
IsWellFormed [] = Unit
IsWellFormed (s ∷ ss) = FitsBefore s (text_of ss) × IsWellFormed ss

-- The set after the segments: each parameter with a name is inserted, in the order of the text.
abbrev pub params_of : List Segment → List Text → List Text
params_of [] params = params
params_of (param name ∷ ss) params =
    params_of ss (if is_empty name then params else insert name params)
params_of (s ∷ ss) params = params_of ss params

pub skip_single_body :
    (body rest : Text)
    → starts_with_byte b'\'' rest ≡ false
    → skip_single (single_body body ++ b'\'' ∷ rest) ≡ rest
unfolding skip_single
skip_single_body [] [] h = refl
skip_single_body [] (c ∷ rest) h = ground arith
skip_single_body (c ∷ []) rest h = ground (arith, skip_single_body [] rest h)
skip_single_body (c ∷ d ∷ body) rest h = ground (arith, skip_single_body (d ∷ body) rest h)

pub skip_double_body : (body rest : Text) → skip_double (double_body body ++ b'"' ∷ rest) ≡ rest
unfolding skip_double
skip_double_body [] [] = refl
skip_double_body [] (c ∷ rest) = refl
skip_double_body (c ∷ []) rest = ground (arith, skip_double_body [] rest)
skip_double_body (c ∷ d ∷ body) rest = ground (arith, skip_double_body (d ∷ body) rest)

skip_backtick_body :
    (body rest : Text) → without b'`' body ≡ true → skip_backtick (body ++ b'`' ∷ rest) ≡ rest
unfolding skip_backtick
skip_backtick_body [] rest h = refl
skip_backtick_body (c ∷ body) rest h = ground (arith, skip_backtick_body body rest)

pub skip_line_body :
    (body rest : Text) → without b'\n' body ≡ true → skip_line (body ++ b'\n' ∷ rest) ≡ b'\n' ∷ rest
unfolding skip_line
skip_line_body [] rest h = refl
skip_line_body (c ∷ body) rest h = ground (arith, skip_line_body body rest)

pub skip_block_body :
    (body rest : Text) → without b'/' body ≡ true → skip_block 1 (body ++ b'*' ∷ b'/' ∷ rest) ≡ rest
unfolding skip_block
skip_block_body [] [] h = refl
skip_block_body [] (c ∷ []) h = refl
skip_block_body [] (c ∷ d ∷ rest) h = refl
skip_block_body (c ∷ []) rest h = ground (arith, skip_block_body [] rest)
skip_block_body (c ∷ d ∷ body) rest h = ground (arith, skip_block_body (d ∷ body) rest)

take_word_param :
    (name rest : Text)
    → all is_word name ≡ true
    → starts_with_word rest ≡ false
    → take_word (name ++ rest) ≡ name
unfolding take_word
take_word_param [] [] h k = refl
take_word_param [] (c ∷ rest) h k = ground arith
take_word_param (c ∷ name) rest h k = ground (arith, take_word_param name rest)

drop_word_param :
    (name rest : Text)
    → all is_word name ≡ true
    → starts_with_word rest ≡ false
    → drop_word (name ++ rest) ≡ rest
unfolding drop_word
drop_word_param [] [] h k = refl
drop_word_param [] (c ∷ rest) h k = ground arith
drop_word_param (c ∷ name) rest h k = ground (arith, drop_word_param name rest)

module _ (fuel : ℕ) (rest : Text) (params : List Text) where
  scan_single :
      (body : Text)
      → FitsBefore (single body) rest
      → scan (suc fuel) (put (single body) rest) params ≡ scan fuel rest params
  unfolding scan advance collect_param
  scan_single body h = rw (skip_single_body body rest h)

  scan_double :
      (body : Text) → scan (suc fuel) (put (double body) rest) params ≡ scan fuel rest params
  unfolding scan advance collect_param
  scan_double body = rw (skip_double_body body rest)

  scan_backtick :
      (body : Text)
      → FitsBefore (backtick body) rest
      → scan (suc fuel) (put (backtick body) rest) params ≡ scan fuel rest params
  unfolding scan advance collect_param
  scan_backtick body h = rw (skip_backtick_body body rest h)

  scan_block :
      (body : Text)
      → FitsBefore (block body) rest
      → scan (suc fuel) (put (block body) rest) params ≡ scan fuel rest params
  unfolding scan advance collect_param
  scan_block body h = rw (skip_block_body body rest h)

  -- The newline takes a round of its own.
  scan_line :
      (body : Text)
      → FitsBefore (line body) rest
      → scan (suc (suc fuel)) (put (line body) rest) params ≡ scan fuel rest params
  unfolding scan advance collect_param
  scan_line body h = rw (skip_line_body body rest h, scan)

  scan_other :
      (c : ℕ)
      → FitsBefore (other c) rest
      → scan (suc fuel) (put (other c) rest) params ≡ scan fuel rest params
  unfolding scan advance collect_param
  scan_other c h = ground arith

  scan_param :
      (name : Text)
      → FitsBefore (param name) rest
      → scan (suc fuel) (put (param name) rest) params
        ≡ scan fuel rest (if is_empty name then params else insert name params)
  unfolding scan advance collect_param
  scan_param name h =
      ground (arith, take_word_param name rest h.0 h.1, drop_word_param name rest h.0 h.1)

-- Each segment takes at least as many bytes as the scan takes rounds for it.
length-put : (s : Segment) (rest : Text) → length rest < length (put s rest)
length-put (single body) rest = omega (arith, length-append (single_body body) (b'\'' ∷ rest))
length-put (double body) rest = omega (arith, length-append (double_body body) (b'"' ∷ rest))
length-put (backtick body) rest = omega (arith, length-append body (b'`' ∷ rest))
length-put (line body) rest = omega (arith, length-append body (b'\n' ∷ rest))
length-put (block body) rest = omega (arith, length-append body (b'*' ∷ b'/' ∷ rest))
length-put (param name) rest = omega (arith, length-append name rest)
length-put (other c) rest = omega arith

scan-text_of :
    (ss : List Segment) (fuel : ℕ) (params : List Text)
    → length (text_of ss) < fuel
    → IsWellFormed ss
    → scan fuel (text_of ss) params ≡ some (params_of ss params)
scan-text_of ss zero params h w = absurd (omega arith)
scan-text_of [] (suc fuel) params h w = unfold scan in refl
scan-text_of (single body ∷ ss) (suc fuel) params h (fits, w) =
    scan_single fuel (text_of ss) params body fits
    ∙ scan-text_of ss fuel params (omega (arith, length-put (single body) (text_of ss))) w
scan-text_of (double body ∷ ss) (suc fuel) params h (fits, w) =
    scan_double fuel (text_of ss) params body
    ∙ scan-text_of ss fuel params (omega (arith, length-put (double body) (text_of ss))) w
scan-text_of (backtick body ∷ ss) (suc fuel) params h (fits, w) =
    scan_backtick fuel (text_of ss) params body fits
    ∙ scan-text_of ss fuel params (omega (arith, length-put (backtick body) (text_of ss))) w
scan-text_of (line body ∷ ss) (suc zero) params h w = absurd (omega arith)
scan-text_of (line body ∷ ss) (suc (suc fuel)) params h (fits, w) =
    scan_line fuel (text_of ss) params body fits
    ∙ scan-text_of ss fuel params (omega (arith, length-append body (b'\n' ∷ text_of ss))) w
scan-text_of (block body ∷ ss) (suc fuel) params h (fits, w) =
    scan_block fuel (text_of ss) params body fits
    ∙ scan-text_of ss fuel params (omega (arith, length-put (block body) (text_of ss))) w
scan-text_of (param name ∷ ss) (suc fuel) params h (fits, w) =
    scan_param fuel (text_of ss) params name fits
    ∙ scan-text_of ss fuel _ (omega (arith, length-put (param name) (text_of ss))) w
scan-text_of (other c ∷ ss) (suc fuel) params h (fits, w) =
    scan_other fuel (text_of ss) params c fits
    ∙ scan-text_of ss fuel params (omega (arith, length-put (other c) (text_of ss))) w

-- On a text made of well-formed segments the scan returns the parameters of the parameter segments,
-- inserted one after the other into the empty set: what stands in a string, in a quoted identifier
-- or in a comment of the form `--` or `/* */` adds nothing, and a `$` with no name behind it adds
-- nothing.
pub scan_params-text_of :
    (ss : List Segment) → IsWellFormed ss → scan_params (text_of ss) ≡ some (params_of ss [])
unfolding scan_params
scan_params-text_of ss = scan-text_of ss (suc (length (text_of ss))) [] (omega arith)
