-- ===== src/Inference/Written.antt =====
-- The tokenizer against a grammar: a query that is written as a sequence of pieces.
use surql_parser.Prelude.{
  ℕ, Bool, false, true, not, ◌&&◌, ◌||◌, List, [], ◌∷◌, ◌++◌, ◌≡◌, ap, arith, is_empty, all, ◌==◌,
  ltb, Text,
}
use surql_parser.Params.{skip_line, starts_with_byte}
use surql_parser.Params.Segments.{
  single_body, double_body, without, skip_single_body, skip_double_body, skip_line_body,
  skip_block_body,
}
use surql_parser.Inference.{Arm, arm, is_blank, is_separator, is_sign, char_of}

-- A word, an operator of one or of two bytes (the second is `=`), a string, a comment, or a byte that
-- only separates.
pub data Piece : Type 0 where
  word : Text → Piece
  sign : ℕ → Piece
  sign_equal : ℕ → Piece
  single : Text → Piece
  double : Text → Piece
  line : Text → Piece
  block : Text → Piece
  space : ℕ → Piece

-- A piece before the text `rest`.
abbrev pub put : Piece → Text → Text
put (word w) rest = w ++ rest
put (sign c) rest = c ∷ rest
put (sign_equal c) rest = c ∷ b'=' ∷ rest
put (single body) rest = b'\'' ∷ (single_body body ++ b'\'' ∷ rest)
put (double body) rest = b'"' ∷ (double_body body ++ b'"' ∷ rest)
put (line body) rest = b'-' ∷ b'-' ∷ (body ++ b'\n' ∷ rest)
put (block body) rest = b'/' ∷ b'*' ∷ (body ++ b'*' ∷ b'/' ∷ rest)
put (space c) rest = c ∷ rest

abbrev pub text_of : List Piece → Text
text_of [] = []
text_of (p ∷ ps) = put p (text_of ps)

abbrev pub token_of : Piece → List Text
token_of (word w) = w ∷ []
token_of (sign c) = (c ∷ []) ∷ []
token_of (sign_equal c) = (c ∷ b'=' ∷ []) ∷ []
token_of _ = []

abbrev pub tokens_of : List Piece → List Text
tokens_of [] = []
tokens_of (p ∷ ps) = token_of p ++ tokens_of ps

-- A byte of ASCII that begins no other piece, whatever is behind it.
abbrev pub is_plain : ℕ → Bool
is_plain c =
    ltb c 128
    && not (c == b'\'' || c == b'"' || is_blank c || c == b'!' || is_sign c)
    && not (is_separator c || c == b'-' || c == b'/')

abbrev pub is_plain_arm : Arm → Bool
is_plain_arm Arm.plain = true
is_plain_arm _ = false

-- The text ends a word that stands before it.
abbrev pub Cuts : Text → Type 0
Cuts [] = Unit
Cuts (c ∷ cs) = is_plain_arm (arm c cs) ≡ false

abbrev pub FitsBefore : Piece → Text → Type 0
FitsBefore (word w) rest = (is_empty w ≡ false) × (all is_plain w ≡ true) × Cuts rest
FitsBefore (sign c) rest = (is_sign c ≡ true) × (starts_with_byte b'=' rest ≡ false)
FitsBefore (sign_equal c) rest = (c == b'!' || is_sign c) ≡ true
FitsBefore (single body) rest = starts_with_byte b'\'' rest ≡ false
FitsBefore (double body) rest = Unit
FitsBefore (line body) rest = without b'\n' body ≡ true
FitsBefore (block body) rest = without b'/' body ≡ true
FitsBefore (space c) rest = (is_blank c || is_separator c) ≡ true

abbrev pub IsWellFormed : List Piece → Type 0
IsWellFormed [] = Unit
IsWellFormed (p ∷ ps) = FitsBefore p (text_of ps) × IsWellFormed ps

-- A token is pending only before a text that ends it.
abbrev pub Ready : Text → Text → Type 0
Ready [] text = Unit
Ready (c ∷ current) text = Cuts text

pub arm_plain : (c : ℕ) (cs : Text) → is_plain c ≡ true → arm c cs ≡ Arm.plain
unfolding arm
arm_plain c cs h = ground arith

pub char_of_plain : (c : ℕ) → is_plain c ≡ true → char_of c ≡ c ∷ []
char_of_plain c h = ground arith

pub arm_sign :
    (c : ℕ) (cs : Text)
    → is_sign c ≡ true
    → starts_with_byte b'=' cs ≡ false
    → arm c cs ≡ Arm.operator (c ∷ []) cs
unfolding arm
arm_sign c cs h k = ground arith

pub arm_sign_equal :
    (c : ℕ) (cs : Text)
    → (c == b'!' || is_sign c) ≡ true
    → arm c (b'=' ∷ cs) ≡ Arm.operator (c ∷ b'=' ∷ []) cs
unfolding arm
arm_sign_equal c cs h = ground arith

pub arm_space : (c : ℕ) (cs : Text) → (is_blank c || is_separator c) ≡ true → arm c cs ≡ Arm.gap cs
unfolding arm
arm_space c cs h = ground arith

pub arm_single :
    (body rest : Text)
    → starts_with_byte b'\'' rest ≡ false
    → arm b'\'' (single_body body ++ b'\'' ∷ rest) ≡ Arm.gap rest
unfolding arm
arm_single body rest h = ap Arm.gap (skip_single_body body rest h)

pub arm_double : (body rest : Text) → arm b'"' (double_body body ++ b'"' ∷ rest) ≡ Arm.gap rest
unfolding arm
arm_double body rest = ap Arm.gap (skip_double_body body rest)

pub arm_line :
    (body rest : Text)
    → without b'\n' body ≡ true
    → arm b'-' (b'-' ∷ (body ++ b'\n' ∷ rest)) ≡ Arm.gap (b'\n' ∷ rest)
unfolding arm skip_line
arm_line body rest h = ap Arm.gap (skip_line_body body rest h)

pub arm_block :
    (body rest : Text)
    → without b'/' body ≡ true
    → arm b'/' (b'*' ∷ (body ++ b'*' ∷ b'/' ∷ rest)) ≡ Arm.gap rest
unfolding arm
arm_block body rest h = ap Arm.gap (skip_block_body body rest h)
