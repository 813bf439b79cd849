-- ===== src/Inference.antt =====
-- macros/src/query_inference.rs: the types that a query asks of its parameters. Upper and lower case
-- are those of ASCII. The index into the bytes is modelled by the bytes from there on.
pub mod Written
pub mod Tokens
pub mod Constraints
pub mod Where
use surql_parser.Prelude.{
  ℕ, zero, suc, ◌+◌, Bool, true, false, not, ◌&&◌, ◌||◌, Option, none, some, List, [], ◌∷◌, ◌++◌,
  ltb, ◌==◌, if◌then◌else◌, drop, length, is_empty, any, find, map, codes, Text, text_eq, to_lower,
  to_upper,
}
use Prim.Native.Nat.{◌/◌, ◌%◌}
use Prim.Native.String.{String}
use surql_parser.Params.{skip_single, skip_double, skip_line, skip_block, starts_with_byte, tail}
use surql_parser.Strings.{starts_with, uppercase}
use surql_parser.TypeCheck.{strip_wrapper}

-- What the arm of a byte does behind the push of the current token.
pub data Arm : Type 0 where
  gap : Text → Arm
  operator : Text → Text → Arm
  plain : Arm

-- `b' ' | b'\t' | b'\n' | b'\r'`
abbrev pub is_blank : ℕ → Bool
is_blank c = c == b' ' || c == b'\t' || c == b'\n' || c == 13

abbrev pub is_separator : ℕ → Bool
is_separator c = c == b',' || c == b'(' || c == b')' || c == b';'

abbrev pub is_sign : ℕ → Bool
is_sign c = c == b'=' || c == b'>' || c == b'<'

-- The arms in the order of the match.
unfoldable pub arm : ℕ → Text → Arm
arm c cs =
    if c == b'\''
    then gap (skip_single cs)
    else if c == b'"'
    then gap (skip_double cs)
    else if is_blank c
    then gap cs
    else if (c == b'!' || is_sign c) && starts_with_byte b'=' cs
    then operator (c ∷ b'=' ∷ []) (tail cs)
    else if is_sign c
    then operator (c ∷ []) cs
    else if is_separator c
    then gap cs
    else if c == b'-' && starts_with_byte b'-' cs
    then gap (skip_line cs)
    else if c == b'/' && starts_with_byte b'*' cs
    then gap (skip_block 1 (tail cs))
    else plain

-- `bytes[i] as char`: the byte as a code point, in UTF-8
abbrev pub char_of : ℕ → Text
char_of c = if ltb c 128 then c ∷ [] else (192 + c / 64) ∷ (128 + c % 64) ∷ []

-- `if !current.is_empty() { tokens.push(take(&mut current)) }`
abbrev pub pending : Text → List Text
pending current = if is_empty current then [] else current ∷ []

abbrev pub prepend : List Text → Option (List Text) → Option (List Text)
prepend ts none = none
prepend ts (some us) = some (ts ++ us)

pub resume : (Text → Text → Option (List Text)) → ℕ → Text → Text → Arm → Option (List Text)
resume rec c cs current (gap rest) = prepend (pending current) (rec rest [])
resume rec c cs current (operator t rest) = prepend (pending current ++ t ∷ []) (rec rest [])
resume rec c cs current plain = rec cs (current ++ char_of c)

-- The outer loop, with fuel; `none` means that the fuel ran out.
pub tokens_from : ℕ → Text → Text → Option (List Text)
tokens_from zero bytes current = none
tokens_from (suc fuel) [] current = some (pending current)
tokens_from (suc fuel) (c ∷ cs) current = resume (tokens_from fuel) c cs current (arm c cs)

-- Each round takes a byte at least.
unfoldable pub tokenize_for_inference : Text → Option (List Text)
unfolding tokens_from resume arm skip_single skip_double skip_line skip_block
tokenize_for_inference sql = tokens_from (suc (length sql)) sql []

-- `&tokens[i]`, at an index in range
abbrev pub nth : List Text → ℕ → Text
nth [] i = []
nth (t ∷ ts) zero = t
nth (t ∷ ts) (suc i) = nth ts i

abbrev pub is_word_of : String → Text → Bool
is_word_of word t = text_eq (uppercase t) (codes word)

-- `find_table_context(tokens, pos)`
unfoldable pub find_table_context : List Text → ℕ → Option Text
unfolding to_upper
find_table_context tokens zero = none
find_table_context tokens (suc i) =
    let further = find_table_context tokens i in
    if is_word_of "FROM" (nth tokens i) && ltb (i + 1) (length tokens)
    then (if is_word_of "ONLY" (nth tokens (i + 1)) && ltb (i + 2) (length tokens)
        then some (nth tokens (i + 2))
        else some (nth tokens (i + 1)))
    else further
