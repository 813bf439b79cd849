-- ===== src/Token.antt =====
-- The tokens that src/upstream/syn/lexer hands to the code of this repository. The lexer itself is
-- the copy of SurrealDB's and is a parameter `lex` of what uses it; here are the token kinds that the
-- clients tell apart, and what they rely on: spans that lie in the source, one behind the other.
use surql_parser.Prelude.{ℕ, ◌+◌, ◌≤◌, List, [], ◌∷◌}

pub data Delim : Type 0 where
  paren bracket brace : Delim

-- `other` stands for every kind that no client names.
pub data TokenKind : Type 0 where
  open_delim : Delim → TokenKind
  close_delim : Delim → TokenKind
  semi_colon : TokenKind
  keyword : TokenKind
  identifier : TokenKind
  left_chevron right_chevron : TokenKind
  colon : TokenKind
  dot : TokenKind
  other : TokenKind

pub record Token : Type 0 where
  pub kind : TokenKind
  pub offset : ℕ
  pub len : ℕ

abbrev pub token_end : Token → ℕ
token_end t = t.offset + t.len

-- The spans begin at or behind `from`, do not overlap, and end at or before `limit`.
abbrev pub IsOrdered : ℕ → ℕ → List Token → Type 0
IsOrdered from limit [] = from ≤ limit
IsOrdered from limit (t ∷ ts) = (from ≤ t.offset) × IsOrdered (token_end t) limit ts
