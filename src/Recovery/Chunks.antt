-- ===== src/Recovery/Chunks.antt =====
-- `split_into_chunks`: the chunks are in order and in bounds, and leave out only what separates them.
use mathlib.Core.Logic.{inl, inr}
use surql_parser.Prelude.{
  ℕ, ◌≤◌, ◌<◌, false, not, ◌&&◌, List, [], ◌∷◌, ◌++◌, ◌≡◌, arith, ltb, ◌==◌, length, drop, Text,
  Bool-cases,
}
use surql_parser.Token.{Token, TokenKind, Delim, token_end, IsOrdered}
use surql_parser.Recovery.{
  Chunk, is_blank, Splitter, cut, split_kind, split_tokens, start_splitter, last_chunk,
  split_into_chunks,
}

-- Non-empty chunks, one behind the other, from `lo` on and up to `hi`.
abbrev pub InOrder : ℕ → ℕ → List Chunk → Type 0
InOrder lo hi [] = lo ≤ hi
InOrder lo hi (c ∷ cs) = (lo ≤ c.start) × (c.start < c.end) × InOrder c.end hi cs

InOrder-concat :
    (lo mid hi : ℕ) (cs : List Chunk) (c : Chunk)
    → InOrder lo mid cs
    → mid ≤ c.start
    → c.start < c.end
    → c.end ≤ hi
    → InOrder lo hi (cs ++ c ∷ [])
InOrder-concat lo mid hi [] c h a b e = (omega arith, b, e)
InOrder-concat lo mid hi (x ∷ cs) c h a b e = (h.0, h.1, InOrder-concat x.end mid hi cs c h.2 a b e)

InOrder-mono : (lo mid hi : ℕ) (cs : List Chunk) → InOrder lo mid cs → mid ≤ hi → InOrder lo hi cs
InOrder-mono lo mid hi [] h k = omega arith
InOrder-mono lo mid hi (x ∷ cs) h k = (h.0, h.1, InOrder-mono x.end mid hi cs h.2 k)

-- What holds behind a token that ends at `from`.
abbrev SplitInv : ℕ → Splitter → Type 0
SplitInv from s = (s.chunk_start ≤ from) × InOrder 0 s.chunk_start s.chunks

cut-SplitInv :
    (from : ℕ) (t : Token) (s : Splitter)
    → from ≤ t.offset
    → SplitInv from s
    → SplitInv (token_end t) (cut t s)
unfolding cut
cut-SplitInv from t s h inv = elim (Bool-cases (ltb s.chunk_start t.offset)) [
  | inl e ↦ rw e (
    omega arith,
    InOrder-concat 0 s.chunk_start (token_end t) s.chunks
        (record { start = s.chunk_start; end = t.offset }) inv.1 (omega arith) (ground arith)
        (omega arith),
  )
  | inr e ↦
      rw e (omega arith, InOrder-mono 0 s.chunk_start (token_end t) s.chunks inv.1 (omega arith))
]

split_kind-SplitInv :
    (k : TokenKind) (from : ℕ) (t : Token) (s : Splitter)
    → from ≤ t.offset
    → SplitInv from s
    → SplitInv (token_end t) (split_kind k t s)
unfolding split_kind
split_kind-SplitInv (TokenKind.open_delim Delim.brace) from t s h inv = (omega arith, inv.1)
split_kind-SplitInv (TokenKind.close_delim Delim.brace) from t s h inv = (omega arith, inv.1)
split_kind-SplitInv TokenKind.semi_colon from t s h inv = elim (Bool-cases (s.brace_depth == 0)) [
  | inl e ↦ rw e (cut-SplitInv from t s h inv)
  | inr e ↦ rw e (omega arith, inv.1)
]
split_kind-SplitInv _ from t s h inv = (omega arith, inv.1)

split_tokens-SplitInv :
    (ts : List Token) (from limit : ℕ) (s : Splitter)
    → IsOrdered from limit ts
    → SplitInv from s
    → SplitInv limit (split_tokens ts s)
unfolding split_tokens
split_tokens-SplitInv [] from limit s o inv = (omega arith, inv.1)
split_tokens-SplitInv (t ∷ ts) from limit s o inv =
    split_tokens-SplitInv ts (token_end t) limit (split_kind t.kind t s) o.1
      (split_kind-SplitInv t.kind from t s o.0 inv)

last_chunk-InOrder :
    (source : Text) (s : Splitter)
    → SplitInv (length source) s
    → InOrder 0 (length source) (last_chunk source s)
unfolding last_chunk
last_chunk-InOrder source s inv =
    elim (Bool-cases
      (ltb s.chunk_start (length source) && not (is_blank (drop s.chunk_start source)))) [
        | inl e ↦ rw e (
            InOrder-concat 0 s.chunk_start (length source) s.chunks
              (record { start = s.chunk_start; end = length source }) inv.1 (omega arith)
              (ground arith) (omega arith))
        | inr e ↦ rw e (InOrder-mono 0 s.chunk_start (length source) s.chunks inv.1 inv.0)
      ]

not_blank-pos : (source : Text) → is_blank source ≡ false → 0 < length source
not_blank-pos [] h = cc
not_blank-pos (c ∷ cs) h = omega arith

-- For every lexer whose spans are in order and in bounds, the chunks are non-empty byte ranges of
-- the source, in order and without overlap.
pub split_into_chunks-InOrder :
    (lex : Text → List Token) (source : Text)
    → IsOrdered 0 (length source) (lex source)
    → InOrder 0 (length source) (split_into_chunks lex source)
unfolding split_into_chunks
split_into_chunks-InOrder lex source o =
    let s = split_tokens (lex source) start_splitter in
    let inv =
      last_chunk-InOrder source s
        (split_tokens-SplitInv (lex source) 0 (length source) start_splitter o (omega arith)) in
    ground (arith, not_blank-pos source, inv)
