-- ===== src/Recovery/Coverage.antt =====
-- `split_into_chunks` loses nothing: a byte in no chunk belongs to a semicolon outside all braces, or
-- stands in the blank end of the source.
use mathlib.Core.Logic.{◌⊎◌, inl, inr}
use surql_parser.Prelude.{
  ℕ, zero, suc, ◌+◌, ◌-◌, ◌≤◌, ◌<◌, true, not, ◌&&◌, List, [], ◌∷◌, ◌++◌, ◌≡◌, refl, sym, arith,
  ltb, leb, ◌==◌, length, drop, is_empty, Text, Bool-cases,
}
use surql_parser.Token.{Token, TokenKind, Delim, token_end}
use surql_parser.Recovery.{
  max_source, Chunk, is_blank, Splitter, cut, split_kind, split_tokens, start_splitter, last_chunk,
  whole, split_into_chunks,
}

module _ (p : ℕ) where
  -- `p` lies in one of the chunks.
  abbrev pub InChunk : List Chunk → Type 0
  InChunk [] = ⊥
  InChunk (c ∷ cs) = ((c.start ≤ p) × (p < c.end)) ⊎ InChunk cs

  abbrev pub InToken : Token → Type 0
  InToken t = (t.offset ≤ p) × (p < token_end t)

-- The nesting of braces behind a token, by its kind.
abbrev pub depth_after : TokenKind → ℕ → ℕ
depth_after (TokenKind.open_delim Delim.brace) depth = depth + 1
depth_after (TokenKind.close_delim Delim.brace) depth = depth - 1
depth_after _ depth = depth

abbrev pub IsTopSemicolon : TokenKind → ℕ → Type 0
IsTopSemicolon TokenKind.semi_colon depth = depth ≡ 0
IsTopSemicolon _ depth = ⊥

-- `p` lies in a semicolon at depth 0, where `depth` is the nesting before the tokens.
abbrev pub InSeparator : ℕ → ℕ → List Token → Type 0
InSeparator p depth [] = ⊥
InSeparator p depth (t ∷ ts) =
    (IsTopSemicolon t.kind depth × InToken p t) ⊎ InSeparator p (depth_after t.kind depth) ts

-- What the splitter has passed is in a chunk.
abbrev Passed : ℕ → Splitter → Type 0
Passed p s = p < s.chunk_start → InChunk p s.chunks

InChunk-append_left : (p : ℕ) (cs ds : List Chunk) → InChunk p cs → InChunk p (cs ++ ds)
InChunk-append_left p [] ds h = absurd h
InChunk-append_left p (c ∷ cs) ds (inl h) = inl h
InChunk-append_left p (c ∷ cs) ds (inr h) = inr (InChunk-append_left p cs ds h)

InChunk-concat :
    (p : ℕ) (cs : List Chunk) (c : Chunk) → c.start ≤ p → p < c.end → InChunk p (cs ++ c ∷ [])
InChunk-concat p [] c h k = inl (h, k)
InChunk-concat p (x ∷ cs) c h k = inr (InChunk-concat p cs c h k)

cut-Passed : (p : ℕ) (t : Token) (s : Splitter) → Passed p s → InToken p t ⊎ Passed p (cut t s)
unfolding cut
cut-Passed p t s h = elim (Bool-cases (leb t.offset p && ltb p (token_end t))) [
  | inl here ↦ inl (ground arith)
  | inr away ↦ elim (Bool-cases (ltb s.chunk_start t.offset)) [
    | inl e ↦ inr (
        rw e (λ below. elim (Bool-cases (ltb p s.chunk_start)) [
          | inl old ↦ InChunk-append_left p s.chunks _ (h (ground arith))
          | inr new ↦ InChunk-concat p s.chunks _ (ground arith) (ground arith)
        ]))
    | inr e ↦ inr (rw e (λ below. h (ground arith)))
  ]
]

split_kind-Passed :
    (k : TokenKind) (p : ℕ) (t : Token) (s : Splitter)
    → Passed p s
    → (IsTopSemicolon k s.brace_depth × InToken p t) ⊎ Passed p (split_kind k t s)
unfolding split_kind
split_kind-Passed (TokenKind.open_delim Delim.brace) p t s h = inr h
split_kind-Passed (TokenKind.close_delim Delim.brace) p t s h = inr h
split_kind-Passed TokenKind.semi_colon p t s h = elim (Bool-cases (s.brace_depth == 0)) [
  | inl e ↦
      rw e (elim (cut-Passed p t s h) [
        | inl here ↦ inl (ground arith, here)
        | inr passed ↦ inr passed
      ])
  | inr e ↦ inr (rw e h)
]
split_kind-Passed _ p t s h = inr h

depth-cut : (t : Token) (s : Splitter) → (cut t s).brace_depth ≡ s.brace_depth
unfolding cut
depth-cut t s = ground arith

depth-split_kind :
    (k : TokenKind) (t : Token) (s : Splitter)
    → (split_kind k t s).brace_depth ≡ depth_after k s.brace_depth
unfolding split_kind
depth-split_kind (TokenKind.open_delim Delim.brace) t s = refl
depth-split_kind (TokenKind.close_delim Delim.brace) t s = refl
depth-split_kind TokenKind.semi_colon t s = ground (arith, depth-cut t s)
depth-split_kind _ t s = refl

split_tokens-Passed :
    (ts : List Token) (p : ℕ) (s : Splitter)
    → Passed p s
    → InSeparator p s.brace_depth ts ⊎ Passed p (split_tokens ts s)
unfolding split_tokens
split_tokens-Passed [] p s h = inr h
split_tokens-Passed (t ∷ ts) p s h = elim (split_kind-Passed t.kind p t s h) [
  | inl here ↦ inl (inl here)
  | inr passed ↦ elim (split_tokens-Passed ts p (split_kind t.kind t s) passed) [
    | inl later ↦ inl (inr (rw depth-split_kind at later))
    | inr done ↦ inr done
  ]
]

is_blank-drop : (n : ℕ) (cs : Text) → is_blank cs ≡ true → is_blank (drop n cs) ≡ true
is_blank-drop zero cs h = h
is_blank-drop (suc n) [] h = h
is_blank-drop (suc n) (c ∷ cs) h = is_blank-drop n cs (ground arith)

drop-nil : (k : ℕ) → ◌≡◌ {A = Text} (drop k []) []
drop-nil zero = refl
drop-nil (suc k) = refl

drop-drop : (m n : ℕ) (cs : Text) → m ≤ n → drop n cs ≡ drop (n - m) (drop m cs)
drop-drop zero n cs h = let e : n - 0 ≡ n = omega arith in rw e
drop-drop (suc m) zero cs h = absurd (omega arith)
drop-drop (suc m) (suc n) [] h = sym (drop-nil (suc n - suc m))
drop-drop (suc m) (suc n) (c ∷ cs) h =
    let e : suc n - suc m ≡ n - m = omega arith in rw e (drop-drop m n cs (omega arith))

last_chunk_covers :
    (source : Text) (p : ℕ) (s : Splitter)
    → p < length source
    → Passed p s
    → InChunk p (last_chunk source s) ⊎ (is_blank (drop p source) ≡ true)
unfolding last_chunk
last_chunk_covers source p s h passed =
    elim (Bool-cases
      (ltb s.chunk_start (length source) && not (is_blank (drop s.chunk_start source)))) [
        | inl e ↦ rw e (elim (Bool-cases (ltb p s.chunk_start)) [
          | inl old ↦ inl (InChunk-append_left p s.chunks _ (passed (ground arith)))
          | inr new ↦ inl (InChunk-concat p s.chunks _ (ground arith) h)
        ])
        | inr e ↦ rw e (elim (Bool-cases (ltb p s.chunk_start)) [
          | inl old ↦ inl (passed (ground arith))
          | inr new ↦ inr (
              rw (drop-drop s.chunk_start p source (ground arith))
                (is_blank-drop (p - s.chunk_start) (drop s.chunk_start source) (ground arith)))
        ])
      ]

InChunk-whole : (p : ℕ) (source : Text) → p < length source → InChunk p (whole source)
InChunk-whole p source h = inl (omega arith, h)

-- Every byte of the source lies in a chunk, or in a semicolon outside all braces, or has only white
-- space from there to the end of the source.
pub split_into_chunks_covers :
    (lex : Text → List Token) (source : Text) (p : ℕ)
    → p < length source
    → InChunk p (split_into_chunks lex source)
      ⊎ InSeparator p 0 (lex source)
      ⊎ (is_blank (drop p source) ≡ true)
unfolding split_into_chunks
split_into_chunks_covers lex source p h =
    let s = split_tokens (lex source) start_splitter in
    elim (Bool-cases (ltb max_source (length source))) [
      | inl e ↦ inl (rw e (InChunk-whole p source h))
      | inr e ↦ elim (Bool-cases (is_empty (last_chunk source s) && not (is_blank source))) [
        | inl f ↦ inl (rw (e, f) (InChunk-whole p source h))
        | inr f ↦
            rw (e, f)
              (elim (split_tokens-Passed (lex source) p start_splitter
                (λ below. absurd (omega arith))) [
                  | inl separator ↦ inr (inl separator)
                  | inr passed ↦ elim (last_chunk_covers source p s h passed) [
                    | inl inside ↦ inl inside
                    | inr blank ↦ inr (inr blank)
                  ]
                ])
      ]
    ]
