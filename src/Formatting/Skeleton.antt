-- ===== src/Formatting/Skeleton.antt =====
-- What the formatter leaves alone: everything but white space and the case of letters.
use mathlib.Core.List.{append_assoc, append-nil}
use surql_parser.Prelude.{
  ℕ, zero, suc, ◌+◌, ◌-◌, ◌≤◌, false, not, ◌&&◌, ◌||◌, Option, none, some, List, [], ◌∷◌, ◌++◌, ltb,
  if◌then◌else◌, length, take, drop, is_empty, Text, text_eq, is_whitespace, to_upper, ◌≡◌, refl,
  sym, ap, ◌∙◌, arith, Bool-cases, Option-cases, inl, inr,
}
use surql_parser.Token.{Token, TokenKind, Delim, token_end, IsOrdered}
use surql_parser.Recovery.{max_source}
use surql_parser.Formatting.Config.{FormatConfig, IndentStyle, indent_str, indent_text, repeat}
use surql_parser.Formatting.{
  is_formattable_keyword, uppercased, slice, Formatter, formatted_token, already_newline, broken,
  should_newline, spaced, placed, format_semicolon, format_keyword, format_kind, format_tokens,
  finish_text, start_formatter, format_with, configurable_format,
}

-- The bytes that are not white space, in upper case.
abbrev pub skeleton : Text → Text
skeleton [] = []
skeleton (c ∷ cs) = let rest = skeleton cs in if is_whitespace c then rest else to_upper c ∷ rest

skeleton-append : (xs ys : Text) → skeleton (xs ++ ys) ≡ skeleton xs ++ skeleton ys
skeleton-append [] ys = refl
skeleton-append (x ∷ xs) ys = elim (Bool-cases (is_whitespace x)) [
  | inl e ↦ rw e (skeleton-append xs ys)
  | inr e ↦ rw e (ap (◌∷◌ (to_upper x)) (skeleton-append xs ys))
]

is_whitespace-to_upper : (c : ℕ) → is_whitespace (to_upper c) ≡ is_whitespace c
unfolding is_whitespace to_upper
is_whitespace-to_upper c = ground arith

to_upper-to_upper : (c : ℕ) → to_upper (to_upper c) ≡ to_upper c
unfolding to_upper
to_upper-to_upper c = ground arith

skeleton-uppercased : (t : Text) → skeleton (uppercased t) ≡ skeleton t
skeleton-uppercased [] = refl
skeleton-uppercased (c ∷ cs) =
    rw (is_whitespace-to_upper c, to_upper-to_upper c, skeleton-uppercased cs)

skeleton-repeat : (n : ℕ) (t : Text) → skeleton t ≡ [] → skeleton (repeat n t) ≡ []
skeleton-repeat zero t h = refl
skeleton-repeat (suc n) t h = rw (skeleton-append t (repeat n t), h, skeleton-repeat n t h)

skeleton-indent_text : (style : IndentStyle) (width : ℕ) → skeleton (indent_text style width) ≡ []
unfolding is_whitespace
skeleton-indent_text IndentStyle.tab width = refl
skeleton-indent_text IndentStyle.space width = skeleton-repeat width (b' ' ∷ []) refl

take-drop : (k : ℕ) (xs : Text) → xs ≡ take k xs ++ drop k xs
take-drop zero xs = refl
take-drop (suc k) [] = refl
take-drop (suc k) (x ∷ xs) = ap (◌∷◌ x) (take-drop k xs)

drop-drop : (a k : ℕ) (xs : Text) → drop k (drop a xs) ≡ drop (a + k) xs
drop-drop zero k xs = let e : 0 + k ≡ k = omega arith in rw e refl
drop-drop (suc a) zero [] = let e : suc a + 0 ≡ suc a = omega arith in rw e refl
drop-drop (suc a) (suc k) [] = let e : suc a + suc k ≡ suc (a + suc k) = omega arith in rw e refl
drop-drop (suc a) k (x ∷ xs) =
    let e : suc a + k ≡ suc (a + k) = omega arith in rw e (drop-drop a k xs)

drop-slice : (a b : ℕ) (xs : Text) → a ≤ b → drop a xs ≡ slice xs a b ++ drop b xs
drop-slice a b xs h =
    let e : a + (b - a) ≡ b = omega arith in
    take-drop (b - a) (drop a xs)
    ∙ ap (λ rest. take (b - a) (drop a xs) ++ rest) (drop-drop a (b - a) xs ∙ ap (λ n. drop n xs) e)

module _ (config : FormatConfig) where
  -- The options that drop what stands between tokens, or add a semicolon, are off.
  pub record IsPreserving : Type 0 where
    pub where_off : config.newline_before_where ≡ false
    pub set_off : config.newline_before_set ≡ false
    pub from_off : config.newline_before_from ≡ false
    pub collapse_off : config.collapse_blank_lines ≡ false
    pub trailing_off : config.trailing_semicolon ≡ false

  skeleton-formatted_token :
      (kind : TokenKind) (original : Text)
      → skeleton (formatted_token config kind original) ≡ skeleton original
  unfolding formatted_token
  skeleton-formatted_token TokenKind.keyword original =
      elim (Bool-cases
        (config.uppercase_keywords && is_formattable_keyword (uppercased original))) [
          | inl e ↦ rw e (skeleton-uppercased original)
          | inr e ↦ rw e
        ]
  skeleton-formatted_token _ original = refl

  skeleton-broken : (levels : ℕ) → skeleton (broken config levels) ≡ []
  unfolding broken is_whitespace
  skeleton-broken levels =
      skeleton-repeat levels (indent_str config)
        (skeleton-indent_text config.indent_style config.indent_width)

  module _ (p : IsPreserving) (source : Text) where
    spaced-gap : (gap : Text) → spaced config gap ≡ gap
    unfolding spaced
    spaced-gap gap = rw p.collapse_off

    -- What is written so far and what is still to be read are the source together.
    abbrev Kept : Formatter → Type 0
    Kept f = skeleton f.result ++ skeleton (drop f.last_end source) ≡ skeleton source

    skeleton-rest :
        (a b : ℕ)
        → a ≤ b
        → skeleton (drop a source) ≡ skeleton (slice source a b) ++ skeleton (drop b source)
    skeleton-rest a b h =
        ap skeleton (drop-slice a b source h) ∙ skeleton-append (slice source a b) (drop b source)

    placed-Kept :
        (t : Token) (f : Formatter)
        → f.last_end ≤ t.offset
        → Kept f
        → Kept (placed config source t (slice source f.last_end t.offset) f)
    placed-Kept t f h k =
        let gap = slice source f.last_end t.offset in
        let original = slice source t.offset (token_end t) in
        rw
          (
            skeleton-append f.result (gap ++ formatted_token config t.kind original),
            skeleton-append gap (formatted_token config t.kind original),
            skeleton-formatted_token t.kind original,
            append_assoc (skeleton f.result) (skeleton gap ++ skeleton original)
                (skeleton (drop (token_end t) source)),
            append_assoc (skeleton gap) (skeleton original) (skeleton (drop (token_end t) source)),
            ← skeleton-rest t.offset (token_end t) (omega arith),
            ← skeleton-rest f.last_end t.offset h,
          )
          k

    -- White space behind the token changes nothing.
    spaced_behind-Kept :
        (f : Formatter) (white : Text)
        → skeleton white ≡ []
        → Kept f
        → Kept (record f { result = f.result ++ white })
    spaced_behind-Kept f white h k =
        rw (skeleton-append f.result white, h, append-nil (skeleton f.result)) k

    format_semicolon-Kept :
        (t : Token) (f : Formatter)
        → f.last_end ≤ t.offset
        → Kept f
        → Kept (format_semicolon config source t f)
    unfolding format_semicolon
    format_semicolon-Kept t f h k =
        let gap = slice source f.last_end t.offset in
        let kept = placed-Kept t f h k in
        elim (Bool-cases (not config.newline_after_semicolon)) [
          | inl e ↦ rw (e, spaced-gap gap) kept
          | inr e ↦ elim (Bool-cases (already_newline config (drop (token_end t) source))) [
            | inl n ↦ rw (e, n) kept
            | inr n ↦
                rw (e, n)
                  (spaced_behind-Kept (placed config source t gap f) (broken config f.depth)
                    (skeleton-broken f.depth) kept)
          ]
        ]

    never_newline : (upper : Text) → should_newline config upper ≡ false
    unfolding should_newline
    never_newline upper = rw (p.where_off, p.set_off, p.from_off)

    format_keyword-Kept :
        (t : Token) (f : Formatter)
        → f.last_end ≤ t.offset
        → Kept f
        → Kept (format_keyword config source t f)
    unfolding format_keyword
    format_keyword-Kept t f h k =
        let gap = slice source f.last_end t.offset in
        let upper =
          uppercased (formatted_token config t.kind (slice source t.offset (token_end t))) in
        rw (never_newline upper, spaced-gap gap) (placed-Kept t f h k)

    plain-Kept :
        (t : Token) (f : Formatter)
        → f.last_end ≤ t.offset
        → Kept f
        → Kept (placed config source t (spaced config (slice source f.last_end t.offset)) f)
    plain-Kept t f h k = rw (spaced-gap (slice source f.last_end t.offset)) (placed-Kept t f h k)

    format_kind-Kept :
        (kind : TokenKind) (t : Token) (f : Formatter)
        → f.last_end ≤ t.offset
        → Kept f
        → Kept (format_kind config source kind t f)
    unfolding format_kind
    format_kind-Kept (TokenKind.open_delim Delim.brace) t f h k =
        placed-Kept t (record f { depth = f.depth + 1 }) h k
    format_kind-Kept (TokenKind.close_delim Delim.brace) t f h k =
        placed-Kept t (record f { depth = f.depth - 1 }) h k
    format_kind-Kept TokenKind.semi_colon t f h k = format_semicolon-Kept t f h k
    format_kind-Kept TokenKind.keyword t f h k = format_keyword-Kept t f h k
    format_kind-Kept (TokenKind.open_delim Delim.paren) t f h k = plain-Kept t f h k
    format_kind-Kept (TokenKind.open_delim Delim.bracket) t f h k = plain-Kept t f h k
    format_kind-Kept (TokenKind.close_delim Delim.paren) t f h k = plain-Kept t f h k
    format_kind-Kept (TokenKind.close_delim Delim.bracket) t f h k = plain-Kept t f h k
    format_kind-Kept TokenKind.identifier t f h k = plain-Kept t f h k
    format_kind-Kept TokenKind.left_chevron t f h k = plain-Kept t f h k
    format_kind-Kept TokenKind.right_chevron t f h k = plain-Kept t f h k
    format_kind-Kept TokenKind.colon t f h k = plain-Kept t f h k
    format_kind-Kept TokenKind.dot t f h k = plain-Kept t f h k
    format_kind-Kept TokenKind.other t f h k = plain-Kept t f h k

    last_end-format_kind :
        (kind : TokenKind) (t : Token) (f : Formatter)
        → (format_kind config source kind t f).last_end ≡ token_end t
    unfolding format_kind format_semicolon format_keyword
    last_end-format_kind kind t f = ground arith

    format_tokens-Kept :
        (ts : List Token) (from : ℕ) (f : Formatter)
        → IsOrdered from (length source) ts
        → f.last_end ≤ from
        → Kept f
        → Kept (format_tokens config source ts f)
    unfolding format_tokens
    format_tokens-Kept [] from f o h k = k
    format_tokens-Kept (t ∷ ts) from f o h k =
        let e = last_end-format_kind t.kind t f in
        elim (Bool-cases (ltb (length source) (token_end t))) [
          | inl b ↦
              rw (format_tokens, b) (format_tokens-Kept ts (token_end t) f o.1 (omega arith) k)
          | inr b ↦
              rw (format_tokens, b)
                (format_tokens-Kept ts (token_end t) (format_kind config source t.kind t f) o.1
                  (omega arith) (format_kind-Kept t.kind t f (omega arith) k))
        ]

    drop-all : (n : ℕ) (xs : Text) → length xs ≤ n → drop n xs ≡ []
    drop-all zero [] h = refl
    drop-all zero (x ∷ xs) h = absurd (omega arith)
    drop-all (suc n) [] h = refl
    drop-all (suc n) (x ∷ xs) h = drop-all n xs (omega arith)

    finish_text-skeleton :
        (f : Formatter) → Kept f → skeleton (finish_text config source f) ≡ skeleton source
    unfolding finish_text
    finish_text-skeleton f k = elim (Bool-cases (ltb f.last_end (length source))) [
      | inl e ↦ rw (e, p.trailing_off, skeleton-append f.result (drop f.last_end source)) k
      | inr e ↦
          let nothing : drop f.last_end source ≡ [] = drop-all f.last_end source (ground arith) in
          rw (e, p.trailing_off)
            (sym (append-nil (skeleton f.result))
              ∙ ap (λ rest. skeleton f.result ++ skeleton rest) (sym nothing)
              ∙ k)
    ]

    format_with-skeleton :
        (ts : List Token)
        → IsOrdered 0 (length source) ts
        → skeleton (format_with config source ts) ≡ skeleton source
    unfolding format_with
    format_with-skeleton ts o =
        finish_text-skeleton (format_tokens config source ts (start_formatter config))
          (format_tokens-Kept ts 0 (start_formatter config) o (omega arith) refl)

-- `format_source(source, config).unwrap_or(source)`
abbrev pub or_source : Option Text → Text → Text
or_source none source = source
or_source (some out) source = out

-- For every lexer whose spans are in order and in bounds: with the options off that break lines before
-- keywords, collapse blank lines or add a semicolon at the end, the formatted text differs from the
-- source in white space and in the case of ASCII letters at most, so that every other byte, those of
-- comments and strings included, is kept in its order.
pub configurable_format-skeleton :
    (config : FormatConfig) (lex : Text → Option (List Token)) (source : Text)
    → IsPreserving config
    → ((tokens : List Token) → lex source ≡ some tokens → IsOrdered 0 (length source) tokens)
    → skeleton (or_source (configurable_format config lex source) source) ≡ skeleton source
unfolding configurable_format
configurable_format-skeleton config lex source p o =
    elim (Bool-cases (is_empty source || ltb max_source (length source))) [
      | inl e ↦ rw e
      | inr e ↦ rw e (elim (Option-cases (lex source)) [
        | inl n ↦ rw n
        | inr (ts, l) ↦ elim (Bool-cases (text_eq (format_with config source ts) source)) [
          | inl q ↦ rw (l, q)
          | inr q ↦ rw (l, q) (format_with-skeleton config p source ts (o ts l))
        ]
      ])
    ]
