-- ===== src/Lsp/References/Exact.antt =====
-- The references are exactly the tables that stand behind a keyword that introduces one.
use mathlib.Core.List.{Memᴰ}
use mathlib.Core.List.Memᴰ
use surql_parser.Prelude.{
  Bool, true, false, not, ◌&&◌, ◌||◌, Option, none, some, List, [], ◌∷◌, ◌≡◌, ◌↔◌, refl, sym, arith,
  is_empty, ltb, length, Text, Bool-cases, Option-cases, inl, inr,
}
use mathlib.Core.Path.{subst}
use surql_parser.Token.{Token}
use surql_parser.Recovery.{max_source}
use surql_parser.Lsp.References.{
  TableReference, extract_table_references, is_semi_colon, is_the_keyword, is_modifier,
  skip_modifiers, reference, is_reference, named, introduces, references_from,
}

some-eq : (m t : Token) → some m ≡ some t → m ≡ t
some-eq m t e = cc

module _ (source : Text) where
  -- The token is the first of the tokens that is no modifier.
  pub data BehindModifiers : List Token → Token → Type 0 where
    first :
        (t : Token) (ts : List Token) → is_modifier source t ≡ false → BehindModifiers (t ∷ ts) t
    skip :
        (m t : Token) (ts : List Token)
        → is_modifier source m ≡ true
        → BehindModifiers ts t
        → BehindModifiers (m ∷ ts) t

  -- A definition is open behind the token `k`.
  abbrev pub still_defined : Bool → Token → Bool
  still_defined in_define k =
      not (is_semi_colon k.kind) && (in_define || is_the_keyword "DEFINE" source k)

  -- The token stands, with modifiers between at most, behind a keyword that introduces a table, and no
  -- DEFINE stands in the statement before that keyword.
  pub data Named : Option Token → Bool → List Token → Token → Type 0 where
    here :
        (before : Option Token) (k t : Token) (ts : List Token)
        → is_semi_colon k.kind ≡ false
        → is_the_keyword "DEFINE" source k ≡ false
        → introduces source before k ≡ true
        → BehindModifiers ts t
        → Named before false (k ∷ ts) t
    there :
        (before : Option Token) (in_define : Bool) (k t : Token) (ts : List Token)
        → Named (some k) (still_defined in_define k) ts t
        → Named before in_define (k ∷ ts) t

  skip_modifiers-BehindModifiers :
      (ts : List Token) (t : Token) → skip_modifiers source ts ≡ some t → BehindModifiers ts t
  unfolding skip_modifiers
  skip_modifiers-BehindModifiers [] t e = absurd cc
  skip_modifiers-BehindModifiers (m ∷ ts) t e = elim (Bool-cases (is_modifier source m)) [
    | inl h ↦ skip m t ts h (skip_modifiers-BehindModifiers ts t (rw h at e))
    | inr h ↦ subst (λ x. BehindModifiers (m ∷ ts) x) (some-eq m t (rw h at e)) (first m ts h)
  ]

  BehindModifiers-skip_modifiers :
      (ts : List Token) (t : Token) → BehindModifiers ts t → skip_modifiers source ts ≡ some t
  unfolding skip_modifiers
  BehindModifiers-skip_modifiers [] t b = elim b [ ]
  BehindModifiers-skip_modifiers (_ ∷ ts) t (first _ _ h) = rw h refl
  BehindModifiers-skip_modifiers (m ∷ ts) t (skip _ _ _ h b) =
      rw h (BehindModifiers-skip_modifiers ts t b)

  still_defined-false :
      (in_define : Bool) (k : Token)
      → (in_define || is_the_keyword "DEFINE" source k) ≡ false
      → still_defined in_define k ≡ false
  still_defined-false in_define k h = ground arith

  -- A table behind the keyword `k` itself.
  named-Named :
      (before : Option Token) (in_define : Bool) (k : Token) (ts : List Token) (r : TableReference)
      → is_semi_colon k.kind ≡ false
      → (in_define || is_the_keyword "DEFINE" source k) ≡ false
      → introduces source before k ≡ true
      → Memᴰ r (named source (skip_modifiers source ts))
      → (t : Token) × Named before in_define (k ∷ ts) t
        × (is_reference source t ≡ true)
        × (r ≡ reference source t)
  named-Named before true k ts r s d i m = absurd cc
  named-Named before false k ts r s d i m = elim (Option-cases (skip_modifiers source ts)) [
    | inl e ↦ absurd (Memᴰ.not-nil (rw (named, e) at m))
    | inr (t, e) ↦ elim (Bool-cases (is_reference source t)) [
      | inl q ↦ (
        t,
        here before k t ts s d i (skip_modifiers-BehindModifiers ts t e),
        q,
        Memᴰ.eq_of_singleton (rw (named, e, q) at m),
      )
      | inr q ↦ absurd (Memᴰ.not-nil (rw (named, e, q) at m))
    ]
  ]

  there-Named :
      (before : Option Token) (in_define b : Bool) (k : Token) (ts : List Token)
      (r : TableReference)
      → still_defined in_define k ≡ b
      → ((t : Token) × Named (some k) b ts t
          × (is_reference source t ≡ true)
          × (r ≡ reference source t))
      → (t : Token) × Named before in_define (k ∷ ts) t
        × (is_reference source t ≡ true)
        × (r ≡ reference source t)
  there-Named before in_define b k ts r e (t, n, q, p) =
      (t, there before in_define k t ts (subst (λ c. Named (some k) c ts t) (sym e) n), q, p)

  references_from-Named :
      (before : Option Token) (in_define : Bool) (ts : List Token) (r : TableReference)
      → Memᴰ r (references_from source before in_define ts)
      → (t : Token) × Named before in_define ts t
        × (is_reference source t ≡ true)
        × (r ≡ reference source t)
  unfolding references_from
  references_from-Named before in_define [] r m = absurd (Memᴰ.not-nil m)
  references_from-Named before in_define (k ∷ ts) r m =
      let defined = references_from-Named (some k) true ts r in
      let further = references_from-Named (some k) false ts r in
      elim (Bool-cases (is_semi_colon k.kind)) [
        | inl s ↦ there-Named before in_define false k ts r (rw s refl) (further (rw s at m))
        | inr s ↦ elim (Bool-cases (in_define || is_the_keyword "DEFINE" source k)) [
          | inl d ↦
              there-Named before in_define true k ts r (rw (s, d) refl) (defined (rw (s, d) at m))
          | inr d ↦ elim (Bool-cases (introduces source before k)) [
            | inl i ↦
                elim (Memᴰ.append_cases (named source (skip_modifiers source ts))
                  (rw (s, d, i) at m)) [
                    | inl new ↦ named-Named before in_define k ts r s d i new
                    | inr old ↦
                        there-Named before in_define false k ts r
                          (still_defined-false in_define k d) (further old)
                  ]
            | inr i ↦
                there-Named before in_define false k ts r (still_defined-false in_define k d)
                  (further (rw (s, d, i) at m))
          ]
        ]
      ]

  Named-references_from :
      (before : Option Token) (in_define : Bool) (ts : List Token) (t : Token)
      → Named before in_define ts t
      → is_reference source t ≡ true
      → Memᴰ (reference source t) (references_from source before in_define ts)
  unfolding references_from
  Named-references_from before in_define [] t n q = elim n [ ]
  Named-references_from before _ (k ∷ ts) t (here _ _ _ _ s d i b) q =
      rw (s, d, i, BehindModifiers-skip_modifiers ts t b, q) (Memᴰ.head refl)
  Named-references_from before in_define (k ∷ ts) t (there _ _ _ _ _ n) q =
      let m = Named-references_from (some k) (still_defined in_define k) ts t n q in
      elim (Bool-cases (is_semi_colon k.kind)) [
        | inl s ↦ rw s (rw s at m)
        | inr s ↦ elim (Bool-cases (in_define || is_the_keyword "DEFINE" source k)) [
          | inl d ↦ rw (s, d) (rw (s, d) at m)
          | inr d ↦
              let m' : Memᴰ (reference source t) (references_from source (some k) false ts) =
                rw (s, d) at m in
              elim (Bool-cases (introduces source before k)) [
                | inl i ↦
                    rw (s, d, i) (Memᴰ.append_right (named source (skip_modifiers source ts)) m')
                | inr i ↦ rw (s, d, i) m'
              ]
        ]
      ]

-- For a source that is not empty, has less than 2 ^ 32 bytes and is read by the lexer: a reference is
-- listed exactly if it is that of a token with a name of its own that stands behind FROM,
-- UPDATE, CREATE, DELETE, UPSERT or INSERT INTO, with ONLY and TABLE between at most, and no DEFINE stands
-- between the last semicolon before the keyword, or the start of the source, and the keyword. Every
-- semicolon counts, also one between the braces of a DEFINE statement: what stands behind it in the
-- braces is listed.
pub extract_table_references_iff :
    (lex : Text → Option (List Token)) (source : Text) (ts : List Token) (r : TableReference)
    → is_empty source ≡ false
    → ltb max_source (length source) ≡ false
    → lex source ≡ some ts
    → Memᴰ r (extract_table_references lex source) ↔ (
        (t : Token) × Named source none false ts t
        × (is_reference source t ≡ true)
        × (r ≡ reference source t))
unfolding extract_table_references
extract_table_references_iff lex source ts r full small e =
    rw (full, small, e)
      (
        references_from-Named source none false ts r,
        λ h.
            let (t, n, q, p) = h in
            subst (λ x. Memᴰ x (references_from source none false ts)) (sym p)
              (Named-references_from source none false ts t n q),
      )
