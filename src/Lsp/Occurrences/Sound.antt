-- ===== src/Lsp/Occurrences/Sound.antt =====
-- The occurrences of a table are places of its name, each once and in order.
use mathlib.Core.List.{Memᴰ}
use mathlib.Core.List.Memᴰ
use surql_parser.Prelude.{
  Bool, true, false, ◌&&◌, ◌||◌, Option, none, some, List, [], ◌∷◌, ◌≡◌, refl, sym, arith, ltb,
  length, is_empty, All, Text, Bool-cases, inl, inr,
}
use surql_parser.Prelude.Sorting.{sort_by, IsOrder, IsSortedBy, sort_by-IsSortedBy, Memᴰ-sort_by}
use surql_parser.Token.{Token}
use surql_parser.Recovery.{max_source}
use surql_parser.Lsp.References.{
  is_name_kind, is_modifier, TableReference, skip_modifiers, reference,
}
use surql_parser.Lsp.Occurrences.{
  is_text, is_dml_text, is_previous, has_define_context, head, is_record_type, is_record_id,
  matches_target, when, behind_word, in_place, occurrences_at, occurrences_from, place_le,
  same_place, dedup_from, dedup, extract_all_table_occurrences,
}

place_le-IsOrder : IsOrder place_le
place_le-IsOrder = record { total = λ a b h. ground arith; trans = λ a b c h k. ground arith }

abbrev Before : TableReference → TableReference → Type 0
Before x y = place_le y x ≡ false

-- Each reference stands before all later ones.
abbrev pub IsStrict : List TableReference → Type 0
IsStrict [] = Unit
IsStrict (x ∷ xs) = All (λ y. place_le y x ≡ false) xs × IsStrict xs

dedup_from-above :
    (z x : TableReference) (ys : List TableReference)
    → place_le x z ≡ false
    → IsSortedBy place_le (x ∷ ys)
    → All (λ y. place_le y z ≡ false) (dedup_from x ys)
unfolding dedup_from
dedup_from-above z x [] h s = (h, tt)
dedup_from-above z x (y ∷ ys) h ((le, les), (above, s)) = elim (Bool-cases (same_place x y)) [
  | inl e ↦ rw e (dedup_from-above z x ys h (les, s))
  | inr e ↦ rw e (h, dedup_from-above z y ys (ground arith) (above, s))
]

dedup_from-IsStrict :
    (x : TableReference) (ys : List TableReference)
    → IsSortedBy place_le (x ∷ ys)
    → IsStrict (dedup_from x ys)
unfolding dedup_from
dedup_from-IsStrict x [] s = (tt, tt)
dedup_from-IsStrict x (y ∷ ys) ((le, les), (above, s)) = elim (Bool-cases (same_place x y)) [
  | inl e ↦ rw e (dedup_from-IsStrict x ys (les, s))
  | inr e ↦
      rw e (dedup_from-above x y ys (ground arith) (above, s), dedup_from-IsStrict y ys (above, s))
]

dedup-IsStrict : (rs : List TableReference) → IsSortedBy place_le rs → IsStrict (dedup rs)
unfolding dedup
dedup-IsStrict [] s = tt
dedup-IsStrict (x ∷ xs) s = dedup_from-IsStrict x xs s

All-dedup_from :
    (P : TableReference → Type 0) (x : TableReference) (ys : List TableReference)
    → P x
    → All P ys
    → All P (dedup_from x ys)
unfolding dedup_from
All-dedup_from P x [] p h = (p, tt)
All-dedup_from P x (y ∷ ys) p h = elim (Bool-cases (same_place x y)) [
  | inl e ↦ rw e (All-dedup_from P x ys p h.1)
  | inr e ↦ rw e (p, All-dedup_from P y ys h.0 h.1)
]

All-dedup : (P : TableReference → Type 0) (rs : List TableReference) → All P rs → All P (dedup rs)
unfolding dedup
All-dedup P [] h = tt
All-dedup P (x ∷ xs) h = All-dedup_from P x xs h.0 h.1

All-mem :
    (P : TableReference → Type 0) (rs : List TableReference)
    → ((r : TableReference) → Memᴰ r rs → P r)
    → All P rs
All-mem P [] h = tt
All-mem P (x ∷ xs) h = (h x (Memᴰ.head refl), All-mem P xs (λ r m. h r (Memᴰ.tail m)))

some-eq : (t u : Token) → some t ≡ some u → t ≡ u
some-eq t u e = cc

module _ (source target : Text) where
  -- A reference to a token with the name of the target.
  abbrev pub IsOccurrence : List Token → TableReference → Type 0
  IsOccurrence ts r =
      (t : Token) × Memᴰ t ts × (matches_target source target t ≡ true) × (r ≡ reference source t)

  IsOccurrence-cons :
      (k : Token) (ts : List Token) (r : TableReference)
      → IsOccurrence ts r
      → IsOccurrence (k ∷ ts) r
  IsOccurrence-cons k ts r (t, m, q, e) = (t, Memᴰ.tail m, q, e)

  when-IsOccurrence :
      (found : Bool) (o : Option Token) (ts : List Token) (r : TableReference)
      → ((t : Token) → o ≡ some t → Memᴰ t ts)
      → Memᴰ r (when source target found o)
      → IsOccurrence ts r
  when-IsOccurrence found none ts r h m = absurd (Memᴰ.not-nil m)
  when-IsOccurrence found (some t) ts r h m =
      elim (Bool-cases (found && matches_target source target t)) [
        | inl e ↦ (t, h t refl, ground arith, Memᴰ.eq_of_singleton (rw (when, e) at m))
        | inr e ↦ absurd (Memᴰ.not-nil (rw (when, e) at m))
      ]

  skip_modifiers-mem : (ts : List Token) (t : Token) → skip_modifiers source ts ≡ some t → Memᴰ t ts
  unfolding skip_modifiers
  skip_modifiers-mem [] t e = absurd cc
  skip_modifiers-mem (k ∷ ts) t e = elim (Bool-cases (is_modifier source k)) [
    | inl h ↦ Memᴰ.tail (skip_modifiers-mem ts t (rw h at e))
    | inr h ↦ Memᴰ.head (sym (some-eq k t (rw h at e)))
  ]

  head-mem : (ts : List Token) (t : Token) → head ts ≡ some t → Memᴰ t ts
  head-mem [] t e = absurd cc
  head-mem (k ∷ ts) t e = Memᴰ.head (sym (some-eq k t e))

  behind_word-IsOccurrence :
      (before : List Token) (t : Token) (ts : List Token) (r : TableReference)
      → Memᴰ r (behind_word source target before t ts)
      → IsOccurrence ts r
  unfolding behind_word
  behind_word-IsOccurrence before t ts r m =
      let behind = λ (found : Bool).
        when-IsOccurrence found (skip_modifiers source ts) ts r (skip_modifiers-mem ts) in
      elim (Bool-cases (is_text "TABLE" source t)) [
        | inl a ↦
            when-IsOccurrence (is_previous "DEFINE" source before) (head ts) ts r (head-mem ts)
              (rw a at m)
        | inr a ↦ elim (Bool-cases (is_dml_text source t)) [
          | inl b ↦ behind true (rw (a, b) at m)
          | inr b ↦ elim (Bool-cases (is_text "INTO" source t)) [
            | inl c ↦ behind (is_previous "INSERT" source before) (rw (a, b, c) at m)
            | inr c ↦ elim (Bool-cases (is_text "ON" source t)) [
              | inl d ↦ behind (has_define_context source before) (rw (a, b, c, d) at m)
              | inr d ↦ absurd (Memᴰ.not-nil (rw (a, b, c, d) at m))
            ]
          ]
        ]
      ]

  in_place-IsOccurrence :
      (before : List Token) (t : Token) (ts : List Token) (r : TableReference)
      → Memᴰ r (in_place source target before t ts)
      → IsOccurrence (t ∷ ts) r
  unfolding in_place
  in_place-IsOccurrence [] t ts r m = absurd (Memᴰ.not-nil m)
  in_place-IsOccurrence (p ∷ []) t ts r m = absurd (Memᴰ.not-nil m)
  in_place-IsOccurrence (p ∷ q ∷ before) t ts r m =
      elim (Memᴰ.append_cases (when source target (is_record_type source p q) (some t))
        {t = when source target (is_record_id p ts) (some t)} m) [
          | inl l ↦
              when-IsOccurrence (is_record_type source p q) (some t) (t ∷ ts) r
                (λ u e. Memᴰ.head (sym (some-eq t u e))) l
          | inr l ↦
              when-IsOccurrence (is_record_id p ts) (some t) (t ∷ ts) r
                (λ u e. Memᴰ.head (sym (some-eq t u e))) l
        ]

  occurrences_at-IsOccurrence :
      (before : List Token) (t : Token) (ts : List Token) (r : TableReference)
      → Memᴰ r (occurrences_at source target before t ts)
      → IsOccurrence (t ∷ ts) r
  unfolding occurrences_at
  occurrences_at-IsOccurrence before t ts r m = elim (Bool-cases (is_name_kind t.kind)) [
    | inl e ↦ elim (Memᴰ.append_cases (behind_word source target before t ts) (rw e at m)) [
      | inl l ↦ IsOccurrence-cons t ts r (behind_word-IsOccurrence before t ts r l)
      | inr l ↦ in_place-IsOccurrence before t ts r l
    ]
    | inr e ↦ absurd (Memᴰ.not-nil (rw e at m))
  ]

  occurrences_from-IsOccurrence :
      (before ts : List Token) (r : TableReference)
      → Memᴰ r (occurrences_from source target before ts)
      → IsOccurrence ts r
  unfolding occurrences_from
  occurrences_from-IsOccurrence before [] r m = absurd (Memᴰ.not-nil m)
  occurrences_from-IsOccurrence before (t ∷ ts) r m =
      elim (Memᴰ.append_cases (occurrences_at source target before t ts) m) [
        | inl l ↦ occurrences_at-IsOccurrence before t ts r l
        | inr l ↦ IsOccurrence-cons t ts r (occurrences_from-IsOccurrence (t ∷ before) ts r l)
      ]

-- Each occurrence that is found is the place of a token that spells the table's name, apart from case
-- and backquotes, and the occurrences come in the order of their lines and columns, no place twice.
pub extract_all_table_occurrences_sound :
    (lex : Text → Option (List Token)) (source target : Text) (ts : List Token)
    → lex source ≡ some ts
    → IsStrict (extract_all_table_occurrences lex source target)
      × All (IsOccurrence source target ts) (extract_all_table_occurrences lex source target)
unfolding extract_all_table_occurrences
extract_all_table_occurrences_sound lex source target ts e =
    let found = occurrences_from source target [] ts in
    elim (Bool-cases (is_empty source || ltb max_source (length source))) [
      | inl h ↦ rw h (tt, tt)
      | inr h ↦
          rw (h, e)
            (
              dedup-IsStrict (sort_by place_le found)
                  (sort_by-IsSortedBy place_le place_le-IsOrder found),
              All-dedup (IsOccurrence source target ts) (sort_by place_le found) (
                  All-mem (IsOccurrence source target ts) (sort_by place_le found) (λ r m.
                    occurrences_from-IsOccurrence source target [] ts r
                      ((Memᴰ-sort_by place_le r found).0 m))),
            )
    ]
