-- ===== src/Recovery/Position.antt =====
-- `byte_offset_to_line_col`: columns are counted in bytes.
use surql_parser.Prelude.{
  ℕ, ◌+◌, ◌≤◌, ◌<◌, min, none, some, [], ◌∷◌, ◌++◌, ◌≡◌, ◌≢◌, ◌⊎◌, inl, inr, refl, sym, ap, ◌∙◌,
  arith, ◌==◌, if◌then◌else◌, length, length-append, length-take, take, Text, Option-cases,
}
use surql_parser.Recovery.{count, rfind, byte_offset_to_line_col, column_after}

module _ (b : ℕ) where
  count-append : (xs ys : Text) → count b (xs ++ ys) ≡ count b xs + count b ys
  count-append [] ys = omega arith
  count-append (x ∷ xs) ys = ground (arith, count-append xs ys)

  rfind-none : (cs : Text) → rfind b cs ≡ none → count b cs ≡ 0
  unfolding rfind
  rfind-none [] h = refl
  rfind-none (c ∷ cs) h = ground (arith, rfind-none cs)

  none-rfind : (cs : Text) → count b cs ≡ 0 → rfind b cs ≡ none
  unfolding rfind
  none-rfind [] h = refl
  none-rfind (c ∷ cs) h = ground (arith, none-rfind cs)

  -- A hit splits the text behind the last `b`.
  record LastAt (cs : Text) (i : ℕ) : Type 0 where
    upto : Text
    behind : Text
    splits : cs ≡ (upto ++ b ∷ []) ++ behind
    index : length upto ≡ i
    last : count b behind ≡ 0

  rfind-LastAt : (cs : Text) (i : ℕ) → rfind b cs ≡ some i → LastAt cs i
  unfolding rfind
  rfind-LastAt [] i h = cc
  rfind-LastAt (c ∷ cs) i h = elim (Option-cases (rfind b cs)) [
    | inl e ↦ record {
      upto = [];
      behind = cs;
      splits = ground arith;
      index = ground arith;
      last = rfind-none cs e;
    }
    | inr (j, e) ↦
        let l = rfind-LastAt cs j e in
        record {
          upto = c ∷ l.upto;
          behind = l.behind;
          splits = ap (◌∷◌ c) l.splits;
          index = ground (arith, l.index);
          last = l.last;
        }
  ]

  rfind-append_some :
      (xs ys : Text) (j : ℕ) → rfind b ys ≡ some j → rfind b (xs ++ ys) ≡ some (length xs + j)
  unfolding rfind
  rfind-append_some [] ys j h = h ∙ ap some (omega arith)
  rfind-append_some (x ∷ xs) ys j h = rw (rfind-append_some xs ys j h) (ap some (omega arith))

  rfind-append_none : (xs ys : Text) → rfind b ys ≡ none → rfind b (xs ++ ys) ≡ rfind b xs
  unfolding rfind
  rfind-append_none [] ys h = h
  rfind-append_none (x ∷ xs) ys h = rw (rfind-append_none xs ys h)

rfind_lt : (b : ℕ) (cs : Text) (i : ℕ) → rfind b cs ≡ some i → i < length cs
rfind_lt b cs i h =
    let l = rfind-LastAt b cs i h in
    omega (
      arith,
      ap (length {A = ℕ}) l.splits,
      length-append (l.upto ++ b ∷ []) l.behind,
      length-append l.upto (b ∷ []),
      l.index,
    )

rfind-count : (b : ℕ) (cs : Text) (i : ℕ) → rfind b cs ≡ some i → count b cs ≢ 0
rfind-count b cs i h e = cc (none-rfind b cs e)

-- The position behind a text: the newlines in it, and the bytes since the last one.
abbrev pub line_col : Text → ℕ × ℕ
line_col text = (count b'\n' text, column_after (rfind b'\n' text) (length text))

pub byte_offset-line_col :
    (source : Text) (offset : ℕ)
    → offset ≤ length source
    → byte_offset_to_line_col source offset ≡ line_col (take offset source)
unfolding byte_offset_to_line_col
byte_offset-line_col source offset h =
    let e : min offset (length source) ≡ offset = omega arith in rw (e, length-take offset source h)

-- `text` is whole lines, and then `col` bytes with no newline.
pub record EndsAt (text : Text) (line col : ℕ) : Type 0 where
  pub lines : Text
  pub last : Text
  pub splits : text ≡ lines ++ last
  pub count_lines : count b'\n' lines ≡ line
  pub whole_lines : (lines ≡ []) ⊎ ((l : Text) × (lines ≡ l ++ b'\n' ∷ []))
  pub last_line : count b'\n' last ≡ 0
  pub col_is : length last ≡ col

line_col-EndsAt : (text : Text) → EndsAt text (line_col text).0 (line_col text).1
line_col-EndsAt text = elim (Option-cases (rfind b'\n' text)) [
  | inl e ↦ record {
    lines = [];
    last = text;
    splits = refl;
    count_lines = sym (rfind-none b'\n' text e);
    whole_lines = inl refl;
    last_line = rfind-none b'\n' text e;
    col_is = rw e;
  }
  | inr (i, e) ↦
      let l = rfind-LastAt b'\n' text i e in
      record {
        lines = l.upto ++ b'\n' ∷ [];
        last = l.behind;
        splits = l.splits;
        count_lines = omega (
          arith,
          ap (count b'\n') l.splits,
          count-append b'\n' (l.upto ++ b'\n' ∷ []) l.behind,
          l.last,
        );
        whole_lines = inr (l.upto, refl);
        last_line = l.last;
        col_is = rw e (
            omega (
              arith,
              ap (length {A = ℕ}) l.splits,
              length-append (l.upto ++ b'\n' ∷ []) l.behind,
              length-append l.upto (b'\n' ∷ []),
              l.index,
            ));
      }
]

-- For an offset in the source, the answer is the number of newlines before it and the number of
-- bytes since the last one: the text before the offset is whole lines, as many as the first
-- component says, and then as many bytes with no newline as the second says.
pub byte_offset_to_line_col-EndsAt :
    (source : Text) (offset : ℕ)
    → offset ≤ length source
    → EndsAt
        (take offset source)
        (byte_offset_to_line_col source offset).0
        (byte_offset_to_line_col source offset).1
byte_offset_to_line_col-EndsAt source offset h =
    rw (byte_offset-line_col source offset h) (line_col-EndsAt (take offset source))

-- Behind two texts: the column of the first counts only while the second has no newline.
pub line_col-append :
    (xs ys : Text)
    → line_col (xs ++ ys) ≡ (
      (line_col xs).0 + (line_col ys).0,
      if (line_col ys).0 == 0 then (line_col xs).1 + (line_col ys).1 else (line_col ys).1,
    )
line_col-append xs ys = elim (Option-cases (rfind b'\n' ys)) [
  | inl e ↦ elim (Option-cases (rfind b'\n' xs)) [
    | inl d ↦ ground (
      arith,
      rfind-append_none b'\n' xs ys e,
      count-append b'\n' xs ys,
      length-append xs ys,
      rfind-none b'\n' ys e,
    )
    | inr (j, d) ↦ ground (
      arith,
      rfind-append_none b'\n' xs ys e,
      count-append b'\n' xs ys,
      length-append xs ys,
      rfind-none b'\n' ys e,
      rfind_lt b'\n' xs j d,
    )
  ]
  | inr (i, e) ↦ ground (
    arith,
    rfind-append_some b'\n' xs ys i e,
    count-append b'\n' xs ys,
    length-append xs ys,
    rfind-count b'\n' ys i e,
  )
]
