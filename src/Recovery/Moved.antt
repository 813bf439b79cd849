-- ===== src/Recovery/Moved.antt =====
-- The move of a chunk's diagnostics to their place in the document; the columns of diagnostics are in
-- characters.
use Prim.Native.Nat.{◌-◌}
use surql_parser.Prelude.{
  zero, suc, leb, ltb, ◌&&◌, take-take, ℕ, ◌+◌, ◌≤◌, ◌<◌, [], ◌∷◌, ◌≡◌, refl, sym, ap, ◌∙◌, arith,
  ◌==◌, if◌then◌else◌, length, length-append, length-take, length-drop, take-add, take, drop, Text,
}
use surql_parser.Recovery.{move, byte_offset_to_line_col, Diagnostic}
use surql_parser.Recovery.Position.{
  byte_offset_to_line_col-EndsAt, line_col, byte_offset-line_col, line_col-append,
}

-- How many characters a text in UTF-8 has: a byte from 128 to 191 goes on with one.
abbrev chars_in : Text → ℕ
chars_in [] = 0
chars_in (c ∷ cs) = let rest = chars_in cs in if leb 128 c && ltb c 192 then rest else suc rest

-- The characters between the start of the line and the offset.
abbrev char_column : Text → ℕ → ℕ
char_column source offset =
    chars_in (drop (offset - (byte_offset_to_line_col source offset).1) (take offset source))

-- The diagnostic that points at the bytes from `start` to `end`, with lines and columns from 1, and the
-- columns in characters.
abbrev pub diagnostic_at : Text → Text → ℕ → ℕ → Diagnostic
diagnostic_at message source start end = record {
  message = message;
  line = (byte_offset_to_line_col source start).0 + 1;
  column = char_column source start + 1;
  end_line = (byte_offset_to_line_col source end).0 + 1;
  end_column = char_column source end + 1;
}

abbrev pub IsAscii : Text → Type 0
IsAscii [] = Unit
IsAscii (c ∷ cs) = (c < 128) × IsAscii cs

IsAscii-drop : (n : ℕ) (cs : Text) → IsAscii cs → IsAscii (drop n cs)
IsAscii-drop zero cs h = h
IsAscii-drop (suc n) [] h = h
IsAscii-drop (suc n) (c ∷ cs) h = IsAscii-drop n cs h.1

IsAscii-take : (n : ℕ) (cs : Text) → IsAscii cs → IsAscii (take n cs)
IsAscii-take zero cs h = tt
IsAscii-take (suc n) [] h = h
IsAscii-take (suc n) (c ∷ cs) h = (h.0, IsAscii-take n cs h.1)

chars_in-length : (cs : Text) → IsAscii cs → chars_in cs ≡ length cs
chars_in-length [] h = refl
chars_in-length (c ∷ cs) h = ground (arith, chars_in-length cs h.1, h.0)

column_le :
    (source : Text) (offset : ℕ)
    → offset ≤ length source
    → (byte_offset_to_line_col source offset).1 ≤ offset
column_le source offset h =
    let e = byte_offset_to_line_col-EndsAt source offset h in
    omega (
      arith,
      ap (length {A = ℕ}) e.splits,
      length-append e.lines e.last,
      length-take offset source h,
      e.col_is,
    )

-- In ASCII text columns in characters are columns in bytes.
char_column-IsAscii :
    (source : Text) (offset : ℕ)
    → IsAscii source
    → offset ≤ length source
    → char_column source offset ≡ (byte_offset_to_line_col source offset).1
char_column-IsAscii source offset a h =
    let col = (byte_offset_to_line_col source offset).1 in
    let line = take offset source in
    chars_in-length (drop (offset - col) line)
      (IsAscii-drop (offset - col) line (IsAscii-take offset source a))
    ∙ omega (
      arith,
      length-drop (offset - col) line,
      length-take offset source h,
      column_le source offset h,
    )

-- The position of `k` in the text behind `base` gives that of `base + k` in the whole.
position-drop :
    (source : Text) (base k : ℕ)
    → base + k ≤ length source
    → byte_offset_to_line_col source (base + k) ≡ (
      (byte_offset_to_line_col source base).0 + (byte_offset_to_line_col (drop base source) k).0,
      if (byte_offset_to_line_col (drop base source) k).0 == 0
          then (byte_offset_to_line_col source base).1
            + (byte_offset_to_line_col (drop base source) k).1
          else (byte_offset_to_line_col (drop base source) k).1,
    )
position-drop source base k h =
    rw
      (
        byte_offset-line_col source (base + k) h,
        byte_offset-line_col source base (omega arith),
        byte_offset-line_col (drop base source) k (omega (arith, length-drop base source)),
        take-add base k source (omega arith),
      )
      (line_col-append (take base source) (take k (drop base source)))

-- A chunk has the positions of the text from its start on.
position-take :
    (cs : Text) (n k : ℕ)
    → k ≤ n
    → n ≤ length cs
    → byte_offset_to_line_col (take n cs) k ≡ byte_offset_to_line_col cs k
position-take cs n k h m =
    byte_offset-line_col (take n cs) k (omega (arith, length-take n cs m))
    ∙ ap line_col (take-take k n cs h)
    ∙ sym (byte_offset-line_col cs k (omega arith))

-- `&source[base..base + n]`
abbrev pub chunk : Text → ℕ → ℕ → Text
chunk source base n = take n (drop base source)

module _ (source : Text) (base n start end : ℕ) (inside : base + n ≤ length source)
    (start_inside : start ≤ n) (end_inside : end ≤ n) where
  position-chunk :
      (k : ℕ)
      → k ≤ n
      → byte_offset_to_line_col source (base + k) ≡ (
        (byte_offset_to_line_col source base).0
            + (byte_offset_to_line_col (chunk source base n) k).0,
        if (byte_offset_to_line_col (chunk source base n) k).0 == 0
            then (byte_offset_to_line_col source base).1
              + (byte_offset_to_line_col (chunk source base n) k).1
            else (byte_offset_to_line_col (chunk source base n) k).1,
      )
  position-chunk k h =
      rw (position-take (drop base source) n k h (omega (arith, length-drop base source)))
        (position-drop source base k (omega arith))

  module _ (ascii : IsAscii source) where
    source_column :
        (k : ℕ)
        → k ≤ n
        → char_column source (base + k) ≡ (byte_offset_to_line_col source (base + k)).1
    source_column k h = char_column-IsAscii source (base + k) ascii (omega arith)

    chunk_column :
        (k : ℕ)
        → k ≤ n
        → char_column (chunk source base n) k ≡ (byte_offset_to_line_col (chunk source base n) k).1
    chunk_column k h =
        char_column-IsAscii (chunk source base n) k
          (IsAscii-take n (drop base source) (IsAscii-drop base source ascii))
          (omega (
            arith,
            length-drop base source,
            length-take n (drop base source) (omega (arith, length-drop base source)),
          ))

    -- For a chunk of an ASCII source and a diagnostic whose range lies in the chunk: where the start and
    -- the end of the range are both on the first line of the chunk, or neither is, the moved diagnostic
    -- is the one that points at the same bytes of the whole document.
    pub move-diagnostic_at :
        (message : Text)
        → ((byte_offset_to_line_col (chunk source base n) start).0 == 0)
          ≡ ((byte_offset_to_line_col (chunk source base n) end).0 == 0)
        → move
            (byte_offset_to_line_col source base).0
            (byte_offset_to_line_col source base).1
            (diagnostic_at message (chunk source base n) start end)
          ≡ diagnostic_at message source (base + start) (base + end)
    unfolding move
    move-diagnostic_at message same =
        rw
          (
            source_column start start_inside,
            source_column end end_inside,
            chunk_column start start_inside,
            chunk_column end end_inside,
          )
          (ground (arith, position-chunk start start_inside, position-chunk end end_inside))
