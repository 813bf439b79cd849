-- ===== src/Lsp/Position/Inverse.antt =====
-- The offset of a position is the offset that the position was made of.
use surql_parser.Prelude.{
  ℕ, zero, suc, ◌+◌, ◌-◌, ◌≤◌, true, false, some, [], ◌∷◌, ◌++◌, ◌≡◌, ◌⊎◌, inl, inr, refl, sym, ap,
  ◌∙◌, arith, ◌==◌, length, length-append, length-take, take, drop, min, Text, Bool-cases,
}
use mathlib.Core.List.{append_assoc, append-nil}
use surql_parser.Strings.{ends_with, init}
use surql_parser.Strings.Lines.{init-append, ends_with-append}
use surql_parser.Recovery.{count, byte_offset_to_line_col}
use surql_parser.Recovery.Position.{byte_offset_to_line_col-EndsAt}
use surql_parser.Lsp.Position.{
  char_index, split_newlines, strip_return, offset_in, or_end, position_to_byte_offset,
  offset_to_line_col,
}
use surql_parser.Lsp.Position.Lines.{
  IsAscii, begins_character, utf16_len, utf16_len-ascii, char_index-append, first_line,
  offset_in-first, offset_in-whole, first_line-append,
}

begins_character-first_line :
    (t : Text) → begins_character t ≡ true → begins_character (first_line t) ≡ true
unfolding first_line
begins_character-first_line [] h = refl
begins_character-first_line (c ∷ t) h = elim (Bool-cases (c == b'\n')) [
  | inl e ↦ rw e refl
  | inr e ↦ rw e h
]

begins_character-init :
    (c : ℕ) (t : Text) → begins_character (c ∷ t) ≡ true → begins_character (init (c ∷ t)) ≡ true
begins_character-init c [] h = refl
begins_character-init c (d ∷ t) h = h

-- What `strip_suffix` leaves has the text before the offset, unless that ends with a return itself.
strip_return-append :
    (last rest : Text)
    → ends_with 13 last ≡ false
    → begins_character rest ≡ true
    → (back : Text) × (strip_return (last ++ rest) ≡ last ++ back) × (begins_character back ≡ true)
strip_return-append last [] h b =
    let e = append-nil last in
    let kept : strip_return last ≡ last = rw h refl in ([], ap strip_return e ∙ kept ∙ sym e, refl)
strip_return-append last (c ∷ rest) h b = elim (Bool-cases (ends_with 13 (last ++ c ∷ rest))) [
  | inl q ↦ (init (c ∷ rest), rw q (init-append last c rest), begins_character-init c rest b)
  | inr q ↦ (c ∷ rest, rw q refl, b)
]

ends_with-last : (b : ℕ) (xs ys : Text) → ends_with b (xs ++ ys) ≡ false → ends_with b ys ≡ false
ends_with-last b xs [] h = refl
ends_with-last b xs (c ∷ ys) h = sym (ends_with-append b xs c ys) ∙ h

-- The position behind whole lines and the beginning of a line.
position-split :
    (source lines last rest : Text)
    → source ≡ (lines ++ last) ++ rest
    → (lines ≡ []) ⊎ ((l : Text) × (lines ≡ l ++ b'\n' ∷ []))
    → count b'\n' last ≡ 0
    → ends_with 13 last ≡ false
    → begins_character rest ≡ true
    → position_to_byte_offset source (count b'\n' lines, utf16_len last) ≡ length (lines ++ last)
unfolding position_to_byte_offset
position-split source lines last rest e whole one no_return b =
    let (back, stripped, begins) =
      strip_return-append last (first_line rest) no_return (begins_character-first_line rest b) in
    let shown = ap strip_return (first_line-append last rest one) ∙ stripped in
    let index = char_index-append (utf16_len last) 0 0 last back begins (omega arith) in
    let behind = offset_in-whole lines (last ++ rest) (utf16_len last) whole in
    let found =
      behind
      ∙ offset_in-first (last ++ rest) (utf16_len last) (length lines)
      ∙ ap (λ t. some (length lines + char_index (utf16_len last) 0 0 t)) shown
      ∙ ap (λ (i : ℕ). some (length lines + i)) index in
    let text = e ∙ append_assoc lines last rest in
    ap (λ t. or_end (offset_in (count b'\n' lines) (utf16_len last) 0 (split_newlines t)) source)
      text
    ∙ ap (λ o. or_end o source) found
    ∙ omega (arith, length-append lines last)

offset_to_line_col-eq :
    (source : Text) (offset : ℕ)
    → offset ≤ length source
    → offset_to_line_col source offset ≡ byte_offset_to_line_col source offset
unfolding offset_to_line_col byte_offset_to_line_col
offset_to_line_col-eq source offset h =
    let e : min offset (length source) ≡ offset = omega arith in rw e refl

take-drop : (n : ℕ) (t : Text) → t ≡ take n t ++ drop n t
take-drop zero t = refl
take-drop (suc n) [] = refl
take-drop (suc n) (c ∷ t) = ap (◌∷◌ c) (take-drop n t)

drop-append : (n : ℕ) (xs ys : Text) → n ≡ length xs → drop n (xs ++ ys) ≡ ys
drop-append zero [] ys e = refl
drop-append zero (x ∷ xs) ys e = absurd (omega arith)
drop-append (suc n) [] ys e = absurd (omega arith)
drop-append (suc n) (x ∷ xs) ys e = drop-append n xs ys (omega arith)

-- The bytes of the line that stand before the offset.
abbrev pub text_before : Text → ℕ → Text
text_before source offset =
    drop (offset - (offset_to_line_col source offset).1) (take offset source)

text_before-last :
    (source : Text) (offset : ℕ) (h : offset ≤ length source)
    → text_before source offset ≡ (byte_offset_to_line_col-EndsAt source offset h).last
text_before-last source offset h =
    let at = byte_offset_to_line_col-EndsAt source offset h in
    let size = ap length (sym at.splits) ∙ length-take offset source h in
    let col = ap (λ (p : ℕ × ℕ). p.1) (offset_to_line_col-eq source offset h) ∙ sym at.col_is in
    ap (drop (offset - (offset_to_line_col source offset).1)) at.splits
    ∙ drop-append (offset - (offset_to_line_col source offset).1) at.lines at.last
        (omega (arith, length-append at.lines at.last))

-- The position that the protocol gives an offset, its line and the number of UTF-16 units before it in
-- the line, leads back to the offset, where it is one of the source, stands at the beginning of a
-- character, and is not behind a return.
pub position_to_byte_offset-utf16_len :
    (source : Text) (offset : ℕ)
    → offset ≤ length source
    → ends_with 13 (take offset source) ≡ false
    → begins_character (drop offset source) ≡ true
    → position_to_byte_offset source
        ((offset_to_line_col source offset).0, utf16_len (text_before source offset))
      ≡ offset
position_to_byte_offset-utf16_len source offset h no_return b =
    let at = byte_offset_to_line_col-EndsAt source offset h in
    let split : source ≡ (at.lines ++ at.last) ++ drop offset source =
      take-drop offset source ∙ ap (λ t. t ++ drop offset source) at.splits in
    let found =
      position-split source at.lines at.last (drop offset source) split at.whole_lines at.last_line
        (ends_with-last 13 at.lines at.last (ap (ends_with 13) (sym at.splits) ∙ no_return)) b in
    let line =
      ap (λ (p : ℕ × ℕ). p.0) (offset_to_line_col-eq source offset h) ∙ sym at.count_lines in
    ap (λ (l : ℕ). position_to_byte_offset source (l, utf16_len (text_before source offset))) line
    ∙ ap (λ t. position_to_byte_offset source (count b'\n' at.lines, utf16_len t))
        (text_before-last source offset h)
    ∙ found
    ∙ ap length (sym at.splits)
    ∙ length-take offset source h

-- So do the line and the column in bytes, where the bytes before the offset in the line are of ASCII.
position_to_byte_offset-offset_to_line_col :
    (source : Text) (offset : ℕ)
    → offset ≤ length source
    → IsAscii (text_before source offset)
    → ends_with 13 (take offset source) ≡ false
    → begins_character (drop offset source) ≡ true
    → position_to_byte_offset source (offset_to_line_col source offset) ≡ offset
position_to_byte_offset-offset_to_line_col source offset h ascii no_return b =
    let at = byte_offset_to_line_col-EndsAt source offset h in
    let col =
      ap (λ (p : ℕ × ℕ). p.1) (offset_to_line_col-eq source offset h)
      ∙ sym at.col_is
      ∙ ap length (sym (text_before-last source offset h))
      ∙ sym (utf16_len-ascii (text_before source offset) ascii) in
    ap (λ (c : ℕ). position_to_byte_offset source ((offset_to_line_col source offset).0, c)) col
    ∙ position_to_byte_offset-utf16_len source offset h no_return b
