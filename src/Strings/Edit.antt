-- ===== src/Strings/Edit.antt =====
-- Editing a text line by line, with a state, and that a stable edit changes nothing the second time.
use surql_parser.Prelude.{
  Bool, true, false, List, [], ◌∷◌, if◌then◌else◌, is_empty, All, Text, ◌≡◌, refl, ap, Bool-cases,
  inl, inr,
}
use surql_parser.Strings.{ends_with, init}
use surql_parser.Strings.Lines.{
  lines, unlines, IsPlain, HasNoReturn, LastNonEmpty, lines-IsPlain, lines-unlines,
  lines-init-unlines, lines-ne-nil, lines-LastNonEmpty, ends_with-unlines, ends_with-init-unlines,
}

-- The lines put together, with a newline at the end where the content has one.
abbrev pub finish_lines : Text → List Text → Text
finish_lines content outs = if ends_with b'\n' content then unlines outs else init (unlines outs)

module _ {S : Type 0} (step : S → Text → S × Text) where
  unfoldable pub edit_lines : S → List Text → List Text
  edit_lines s [] = []
  edit_lines s (l ∷ ls) = let (s', out) = step s l in out ∷ edit_lines s' ls

  abbrev pub edited : S → Text → Text
  edited s content = finish_lines content (edit_lines s (lines content))

  -- A step that changes neither its own output nor the state behind it.
  pub record IsStable : Type 0 where
    pub again : (s : S) (l : Text) → step s (step s l).1 ≡ step s l
    pub plain : (s : S) (l : Text) → IsPlain l → IsPlain (step s l).1
    pub kept : (s : S) (l : Text) → is_empty l ≡ false → is_empty (step s l).1 ≡ false

  module _ (st : IsStable) where
    edit_lines-IsPlain : (s : S) (ls : List Text) → All IsPlain ls → All IsPlain (edit_lines s ls)
    unfolding edit_lines
    edit_lines-IsPlain s [] p = tt
    edit_lines-IsPlain s (l ∷ ls) p = (st.plain s l p.0, edit_lines-IsPlain (step s l).0 ls p.1)

    edit_lines-LastNonEmpty :
        (s : S) (ls : List Text) → LastNonEmpty ls → LastNonEmpty (edit_lines s ls)
    unfolding edit_lines
    edit_lines-LastNonEmpty s [] n = tt
    edit_lines-LastNonEmpty s (l ∷ []) n = st.kept s l n
    edit_lines-LastNonEmpty s (l ∷ k ∷ ls) n = edit_lines-LastNonEmpty (step s l).0 (k ∷ ls) n

    edit_lines-ne-nil :
        (s : S) (ls : List Text) → is_empty ls ≡ false → is_empty (edit_lines s ls) ≡ false
    unfolding edit_lines
    edit_lines-ne-nil s [] h = h
    edit_lines-ne-nil s (l ∷ ls) h = refl

    edit_lines-edit_lines :
        (s : S) (ls : List Text) → edit_lines s (edit_lines s ls) ≡ edit_lines s ls
    unfolding edit_lines
    edit_lines-edit_lines s [] = refl
    edit_lines-edit_lines s (l ∷ ls) =
        rw (st.again s l) (ap (◌∷◌ (step s l).1) (edit_lines-edit_lines (step s l).0 ls))

    ended_with :
        (b : Bool) (content : Text)
        → ends_with b'\n' content ≡ b
        → (outs : List Text)
        → finish_lines content outs ≡ (if b then unlines outs else init (unlines outs))
    ended_with b content e outs = rw e

    edited-nil : (s : S) → edited s [] ≡ []
    unfolding edit_lines lines
    edited-nil s = refl

    pub lines-edited :
        (s : S) (content : Text)
        → HasNoReturn content
        → lines (edited s content) ≡ edit_lines s (lines content)
    unfolding edit_lines lines
    lines-edited s [] h = ap (λ t. lines t) (edited-nil s)
    lines-edited s (c ∷ t) h =
        let ls = lines (c ∷ t) in
        let outs = edit_lines s ls in
        let plain = edit_lines-IsPlain s ls (lines-IsPlain (c ∷ t) h) in
        elim (Bool-cases (ends_with b'\n' (c ∷ t))) [
          | inl e ↦ rw (ended_with true (c ∷ t) e outs) (lines-unlines outs plain)
          | inr e ↦
              let last = edit_lines-LastNonEmpty s ls (lines-LastNonEmpty (c ∷ t) h e) in
              rw (ended_with false (c ∷ t) e outs) (lines-init-unlines outs plain last)
        ]

    pub edited-edited :
        (s : S) (content : Text)
        → HasNoReturn content
        → edited s (edited s content) ≡ edited s content
    edited-edited s [] h = ap (edited s) (edited-nil s)
    edited-edited s (c ∷ t) h =
        let ls = lines (c ∷ t) in
        let outs = edit_lines s ls in
        let plain = edit_lines-IsPlain s ls (lines-IsPlain (c ∷ t) h) in
        elim (Bool-cases (ends_with b'\n' (c ∷ t))) [
          | inl e ↦
              let back = lines-unlines outs plain in
              let ended = ends_with-unlines outs (edit_lines-ne-nil s ls (lines-ne-nil c t h)) in
              rw (ended_with true (c ∷ t) e outs, ended, back, edit_lines-edit_lines s ls)
          | inr e ↦
              let last = edit_lines-LastNonEmpty s ls (lines-LastNonEmpty (c ∷ t) h e) in
              let back = lines-init-unlines outs plain last in
              let ended = ends_with-init-unlines outs plain last in
              rw (ended_with false (c ∷ t) e outs, ended, back, edit_lines-edit_lines s ls)
        ]
