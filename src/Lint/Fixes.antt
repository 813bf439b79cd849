-- ===== src/Lint/Fixes.antt =====
-- `apply_fixes` of src/lint.rs, a second time.
use mathlib.Core.List.{append_assoc}
use surql_parser.Prelude.{
  ℕ, Bool, true, false, not, ◌&&◌, ◌||◌, List, [], ◌∷◌, ◌++◌, ◌==◌, if◌then◌else◌, is_empty,
  All-append, codes, Text, is_whitespace, to_upper, ◌≡◌, refl, sym, ap, ◌∙◌, arith, Bool-cases, inl,
  inr,
}
use surql_parser.Strings.{
  starts_with, contains_text, ends_with, trim, trim_start, trim_end, leading_ws, uppercase, init,
}
use surql_parser.Strings.Lines.{lines, unlines, IsPlain, HasNoReturn}
use surql_parser.Strings.Edit.{
  edit_lines, edited, finish_lines, IsStable, edited-edited, lines-edited,
}
use surql_parser.Strings.Trim.{
  trim_start_black, trim_start-leading_ws, trim_end-append, uppercase-append, contains_text-append,
}
use surql_parser.Strings.Plain.{
  BeginsWithD, BeginsWithD-black, leading_ws-IsPlain, trim_start-IsPlain, trim_end-IsPlain,
  init-IsPlain, append-ne-nil,
}
use surql_parser.Lint.{is_fixable, fix_line, fix_step, count_fixes, apply_fixes}

-- The body of a field's definition, without its semicolon, begins with a D.
init-BeginsWithD :
    (t ys : Text)
    → starts_with (codes "DEFINE FIELD") (uppercase t) ≡ true
    → BeginsWithD (init t ++ ys)
init-BeginsWithD [] ys h = cc
init-BeginsWithD (c ∷ []) ys h = ground arith
init-BeginsWithD (c ∷ d ∷ t) ys h = ground arith

not_fixable : (a b d : Bool) → (a && b && not true && d) ≡ false
not_fixable a b d = ground arith

module _ (line : Text) (fixable : is_fixable line ≡ true) where
  body : Text
  body = init (trim line)

  body_d : BeginsWithD (body ++ codes " TYPE any;")
  unfolding body
  body_d = init-BeginsWithD (trim line) (codes " TYPE any;") (ground arith)

  fixed_line : Text
  fixed_line = leading_ws line ++ (body ++ codes " TYPE any;")

  trim-fixed_line : trim fixed_line ≡ body ++ codes " TYPE any;"
  unfolding fixed_line trim is_whitespace
  trim-fixed_line =
      ap (λ t. trim_end t)
        (trim_start-leading_ws line (body ++ codes " TYPE any;")
          ∙ trim_start_black (body ++ codes " TYPE any;")
              (BeginsWithD-black (body ++ codes " TYPE any;") body_d))
      ∙ ap (λ t. trim_end t) (sym (append_assoc body (codes " TYPE any") (codes ";")))
      ∙ trim_end-append (body ++ codes " TYPE any") b';' refl
      ∙ append_assoc body (codes " TYPE any") (codes ";")

  has_type : contains_text (codes " TYPE ") (uppercase (trim fixed_line)) ≡ true
  unfolding to_upper
  has_type =
      ap (λ t. contains_text (codes " TYPE ") (uppercase t)) trim-fixed_line
      ∙ ap (contains_text (codes " TYPE ")) (uppercase-append body (codes " TYPE any;"))
      ∙ contains_text-append (codes " TYPE ") (uppercase body) (codes "ANY;")

  is_fixable-fixed_line : is_fixable fixed_line ≡ false
  is_fixable-fixed_line =
      let a = starts_with (codes "DEFINE FIELD") (uppercase (trim fixed_line)) in
      let b = ends_with b';' (trim fixed_line) in
      let d = not (contains_text (codes " FLEXIBLE ") (uppercase (trim fixed_line))) in
      ap (λ t. a && b && not t && d) has_type ∙ not_fixable a b d

-- One of two: the line stays, or it is a field's definition and gets a type.
data Fixed (line : Text) : Type 0 where
  stays : is_fixable line ≡ false → fix_line line ≡ line → Fixed line
  typed : (fixable : is_fixable line ≡ true) → fix_line line ≡ fixed_line line fixable → Fixed line

fixed : (line : Text) → Fixed line
unfolding fix_line fixed_line body
fixed line = elim (Bool-cases (is_fixable line)) [ inl e ↦ typed e (rw e) | inr e ↦ stays e (rw e) ]

is_fixable-fix_line : (line : Text) → Fixed line → is_fixable (fix_line line) ≡ false
is_fixable-fix_line line (stays e f) = ap is_fixable f ∙ e
is_fixable-fix_line line (typed e f) = ap is_fixable f ∙ is_fixable-fixed_line line e

fix_line_stays : (line : Text) → is_fixable line ≡ false → fix_line line ≡ line
unfolding fix_line
fix_line_stays line e = rw e

fix_line-IsPlain : (line : Text) → Fixed line → IsPlain line → IsPlain (fix_line line)
unfolding fixed_line body trim
fix_line-IsPlain line (stays e f) p = rw f p
fix_line-IsPlain line (typed e f) p =
    let P : ℕ → Type 0 = λ c. ((c == b'\n') ≡ false) × ((c == b'\r') ≡ false) in
    let b =
      init-IsPlain (trim line) (trim_end-IsPlain (trim_start line) (trim_start-IsPlain line p)) in
    rw f (
      All-append P (leading_ws line) (init (trim line) ++ codes " TYPE any;")
        (leading_ws-IsPlain line p)
        (All-append P (init (trim line)) (codes " TYPE any;") b (ground arith)))

fix_line_kept :
    (line : Text) → Fixed line → is_empty line ≡ false → is_empty (fix_line line) ≡ false
unfolding fixed_line body
fix_line_kept line (stays e f) h = ap is_empty f ∙ h
fix_line_kept line (typed e f) h =
    ap is_empty f
    ∙ ap is_empty (sym (append_assoc (leading_ws line) (init (trim line)) (codes " TYPE any;")))
    ∙ append-ne-nil (leading_ws line ++ init (trim line)) b' ' (codes "TYPE any;")

fix_step-IsStable : IsStable fix_step
fix_step-IsStable = record {
  again = λ u line.
      ap (λ t. (u, t)) (fix_line_stays (fix_line line) (is_fixable-fix_line line (fixed line)));
  plain = λ u line. fix_line-IsPlain line (fixed line);
  kept = λ u line. fix_line_kept line (fixed line);
}

no_more_fixes : (ls : List Text) → count_fixes (edit_lines fix_step tt ls) ≡ 0
unfolding edit_lines
no_more_fixes [] = refl
no_more_fixes (l ∷ ls) = rw (is_fixable-fix_line l (fixed l)) (no_more_fixes ls)

finished :
    (source : Text) (outs : List Text)
    → (if ends_with b'\n' source || is_empty (unlines outs)
        then unlines outs
        else init (unlines outs))
      ≡ finish_lines source outs
finished source [] = elim (Bool-cases (ends_with b'\n' source)) [ inl e ↦ rw e | inr e ↦ rw e ]
finished source (o ∷ outs) = elim (Bool-cases (ends_with b'\n' source)) [
  | inl e ↦ rw e
  | inr e ↦ rw (e, append-ne-nil o b'\n' (unlines outs))
]

apply_fixes-edited :
    (source : Text) → apply_fixes source ≡ (edited fix_step tt source, count_fixes (lines source))
unfolding apply_fixes
apply_fixes-edited source =
    ap (λ t. (t, count_fixes (lines source)))
      (finished source (edit_lines fix_step tt (lines source)))

-- On a source with no carriage return, the fixed text needs no further fix: fixing it again gives the
-- same text, and counts none.
pub apply_fixes_idempotent :
    (source : Text)
    → HasNoReturn source
    → apply_fixes (apply_fixes source).0 ≡ ((apply_fixes source).0, 0)
apply_fixes_idempotent source h =
    let text = edited fix_step tt source in
    rw
      (
        apply_fixes-edited source,
        apply_fixes-edited text,
        edited-edited fix_step fix_step-IsStable tt source h,
        lines-edited fix_step fix_step-IsStable tt source h,
        no_more_fixes (lines source),
      )
      refl
