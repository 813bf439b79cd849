-- ===== src/Mcp/Overwrite.antt =====
-- `inject_overwrite` a second time.
use mathlib.Core.List.{append_assoc}
use surql_parser.Prelude.{
  ◌⊎◌, ℕ, Bool, true, false, not, ◌&&◌, ◌||◌, none, some, List, [], ◌∷◌, ◌++◌, ◌==◌, if◌then◌else◌,
  is_empty, take, drop, length, All, All-append, All-take, All-drop, find-All, find-found, codes,
  Text, is_whitespace, to_upper, ◌≡◌, refl, sym, ap, ◌∙◌, arith, Bool-cases, Option-cases, inl, inr,
}
use surql_parser.Strings.{starts_with, ends_with, trim_start, leading_ws, uppercase, init}
use surql_parser.Strings.Lines.{lines, unlines, IsPlain, HasNoReturn, ends_with-unlines}
use surql_parser.Strings.Edit.{edit_lines, edited, finish_lines, IsStable, edited-edited}
use surql_parser.Strings.Trim.{
  trim_start_black, trim_start-leading_ws, uppercase-append, uppercase-take,
}
use surql_parser.Strings.Plain.{
  BeginsWithD, BeginsWithD-black, leading_ws-IsPlain, trim_start-IsPlain, append-ne-nil,
}
use surql_parser.Mcp.{
  define_keywords, find_keyword, is_idempotent, with_overwrite, inject_define, inject_line,
  inject_overwrite,
}

-- A keyword is found behind itself, whatever follows, and begins with a D.
abbrev FindsItself : Text → Type 0
FindsItself k = ((rest : Text) → find_keyword (k ++ rest) ≡ some k) × (take 1 k ≡ codes "D")

keywords-FindsItself : All FindsItself define_keywords
keywords-FindsItself = (
  (λ r. refl, refl),
  (
    (λ r. refl, refl),
    (
      (λ r. refl, refl),
      ((λ r. refl, refl), ((λ r. refl, refl), ((λ r. refl, refl), ((λ r. refl, refl), tt)))),
    ),
  ),
)

-- What is written for a line without the keyword's clause.
abbrev inserted : Text → Text → Text
inserted k trimmed = take (length k) trimmed ++ (codes " OVERWRITE" ++ drop (length k) trimmed)

inserted-BeginsWithD :
    (k trimmed : Text)
    → take 1 k ≡ codes "D"
    → starts_with k (uppercase trimmed) ≡ true
    → BeginsWithD (inserted k trimmed)
inserted-BeginsWithD [] trimmed h e = cc
inserted-BeginsWithD (p ∷ k) [] h e = cc
inserted-BeginsWithD (p ∷ k) (c ∷ t) h e = ground arith

not_comment :
    (t : Text)
    → BeginsWithD t
    → (starts_with (codes "/*") t ≡ false) × (starts_with (codes "--") t ≡ false)
unfolding to_upper
not_comment [] h = absurd h
not_comment (c ∷ t) h =
    let a : (c == b'/') ≡ false = ground arith in
    let b : (c == b'-') ≡ false = ground arith in (rw a, rw b)

drop-inserted :
    (k trimmed : Text)
    → starts_with k (uppercase trimmed) ≡ true
    → drop (length k) (inserted k trimmed) ≡ codes " OVERWRITE" ++ drop (length k) trimmed
drop-inserted [] trimmed h = refl
drop-inserted (p ∷ k) [] h = cc
drop-inserted (p ∷ k) (c ∷ t) h = drop-inserted k t (ground arith)

is_idempotent-overwrite : (after : Text) → is_idempotent (codes " OVERWRITE" ++ after) ≡ true
unfolding trim_start is_whitespace to_upper
is_idempotent-overwrite after = refl

module _ (line k : Text) (found : find_keyword (uppercase (trim_start line)) ≡ some k) where
  begun : starts_with k (uppercase (trim_start line)) ≡ true
  begun = find-found (λ j. starts_with j (uppercase (trim_start line))) define_keywords k found

  itself : FindsItself k
  itself =
      find-All FindsItself (λ j. starts_with j (uppercase (trim_start line))) define_keywords k
        keywords-FindsItself found

  out : Text
  out = leading_ws line ++ inserted k (trim_start line)

  inserted_d : BeginsWithD (inserted k (trim_start line))
  inserted_d = inserted-BeginsWithD k (trim_start line) itself.1 begun

  trim_start-out : trim_start out ≡ inserted k (trim_start line)
  unfolding out
  trim_start-out =
      trim_start-leading_ws line (inserted k (trim_start line))
      ∙ trim_start_black (inserted k (trim_start line))
          (BeginsWithD-black (inserted k (trim_start line)) inserted_d)

  find_keyword-out : find_keyword (uppercase (trim_start out)) ≡ some k
  find_keyword-out =
      ap (λ t. find_keyword (uppercase t)) trim_start-out
      ∙ ap find_keyword (
          uppercase-append (take (length k) (trim_start line))
            (codes " OVERWRITE" ++ drop (length k) (trim_start line))
          ∙ ap (λ t. t ++ uppercase (codes " OVERWRITE" ++ drop (length k) (trim_start line)))
              (uppercase-take k (trim_start line) begun))
      ∙ itself.0 (uppercase (codes " OVERWRITE" ++ drop (length k) (trim_start line)))

  with_overwrite-out : with_overwrite k out (trim_start out) ≡ out
  unfolding with_overwrite
  with_overwrite-out = rw (
    trim_start-out,
    drop-inserted k (trim_start line) begun,
    is_idempotent-overwrite (drop (length k) (trim_start line)),
  )

  -- The written line is not a comment and is not changed again.
  inject_line-out : (inside : Bool) → inside ≡ false → inject_line inside out ≡ (false, out)
  unfolding inject_line
  inject_line-out inside e =
      let (a, b) = not_comment (inserted k (trim_start line)) inserted_d in
      let a' : starts_with (codes "/*") (trim_start out) ≡ false =
        ap (starts_with (codes "/*")) trim_start-out ∙ a in
      let b' : starts_with (codes "--") (trim_start out) ≡ false =
        ap (starts_with (codes "--")) trim_start-out ∙ b in
      rw (e, a', b', find_keyword-out)
        (ap (λ t. (false, t)) (unfold inject_define in with_overwrite-out))

abbrev commented : Bool → Text → Bool
commented b line =
    (b || starts_with (codes "/*") (trim_start line)) || starts_with (codes "--") (trim_start line)

comment_line : (b : Bool) (line : Text) → commented b line ≡ true → (inject_line b line).1 ≡ line
unfolding inject_line
comment_line b line h = rw h

define_line :
    (b : Bool) (line : Text)
    → commented b line ≡ false
    → (b ≡ false)
      × (inject_line b line
          ≡ (false, inject_define (find_keyword (uppercase (trim_start line))) line))
unfolding inject_line
define_line false line h =
    let e : starts_with (codes "/*") (trim_start line) ≡ false = ground arith in (refl, rw (h, e))
define_line true line h = cc

inject_define-none : (line : Text) → inject_define none line ≡ line
unfolding inject_define
inject_define-none line = refl

-- One of two: the line stays, or it is a definition and is rewritten.
data Injected (b : Bool) (line : Text) : Type 0 where
  stays : (inject_line b line).1 ≡ line → Injected b line
  rewritten :
      (k : Text) (found : find_keyword (uppercase (trim_start line)) ≡ some k)
      → b ≡ false
      → inject_line b line ≡ (false, out line k found)
      → Injected b line

inject_define-some :
    (line k : Text) (found : find_keyword (uppercase (trim_start line)) ≡ some k)
    → (inject_define (some k) line ≡ line) ⊎ (inject_define (some k) line ≡ out line k found)
unfolding inject_define out
inject_define-some line k found =
    elim (Bool-cases (is_idempotent (drop (length k) (trim_start line)))) [
      | inl e ↦ inl (rw e)
      | inr e ↦ inr (rw e)
    ]

injected : (b : Bool) (line : Text) → Injected b line
injected b line = elim (Bool-cases (commented b line)) [
  | inl c ↦ stays (comment_line b line c)
  | inr c ↦
      let (f, e) = define_line b line c in
      elim (Option-cases (find_keyword (uppercase (trim_start line)))) [
        | inl n ↦ stays (ap (λ p. p.1) e ∙ rw n (inject_define-none line))
        | inr (k, found) ↦ elim (inject_define-some line k found) [
          | inl s ↦ stays (ap (λ p. p.1) e ∙ ap (λ o. inject_define o line) found ∙ s)
          | inr s ↦
              rewritten k found f
                (e ∙ ap (λ t. (false, t)) (ap (λ o. inject_define o line) found ∙ s))
        ]
      ]
]

again :
    (b : Bool) (line : Text)
    → Injected b line
    → inject_line b (inject_line b line).1 ≡ inject_line b line
again b line (stays e) = ap (inject_line b) e
again b line (rewritten k found f e) =
    ap (λ p. inject_line b p.1) e ∙ inject_line-out line k found b f ∙ sym e

plain : (b : Bool) (line : Text) → Injected b line → IsPlain line → IsPlain (inject_line b line).1
unfolding out
plain b line (stays e) p = rw e p
plain b line (rewritten k found f e) p =
    let P : ℕ → Type 0 = λ c. ((c == b'\n') ≡ false) × ((c == b'\r') ≡ false) in
    let t = trim_start line in
    let pt = trim_start-IsPlain line p in
    rw e (
      All-append P (leading_ws line) (inserted k t) (leading_ws-IsPlain line p) (
        All-append P (take (length k) t) (codes " OVERWRITE" ++ drop (length k) t)
          (All-take P (length k) t pt)
          (All-append P (codes " OVERWRITE") (drop (length k) t) (ground arith)
            (All-drop P (length k) t pt))))

kept :
    (b : Bool) (line : Text)
    → Injected b line
    → is_empty line ≡ false
    → is_empty (inject_line b line).1 ≡ false
unfolding out
kept b line (stays e) h = ap is_empty e ∙ h
kept b line (rewritten k found f e) h =
    ap (λ p. is_empty p.1) e
    ∙ ap is_empty (
        sym (
          append_assoc (leading_ws line) (take (length k) (trim_start line))
            (codes " OVERWRITE" ++ drop (length k) (trim_start line))))
    ∙ append-ne-nil (leading_ws line ++ take (length k) (trim_start line)) b' '
        (codes "OVERWRITE" ++ drop (length k) (trim_start line))

inject_line-IsStable : IsStable inject_line
inject_line-IsStable = record {
  again = λ b line. again b line (injected b line);
  plain = λ b line. plain b line (injected b line);
  kept = λ b line. kept b line (injected b line);
}

finished :
    (content : Text) (outs : List Text)
    → (if not (ends_with b'\n' content) && ends_with b'\n' (unlines outs)
        then init (unlines outs)
        else unlines outs)
      ≡ finish_lines content outs
finished content [] = elim (Bool-cases (ends_with b'\n' content)) [ inl e ↦ rw e | inr e ↦ rw e ]
finished content (o ∷ outs) = elim (Bool-cases (ends_with b'\n' content)) [
  | inl e ↦ rw e
  | inr e ↦ rw (e, ends_with-unlines (o ∷ outs) refl)
]

inject_overwrite-edited :
    (content : Text) → inject_overwrite content ≡ edited inject_line false content
unfolding inject_overwrite
inject_overwrite-edited content = finished content (edit_lines inject_line false (lines content))

-- On a content with no carriage return, injecting a second time changes nothing.
pub inject_overwrite_idempotent :
    (content : Text)
    → HasNoReturn content
    → inject_overwrite (inject_overwrite content) ≡ inject_overwrite content
inject_overwrite_idempotent content h =
    rw (inject_overwrite-edited content, inject_overwrite-edited (edited inject_line false content))
      (edited-edited inject_line inject_line-IsStable false content h)
