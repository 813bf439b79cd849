-- ===== src/TypeCheck/Nullable.antt =====
-- A union with none and an option are the same type.
use mathlib.Core.List.{append-nil}
use surql_parser.Prelude.{
  suc, Bool, true, false, not, Option, some, [], ◌∷◌, ◌++◌, ◌==◌, length, length-append, map, All,
  All-append, codes, Text, text_compare, is_whitespace, to_lower, ◌≡◌, refl, sym, ap, ◌∙◌, arith,
}
use surql_parser.Strings.{contains_text, ends_with, trim, trim_start, trim_end}
use surql_parser.Strings.Lines.{init-append, ends_with-append}
use surql_parser.Strings.Trim.{BeginsBlack, trim_start_black}
use surql_parser.TypeCheck.{
  strip_wrapper, is_none, split_bars, nullable, union, check, normalized, matches,
  surql_type_matches_rust,
}
use surql_parser.TypeCheck.Ends.{nullable-Agree, matches-Agree}

abbrev pub HasNoBar : Text → Type 0
HasNoBar t = All (λ c. (c == b'|') ≡ false) t

-- The text ends, and not with white space.
abbrev pub ends_black : Text → Bool
ends_black [] = false
ends_black (c ∷ []) = not (is_whitespace c)
ends_black (c ∷ d ∷ t) = ends_black (d ∷ t)

trim_end-ends_black : (t : Text) → ends_black t ≡ true → trim_end t ≡ t
unfolding trim_end
trim_end-ends_black [] h = cc
trim_end-ends_black (c ∷ []) h = let e : is_whitespace c ≡ false = ground arith in rw (trim_end, e)
trim_end-ends_black (c ∷ d ∷ t) h = rw (trim_end, trim_end-ends_black (d ∷ t) h) refl

ends_black-append : (xs t : Text) → ends_black t ≡ true → ends_black (xs ++ t) ≡ true
ends_black-append [] t h = h
ends_black-append (x ∷ xs) [] h = cc
ends_black-append (x ∷ []) (c ∷ t) h = h
ends_black-append (x ∷ y ∷ xs) (c ∷ t) h = ends_black-append (y ∷ xs) (c ∷ t) h

split_bars_plain : (t : Text) → HasNoBar t → split_bars t ≡ t ∷ []
unfolding split_bars
split_bars_plain [] h = refl
split_bars_plain (c ∷ t) h = rw (split_bars, h.0, split_bars_plain t h.1) refl

no_bar_found : (t : Text) → HasNoBar t → contains_text (codes "|") t ≡ false
no_bar_found [] h = refl
no_bar_found (c ∷ t) h = rw (h.0, no_bar_found t h.1) refl

map-append : (xs ys : Text) → map to_lower (xs ++ ys) ≡ map to_lower xs ++ map to_lower ys
map-append [] ys = refl
map-append (x ∷ xs) ys = ap (◌∷◌ (to_lower x)) (map-append xs ys)

-- A type in lower case, without white space around it, without a bar, and neither none nor null.
pub record IsPart (t : Text) : Type 0 where
  pub lower : map to_lower t ≡ t
  pub begins : BeginsBlack t
  pub ends : ends_black t ≡ true
  pub no_bar : HasNoBar t
  pub some_type : is_none t ≡ false

module _ (t : Text) (p : IsPart t) where
  normalized-union : normalized (codes "none | " ++ t) ≡ codes "none | " ++ t
  unfolding to_lower trim trim_start is_whitespace
  normalized-union =
      ap (λ l. trim (codes "none | " ++ l)) p.lower
      ∙ trim_end-ends_black (codes "none | " ++ t) (ends_black-append (codes "none | ") t p.ends)

  normalized-option :
      normalized (codes "option<" ++ (t ++ codes ">")) ≡ codes "option<" ++ (t ++ codes ">")
  unfolding to_lower trim trim_start is_whitespace
  normalized-option =
      ap (λ l. trim (codes "option<" ++ l))
        (map-append t (codes ">") ∙ ap (λ l. l ++ codes ">") p.lower)
      ∙ trim_end-ends_black (codes "option<" ++ (t ++ codes ">")) (
          ends_black-append (codes "option<") (t ++ codes ">")
            (ends_black-append t (codes ">") refl))

  strip-option : strip_wrapper (codes "option<" ++ (t ++ codes ">")) (codes "option<") ≡ some t
  strip-option =
      let e : ends_with b'>' (codes "option<" ++ (t ++ codes ">")) ≡ true =
        ends_with-append b'>' (codes "option<" ++ t) b'>' [] in
      rw e (ap some (init-append t b'>' [] ∙ append-nil t))

  parts : map (λ q. trim q) (split_bars (codes "none | " ++ t)) ≡ codes "none" ∷ t ∷ []
  unfolding split_bars trim trim_start trim_end is_whitespace
  parts =
      let s : trim (b' ' ∷ t) ≡ t =
        ap (λ q. trim_end q) (trim_start_black t p.begins) ∙ trim_end-ends_black t p.ends in
      rw (split_bars_plain t p.no_bar) (ap (λ q. codes "none" ∷ q ∷ []) s)

  module _ (rec : Text → Text → Option Bool) (rust : Text) where
    check-union : check rec (codes "none | " ++ t) rust ≡ nullable rec t rust
    unfolding check union text_compare
    check-union = ap (λ ps. union rec ps rust) parts ∙ rw p.some_type refl

    check-option : check rec (codes "option<" ++ (t ++ codes ">")) rust ≡ nullable rec t rust
    unfolding check
    check-option =
        let e : contains_text (codes "|") (codes "option<" ++ (t ++ codes ">")) ≡ false =
          no_bar_found (codes "option<" ++ (t ++ codes ">")) (
            All-append (λ c. (c == b'|') ≡ false) (codes "option<") (t ++ codes ">") (ground arith)
              (All-append (λ c. (c == b'|') ≡ false) t (codes ">") p.no_bar (ground arith))) in
        rw (e, strip-option)

-- A union of none with one other type goes together with exactly the Rust types that an option of
-- that type goes together with.
union-option :
    (t rust : Text)
    → IsPart t
    → surql_type_matches_rust (codes "none | " ++ t) rust
      ≡ surql_type_matches_rust (codes "option<" ++ (t ++ codes ">")) rust
unfolding surql_type_matches_rust matches
union-option t rust p =
    let f = matches (length (codes "none | " ++ t)) in
    let g = matches (length (codes "option<" ++ (t ++ codes ">"))) in
    let a =
      nullable-Agree (suc (length t)) f g
        (λ u r h.
          matches-Agree (length (codes "none | " ++ t))
            (length (codes "option<" ++ (t ++ codes ">"))) u r (omega (arith, h))
            (omega (arith, h, length-append t (codes ">"))))
        t rust (omega arith) in
    ap (λ l. check f l rust) (normalized-union t p)
    ∙ check-union t p f rust
    ∙ a.left
    ∙ sym (ap (λ l. check g l rust) (normalized-option t p) ∙ check-option t p g rust ∙ a.right)
