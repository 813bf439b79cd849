-- ===== src/Signature/Split.antt =====
-- Parameters that are joined and split again.
use mathlib.Core.List.{append_assoc, append-nil}
use surql_parser.Prelude.{
  ℕ, Bool, true, false, Option, none, some, List, [], ◌∷◌, ◌++◌, if◌then◌else◌, is_empty, All,
  codes, Text, is_whitespace, ◌≡◌, refl, sym, ap, ◌∙◌, arith, Bool-cases, inl, inr,
}
use surql_parser.Strings.{trim, trim_start, trim_end}
use surql_parser.Signature.{ℤ, pos, moved, is_cut, pushed, split_from, split_params}

-- The depth behind a text, if no comma in it is outside brackets.
unfoldable pub walk : ℤ → Text → Option ℤ
walk depth [] = some depth
walk depth (c ∷ s) = let rest = walk (moved depth c) s in if is_cut depth c then none else rest

-- A parameter: not empty, no white space around it, its brackets closed, and its commas inside them.
pub record IsParam (p : Text) : Type 0 where
  pub closed : walk (pos 0) p ≡ some (pos 0)
  pub trimmed : trim p ≡ p
  pub something : is_empty p ≡ false

-- `join(", ")`
abbrev pub joined : List Text → Text
joined [] = []
joined (p ∷ []) = p
joined (p ∷ q ∷ ps) = p ++ (codes ", " ++ joined (q ∷ ps))

split_from-walk :
    (d e : ℤ) (p current s : Text)
    → walk d p ≡ some e
    → split_from d current (p ++ s) ≡ split_from e (current ++ p) s
unfolding walk split_from
split_from-walk d e [] current s h =
    let same : d ≡ e = ground arith in rw (same, append-nil current)
split_from-walk d e (c ∷ p) current s h = elim (Bool-cases (is_cut d c)) [
  | inl k ↦ cc (the_end d c p k, h)
  | inr k ↦
      let further : walk (moved d c) p ≡ some e = (rw (walk, k) at h) in
      rw (split_from, k)
        (split_from-walk (moved d c) e p (current ++ c ∷ []) s further
          ∙ ap (λ t. split_from e t s) (append_assoc current (c ∷ []) p))
]
  where
    the_end : (d : ℤ) (c : ℕ) (p : Text) → is_cut d c ≡ true → walk d (c ∷ p) ≡ none
    the_end d c p k = rw (walk, k)

-- What stands before a parameter: nothing, or the blank behind a comma.
abbrev lead : Bool → Text
lead true = codes " "
lead false = []

trim-lead : (b : Bool) (p : Text) → IsParam p → trim (lead b ++ p) ≡ p
unfolding trim trim_start is_whitespace
trim-lead true p h = h.trimmed
trim-lead false p h = h.trimmed

pushed-param :
    (b : Bool) (p : Text) (rest : List Text) → IsParam p → pushed (lead b ++ p) rest ≡ p ∷ rest
pushed-param b p rest h = rw (trim-lead b p h, h.something) refl

split_joined :
    (b : Bool) (p : Text) (ps : List Text)
    → IsParam p
    → All IsParam ps
    → split_from (pos 0) (lead b) (joined (p ∷ ps)) ≡ p ∷ ps
unfolding split_from
split_joined b p [] h hs =
    ap (split_from (pos 0) (lead b)) (sym (append-nil p))
    ∙ split_from-walk (pos 0) (pos 0) p (lead b) [] h.closed
    ∙ pushed-param b p [] h
split_joined b p (q ∷ ps) h hs =
    split_from-walk (pos 0) (pos 0) p (lead b) (codes ", " ++ joined (q ∷ ps)) h.closed
    ∙ pushed-param b p (split_from (pos 0) (lead true) (joined (q ∷ ps))) h
    ∙ ap (◌∷◌ p) (split_joined true q ps hs.0 hs.1)

-- Parameters that are joined by a comma and a blank are split again by `split_params`: parameters with
-- no white space around them, none empty, each with its brackets closed and its commas inside them.
split_params-joined : (ps : List Text) → All IsParam ps → split_params (joined ps) ≡ ps
unfolding split_params split_from trim trim_start trim_end is_whitespace
split_params-joined [] h = refl
split_params-joined (p ∷ ps) h = split_joined false p ps h.0 h.1
