-- ===== src/Strings/Lines.antt =====
-- `text.lines()`, its lines put together again, and how the two go together.
use mathlib.Core.List.{append-nil}
use surql_parser.Prelude.{
  ℕ, Bool, true, false, ◌&&◌, List, [], ◌∷◌, ◌++◌, ◌==◌, if◌then◌else◌, is_empty, All, Text, ◌≡◌,
  refl, ap, ◌∙◌, Bool-cases, inl, inr,
}
use surql_parser.Strings.{ends_with, init}

abbrev pub push_first : ℕ → List Text → List Text
push_first c [] = (c ∷ []) ∷ []
push_first c (l ∷ ls) = (c ∷ l) ∷ ls

abbrev next_is : ℕ → Text → Bool
next_is b [] = false
next_is b (c ∷ text) = c == b

-- A newline ends a line, with the return before it; behind the last newline there is a line only if
-- there is a byte.
unfoldable pub lines : Text → List Text
lines [] = []
lines (c ∷ text) =
    let rest = lines text in
    if c == b'\n'
    then [] ∷ rest
    else if c == b'\r' && next_is b'\n' text
    then rest
    else push_first c rest

-- Each line with a newline behind it.
abbrev pub unlines : List Text → Text
unlines [] = []
unlines (l ∷ ls) = l ++ b'\n' ∷ unlines ls

-- `join("\n")`
abbrev pub join_lines : List Text → Text
join_lines [] = []
join_lines (t ∷ []) = t
join_lines (t ∷ u ∷ ts) = t ++ b'\n' ∷ join_lines (u ∷ ts)

-- No return and no newline.
abbrev pub IsPlain : Text → Type 0
IsPlain t = All (λ c. ((c == b'\n') ≡ false) × ((c == b'\r') ≡ false)) t

-- No return.
abbrev pub HasNoReturn : Text → Type 0
HasNoReturn t = All (λ c. (c == b'\r') ≡ false) t

abbrev pub LastNonEmpty : List Text → Type 0
LastNonEmpty [] = Unit
LastNonEmpty (l ∷ []) = is_empty l ≡ false
LastNonEmpty (l ∷ k ∷ ls) = LastNonEmpty (k ∷ ls)

push_first-IsPlain :
    (c : ℕ) (ls : List Text)
    → (c == b'\n') ≡ false
    → (c == b'\r') ≡ false
    → All IsPlain ls
    → All IsPlain (push_first c ls)
push_first-IsPlain c [] h k p = (((h, k), tt), tt)
push_first-IsPlain c (l ∷ ls) h k p = (((h, k), p.0), p.1)

pub lines-IsPlain : (t : Text) → HasNoReturn t → All IsPlain (lines t)
unfolding lines
lines-IsPlain [] h = tt
lines-IsPlain (c ∷ t) h = elim (Bool-cases (c == b'\n')) [
  | inl e ↦ rw (lines, e) (tt, lines-IsPlain t h.1)
  | inr e ↦ rw (lines, e, h.0) (push_first-IsPlain c (lines t) e h.0 (lines-IsPlain t h.1))
]

lines-line : (l : Text) (rest : Text) → IsPlain l → lines (l ++ b'\n' ∷ rest) ≡ l ∷ lines rest
unfolding lines
lines-line [] rest p = refl
lines-line (c ∷ l) rest p = rw (lines, p.0.0, p.0.1, lines-line l rest p.1) refl

lines-last : (c : ℕ) (l : Text) → IsPlain (c ∷ l) → lines (c ∷ l) ≡ (c ∷ l) ∷ []
unfolding lines
lines-last c [] p = rw (lines, p.0.0, p.0.1) refl
lines-last c (d ∷ l) p = rw (lines, p.0.0, p.0.1, lines-last d l p.1) refl

pub lines-unlines : (ls : List Text) → All IsPlain ls → lines (unlines ls) ≡ ls
unfolding lines
lines-unlines [] p = refl
lines-unlines (l ∷ ls) p = lines-line l (unlines ls) p.0 ∙ ap (◌∷◌ l) (lines-unlines ls p.1)

pub init-append : (xs : Text) (c : ℕ) (ys : Text) → init (xs ++ c ∷ ys) ≡ xs ++ init (c ∷ ys)
init-append [] c ys = refl
init-append (x ∷ []) c ys = refl
init-append (x ∷ y ∷ xs) c ys = ap (◌∷◌ x) (init-append (y ∷ xs) c ys)

init-line :
    (l : Text) (ls : List Text)
    → is_empty ls ≡ false
    → init (unlines (l ∷ ls)) ≡ l ++ b'\n' ∷ init (unlines ls)
init-line l [] h = cc
init-line l ([] ∷ ls) h = init-append l b'\n' (b'\n' ∷ unlines ls)
init-line l ((c ∷ k) ∷ ls) h = init-append l b'\n' (c ∷ (k ++ b'\n' ∷ unlines ls))

pub lines-init-unlines :
    (ls : List Text) → All IsPlain ls → LastNonEmpty ls → lines (init (unlines ls)) ≡ ls
unfolding lines
lines-init-unlines [] p n = refl
lines-init-unlines ([] ∷ []) p n = cc
lines-init-unlines ((c ∷ l) ∷ []) p n =
    ap (λ t. lines t) (init-append (c ∷ l) b'\n' [] ∙ append-nil (c ∷ l)) ∙ lines-last c l p.0
lines-init-unlines (l ∷ k ∷ ls) p n =
    ap (λ t. lines t) (init-line l (k ∷ ls) refl)
    ∙ lines-line l (init (unlines (k ∷ ls))) p.0
    ∙ ap (◌∷◌ l) (lines-init-unlines (k ∷ ls) p.1 n)

push_first-ne-nil : (c : ℕ) (ls : List Text) → is_empty (push_first c ls) ≡ false
push_first-ne-nil c [] = refl
push_first-ne-nil c (l ∷ ls) = refl

pub lines-ne-nil : (c : ℕ) (t : Text) → HasNoReturn (c ∷ t) → is_empty (lines (c ∷ t)) ≡ false
unfolding lines
lines-ne-nil c t h = elim (Bool-cases (c == b'\n')) [
  | inl e ↦ rw (lines, e)
  | inr e ↦ rw (lines, e, h.0) (push_first-ne-nil c (lines t))
]

LastNonEmpty-cons :
    (l : Text) (ls : List Text) → is_empty ls ≡ false → LastNonEmpty ls → LastNonEmpty (l ∷ ls)
LastNonEmpty-cons l [] h n = cc
LastNonEmpty-cons l (k ∷ ls) h n = n

push_first-LastNonEmpty :
    (c : ℕ) (ls : List Text) → LastNonEmpty ls → LastNonEmpty (push_first c ls)
push_first-LastNonEmpty c [] n = refl
push_first-LastNonEmpty c (l ∷ []) n = refl
push_first-LastNonEmpty c (l ∷ k ∷ ls) n = n

pub lines-LastNonEmpty :
    (t : Text) → HasNoReturn t → ends_with b'\n' t ≡ false → LastNonEmpty (lines t)
unfolding lines
lines-LastNonEmpty [] h e = tt
lines-LastNonEmpty (c ∷ []) h e = rw (lines, e, h.0) refl
lines-LastNonEmpty (c ∷ d ∷ t) h e = elim (Bool-cases (c == b'\n')) [
  | inl n ↦
      rw (lines, n)
        (LastNonEmpty-cons [] (lines (d ∷ t)) (lines-ne-nil d t h.1)
          (lines-LastNonEmpty (d ∷ t) h.1 e))
  | inr n ↦
      rw (lines, n, h.0)
        (push_first-LastNonEmpty c (lines (d ∷ t)) (lines-LastNonEmpty (d ∷ t) h.1 e))
]

pub ends_with-append :
    (b : ℕ) (xs : Text) (c : ℕ) (ys : Text) → ends_with b (xs ++ c ∷ ys) ≡ ends_with b (c ∷ ys)
ends_with-append b [] c ys = refl
ends_with-append b (x ∷ []) c ys = refl
ends_with-append b (x ∷ y ∷ xs) c ys = ends_with-append b (y ∷ xs) c ys

pub ends_with-unlines : (ls : List Text) → is_empty ls ≡ false → ends_with b'\n' (unlines ls) ≡ true
ends_with-unlines [] h = cc
ends_with-unlines (l ∷ []) h = ends_with-append b'\n' l b'\n' []
ends_with-unlines (l ∷ [] ∷ ls) h =
    ends_with-append b'\n' l b'\n' (b'\n' ∷ unlines ls) ∙ ends_with-unlines ([] ∷ ls) refl
ends_with-unlines (l ∷ (c ∷ k) ∷ ls) h =
    ends_with-append b'\n' l b'\n' (c ∷ (k ++ b'\n' ∷ unlines ls))
    ∙ ends_with-unlines ((c ∷ k) ∷ ls) refl

ends_with-IsPlain : (t : Text) → IsPlain t → ends_with b'\n' t ≡ false
ends_with-IsPlain [] p = refl
ends_with-IsPlain (c ∷ []) p = p.0.0
ends_with-IsPlain (c ∷ d ∷ t) p = ends_with-IsPlain (d ∷ t) p.1

ends_with-front :
    (l rest : Text)
    → is_empty rest ≡ false
    → ends_with b'\n' (l ++ b'\n' ∷ rest) ≡ ends_with b'\n' rest
ends_with-front l [] h = cc
ends_with-front l (c ∷ rest) h = ends_with-append b'\n' l b'\n' (c ∷ rest)

init-unlines-ne-nil :
    (k : Text) (ls : List Text) → LastNonEmpty (k ∷ ls) → is_empty (init (unlines (k ∷ ls))) ≡ false
init-unlines-ne-nil [] [] n = cc
init-unlines-ne-nil (c ∷ k) [] n = ap is_empty (init-append (c ∷ k) b'\n' [])
init-unlines-ne-nil [] (m ∷ ls) n = ap is_empty (init-line [] (m ∷ ls) refl)
init-unlines-ne-nil (c ∷ k) (m ∷ ls) n = ap is_empty (init-line (c ∷ k) (m ∷ ls) refl)

pub ends_with-init-unlines :
    (ls : List Text)
    → All IsPlain ls
    → LastNonEmpty ls
    → ends_with b'\n' (init (unlines ls)) ≡ false
ends_with-init-unlines [] p n = refl
ends_with-init-unlines (l ∷ []) p n =
    ap (ends_with b'\n') (init-append l b'\n' [] ∙ append-nil l) ∙ ends_with-IsPlain l p.0
ends_with-init-unlines (l ∷ k ∷ ls) p n =
    ap (ends_with b'\n') (init-line l (k ∷ ls) refl)
    ∙ ends_with-front l (init (unlines (k ∷ ls))) (init-unlines-ne-nil k ls n)
    ∙ ends_with-init-unlines (k ∷ ls) p.1 n
