-- ===== src/Lsp/Position/Lines.antt =====
-- The loop over the lines and the characters of the line that is looked for.
use surql_parser.Prelude.{
  ℕ, suc, ◌+◌, Bool, true, not, some, List, [], ◌∷◌, ◌++◌, ◌≡◌, ◌⊎◌, inl, inr, refl, sym, ap, ◌∙◌,
  arith, ltb, ◌==◌, if◌then◌else◌, length, all, Text, Bool-cases,
}
use surql_parser.Recovery.{count}
use surql_parser.Lsp.Position.{
  len_utf16, char_index, is_continuation, push_line, split_newlines, strip_return, offset_in,
}

abbrev pub IsAscii : Text → Type 0
IsAscii t = all (λ c. ltb c 128) t ≡ true

-- No character goes on at the beginning of the text.
abbrev pub begins_character : Text → Bool
begins_character [] = true
begins_character (c ∷ t) = not (is_continuation c)

-- The number of UTF-16 units of a text.
abbrev pub utf16_len : Text → ℕ
utf16_len [] = 0
utf16_len (c ∷ t) = let rest = utf16_len t in if is_continuation c then rest else len_utf16 c + rest

pub utf16_len-ascii : (t : Text) → IsAscii t → utf16_len t ≡ length t
utf16_len-ascii [] h = refl
utf16_len-ascii (c ∷ t) h = ground (arith, utf16_len-ascii t)

pub char_index-append :
    (target n index : ℕ) (last back : Text)
    → begins_character back ≡ true
    → target ≡ n + utf16_len last
    → char_index target n index (last ++ back) ≡ index + length last
unfolding char_index
char_index-append target n index [] [] b e = omega arith
char_index-append target n index [] (c ∷ back) b e = ground arith
char_index-append target n index (c ∷ last) back b e = elim (Bool-cases (is_continuation c)) [
  | inl k ↦ rw k (ground (arith, char_index-append target n (suc index) last back b))
  | inr k ↦
      rw k (ground (arith, char_index-append target (n + len_utf16 c) (suc index) last back b))
]

unfoldable pub first_line : Text → Text
first_line [] = []
first_line (c ∷ t) = let rest = first_line t in if c == b'\n' then [] else c ∷ rest

split_newlines-cons :
    (t : Text) → (further : List Text) × (split_newlines t ≡ first_line t ∷ further)
unfolding split_newlines first_line
split_newlines-cons [] = ([], refl)
split_newlines-cons (c ∷ t) =
    let (further, e) = split_newlines-cons t in
    elim (Bool-cases (c == b'\n')) [
      | inl q ↦ (split_newlines t, rw q refl)
      | inr q ↦ (further, rw (q, e) refl)
    ]

-- A byte more in a line that is passed over.
offset_in-push_line :
    (n character offset c : ℕ) (t : Text)
    → offset_in (suc n) character offset (push_line c (split_newlines t))
      ≡ offset_in (suc n) character (offset + 1) (split_newlines t)
unfolding offset_in
offset_in-push_line n character offset c t =
    let (further, e) = split_newlines-cons t in
    let sum : offset + (suc (length (first_line t)) + 1)
        ≡ offset + 1 + (length (first_line t) + 1) =
      omega arith in
    rw e (ap (λ o. offset_in n character o further) sum)

count-line : (xs : Text) → (n : ℕ) × (count b'\n' (xs ++ b'\n' ∷ []) ≡ suc n)
count-line [] = (0, refl)
count-line (x ∷ xs) =
    let (n, e) = count-line xs in
    elim (Bool-cases (x == b'\n')) [ inl q ↦ (suc n, rw (q, e) refl) | inr q ↦ (n, rw (q, e) refl) ]

-- The lines before the one that is looked for are passed over.
offset_in-lines :
    (xs rest : Text) (character offset : ℕ)
    → offset_in
        (count b'\n' (xs ++ b'\n' ∷ []))
        character
        offset
        (split_newlines ((xs ++ b'\n' ∷ []) ++ rest))
      ≡ offset_in 0 character (offset + length (xs ++ b'\n' ∷ [])) (split_newlines rest)
unfolding split_newlines offset_in
offset_in-lines [] rest character offset = refl
offset_in-lines (x ∷ xs) rest character offset =
    let further = offset_in-lines xs rest character (offset + 1) in
    let sum : offset + 1 + length (xs ++ b'\n' ∷ []) ≡ offset + suc (length (xs ++ b'\n' ∷ [])) =
      omega arith in
    let shorter = further ∙ ap (λ o. offset_in 0 character o (split_newlines rest)) sum in
    let (n, counted) = count-line xs in
    elim (Bool-cases (x == b'\n')) [
      | inl q ↦ rw q shorter
      | inr q ↦
          rw (q, counted)
            (offset_in-push_line n character offset x ((xs ++ b'\n' ∷ []) ++ rest)
              ∙ ap
                  (λ k.
                    offset_in k character (offset + 1)
                      (split_newlines ((xs ++ b'\n' ∷ []) ++ rest)))
                  (sym counted)
              ∙ shorter)
    ]

pub offset_in-first :
    (t : Text) (character offset : ℕ)
    → offset_in 0 character offset (split_newlines t)
      ≡ some (offset + char_index character 0 0 (strip_return (first_line t)))
unfolding offset_in
offset_in-first t character offset = let (further, e) = split_newlines-cons t in rw e refl

pub first_line-append :
    (last rest : Text) → count b'\n' last ≡ 0 → first_line (last ++ rest) ≡ last ++ first_line rest
unfolding first_line
first_line-append [] rest h = refl
first_line-append (c ∷ last) rest h = ground (arith, first_line-append last rest)

pub offset_in-whole :
    (lines rest : Text) (character : ℕ)
    → (lines ≡ []) ⊎ ((l : Text) × (lines ≡ l ++ b'\n' ∷ []))
    → offset_in (count b'\n' lines) character 0 (split_newlines (lines ++ rest))
      ≡ offset_in 0 character (length lines) (split_newlines rest)
offset_in-whole lines rest character (inl e) = rw e refl
offset_in-whole lines rest character (inr (l, e)) =
    let sum : 0 + length (l ++ b'\n' ∷ []) ≡ length (l ++ b'\n' ∷ []) = omega arith in
    rw e (
      offset_in-lines l rest character 0
      ∙ ap (λ o. offset_in 0 character o (split_newlines rest)) sum)
