-- ===== src/Lint/Results.antt =====
-- The results of `lint_schema`: where they lie, and their order.
use mathlib.Core.List.{Memᴰ}
use mathlib.Core.List.Memᴰ
use surql_parser.Prelude.{
  all, ltb, true, flat, ℕ, suc, ◌+◌, ◌≤◌, ◌&&◌, ◌||◌, some, List, [], ◌∷◌, ◌++◌, leb, is_empty,
  length, take, drop, codes, Text, ◌≡◌, refl, arith, Bool-cases, Option-cases, inl, inr,
}
use surql_parser.Prelude.Texts.{
  text_compare_refl, text_compare_eq, text_compare_gt, text_compare_lt, text_lt_trans,
}
use surql_parser.Prelude.Sorting.{Memᴰ-flat, Memᴰ-sort_by, IsOrder, IsSortedBy, sort_by-IsSortedBy}
use surql_parser.Strings.{contains_text, find_text, trim, uppercase}
use surql_parser.Strings.Lines.{lines}
use surql_parser.Schema.{nth, table, table_names, function_names, fields_of, indexes_of}
use surql_parser.Schema.Model.{SchemaGraph}
use surql_parser.Lint.Locations.{
  LintResult, Source, find_field_location, find_define_table_location,
  find_define_function_location,
}
use surql_parser.Lint.Passes.{
  missing_type, schemaless, select_star, select_stars, missing_index, unused, is_called, is_comment,
  is_inside_string, takes_all, lint_missing_type, lint_schemaless_table, lint_select_star,
  lint_missing_index, lint_unused_function, result_le, lint_schema,
}
use surql_parser.Lint.Placed.{
  IsPlaced, find_text-lt, mem-report, field-IsPlaced, table-IsPlaced, function-IsPlaced,
  length-uppercase,
}

result_le-IsOrder : IsOrder result_le
result_le-IsOrder = record {
  total = λ a b h. ground (
    arith,
    text_compare_gt a.file b.file,
    text_compare_lt a.file b.file,
    text_compare_eq a.file b.file,
    text_compare_refl a.file,
  );
  trans = λ a b c h k. ground (
    arith,
    text_lt_trans a.file b.file c.file,
    text_compare_eq a.file b.file,
    text_compare_eq b.file c.file,
  );
}

module _ (g : SchemaGraph) (sources : List Source) (r : LintResult) where
  missing_type-IsPlaced : Memᴰ r (lint_missing_type g sources) → IsPlaced sources r
  unfolding lint_missing_type
  missing_type-IsPlaced m =
      let (name, a, mf) =
        Memᴰ-flat (λ n. flat (missing_type sources n) (fields_of g n)) (table_names g) r m in
      let (f, b, mr) = Memᴰ-flat (missing_type sources name) (fields_of g name) r mf in
      elim (Option-cases f.kind) [
        | inl e ↦ field-IsPlaced sources r name f.name (
            mem-report _ _ _ (find_field_location sources name f.name) r
              (rw (missing_type, e) at mr))
        | inr (k, e) ↦ absurd (Memᴰ.not-nil (rw (missing_type, e) at mr))
      ]

  schemaless-IsPlaced : Memᴰ r (lint_schemaless_table g sources) → IsPlaced sources r
  unfolding lint_schemaless_table
  schemaless-IsPlaced m =
      let (name, a, mr) = Memᴰ-flat (schemaless g sources) (table_names g) r m in
      elim (Option-cases (table g name)) [
        | inl e ↦ absurd (Memᴰ.not-nil (rw (schemaless, e) at mr))
        | inr (t, e) ↦ elim (Bool-cases t.full) [
          | inl f ↦ absurd (Memᴰ.not-nil (rw (schemaless, e, f) at mr))
          | inr f ↦ table-IsPlaced sources r name (
              mem-report _ _ _ (find_define_table_location sources name) r
                (rw (schemaless, e, f) at mr))
        ]
      ]

  missing_index-IsPlaced : Memᴰ r (lint_missing_index g sources) → IsPlaced sources r
  unfolding lint_missing_index
  missing_index-IsPlaced m =
      let (name, a, mr) = Memᴰ-flat (missing_index g sources) (table_names g) r m in
      elim (Bool-cases (leb 5 (length (fields_of g name)) && is_empty (indexes_of g name))) [
        | inl e ↦ table-IsPlaced sources r name (
            mem-report _ _ _ (find_define_table_location sources name) r
              (rw (missing_index, e) at mr))
        | inr e ↦ absurd (Memᴰ.not-nil (rw (missing_index, e) at mr))
      ]

  unused-IsPlaced : Memᴰ r (lint_unused_function g sources) → IsPlaced sources r
  unfolding lint_unused_function
  unused-IsPlaced m =
      let (name, a, mr) = Memᴰ-flat (unused sources) (function_names g) r m in
      elim (Bool-cases (is_called sources name)) [
        | inl e ↦ absurd (Memᴰ.not-nil (rw (unused, e) at mr))
        | inr e ↦
            function-IsPlaced sources r name (
              mem-report _ _ _ (find_define_function_location sources name) r
                (rw (unused, e) at mr))
      ]

-- A result of one line is on that line.
select_star_lem :
    (file : Text) (n : ℕ) (line : Text) (r : LintResult)
    → Memᴰ r (select_star file n line)
    → (r.file ≡ file) × (r.line ≡ n) × (1 ≤ r.col) × (r.col ≤ length line)
select_star_lem file n line r m = elim (Bool-cases (is_comment (trim line))) [
  | inl c ↦ absurd (Memᴰ.not-nil (rw (select_star, c) at m))
  | inr c ↦ elim (Option-cases (find_text (codes "SELECT *") (uppercase line))) [
    | inl f ↦ absurd (Memᴰ.not-nil (rw (select_star, c, f) at m))
    | inr (pos, f) ↦
        let before = take pos line in
        elim (Bool-cases (
          contains_text (codes "--") before
          || contains_text (codes "//") before
          || is_inside_string before)) [
            | inl b ↦ absurd (Memᴰ.not-nil (rw (select_star, c, f, b) at m))
            | inr b ↦ elim (Bool-cases (takes_all (drop (pos + 8) (uppercase line)))) [
              | inr t ↦ absurd (Memᴰ.not-nil (rw (select_star, c, f, b, t) at m))
              | inl t ↦
                  let e =
                    mem-report _ _ _ (some (file, n, suc pos)) r
                      (rw (select_star, c, f, b, t) at m) in
                  let lt = find_text-lt b'S' (codes "ELECT *") (uppercase line) pos f in
                  (ground arith, ground arith, ground arith, ground (arith, length-uppercase line))
            ]
          ]
  ]
]

select_stars_placed :
    (file : Text) (n : ℕ) (ls : List Text) (r : LintResult)
    → Memᴰ r (select_stars file n ls)
    → (i : ℕ) × (l : Text) × (r.file ≡ file)
      × (r.line ≡ n + i)
      × (nth ls i ≡ some l)
      × (1 ≤ r.col)
      × (r.col ≤ length l)
unfolding select_stars
select_stars_placed file n [] r m = absurd (Memᴰ.not-nil m)
select_stars_placed file n (l ∷ ls) r m = elim (Memᴰ.append_cases (select_star file n l) m) [
  | inl here ↦
      let (a, b, c, d) = select_star_lem file n l r here in (0, l, a, omega (arith, b), refl, c, d)
  | inr there ↦
      let (i, t, a, b, s, c, d) = select_stars_placed file (suc n) ls r there in
      (suc i, t, a, omega (arith, b), s, c, d)
]

select_star-IsPlaced :
    (sources : List Source) (r : LintResult)
    → Memᴰ r (lint_select_star sources)
    → IsPlaced sources r
unfolding lint_select_star
select_star-IsPlaced sources r m =
    let (s, a, mr) = Memᴰ-flat (λ x. select_stars x.0 1 (lines x.1)) sources r m in
    let (i, l, f, n, t, c, d) = select_stars_placed s.0 1 (lines s.1) r mr in
    record {
      content = s.1;
      index = i;
      text = l;
      source = rw f a;
      numbered = omega (arith, n);
      stands = t;
      column = (c, d);
    }

-- A text with a byte for each character, of which upper-casing is that of ASCII.
abbrev pub IsAscii : Source → Type 0
IsAscii (path, content) = all (λ c. ltb c 128) content ≡ true

-- For sources whose contents are ASCII: every result of `lint_schema` lies in the sources: its file is the path of a source, its line, from
-- 1, is one of the lines of that source, and its column, from 1, is one of the line's bytes. The
-- results come in the order of files, lines and columns.
pub lint_schema-IsPlaced :
    (g : SchemaGraph) (sources : List Source)
    → ((s : Source) → Memᴰ s sources → IsAscii s)
    → ((r : LintResult) → Memᴰ r (lint_schema g sources) → IsPlaced sources r)
      × IsSortedBy result_le (lint_schema g sources)
unfolding lint_schema
lint_schema-IsPlaced g sources ascii =
    let rest4 = lint_missing_index g sources ++ lint_unused_function g sources in
    let rest3 = lint_select_star sources ++ rest4 in
    let rest2 = lint_schemaless_table g sources ++ rest3 in
    let found = lint_missing_type g sources ++ rest2 in
    (
      λ r m.
          elim (Memᴰ.append_cases (lint_missing_type g sources)
            ((Memᴰ-sort_by result_le r found).0 m)) [
              | inl a ↦ missing_type-IsPlaced g sources r a
              | inr a ↦ elim (Memᴰ.append_cases (lint_schemaless_table g sources) a) [
                | inl b ↦ schemaless-IsPlaced g sources r b
                | inr b ↦ elim (Memᴰ.append_cases (lint_select_star sources) b) [
                  | inl c ↦ select_star-IsPlaced sources r c
                  | inr c ↦ elim (Memᴰ.append_cases (lint_missing_index g sources) c) [
                    | inl d ↦ missing_index-IsPlaced g sources r d
                    | inr d ↦ unused-IsPlaced g sources r d
                  ]
                ]
              ]
            ],
      sort_by-IsSortedBy result_le result_le-IsOrder found,
    )
