-- ===== src/Overshift/DbInfo/Same.antt =====
-- What two databases have in common where their comparison is empty.
use surql_parser.Prelude.{
  Bool, true, false, ◌&&◌, Option, none, some, List, [], ◌∷◌, ◌≡◌, refl, sym, ap, ◌∙◌, arith, Text,
  text_eq, text_eq_iff, is_empty, Bool-cases, inl, inr,
}
use surql_parser.Prelude.SortedSet.{contains}
use surql_parser.Prelude.HashMap.{HashMap, keys, lookup, lookup-none}
use surql_parser.Overshift.DbInfo.{
  DbInfo, is_same, keys_or_default, extract_db_info, str_or_empty, changes,
  detect_field_type_changes, without, compare_db_info,
}

-- What the information says of the table, the empty text where it says nothing.
abbrev pub defined_in : Option (HashMap (Option Text)) → Text → Text
defined_in none table = []
defined_in (some obj) table = str_or_empty (lookup table obj)

without-contains :
    (others names : List Text) (n : Text)
    → is_empty (without others names) ≡ true
    → contains names n ≡ true
    → contains others n ≡ true
without-contains others [] n e h = absurd cc
without-contains others (m ∷ names) n e h = elim (Bool-cases (contains others m)) [
  | inl k ↦ elim (Bool-cases (text_eq n m)) [
    | inl q ↦ let same : n ≡ m = (text_eq_iff n m).0 q in rw same k
    | inr q ↦ without-contains others names n (ground arith) (ground arith)
  ]
  | inr k ↦ absurd (ground arith)
]

five_true :
    (a b c d e : Bool)
    → (a && b && c && d && e) ≡ true
    → (a ≡ true) × (b ≡ true) × (c ≡ true) × (d ≡ true) × (e ≡ true)
five_true a b c d e h = ground arith

same_names :
    (xs ys : List Text) (n : Text)
    → is_empty (without ys xs) ≡ true
    → is_empty (without xs ys) ≡ true
    → contains xs n ≡ contains ys n
same_names xs ys n e f =
    let there = without-contains ys xs n e in let back = without-contains xs ys n f in ground arith

changes-none :
    (exp_obj act_obj : HashMap (Option Text)) (act_tables tables : List Text) (n : Text)
    → is_empty (changes exp_obj act_obj act_tables tables) ≡ true
    → contains tables n ≡ true
    → contains act_tables n ≡ true
    → str_or_empty (lookup n exp_obj) ≡ str_or_empty (lookup n act_obj)
unfolding changes
changes-none exp_obj act_obj act_tables [] n e h k = absurd cc
changes-none exp_obj act_obj act_tables (m ∷ tables) n e h k = elim (Bool-cases (text_eq n m)) [
  | inl q ↦
      let same : n ≡ m = (text_eq_iff n m).0 q in
      let exp = str_or_empty (lookup m exp_obj) in
      let act = str_or_empty (lookup m act_obj) in
      let there : contains act_tables m ≡ true = ap (contains act_tables) (sym same) ∙ k in
      rw same (elim (Bool-cases (text_eq exp act)) [
        | inl r ↦ (text_eq_iff exp act).0 r
        | inr r ↦ absurd (ground arith)
      ])
  | inr q ↦ changes-none exp_obj act_obj act_tables tables n (ground arith) (ground arith) k
]

-- A table that the object does not have is not described.
undefined_in :
    (obj : HashMap (Option Text)) (n : Text)
    → contains (keys obj) n ≡ false
    → defined_in (some obj) n ≡ []
undefined_in obj n h = ap str_or_empty (lookup-none n obj h)

same_definition :
    (expected actual : Option (HashMap (Option Text))) (fns fns' : Option (List Text)) (n : Text)
    → is_empty (
        detect_field_type_changes
          (record { tables = expected; functions = fns })
          (record { tables = actual; functions = fns' })
          (keys_or_default expected)
          (keys_or_default actual))
      ≡ true
    → contains (keys_or_default expected) n ≡ contains (keys_or_default actual) n
    → defined_in expected n ≡ defined_in actual n
unfolding detect_field_type_changes
same_definition none none fns fns' n e h = refl
same_definition none (some obj) fns fns' n e h = sym (undefined_in obj n (sym h))
same_definition (some obj) none fns fns' n e h = undefined_in obj n h
same_definition (some exp_obj) (some act_obj) fns fns' n e h =
    elim (Bool-cases (contains (keys act_obj) n)) [
      | inl k ↦ changes-none exp_obj act_obj (keys act_obj) (keys exp_obj) n e (h ∙ k) k
      | inr k ↦ undefined_in exp_obj n (h ∙ k) ∙ sym (undefined_in act_obj n k)
    ]

-- Where the comparison of two databases is empty, each name is a table of both or of neither and a
-- function of both or of neither, and both say the same of each table.
pub compare_db_info-is_same :
    (expected actual : DbInfo) (n : Text)
    → is_same (compare_db_info expected actual) ≡ true
    → (contains (extract_db_info expected).0 n ≡ contains (extract_db_info actual).0 n)
      × (contains (extract_db_info expected).1 n ≡ contains (extract_db_info actual).1 n)
      × (defined_in expected.tables n ≡ defined_in actual.tables n)
unfolding compare_db_info
compare_db_info-is_same expected actual n h =
    let (exp_tables, exp_fns) = extract_db_info expected in
    let (act_tables, act_fns) = extract_db_info actual in
    let (a, b, c, d, e) = five_true (is_empty (without act_tables exp_tables)) _ _ _ _ h in
    let tables = same_names exp_tables act_tables n a b in
    (
      tables,
      same_names exp_fns act_fns n c d,
      same_definition expected.tables actual.tables expected.functions actual.functions n e tables,
    )
