-- ===== src/Inference/Where.antt =====
-- A query that compares a field with a parameter, from its text to the type of the parameter.
use mathlib.Core.List.{append-nil}
use surql_parser.Prelude.{
  ℕ, true, false, Option, none, some, List, [], ◌∷◌, ◌≡◌, refl, ap, ◌∙◌, arith, all, is_empty, map,
  codes, Text, text_compare, to_upper,
}
use surql_parser.Inference.{arm, is_word_of, find_table_context, tokenize_for_inference}
use surql_parser.Inference.Written.{
  Piece, word, sign, sign_equal, space, text_of, tokens_of, is_plain, FitsBefore, IsWellFormed,
}
use surql_parser.Inference.Tokens.{tokenize_for_inference-text_of}
use surql_parser.Inference.Constraints.{
  FieldType, ParamTypeConstraint, is_param, type_in, field_type, window, infer_from,
  infer_param_types_from_query, field_first, equal_to, compared_to,
}

pub data Comparison : Type 0 where
  equal double_equal not_equal less less_equal greater greater_equal : Comparison

abbrev pub written : Comparison → Piece
written equal = sign b'='
written double_equal = sign_equal b'='
written not_equal = sign_equal b'!'
written less = sign b'<'
written less_equal = sign_equal b'<'
written greater = sign b'>'
written greater_equal = sign_equal b'>'

abbrev pub op_text : Comparison → Text
op_text equal = codes "="
op_text double_equal = codes "=="
op_text not_equal = codes "!="
op_text less = codes "<"
op_text less_equal = codes "<="
op_text greater = codes ">"
op_text greater_equal = codes ">="

-- A word that begins with no `$`.
abbrev pub IsName : Text → Type 0
IsName w = (is_empty w ≡ false) × (all is_plain w ≡ true) × (is_param w ≡ false)

-- `SELECT * FROM {table} WHERE {field} {op} ${param}`
abbrev pub where_query : Text → Text → Comparison → Text → List Piece
where_query table field op param =
    word (codes "SELECT")
    ∷ space b' '
    ∷ word (codes "*")
    ∷ space b' '
    ∷ word (codes "FROM")
    ∷ space b' '
    ∷ word table
    ∷ space b' '
    ∷ word (codes "WHERE")
    ∷ space b' '
    ∷ word field
    ∷ space b' '
    ∷ written op
    ∷ space b' '
    ∷ word (b'$' ∷ param)
    ∷ []

abbrev pub name_and_type : ParamTypeConstraint → Text × Text
name_and_type c = (c.param_name, c.surql_type)

abbrev pub names_and_types : Option (List ParamTypeConstraint) → Option (List (Text × Text))
names_and_types none = none
names_and_types (some cs) = some (map name_and_type cs)

abbrev where_tokens : Text → Text → Text → Text → List Text
where_tokens table field op param =
    codes "SELECT"
    ∷ codes "*"
    ∷ codes "FROM"
    ∷ table
    ∷ codes "WHERE"
    ∷ field
    ∷ op
    ∷ (b'$' ∷ param)
    ∷ []

written-FitsBefore : (op : Comparison) (rest : Text) → FitsBefore (written op) (b' ' ∷ rest)
written-FitsBefore equal rest = (refl, refl)
written-FitsBefore double_equal rest = refl
written-FitsBefore not_equal rest = refl
written-FitsBefore less rest = (refl, refl)
written-FitsBefore less_equal rest = refl
written-FitsBefore greater rest = (refl, refl)
written-FitsBefore greater_equal rest = refl

where_query-IsWellFormed :
    (table field : Text) (op : Comparison) (param : Text)
    → IsName table
    → IsName field
    → all is_plain param ≡ true
    → IsWellFormed (where_query table field op param)
unfolding arm
where_query-IsWellFormed table field op param t f p = (
  (refl, refl, refl),
  (
    refl,
    (
      (refl, refl, refl),
      (
        refl,
        (
          (refl, refl, refl),
          (
            refl,
            (
              (t.0, t.1, refl),
              (
                refl,
                (
                  (refl, refl, refl),
                  (
                    refl,
                    (
                      (f.0, f.1, refl),
                      (refl, (written-FitsBefore op _, (refl, ((refl, p, tt), tt)))),
                    ),
                  ),
                ),
              ),
            ),
          ),
        ),
      ),
    ),
  ),
)

tokens-where_query :
    (table field : Text) (op : Comparison) (param : Text)
    → tokens_of (where_query table field op param) ≡ where_tokens table field (op_text op) param
tokens-where_query table field equal param = refl
tokens-where_query table field double_equal param = refl
tokens-where_query table field not_equal param = refl
tokens-where_query table field less param = refl
tokens-where_query table field less_equal param = refl
tokens-where_query table field greater param = refl
tokens-where_query table field greater_equal param = refl

table_of_where :
    (table field op param : Text)
    → is_word_of "FROM" table ≡ false
    → is_word_of "ONLY" table ≡ false
    → find_table_context (where_tokens table field op param) 5 ≡ some table
unfolding find_table_context text_compare to_upper
table_of_where table field op param h k = ground arith

-- The arm of a comparison.
field_first-Comparison :
    (field : Text) (op : Comparison) (param ft : Text)
    → map name_and_type (field_first field (op_text op) param (some ft)) ≡ (param, ft) ∷ []
unfolding field_first equal_to compared_to text_compare to_upper
field_first-Comparison field equal param ft = refl
field_first-Comparison field double_equal param ft = refl
field_first-Comparison field not_equal param ft = refl
field_first-Comparison field less param ft = refl
field_first-Comparison field less_equal param ft = refl
field_first-Comparison field greater param ft = refl
field_first-Comparison field greater_equal param ft = refl

op_text-is_param : (op : Comparison) → is_param (op_text op) ≡ false
op_text-is_param equal = refl
op_text-is_param double_equal = refl
op_text-is_param not_equal = refl
op_text-is_param less = refl
op_text-is_param less_equal = refl
op_text-is_param greater = refl
op_text-is_param greater_equal = refl

module _ (rows : List FieldType) (tokens : List Text) (i : ℕ) (field op : Text) where
  window_none :
      (value : Text)
      → is_param field ≡ false
      → is_param value ≡ false
      → window rows tokens i field op value ≡ []
  unfolding window
  window_none value h k = rw (h, k) refl

  window_asked :
      (param ft : Text)
      → is_param field ≡ false
      → field_type rows tokens i field ≡ some ft
      → window rows tokens i field op (b'$' ∷ param) ≡ field_first field op param (some ft)
  unfolding window
  window_asked param ft h k = rw (h, k) (append-nil (field_first field op param (some ft)))

infer_from_where :
    (rows : List FieldType) (table field : Text) (op : Comparison) (param ft : Text)
    → is_param table ≡ false
    → is_param field ≡ false
    → field_type rows (where_tokens table field (op_text op) param) 5 field ≡ some ft
    → map name_and_type (
        infer_from rows
          (where_tokens table field (op_text op) param)
          0
          (where_tokens table field (op_text op) param))
      ≡ (param, ft) ∷ []
unfolding infer_from
infer_from_where rows table field op param ft t f known =
    let tokens = where_tokens table field (op_text op) param in
    rw
      (
        window_none rows tokens 0 (codes "SELECT") (codes "*") (codes "FROM") refl refl,
        window_none rows tokens 1 (codes "*") (codes "FROM") table refl t,
        window_none rows tokens 2 (codes "FROM") table (codes "WHERE") refl refl,
        window_none rows tokens 3 table (codes "WHERE") field t f,
        window_none rows tokens 4 (codes "WHERE") field (op_text op) refl (op_text-is_param op),
        window_asked rows tokens 5 field (op_text op) param ft f known,
      )
      (ap (map name_and_type) (append-nil (field_first field (op_text op) param (some ft)))
        ∙ field_first-Comparison field op param ft)

-- For every table, field and parameter name and every comparison, the inference reads from the text of
-- `SELECT * FROM table WHERE field op $param` one constraint: the parameter has the type that the
-- schema gives the field of the table, whatever type that is, also for the comparisons >, >=, < and <=.
-- The names are plain words that begin with no `$`, and the table
-- is not called FROM or ONLY.
pub infer_param_types_from_query-where :
    (rows : List FieldType) (table field : Text) (op : Comparison) (param ft : Text)
    → IsName table
    → IsName field
    → all is_plain param ≡ true
    → is_word_of "FROM" table ≡ false
    → is_word_of "ONLY" table ≡ false
    → type_in rows field (some table) ≡ some ft
    → names_and_types
        (infer_param_types_from_query (text_of (where_query table field op param)) rows)
      ≡ some ((param, ft) ∷ [])
infer_param_types_from_query-where rows table field op param ft t f p h k e =
    let tokens = where_tokens table field (op_text op) param in
    let read : tokenize_for_inference (text_of (where_query table field op param)) ≡ some tokens =
      tokenize_for_inference-text_of (where_query table field op param)
        (where_query-IsWellFormed table field op param t f p)
      ∙ ap some (tokens-where_query table field op param) in
    let context = table_of_where table field (op_text op) param h k in
    let known : field_type rows tokens 5 field ≡ some ft = ap (type_in rows field) context ∙ e in
    rw read (ap some (infer_from_where rows table field op param ft t.2 f.2 known))
