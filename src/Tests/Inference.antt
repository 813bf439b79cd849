-- ===== src/Tests/Inference.antt =====
-- The inference of parameter types on small queries.
use surql_parser.Prelude.{some, List, [], ◌∷◌, ◌≡◌, refl, codes, text_compare, to_upper}
use surql_parser.Inference.{tokenize_for_inference, find_table_context, arm}
use surql_parser.Inference.Written.{Piece, word, sign, single, line, space, text_of, tokens_of}
use surql_parser.Inference.Tokens.{tokenize_for_inference-text_of}
use surql_parser.Inference.Constraints.{FieldType, infer_from, window, infer_param_types_from_query}
use surql_parser.Inference.Where.{
  greater_equal, where_query, names_and_types, infer_param_types_from_query-where,
}

abbrev fields : List FieldType
fields =
    (codes "user", codes "age", codes "int")
    ∷ (codes "user", codes "tags", codes "array<string>")
    ∷ []

tokens_found :
    tokenize_for_inference (codes "SELECT '$no' FROM user /* a */ WHERE age>=$min -- c")
    ≡ some (
        codes "SELECT"
        ∷ codes "FROM"
        ∷ codes "user"
        ∷ codes "WHERE"
        ∷ codes "age"
        ∷ codes ">="
        ∷ codes "$min"
        ∷ [])
unfolding tokenize_for_inference
tokens_found = refl

-- A membership, an element, and a comparison of an unknown field.
types_found :
    names_and_types (
      infer_param_types_from_query
        (codes "SELECT * FROM ONLY user WHERE age IN $ages AND tags CONTAINS $tag AND x < $y")
        fields)
    ≡ some (
        (codes "ages", codes "array<int>")
        ∷ (codes "tag", codes "string")
        ∷ (codes "y", codes "number")
        ∷ [])
unfolding tokenize_for_inference find_table_context infer_from window text_compare
types_found = refl

-- `a=$b, 'it''s' -- c` and a newline
abbrev pieces : List Piece
pieces =
    word (codes "a")
    ∷ sign b'='
    ∷ word (codes "$b")
    ∷ space b','
    ∷ single (codes "it's")
    ∷ line (codes " c")
    ∷ []

tokenize_for_inference-text_of_example :
    tokenize_for_inference (text_of pieces) ≡ some (tokens_of pieces)
unfolding arm
tokenize_for_inference-text_of_example =
    tokenize_for_inference-text_of pieces
      ((refl, refl, refl), ((refl, refl), ((refl, refl, refl), (refl, (refl, (refl, tt))))))

infer_param_types_from_query-where_example :
    names_and_types (
      infer_param_types_from_query
        (text_of (where_query (codes "user") (codes "age") greater_equal (codes "min")))
        fields)
    ≡ some ((codes "min", codes "int") ∷ [])
unfolding text_compare to_upper
infer_param_types_from_query-where_example =
    infer_param_types_from_query-where fields (codes "user") (codes "age") greater_equal
      (codes "min") (codes "int") (refl, refl, refl) (refl, refl, refl) refl refl refl refl
