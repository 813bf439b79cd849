-- ===== src/Inference/Constraints.antt =====
-- `infer_param_types_from_query`: the windows of three tokens and the constraints that they give.
use surql_parser.Prelude.{
  ℕ, suc, Bool, not, ◌&&◌, Option, none, some, List, [], ◌∷◌, ◌++◌, if◌then◌else◌, drop, find, map,
  codes, Text, text_eq, to_lower, to_upper,
}
use surql_parser.Prelude.SortedSet.{contains}
use surql_parser.Strings.{starts_with, uppercase}
use surql_parser.TypeCheck.{strip_wrapper}
use surql_parser.Inference.{tokenize_for_inference, find_table_context}

pub record ParamTypeConstraint : Type 0 where
  pub param_name : Text
  pub surql_type : Text
  pub source : Text

-- `(table, field, kind)`
abbrev pub FieldType : Type 0
FieldType = Text × Text × Text

abbrev pub kind_of_row : Option FieldType → Option Text
kind_of_row none = none
kind_of_row (some row) = some row.2

abbrev pub type_in : List FieldType → Text → Option Text → Option Text
type_in rows field none = none
type_in rows field (some table) =
    kind_of_row (find (λ row. text_eq row.0 table && text_eq row.1 field) rows)

-- The type of a field of the table that the query names before the position.
abbrev pub field_type : List FieldType → List Text → ℕ → Text → Option Text
field_type rows tokens i field = type_in rows field (find_table_context tokens i)

abbrev pub or_text : Option Text → Text → Text
or_text none t = t
or_text (some s) t = s

-- `strip_wrapper(&ft.to_lowercase(), "array<", ">").unwrap_or(ft)`
abbrev pub element_type : Text → Text
element_type ft = or_text (strip_wrapper (map to_lower ft) (codes "array<")) ft

abbrev pub equalities : List Text
equalities = codes "=" ∷ codes "==" ∷ codes "!=" ∷ codes "IS" ∷ []

abbrev pub comparisons : List Text
comparisons = codes ">" ∷ codes ">=" ∷ codes "<" ∷ codes "<=" ∷ []

abbrev pub memberships : List Text
memberships = codes "IN" ∷ codes "INSIDE" ∷ []

abbrev pub containments : List Text
containments =
    codes "CONTAINS" ∷ codes "CONTAINSALL" ∷ codes "CONTAINSANY" ∷ codes "CONTAINSNONE" ∷ []

-- "(field `{field}` is `{ft}`{end}"
abbrev field_note : Text → Text → Text → Text
field_note field ft end = codes "(field `" ++ field ++ codes "` is `" ++ ft ++ codes "`" ++ end

-- "`{field} {op} ${param}` {note}"
abbrev asked : Text → Text → Text → Text → Text
asked field op param note =
    codes "`" ++ field ++ codes " " ++ op ++ codes " $" ++ param ++ codes "` " ++ note

-- "`${param} {op} {field}` {note}"
abbrev asked_back : Text → Text → Text → Text → Text
asked_back param op field note =
    codes "`$" ++ param ++ codes " " ++ op ++ codes " " ++ field ++ codes "` " ++ note

abbrev element_note : Text → Text
element_note ft = codes "(element of `" ++ ft ++ codes "`)"

abbrev constraint : Text → Text → Text → List ParamTypeConstraint
constraint param ty source = record { param_name = param; surql_type = ty; source = source } ∷ []

unfoldable pub equal_to : Text → Text → Text → Option Text → List ParamTypeConstraint
equal_to field op param none = []
equal_to field op param (some ft) =
    constraint param ft (asked field op param (field_note field ft (codes ")")))

unfoldable pub compared_to : Text → Text → Text → Option Text → List ParamTypeConstraint
compared_to field op param none =
    constraint param (codes "number") (asked field op param (codes "(comparison implies numeric)"))
compared_to field op param (some ft) =
    constraint param ft (asked field op param (field_note field ft (codes ")")))

pub member_of : Text → Text → Option Text → List ParamTypeConstraint
member_of field param none =
    constraint param (codes "array") (asked field (codes "IN") param (codes "(IN requires array)"))
member_of field param (some ft) =
    constraint param (codes "array<" ++ ft ++ codes ">")
      (asked field (codes "IN") param (field_note field ft (codes ", so param should be array)")))

pub containing : Text → Text → Option Text → List ParamTypeConstraint
containing field param none = []
containing field param (some ft) =
    constraint param (element_type ft) (asked field (codes "CONTAINS") param (element_note ft))

-- The match on the operator of `field OP $param`.
unfoldable pub field_first : Text → Text → Text → Option Text → List ParamTypeConstraint
field_first field op param ft =
    let upper = uppercase op in
    if contains equalities upper
    then equal_to field op param ft
    else if contains comparisons upper
    then compared_to field op param ft
    else if contains memberships upper
    then member_of field param ft
    else if contains containments upper
    then containing field param ft
    else []

pub compared_back : Text → Text → Text → Option Text → List ParamTypeConstraint
compared_back param op field none = []
compared_back param op field (some ft) =
    constraint param ft (asked_back param op field (field_note field ft (codes ")")))

pub element_back : Text → Text → Option Text → List ParamTypeConstraint
element_back param field none = []
element_back param field (some ft) =
    constraint param (element_type ft) (asked_back param (codes "IN") field (element_note ft))

-- The match on the operator of `$param OP field`.
pub param_first : Text → Text → Text → Option Text → List ParamTypeConstraint
param_first param op field ft =
    let upper = uppercase op in
    if contains (equalities ++ comparisons) upper
    then compared_back param op field ft
    else if contains memberships upper
    then element_back param field ft
    else []

abbrev pub is_param : Text → Bool
is_param t = starts_with (codes "$") t

-- The body of the loop for the tokens `field`, `op` and `value` at `i`.
unfoldable pub window :
    List FieldType → List Text → ℕ → Text → Text → Text → List ParamTypeConstraint
unfolding field_first equal_to compared_to member_of containing param_first compared_back
    element_back to_upper to_lower
window rows tokens i field op value =
    (if not (is_param field) && is_param value
      then field_first field op (drop 1 value) (field_type rows tokens i field)
      else [])
    ++ (if is_param field && not (is_param value)
        then param_first (drop 1 field) op value (field_type rows tokens i value)
        else [])

-- `while i + 2 < len`, over the tokens from `i` on
unfoldable pub infer_from : List FieldType → List Text → ℕ → List Text → List ParamTypeConstraint
infer_from rows tokens i (field ∷ op ∷ value ∷ rest) =
    window rows tokens i field op value ++ infer_from rows tokens (suc i) (op ∷ value ∷ rest)
infer_from rows tokens i _ = []

abbrev pub infer_tokens : List FieldType → Option (List Text) → Option (List ParamTypeConstraint)
infer_tokens rows none = none
infer_tokens rows (some tokens) = some (infer_from rows tokens 0 tokens)

abbrev pub infer_param_types_from_query : Text → List FieldType → Option (List ParamTypeConstraint)
infer_param_types_from_query sql rows = infer_tokens rows (tokenize_for_inference sql)
