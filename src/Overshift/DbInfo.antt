-- ===== src/Overshift/DbInfo.antt =====
-- overshift/src/validate.rs: `SchemaDiff`, `extract_db_info`, `compare_db_info` and
-- `detect_field_type_changes`. The answer to `INFO FOR DB` is modelled by what is read of it.
pub mod Same
use surql_parser.Prelude.{
  ◌++◌, Bool, true, false, not, ◌&&◌, Option, none, some, List, [], ◌∷◌, if◌then◌else◌, codes, Text,
  text_eq, is_empty, keep,
}
use surql_parser.Prelude.SortedSet.{contains}
use surql_parser.Prelude.HashMap.{HashMap, keys, lookup}

-- `tables` and `functions` where they are objects, and the values of `tables` where they are strings.
pub record DbInfo : Type 0 where
  pub tables : Option (HashMap (Option Text))
  pub functions : Option (List Text)

pub record SchemaDiff : Type 0 where
  pub missing_tables : List Text
  pub extra_tables : List Text
  pub missing_functions : List Text
  pub extra_functions : List Text
  pub changed_fields : List (Text × Text × Text × Text)

-- `SchemaDiff::is_empty`
abbrev pub is_same : SchemaDiff → Bool
is_same d =
    is_empty d.missing_tables
    && is_empty d.extra_tables
    && is_empty d.missing_functions
    && is_empty d.extra_functions
    && is_empty d.changed_fields

abbrev pub keys_or_default : Option (HashMap (Option Text)) → List Text
keys_or_default none = []
keys_or_default (some obj) = keys obj

abbrev pub or_no_names : Option (List Text) → List Text
or_no_names none = []
or_no_names (some names) = names

-- `extract_db_info`
abbrev pub extract_db_info : DbInfo → List Text × List Text
extract_db_info info = (keys_or_default info.tables, or_no_names info.functions)

-- `.and_then(|v| v.as_str()).unwrap_or("")`
abbrev pub str_or_empty : Option (Option Text) → Text
str_or_empty none = []
str_or_empty (some none) = []
str_or_empty (some (some t)) = t

abbrev pub change_of :
    HashMap (Option Text) → HashMap (Option Text) → Text → List (Text × Text × Text × Text)
change_of exp_obj act_obj table =
    let exp_fields = str_or_empty (lookup table exp_obj) in
    let act_fields = str_or_empty (lookup table act_obj) in
    if text_eq exp_fields act_fields then [] else (table, codes "*", exp_fields, act_fields) ∷ []

-- The loop over the expected tables.
unfoldable pub changes :
    HashMap (Option Text)
    → HashMap (Option Text)
    → List Text
    → List Text
    → List (Text × Text × Text × Text)
changes exp_obj act_obj act_tables [] = []
changes exp_obj act_obj act_tables (table ∷ tables) =
    let rest = changes exp_obj act_obj act_tables tables in
    if contains act_tables table then change_of exp_obj act_obj table ++ rest else rest

unfoldable pub detect_field_type_changes :
    DbInfo → DbInfo → List Text → List Text → List (Text × Text × Text × Text)
unfolding changes
detect_field_type_changes expected actual exp_tables act_tables = elim expected.tables [
  | none ↦ []
  | some exp_obj ↦ elim actual.tables [
    | none ↦ []
    | some act_obj ↦ changes exp_obj act_obj act_tables exp_tables
  ]
]

-- `iter().filter(|t| !others.contains(t))`
abbrev pub without : List Text → List Text → List Text
without others names = keep (λ t. not (contains others t)) names

unfoldable pub compare_db_info : DbInfo → DbInfo → SchemaDiff
unfolding detect_field_type_changes
compare_db_info expected actual =
    let (exp_tables, exp_fns) = extract_db_info expected in
    let (act_tables, act_fns) = extract_db_info actual in
    record {
      missing_tables = without act_tables exp_tables;
      extra_tables = without exp_tables act_tables;
      missing_functions = without act_fns exp_fns;
      extra_functions = without exp_fns act_fns;
      changed_fields = detect_field_type_changes expected actual exp_tables act_tables;
    }
