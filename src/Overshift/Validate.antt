-- ===== src/Overshift/Validate.antt =====
-- overshift/src/validate.rs: `validate_functions`.
use surql_parser.Prelude.{
  Bool, not, ◌||◌, none, some, List, [], ◌∷◌, ◌++◌, if◌then◌else◌, codes, Text, text_eq, any, keep,
  is_empty,
}
use surql_parser.Overshift.Types.{validation}
use surql_parser.Overshift.Db.{Database, M, Reply, rows, info, pure, raise, ◌>>=◌, ask, info_for_db}

-- `fn::{func}`
abbrev pub fn_key : Text → Text
fn_key func = codes "fn::" ++ func

-- A function counts as defined under its bare name and behind `fn::`.
unfoldable pub is_defined : List Text → Text → Bool
is_defined defined func = any (λ f. text_eq f (fn_key func) || text_eq f func) defined

unfoldable pub missing : List Text → List Text → List Text
unfolding is_defined
missing defined expected = keep (λ f. not (is_defined defined f)) expected

-- The keys of `functions`, none where there is no result; a reply of rows has no such key.
unfoldable pub defined_functions : Reply → M (List Text)
defined_functions (info (some functions)) = pure functions
defined_functions (info none) = pure []
defined_functions (rows rs) = pure []
defined_functions _ = raise (validation (codes "INFO FOR DB failed"))

unfoldable pub validate_functions : Database → List Text → M (Unit {0})
unfolding defined_functions missing
validate_functions db [] = pure tt
validate_functions db (f ∷ fs) = do
  r ← ask db info_for_db
  defined ← defined_functions r
  if is_empty (missing defined (f ∷ fs))
      then pure tt
      else raise (validation (codes "missing functions in database"))
