-- ===== src/Tests/TypeChecks.antt =====
-- Pairs of a SurrealQL type and a Rust type.
use surql_parser.Prelude.{
  Bool, true, false, some, ◌≡◌, refl, codes, text_compare, to_lower, is_whitespace,
}
use surql_parser.TypeCheck.{surql_type_matches_rust}
use surql_parser.TypeCheck.Ends.{surql_type_matches_rust_returns}
use surql_parser.TypeCheck.Nullable.{IsPart}

nested : surql_type_matches_rust (codes "option<array<int>>") (codes "Option<Vec<i64>>") ≡ some true
unfolding surql_type_matches_rust text_compare is_whitespace
nested = refl

refused :
    surql_type_matches_rust (codes "none | array<int>") (codes "Option<Vec<f64>>") ≡ some false
unfolding surql_type_matches_rust text_compare is_whitespace
refused = refl

-- A union inside a wrapper is cut at its bar, and what is left on both sides is unknown.
cut_wrapper : surql_type_matches_rust (codes "array<int | string>") (codes "f64") ≡ some true
unfolding surql_type_matches_rust text_compare is_whitespace
cut_wrapper = refl

surql_type_matches_rust_returns_example :
    (b : Bool) × (surql_type_matches_rust (codes "set<uuid>") (codes "Vec<Uuid>") ≡ some b)
surql_type_matches_rust_returns_example =
    surql_type_matches_rust_returns (codes "set<uuid>") (codes "Vec<Uuid>")

plain_int : IsPart (codes "int")
unfolding to_lower is_whitespace text_compare
plain_int = record {
  lower = refl;
  begins = refl;
  ends = refl;
  no_bar = (refl, (refl, (refl, tt)));
  some_type = refl;
}
