-- ===== src/Tests/DbInfo.antt =====
-- The comparison of two databases.
use surql_parser.Prelude.{true, Option, none, some, [], ◌∷◌, ◌≡◌, refl, codes, Text, text_compare}
use surql_parser.Prelude.SortedSet.{contains}
use surql_parser.Prelude.HashMap.{lookup}
use surql_parser.Overshift.DbInfo.{DbInfo, is_same, extract_db_info, compare_db_info}
use surql_parser.Overshift.DbInfo.Same.{defined_in, compare_db_info-is_same}

abbrev user_table : Text × Option Text
user_table = (codes "user", some (codes "DEFINE TABLE user"))

abbrev post_table : Text × Option Text
post_table = (codes "post", none)

abbrev expected : DbInfo
expected = record {
  tables = some (user_table ∷ post_table ∷ []);
  functions = some (codes "f" ∷ []);
}

-- The same in another order.
abbrev actual : DbInfo
actual = record { tables = some (post_table ∷ user_table ∷ []); functions = some (codes "f" ∷ []) }

same : is_same (compare_db_info expected actual) ≡ true
unfolding compare_db_info text_compare lookup
same = refl

compare_db_info-is_same_example :
    (contains (extract_db_info expected).0 (codes "user")
      ≡ contains (extract_db_info actual).0 (codes "user"))
    × (contains (extract_db_info expected).1 (codes "user")
        ≡ contains (extract_db_info actual).1 (codes "user"))
    × (defined_in expected.tables (codes "user") ≡ defined_in actual.tables (codes "user"))
compare_db_info-is_same_example = compare_db_info-is_same expected actual (codes "user") same
