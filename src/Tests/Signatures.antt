-- ===== src/Tests/Signatures.antt =====
-- Parameter lists and calls as the language server sees them.
use surql_parser.Prelude.{some, List, [], ◌∷◌, ◌≡◌, refl, codes, Text, is_whitespace}
use surql_parser.Strings.{trim}
use surql_parser.Signature.{find_function_call}
use surql_parser.Signature.Split.{IsParam, walk}

abbrev parameters : List Text
parameters = codes "map: object<a, b>" ∷ codes "f" ∷ []

with_brackets : IsParam (codes "map: object<a, b>")
unfolding walk is_whitespace trim
with_brackets = record { closed = refl; trimmed = refl; something = refl }

one_letter : IsParam (codes "f")
unfolding walk is_whitespace trim
one_letter = record { closed = refl; trimmed = refl; something = refl }

second_argument :
    find_function_call (codes "RETURN fn::add(fn::one(1, 2), ") ≡ some (codes "fn::add", 1)
unfolding find_function_call
second_argument = refl
