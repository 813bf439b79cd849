-- ===== src/Tests/Formatting.antt =====
-- The formatter on one statement.
use surql_parser.Prelude.{
  arith, Option, some, List, [], ◌∷◌, ◌≡◌, refl, codes, Text, text_compare, to_upper, true,
}
use surql_parser.Token.{Token, TokenKind}
use surql_parser.Formatting.{configurable_format}
use surql_parser.Formatting.Config.{FormatConfig, default_config}
use surql_parser.Formatting.Skeleton.{skeleton, or_source, configurable_format-skeleton}

abbrev statement : Text
statement = codes "let x;y"

abbrev statement_tokens : List Token
statement_tokens =
    record { kind = TokenKind.keyword; offset = 0; len = 3 }
    ∷ record { kind = TokenKind.other; offset = 4; len = 1 }
    ∷ record { kind = TokenKind.semi_colon; offset = 5; len = 1 }
    ∷ record { kind = TokenKind.other; offset = 6; len = 1 }
    ∷ []

abbrev lex : Text → Option (List Token)
lex source = some statement_tokens

abbrev breaking : FormatConfig
breaking = record default_config { newline_after_semicolon = true }

formatted : configurable_format breaking lex statement ≡ some (codes "LET x;\ny")
unfolding configurable_format text_compare to_upper
formatted = refl

configurable_format-skeleton_example :
    skeleton (or_source (configurable_format breaking lex statement) statement) ≡ skeleton statement
configurable_format-skeleton_example =
    configurable_format-skeleton breaking lex statement
      (record {
        where_off = refl;
        set_off = refl;
        from_off = refl;
        collapse_off = refl;
        trailing_off = refl;
      })
      (λ tokens h. ground arith)
