-- ===== src/Tests.antt =====
-- Runs of the modelled code, and the theorems at concrete inputs.
mod Recovery
mod Files
mod Formatting
mod DbInfo
mod Schema
mod Overshift
mod Editing
mod Links
mod Lints
mod Locks
mod Modules
mod TypeChecks
mod Builders
mod Signatures
mod Inference
mod Lsp
use surql_parser.Prelude.{
  ℕ, suc, ◌<◌, Option, some, List, [], ◌∷◌, ◌≡◌, refl, codes, Text, text_compare,
  is_ascii_alphanumeric,
}
use surql_parser.Prelude.SortedSet.{IsSorted}
use surql_parser.Params.{scan_params, is_word}
use surql_parser.Params.Segments.{Segment, text_of, params_of, IsWellFormed, scan_params-text_of}
use surql_parser.Params.Total.{scan_params_total}

abbrev query : Text
query = codes "SELECT '$no' FROM user WHERE age > $min AND $min < $a -- $c"

query_found : scan_params query ≡ some (codes "a" ∷ codes "min" ∷ [])
unfolding scan_params text_compare
query_found = refl

scan_params_total_example : (found : List Text) × (scan_params query ≡ some found) × IsSorted found
scan_params_total_example = scan_params_total query

-- `'it''s $x'/* $y */$name `
abbrev segments : List Segment
segments =
    Segment.single (codes "it's $x")
    ∷ Segment.block (codes " $y ")
    ∷ Segment.param (codes "name")
    ∷ Segment.other b' '
    ∷ []

scan_params-text_of_example : scan_params (text_of segments) ≡ some (params_of segments [])
unfolding is_word is_ascii_alphanumeric
scan_params-text_of_example =
    scan_params-text_of segments
      (refl, (refl, ((refl, refl), ((refl, refl, refl, refl, refl, refl), tt))))
