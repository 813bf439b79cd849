-- ===== src/Lsp/Occurrences.antt =====
-- `extract_all_table_occurrences` of lsp/src/context.rs: every place of a table's name, definitions and
-- types included. The tokens before the current one come with the nearest first.
pub mod Sound
use surql_parser.Prelude.{
  ℕ, Bool, true, false, not, ◌&&◌, ◌||◌, Option, none, some, List, [], ◌∷◌, ◌++◌, leb, ltb, ◌==◌,
  if◌then◌else◌, length, is_empty, any, Text, codes, text_eq,
}
use Prim.Native.String.{String}
use surql_parser.Prelude.Sorting.{sort_by}
use surql_parser.Strings.{uppercase}
use surql_parser.Token.{Token, TokenKind}
use surql_parser.Recovery.{max_source}
use surql_parser.Lsp.References.{
  TableReference, is_keyword, is_name_kind, token_text, is_the_keyword, strip_backticks,
  skip_modifiers, reference,
}

-- `text_of(i).eq_ignore_ascii_case(word)`, also of an identifier
abbrev pub is_text : String → Text → Token → Bool
is_text word source t = text_eq (uppercase (token_text t source)) (codes word)

pub matches_target : Text → Text → Token → Bool
matches_target source target t =
    is_name_kind t.kind
    && text_eq (uppercase (strip_backticks (token_text t source))) (uppercase target)

abbrev pub when : Text → Text → Bool → Option Token → List TableReference
when source target found none = []
when source target found (some t) =
    if found && matches_target source target t then reference source t ∷ [] else []

abbrev pub head : List Token → Option Token
head [] = none
head (t ∷ ts) = some t

abbrev pub is_previous : String → Text → List Token → Bool
is_previous word source [] = false
is_previous word source (t ∷ ts) = is_the_keyword word source t

-- `has_define_context`: a keyword anywhere before, in whatever statement
abbrev pub has_define_context : Text → List Token → Bool
has_define_context source before =
    any
      (λ t.
        is_the_keyword "FIELD" source t
        || is_the_keyword "INDEX" source t
        || is_the_keyword "EVENT" source t)
      before

abbrev pub is_dml_text : Text → Token → Bool
is_dml_text source t =
    is_text "FROM" source t
    || is_text "UPDATE" source t
    || is_text "CREATE" source t
    || is_text "DELETE" source t
    || is_text "UPSERT" source t

-- The match on the text of the token.
pub behind_word : Text → Text → List Token → Token → List Token → List TableReference
behind_word source target before t ts =
    if is_text "TABLE" source t
    then when source target (is_previous "DEFINE" source before) (head ts)
    else if is_dml_text source t
    then when source target true (skip_modifiers source ts)
    else if is_text "INTO" source t
    then when source target (is_previous "INSERT" source before) (skip_modifiers source ts)
    else if is_text "ON" source t
    then when source target (has_define_context source before) (skip_modifiers source ts)
    else []

abbrev is_chevron : TokenKind → Bool
is_chevron TokenKind.left_chevron = true
is_chevron _ = false

abbrev is_dot : TokenKind → Bool
is_dot TokenKind.dot = true
is_dot _ = false

abbrev is_colon_next : List Token → Bool
is_colon_next [] = false
is_colon_next (t ∷ ts) = elim t.kind [ TokenKind.colon ↦ true | _ ↦ false ]

-- `record<name>`
abbrev pub is_record_type : Text → Token → Token → Bool
is_record_type source p q = is_chevron p.kind && is_name_kind q.kind && is_text "RECORD" source q

-- `name:id`
abbrev pub is_record_id : Token → List Token → Bool
is_record_id p ts = is_colon_next ts && not (is_dot p.kind)

-- Both patterns, where two tokens stand before.
pub in_place : Text → Text → List Token → Token → List Token → List TableReference
in_place source target (p ∷ q ∷ before) t ts =
    when source target (is_record_type source p q) (some t)
    ++ when source target (is_record_id p ts) (some t)
in_place source target before t ts = []

pub occurrences_at : Text → Text → List Token → Token → List Token → List TableReference
occurrences_at source target before t ts =
    if is_name_kind t.kind
    then behind_word source target before t ts ++ in_place source target before t ts
    else []

pub occurrences_from : Text → Text → List Token → List Token → List TableReference
occurrences_from source target before [] = []
occurrences_from source target before (t ∷ ts) =
    occurrences_at source target before t ts ++ occurrences_from source target (t ∷ before) ts

-- `(r.line, r.col)`, in the order of pairs
abbrev pub place_le : TableReference → TableReference → Bool
place_le a b = ltb a.line b.line || (a.line == b.line && leb a.col b.col)

abbrev pub same_place : TableReference → TableReference → Bool
same_place a b = a.line == b.line && a.col == b.col

pub dedup_from : TableReference → List TableReference → List TableReference
dedup_from x [] = x ∷ []
dedup_from x (y ∷ ys) =
    let same = dedup_from x ys in
    let other = dedup_from y ys in if same_place x y then same else x ∷ other

-- `refs.dedup_by_key(|r| (r.line, r.col))`
pub dedup : List TableReference → List TableReference
unfolding dedup_from
dedup [] = []
dedup (x ∷ xs) = dedup_from x xs

abbrev pub placed_once : List TableReference → List TableReference
placed_once rs = dedup (sort_by place_le rs)

abbrev pub occurrences_in : Text → Text → Option (List Token) → List TableReference
occurrences_in source target none = []
occurrences_in source target (some ts) = placed_once (occurrences_from source target [] ts)

unfoldable pub extract_all_table_occurrences :
    (Text → Option (List Token)) → Text → Text → List TableReference
unfolding matches_target behind_word in_place occurrences_at occurrences_from dedup
extract_all_table_occurrences lex source target =
    if is_empty source || ltb max_source (length source)
    then []
    else occurrences_in source target (lex source)
