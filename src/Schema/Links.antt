-- ===== src/Schema/Links.antt =====
-- src/schema_graph.rs: the links between tables, and the lookups against them: `tables_referencing` and
-- `siblings_of`.
pub mod Exact
use surql_parser.Prelude.{
  Option, flat, Bool, true, false, not, none, some, List, [], ◌∷◌, ◌++◌, if◌then◌else◌, is_empty,
  keep, any, map, Text, text_eq, text_compare, Ordering,
}
use surql_parser.Prelude.HashMap.{lookup, keys}
use surql_parser.Prelude.SortedSet.{contains}
use surql_parser.Prelude.Sorting.{sort_by}
use surql_parser.Schema.Model.{TableDef, SchemaGraph, FieldDef}

-- The links of a table in the order of the two loops, each with its field.
abbrev pub links : List FieldDef → List (Text × Text)
links fields = flat (λ f. map (λ link. (f.name, link)) f.record_links) fields

abbrev pub links_of : SchemaGraph → Text → List (Text × Text)
links_of g name = elim (lookup name g.tables) [ none ↦ [] | some t ↦ links t.fields ]

abbrev pub text_le : Text → Text → Bool
text_le a b = elim (text_compare a b) [ Ordering.gt ↦ false | _ ↦ true ]

-- `field.record_links.iter().any(|l| l == target)`
abbrev pub references : Text → FieldDef → Bool
references target f = any (text_eq target) f.record_links

unfoldable pub tables_referencing : SchemaGraph → Text → List (Text × Text)
unfolding sort_by
tables_referencing g target =
    flat
      (λ name. elim (lookup name g.tables) [
        | none ↦ []
        | some t ↦ map (λ f. (name, f.name)) (keep (references target) t.fields)
      ])
      (sort_by text_le (keys g.tables))

-- The links of the other table to a target, each with the table's name.
unfoldable pub shared_links : List Text → Text → List (Text × Text) → List (Text × Text × Text)
shared_links targets other [] = []
shared_links targets other ((field, link) ∷ ls) =
    let rest = shared_links targets other ls in
    if contains targets link then (other, link, field) ∷ rest else rest

unfoldable pub siblings_with : SchemaGraph → Text → Option TableDef → List (Text × Text × Text)
unfolding shared_links sort_by
siblings_with g name none = []
siblings_with g name (some source) =
    let targets = map (λ l. l.1) (links source.fields) in
    if is_empty targets
    then []
    else flat (λ other. shared_links targets other (links_of g other))
        (sort_by text_le (keep (λ n. not (text_eq n name)) (keys g.tables)))

unfoldable pub siblings_of : SchemaGraph → Text → List (Text × Text × Text)
unfolding siblings_with
siblings_of g name = siblings_with g name (lookup name g.tables)
