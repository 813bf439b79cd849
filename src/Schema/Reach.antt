-- ===== src/Schema/Reach.antt =====
-- `tables_reachable_from` of src/schema_graph.rs: the search over the links, breadth first.
pub mod Rounds
pub mod Ends
pub mod Correct
use surql_parser.Prelude.{
  flat, ℕ, zero, suc, ◌+◌, Bool, true, false, not, ◌&&◌, ◌||◌, Option, none, some, List, [], ◌∷◌,
  ◌++◌, ◌==◌, leb, ltb, if◌then◌else◌, length, map, Text, text_eq, codes,
}
use surql_parser.Prelude.HashMap.{HashMap, lookup, has_key}
use surql_parser.Prelude.SortedSet.{contains}
use surql_parser.Prelude.Sorting.{sort_by}
use surql_parser.Schema.Model.{SchemaGraph, TableDef, FieldDef}
use surql_parser.Schema.Links.{links, links_of, text_le}

-- A table with its depth and the path of `table.field` segments to it.
pub record Hop : Type 0 where
  pub target : Text
  pub depth : ℕ
  pub path : List Text

pub record Search : Type 0 where
  pub results : List Hop
  pub queue : List Hop
  pub visited : List Text

abbrev pub segment : Text → Text → Text
segment current field = current ++ codes "." ++ field

abbrev pub hop : Hop → Text × Text → Hop
hop h l = record { target = l.1; depth = suc h.depth; path = h.path ++ segment h.target l.0 ∷ [] }

-- One round of the inner loop.
unfoldable pub offer : Hop → Search → Text × Text → Search
offer h s l = if contains s.visited l.1 then s else record {
  results = s.results ++ hop h l ∷ [];
  queue = s.queue ++ hop h l ∷ [];
  visited = l.1 ∷ s.visited;
}

unfoldable pub offer_all : Hop → Search → List (Text × Text) → Search
unfolding offer
offer_all h s [] = s
offer_all h s (l ∷ ls) = offer_all h (offer h s l) ls

-- The body of the `while` loop, with the head of the queue taken off.
unfoldable pub expand : SchemaGraph → ℕ → Hop → Search → Search
unfolding offer_all
expand g max h s = if leb max h.depth then s else offer_all h s (links_of g h.target)

unfoldable pub search : SchemaGraph → ℕ → ℕ → Search → Option Search
unfolding expand
search g max zero s = elim s.queue [ [] ↦ some s | h ∷ rest ↦ none ]
search g max (suc fuel) s = elim s.queue [
  | [] ↦ some s
  | h ∷ rest ↦ search g max fuel (expand g max h (record s { queue = rest }))
]

abbrev pub root : Text → Hop
root start = record { target = start; depth = 0; path = [] }

abbrev pub start_search : Text → Search
start_search start = record { results = []; queue = root start ∷ []; visited = start ∷ [] }

-- Every link of every table.
abbrev pub all_links : HashMap TableDef → List (Text × Text)
all_links [] = []
all_links ((k, t) ∷ ts) = links t.fields ++ all_links ts

-- By depth, then by name.
abbrev pub hop_le : Hop → Hop → Bool
hop_le a b = ltb a.depth b.depth || (a.depth == b.depth && text_le a.target b.target)

abbrev ordered : Option Search → Option (List Hop)
ordered none = none
ordered (some s) = some (sort_by hop_le s.results)

-- Each round takes a hop off the queue, and each hop but the first is put there by a link.
unfoldable pub tables_reachable_from : SchemaGraph → Text → ℕ → Option (List Hop)
unfolding search sort_by
tables_reachable_from g start max =
    if has_key start g.tables
    then ordered (search g max (suc (length (all_links g.tables))) (start_search start))
    else some []
