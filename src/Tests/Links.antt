-- ===== src/Tests/Links.antt =====
-- The traversals of the schema graph on tables with a cycle of links.
use mathlib.Core.List.{Memᴰ}
use surql_parser.Prelude.{
  ℕ, ◌≤◌, ◌<◌, some, none, List, [], ◌∷◌, true, false, ◌≡◌, ◌≢◌, refl, arith, codes, Text,
  text_compare, ◌↔◌,
}
use surql_parser.Prelude.HashMap.{lookup}
use surql_parser.Schema.Model.{FieldDef, SchemaGraph}
use surql_parser.Schema.Links.Exact.{Refers, Sibling, links_iff}
use surql_parser.Schema.Links.{siblings_of, tables_referencing}
use surql_parser.Schema.Reach.{Hop, tables_reachable_from}
use surql_parser.Schema.Reach.Rounds.{Walk, here, along}
use surql_parser.Schema.Reach.Correct.{
  tables_reachable_from_returns, tables_reachable_from_sound, tables_reachable_from_complete,
}
use surql_parser.Schema.Trees.{dependency_tree, node, child, no_child, max_nodes}
use surql_parser.Schema.Trees.Bounds.{
  size, table_of, IsTree, IsFull, dependency_tree-IsTree, dependency_tree-IsFull,
}
use surql_parser.Tests.Schema.{field, schemaless, of_tables, user, post}

abbrev link : Text → List Text → FieldDef
link name targets = record (field name (codes "record")) { record_links = targets }

abbrev tag : Text
tag = codes "tag"

-- user.posts → post, post.author → user, post.tags → tag
abbrev graph : SchemaGraph
graph = of_tables (
    (user, schemaless user (link (codes "posts") (post ∷ []) ∷ []))
    ∷ (
      post,
      schemaless post (link (codes "author") (user ∷ []) ∷ link (codes "tags") (tag ∷ []) ∷ []),
    )
    ∷ (tag, schemaless tag [])
    ∷ [])

abbrev to_post : Hop
to_post = record { target = post; depth = 1; path = codes "user.posts" ∷ [] }

abbrev to_tag : Hop
to_tag = record { target = tag; depth = 2; path = codes "user.posts" ∷ codes "post.tags" ∷ [] }

reached : tables_reachable_from graph user 5 ≡ some (to_post ∷ to_tag ∷ [])
unfolding tables_reachable_from text_compare lookup
reached = refl

referencing : tables_referencing graph user ≡ (post, codes "author") ∷ []
unfolding tables_referencing text_compare lookup
referencing = refl

tables_reachable_from_returns_example :
    (hops : List Hop) × (tables_reachable_from graph user 5 ≡ some hops)
tables_reachable_from_returns_example = tables_reachable_from_returns graph user 5

tables_reachable_from_sound_example :
    Walk graph user to_tag.path 2 tag
    × (2 ≤ 5)
    × ((p : List Text) (n : ℕ) → Walk graph user p n tag → 2 ≤ n)
    × (tag ≢ user)
tables_reachable_from_sound_example =
    tables_reachable_from_sound graph user 5 (to_post ∷ to_tag ∷ []) reached to_tag
      (Memᴰ.tail (Memᴰ.head refl))

user_to_tag : Walk graph user to_tag.path 2 tag
unfolding text_compare lookup
user_to_tag =
    along (codes "tags", tag) (along (codes "posts", post) here (Memᴰ.head refl))
      (Memᴰ.tail (Memᴰ.head refl))

tables_reachable_from_complete_example :
    (h : Hop) × Memᴰ h (to_post ∷ to_tag ∷ []) × (h.target ≡ tag)
tables_reachable_from_complete_example =
    tables_reachable_from_complete graph user 5 (to_post ∷ to_tag ∷ []) reached to_tag.path 2 tag
      user_to_tag (omega arith) (ground arith)

tree :
    dependency_tree graph user 5
    ≡ node user none
        (child
          (node post
            (some (codes "posts"))
            (child
              (node user (some (codes "author")) no_child true)
              (child (node tag (some (codes "tags")) no_child false) no_child))
            false)
          no_child)
        false
unfolding dependency_tree text_compare lookup
tree = refl

dependency_tree-IsTree_example :
    IsTree graph [] 5 (dependency_tree graph user 5)
    × (size (dependency_tree graph user 5) ≤ max_nodes)
    × (table_of (dependency_tree graph user 5) ≡ user)
dependency_tree-IsTree_example = dependency_tree-IsTree graph user 5

tree_small : size (dependency_tree graph user 5) < max_nodes
unfolding size
tree_small = rw tree (omega arith)

dependency_tree-IsFull_example : IsFull graph 5 (dependency_tree graph user 5)
dependency_tree-IsFull_example = dependency_tree-IsFull graph user 5 tree_small

siblings : siblings_of graph user ≡ []
unfolding siblings_of text_compare lookup
siblings = refl

links_iff_example :
    ((r : Text × Text) → Memᴰ r (tables_referencing graph user) ↔ Refers graph user r)
    × ((r : Text × Text × Text) → Memᴰ r (siblings_of graph user) ↔ Sibling graph user r)
links_iff_example = links_iff graph user
