-- ===== src/Schema/Trees.antt =====
-- `dependency_tree` of src/schema_graph.rs: the tree of the tables that links lead to.
pub mod Bounds
use surql_parser.Prelude.{
  ℕ, zero, suc, ◌+◌, Bool, true, false, not, ◌&&◌, ◌||◌, Option, none, some, List, [], ◌∷◌, leb,
  ltb, if◌then◌else◌, keep, Text, text_eq, text_compare, Ordering,
}
use surql_parser.Prelude.SortedSet.{contains}
use surql_parser.Prelude.Sorting.{sort_by}
use surql_parser.Schema.Model.{SchemaGraph}
use surql_parser.Schema.Links.{links_of, text_le}

-- A table, the field that leads to it, its children, and whether it stands above itself.
mutual
  pub data DependencyNode : Type 0 where
    node : Text → Option Text → Children → Bool → DependencyNode

  pub data Children : Type 0 where
    no_child : Children
    child : DependencyNode → Children → Children

-- The visited tables and the number of nodes so far.
abbrev pub Progress : Type 0
Progress = List Text × ℕ

abbrev pub max_nodes : ℕ
max_nodes = 1000

abbrev pub link_le : Text × Text → Text × Text → Bool
link_le a b = elim (text_compare a.0 b.0) [
  | Ordering.lt ↦ true
  | Ordering.eq ↦ text_le a.1 b.1
  | Ordering.gt ↦ false
]

-- `field_links`, sorted.
unfoldable pub field_links : SchemaGraph → Text → List (Text × Text)
unfolding sort_by
field_links g name = sort_by link_le (links_of g name)

-- `visited.remove(name)`
abbrev pub without : Text → List Text → List Text
without name = keep (λ v. not (text_eq v name))

-- The loop over the links, with the recursive call as `step`.
unfoldable pub children_of :
    (Text → Option Text → Progress → DependencyNode × Progress)
    → List (Text × Text)
    → Progress
    → Children × Progress
children_of step [] p = (no_child, p)
children_of step (l ∷ ls) p = elim (leb max_nodes p.1) [
  | true ↦ (no_child, p)
  | false ↦
      let (n, p') = step l.1 (some l.0) p in
      let (ns, p'') = children_of step ls p' in (child n ns, p'')
]

-- A node, with the code that makes its children.
unfoldable pub enter :
    Text → Option Text → (Progress → Children × Progress) → Progress → DependencyNode × Progress
enter name via kids p = elim (contains p.0 name) [
  | true ↦ (node name via no_child true, (p.0, suc p.1))
  | false ↦
      let (ns, p') = kids (name ∷ p.0, suc p.1) in
      (node name via ns false, (without name p'.0, p'.1))
]

unfoldable pub build_dependency_subtree :
    SchemaGraph → ℕ → Text → Option Text → Progress → DependencyNode × Progress
unfolding enter children_of field_links
build_dependency_subtree g zero name via p = enter name via (λ q. (no_child, q)) p
build_dependency_subtree g (suc depth) name via p =
    enter name via
      (λ q. elim (ltb q.1 max_nodes) [
        | true ↦ children_of (build_dependency_subtree g depth) (field_links g name) q
        | false ↦ (no_child, q)
      ])
      p

unfoldable pub dependency_tree : SchemaGraph → Text → ℕ → DependencyNode
unfolding build_dependency_subtree
dependency_tree g root max = (build_dependency_subtree g max root none ([], 0)).0
