-- ===== src/Schema/Trees/Bounds.antt =====
-- The size, the height and the cycles of a dependency tree.
use mathlib.Core.List.{Memᴰ}
use mathlib.Core.Path.{subst}
use surql_parser.Prelude.{
  ℕ, zero, suc, ◌+◌, ◌≤◌, ◌<◌, true, false, Option, none, some, List, [], ◌∷◌, leb, ltb, Text,
  text_eq, text_eq_refl, text_eq_comm, ◌≡◌, inl, inr, refl, ap, ◌∙◌, arith, Bool-cases,
}
use surql_parser.Prelude.SortedSet.{contains}
use surql_parser.Prelude.Sorting.{Memᴰ-sort_by}
use surql_parser.Schema.Model.{SchemaGraph}
use surql_parser.Schema.Links.{links_of}
use surql_parser.Schema.Trees.{
  DependencyNode, Children, node, no_child, child, Progress, max_nodes, link_le, field_links,
  without, children_of, enter, build_dependency_subtree, dependency_tree,
}

abbrev pub table_of : DependencyNode → Text
table_of (node name via ns cycle) = name

abbrev pub field_of : DependencyNode → Option Text
field_of (node name via ns cycle) = via

unfoldable mutual
  pub size : DependencyNode → ℕ
  size (node name via ns cycle) = suc (sizes ns)

  pub sizes : Children → ℕ
  sizes no_child = 0
  sizes (child n ns) = size n + sizes ns

-- The links by which the children are reached.
abbrev pub IsReachedBy : List (Text × Text) → Children → Type 0
IsReachedBy [] no_child = Unit
IsReachedBy [] (child n ns) = ⊥
IsReachedBy (l ∷ ls) no_child = ⊥
IsReachedBy (l ∷ ls) (child n ns) = (table_of n ≡ l.1) × (field_of n ≡ some l.0) × IsReachedBy ls ns

-- A tree below the given tables, of at most the given height: exactly the tables that stand above
-- themselves are marked, and have no children; each other child is reached by a link of its parent.
unfoldable mutual
  pub IsTree : SchemaGraph → List Text → ℕ → DependencyNode → Type 0
  IsTree g above height (node name via ns true) = (contains above name ≡ true) × (ns ≡ no_child)
  IsTree g above height (node name via ns false) =
      (contains above name ≡ false) × AreTrees g name (name ∷ above) height ns

  pub AreTrees : SchemaGraph → Text → List Text → ℕ → Children → Type 0
  AreTrees g name above height no_child = Unit
  AreTrees g name above zero (child n ns) = ⊥
  AreTrees g name above (suc height) (child n ns) =
      ((f : Text) × (field_of n ≡ some f) × Memᴰ (f, table_of n) (links_of g name))
      × IsTree g above height n
      × AreTrees g name above (suc height) ns

-- Down to the height, each table that is not marked has one child for each of its links.
unfoldable mutual
  pub IsFull : SchemaGraph → ℕ → DependencyNode → Type 0
  IsFull g height (node name via ns true) = Unit
  IsFull g zero (node name via ns false) = Unit
  IsFull g (suc height) (node name via ns false) =
      IsReachedBy (field_links g name) ns × AreFull g height ns

  pub AreFull : SchemaGraph → ℕ → Children → Type 0
  AreFull g height no_child = Unit
  AreFull g height (child n ns) = IsFull g height n × AreFull g height ns

without-absent : (name : Text) (v : List Text) → contains v name ≡ false → without name v ≡ v
without-absent name [] e = refl
without-absent name (w ∷ v) e =
    let a : text_eq w name ≡ false = text_eq_comm w name ∙ ground arith in
    rw a (ap (◌∷◌ w) (without-absent name v (ground arith)))

without-cons : (name : Text) (v : List Text) → contains v name ≡ false → without name (name ∷ v) ≡ v
without-cons name v e = rw (text_eq_refl name) (without-absent name v e)

-- What one call gives.
record Built (g : SchemaGraph) (height : ℕ) (name : Text) (via : Option Text) (p : Progress)
    (out : DependencyNode × Progress) : Type 0 where
  tree : IsTree g p.0 height out.0
  tabled : table_of out.0 ≡ name
  fielded : field_of out.0 ≡ via
  restored : out.1.0 ≡ p.0
  counted : out.1.1 ≡ p.1 + size out.0
  capped : p.1 < max_nodes → out.1.1 ≤ max_nodes
  full : out.1.1 < max_nodes → IsFull g height out.0

-- What the loop over links gives.
record Looped (g : SchemaGraph) (height : ℕ) (name : Text) (ls : List (Text × Text)) (p : Progress)
    (out : Children × Progress) : Type 0 where
  trees : AreTrees g name p.0 (suc height) out.0
  restored : out.1.0 ≡ p.0
  counted : out.1.1 ≡ p.1 + sizes out.0
  capped : p.1 ≤ max_nodes → out.1.1 ≤ max_nodes
  full : out.1.1 < max_nodes → IsReachedBy ls out.0 × AreFull g height out.0

module _ (g : SchemaGraph) (height : ℕ)
    (step : Text → Option Text → Progress → DependencyNode × Progress)
    (built : (name : Text) (via : Option Text) (p : Progress)
      → Built g height name via p (step name via p))
    (name : Text) where
  Looped-children_of :
      (ls : List (Text × Text)) (p : Progress)
      → ((l : Text × Text) → Memᴰ l ls → Memᴰ l (links_of g name))
      → Looped g height name ls p (children_of step ls p)
  unfolding children_of IsTree IsFull size
  Looped-children_of [] p m = record {
    trees = tt;
    restored = refl;
    counted = omega arith;
    capped = λ h. h;
    full = λ h. (tt, tt);
  }
  Looped-children_of (l ∷ ls) p m = elim (Bool-cases (leb max_nodes p.1)) [
    | inl e ↦
        rw (children_of, e)
          (record {
            trees = tt;
            restored = refl;
            counted = omega arith;
            capped = λ h. h;
            full = λ h. absurd (ground arith);
          })
    | inr e ↦
        let one = built l.1 (some l.0) p in
        let rest = Looped-children_of ls (step l.1 (some l.0) p).1 (λ x n. m x (Memᴰ.tail n)) in
        rw (children_of, e)
          (record {
            trees = (
              (l.0, one.fielded, rw one.tabled (m l (Memᴰ.head refl))),
              one.tree,
              subst
                  (λ v.
                    AreTrees g name v (suc height)
                      (children_of step ls (step l.1 (some l.0) p).1).0)
                  one.restored rest.trees,
            );
            restored = rest.restored ∙ one.restored;
            counted = omega (arith, rest.counted, one.counted);
            capped = λ h. rest.capped (one.capped (ground arith));
            full = λ h.
                let (a, b) = rest.full h in
                ((one.tabled, one.fielded, a), (one.full (omega (arith, rest.counted, h)), b));
          })
  ]

-- What the code that makes the children of a node gives, at a height.
record Filled (g : SchemaGraph) (height : ℕ) (name : Text) (p : Progress)
    (out : Children × Progress) : Type 0 where
  trees : AreTrees g name p.0 height out.0
  restored : out.1.0 ≡ p.0
  counted : out.1.1 ≡ p.1 + sizes out.0
  capped : p.1 ≤ max_nodes → out.1.1 ≤ max_nodes
  full : out.1.1 < max_nodes → IsFull g height (node name none out.0 false)

IsFull-via :
    (g : SchemaGraph) (height : ℕ) (name : Text) (via : Option Text) (ns : Children)
    → IsFull g height (node name none ns false)
    → IsFull g height (node name via ns false)
unfolding IsFull
IsFull-via g zero name via ns f = f
IsFull-via g (suc height) name via ns f = f

IsFull-cycle :
    (g : SchemaGraph) (height : ℕ) (name : Text) (via : Option Text)
    → IsFull g height (node name via no_child true)
unfolding IsFull
IsFull-cycle g zero name via = tt
IsFull-cycle g (suc height) name via = tt

Built-enter :
    (g : SchemaGraph) (height : ℕ) (name : Text) (via : Option Text)
    (kids : Progress → Children × Progress) (p : Progress)
    → ((q : Progress) → Filled g height name q (kids q))
    → Built g height name via p (enter name via kids p)
unfolding enter IsTree size
Built-enter g height name via kids p filled = elim (Bool-cases (contains p.0 name)) [
  | inl e ↦
      rw (enter, e)
        (record {
          tree = (e, refl);
          tabled = refl;
          fielded = refl;
          restored = refl;
          counted = omega arith;
          capped = λ h. h;
          full = λ h. IsFull-cycle g height name via;
        })
  | inr e ↦
      let q : Progress = (name ∷ p.0, suc p.1) in
      let f = filled q in
      rw (enter, e)
        (record {
          tree = (e, f.trees);
          tabled = refl;
          fielded = refl;
          restored = ap (without name) f.restored ∙ without-cons name p.0 e;
          counted = omega (arith, f.counted);
          capped = λ h. f.capped h;
          full = λ h. IsFull-via g height name via (kids q).0 (f.full h);
        })
]

Filled-nothing : (g : SchemaGraph) (name : Text) (q : Progress) → Filled g zero name q (no_child, q)
unfolding IsTree IsFull size
Filled-nothing g name q = record {
  trees = tt;
  restored = refl;
  counted = omega arith;
  capped = λ h. h;
  full = λ h. tt;
}

mem-field_links :
    (g : SchemaGraph) (name : Text) (l : Text × Text)
    → Memᴰ l (field_links g name)
    → Memᴰ l (links_of g name)
unfolding field_links
mem-field_links g name l m = (Memᴰ-sort_by link_le l (links_of g name)).0 m

module _ (g : SchemaGraph) where
  Built-build :
      (height : ℕ) (name : Text) (via : Option Text) (p : Progress)
      → Built g height name via p (build_dependency_subtree g height name via p)
  unfolding build_dependency_subtree IsTree IsFull size
  Built-build zero name via p =
      Built-enter g zero name via (λ q. (no_child, q)) p (Filled-nothing g name)
  Built-build (suc height) name via p =
      Built-enter g (suc height) name via
        (λ q. elim (ltb q.1 max_nodes) [
          | true ↦ children_of (build_dependency_subtree g height) (field_links g name) q
          | false ↦ (no_child, q)
        ])
        p
        (λ q. elim (Bool-cases (ltb q.1 max_nodes)) [
          | inl e ↦
              let looped =
                Looped-children_of g height (build_dependency_subtree g height) (Built-build height)
                  name (field_links g name) q (mem-field_links g name) in
              rw e (record {
                trees = looped.trees;
                restored = looped.restored;
                counted = looped.counted;
                capped = looped.capped;
                full = looped.full;
              })
          | inr e ↦ rw e (record {
            trees = tt;
            restored = refl;
            counted = omega arith;
            capped = λ h. h;
            full = λ h. absurd (ground arith);
          })
        ])

-- The tree of `dependency_tree` has at most 1000 nodes and at most the given height below its root;
-- exactly the tables that stand above themselves are marked, and have no children, so that no cycle of
-- links is followed twice; and each child is reached by a link of its parent.
pub dependency_tree-IsTree :
    (g : SchemaGraph) (root : Text) (max : ℕ)
    → IsTree g [] max (dependency_tree g root max)
      × (size (dependency_tree g root max) ≤ max_nodes)
      × (table_of (dependency_tree g root max) ≡ root)
unfolding dependency_tree
dependency_tree-IsTree g root max =
    let b = Built-build g max root none ([], 0) in
    (b.tree, omega (arith, b.counted, b.capped (omega arith)), b.tabled)

-- Where the tree of `dependency_tree` has fewer than 1000 nodes, nothing is cut off: down to the
-- given height, each table that is not marked has one child for each of its links, in their order.
pub dependency_tree-IsFull :
    (g : SchemaGraph) (root : Text) (max : ℕ)
    → size (dependency_tree g root max) < max_nodes
    → IsFull g max (dependency_tree g root max)
unfolding dependency_tree
dependency_tree-IsFull g root max h =
    let b = Built-build g max root none ([], 0) in b.full (omega (arith, b.counted, h))
