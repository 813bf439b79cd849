-- ===== src/Tests/Modules.antt =====
-- The order of schema modules on a chain, a circle and a repeated name.
use mathlib.Core.List.{Memᴰ}
use mathlib.Core.List.Memᴰ
use surql_parser.Prelude.{
  ◌≤◌, List, [], ◌∷◌, ◌≡◌, inl, inr, refl, arith, codes, Text, length, text_compare, text_eq_iff,
}
use surql_parser.Overshift.Types.{Result, ok, err}
use surql_parser.Overshift.Modules.{ModuleConfig, returned, topological_sort, circular}
use surql_parser.Overshift.Modules.Counts.{count}
use surql_parser.Overshift.Modules.Sorted.{DepsFirst}
use surql_parser.Overshift.Modules.Correct.{names, topological_sort_returns, topological_sort_sound}
use surql_parser.Overshift.Modules.Complete.{topological_sort_complete}
use surql_parser.Prelude.HashMap.{put, lookup}

abbrev config : Text → List Text → ModuleConfig
config name deps = record { name = name; path = []; depends_on = deps }

abbrev base : ModuleConfig
base = config (codes "base") []

abbrev views : ModuleConfig
views = config (codes "views") (codes "base" ∷ [])

abbrev chain : List ModuleConfig
chain = views ∷ base ∷ []

sorted_chain : topological_sort chain ≡ returned (ok (base ∷ views ∷ []))
unfolding topological_sort text_compare put lookup
sorted_chain = refl

circle : topological_sort (config (codes "a") (codes "a" ∷ []) ∷ []) ≡ returned (err circular)
unfolding topological_sort text_compare put lookup
circle = refl

-- Two modules of one name are taken for a circle.
repeated : topological_sort (base ∷ base ∷ []) ≡ returned (err circular)
unfolding topological_sort text_compare put lookup
repeated = refl

topological_sort_returns_example :
    (r : Result (List ModuleConfig)) × (topological_sort chain ≡ returned r)
topological_sort_returns_example = topological_sort_returns chain

topological_sort_sound_example :
    DepsFirst [] (base ∷ views ∷ [])
    × (length (base ∷ views ∷ []) ≡ length chain)
    × ((c : ModuleConfig) → Memᴰ c (base ∷ views ∷ []) → Memᴰ c chain)
    × ((n : Text) → count n (names (base ∷ views ∷ [])) ≤ 1)
topological_sort_sound_example = topological_sort_sound chain (base ∷ views ∷ []) sorted_chain

distinct : (n : Text) → count n (names chain) ≤ 1
unfolding text_compare
distinct n = ground (arith, text_eq_iff n (codes "views"), text_eq_iff n (codes "base"))

swapped : (a b c : ModuleConfig) → Memᴰ c (a ∷ b ∷ []) → Memᴰ c (b ∷ a ∷ [])
swapped a b c m = elim (Memᴰ.cases_cons m) [
  | inl e ↦ Memᴰ.tail (Memᴰ.head e)
  | inr r ↦ Memᴰ.head (Memᴰ.eq_of_singleton r)
]

base_first : DepsFirst [] (base ∷ views ∷ [])
unfolding text_compare
base_first = (tt, ((refl, tt), tt))

topological_sort_complete_example :
    (out : List ModuleConfig) × (topological_sort chain ≡ returned (ok out))
topological_sort_complete_example =
    topological_sort_complete chain (base ∷ views ∷ []) distinct (swapped views base)
      (swapped base views) base_first
