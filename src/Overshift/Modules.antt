-- ===== src/Overshift/Modules.antt =====
-- overshift/src/schema.rs: `topological_sort`, the order in which schema modules are applied, and
-- `ModuleConfig` of overshift/src/manifest.rs.
pub mod Counts
pub mod Released
pub mod Sorted
pub mod Correct
pub mod Names
pub mod Complete
use surql_parser.Prelude.{
  ℕ, zero, suc, ◌+◌, Bool, true, false, not, ◌&&◌, Option, none, some, List, [], ◌∷◌, ◌++◌, ◌==◌,
  if◌then◌else◌, is_empty, length, keep, map, codes, Text,
}
use surql_parser.Prelude.HashMap.{HashMap, lookup, put, has_key}
use surql_parser.Prelude.Sorting.{sort_by}
use surql_parser.Schema.Links.{text_le}
use surql_parser.Overshift.Types.{Error, Result, ok, err}

pub record ModuleConfig : Type 0 where
  pub name : Text
  pub path : Text
  pub depends_on : List Text

-- A call of the sort: what it returns, or where it would panic: on a missing key, or on a degree below 0.
pub data Outcome : Type 0 where
  returned : Result (List ModuleConfig) → Outcome
  panicked out_of_fuel : Outcome

-- `modules.iter().map(|m| (m.name.as_str(), m)).collect()`: the last module of a name.
unfoldable pub module_map : List ModuleConfig → HashMap ModuleConfig → HashMap ModuleConfig
module_map [] map = map
module_map (m ∷ ms) map = module_map ms (put m.name m map)

-- The first dependency that is no module.
unfoldable pub unknown_in : HashMap ModuleConfig → List Text → Option Text
unknown_in map [] = none
unknown_in map (dep ∷ deps) =
    let rest = unknown_in map deps in if has_key dep map then rest else some dep

unfoldable pub unknown_module : HashMap ModuleConfig → List ModuleConfig → Option (Text × Text)
unfolding unknown_in
unknown_module map [] = none
unknown_module map (m ∷ ms) =
    let rest = unknown_module map ms in
    elim (unknown_in map m.depends_on) [ some dep ↦ some (m.name, dep) | none ↦ rest ]

abbrev pub or_zero : Option ℕ → ℕ
or_zero none = 0
or_zero (some n) = n

abbrev pub or_nothing : Option (List Text) → List Text
or_nothing none = []
or_nothing (some names) = names

-- `in_degree.entry(name).or_insert(0)`, with `+= n` behind it
abbrev pub raise_by : ℕ → Text → HashMap ℕ → HashMap ℕ
raise_by n name degrees = put name (or_zero (lookup name degrees) + n) degrees

unfoldable pub count_deps : Text → List Text → HashMap ℕ → HashMap ℕ
count_deps name [] degrees = degrees
count_deps name (dep ∷ deps) degrees = count_deps name deps (raise_by 1 name degrees)

unfoldable pub in_degree : List ModuleConfig → HashMap ℕ → HashMap ℕ
unfolding count_deps
in_degree [] degrees = degrees
in_degree (m ∷ ms) degrees =
    in_degree ms (count_deps m.name m.depends_on (raise_by 0 m.name degrees))

-- `dependents.entry(dep).or_default().push(name)` for each dependency
unfoldable pub push_dependents : Text → List Text → HashMap (List Text) → HashMap (List Text)
push_dependents name [] map = map
push_dependents name (dep ∷ deps) map =
    push_dependents name deps (put dep (or_nothing (lookup dep map) ++ name ∷ []) map)

unfoldable pub dependents : List ModuleConfig → HashMap (List Text) → HashMap (List Text)
unfolding push_dependents
dependents [] map = map
dependents (m ∷ ms) map = dependents ms (push_dependents m.name m.depends_on map)

-- The names of degree 0, sorted.
unfoldable pub ready : HashMap ℕ → List Text
unfolding sort_by
ready degrees = sort_by text_le (map (λ e. e.0) (keep (λ e. e.1 == 0) degrees))

-- The loop over the dependents of a module: their degrees sink by one each. The second part of the
-- result are those that come to 0; `none` is a panic.
unfoldable pub release : List Text → HashMap ℕ → Option (HashMap ℕ × List Text)
release [] degrees = some (degrees, [])
release (name ∷ names) degrees = elim (lookup name degrees) [
  | none ↦ none
  | some zero ↦ none
  | some (suc k) ↦ elim (release names (put name k degrees)) [
    | none ↦ none
    | some (degrees', next) ↦ some (degrees', if k == 0 then name ∷ next else next)
  ]
]

-- The `while` loop.
unfoldable pub drain :
    HashMap ModuleConfig
    → HashMap (List Text)
    → ℕ
    → HashMap ℕ
    → List Text
    → List ModuleConfig
    → Option (List ModuleConfig) × Bool
unfolding release sort_by
drain modules map fuel degrees [] result = (some result, true)
drain modules map zero degrees (name ∷ queue) result = (none, false)
drain modules map (suc fuel) degrees (name ∷ queue) result = elim (lookup name modules) [
  | none ↦ (none, true)
  | some m ↦ elim (release (or_nothing (lookup name map)) degrees) [
    | none ↦ (none, true)
    | some (degrees', next) ↦
        drain modules map fuel degrees' (queue ++ sort_by text_le next) (result ++ m ∷ [])
  ]
]

-- The sum of the degrees.
abbrev pub total : HashMap ℕ → ℕ
total [] = 0
total ((k, n) ∷ degrees) = n + total degrees

pub circular : Error
circular = Error.schema (codes "circular dependency detected in schema modules")

pub unknown : Text × Text → Error
unknown (m, dep) =
    Error.schema
      (codes "module '" ++ m ++ codes "' depends on unknown module '" ++ dep ++ codes "'")

pub checked : List ModuleConfig → Option (List ModuleConfig) × Bool → Outcome
unfolding circular
checked modules (none, true) = panicked
checked modules (none, false) = out_of_fuel
checked modules (some result, b) =
    if length result == length modules then returned (ok result) else returned (err circular)

abbrev pub run : List ModuleConfig → Option (List ModuleConfig) × Bool
run modules =
    let degrees = in_degree modules [] in
    drain (module_map modules []) (dependents modules []) (total degrees + length (ready degrees))
      degrees (ready degrees) []

-- The fuel is the sum of the degrees and the number of modules that are ready: each round takes a
-- module off the queue, and lowers a degree for each one that it puts there.
unfoldable pub topological_sort : List ModuleConfig → Outcome
unfolding module_map unknown_module in_degree dependents ready drain checked unknown
topological_sort [] = returned (ok [])
topological_sort (m ∷ ms) = elim (unknown_module (module_map (m ∷ ms) []) (m ∷ ms)) [
  | some e ↦ returned (err (unknown e))
  | none ↦ checked (m ∷ ms) (run (m ∷ ms))
]
