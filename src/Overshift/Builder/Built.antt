-- ===== src/Overshift/Builder/Built.antt =====
-- What `build` makes of the migrations and the modules.
use mathlib.Core.List.{Memᴰ}
use surql_parser.Prelude.{
  ◌<◌, ◌⊎◌, Option, ◌^◌, ◌≤◌, none, some, List, [], map, length, codes, Text, ◌≡◌, ◌↔◌, refl, sym,
  ap, ◌∙◌, arith, Option-cases, inl, inr,
}
use surql_parser.Prelude.Sorting.{sort_by, Memᴰ-sort_by, IsOrder, IsSortedBy, sort_by-IsSortedBy}
use surql_parser.Strings.Lines.{join_lines}
use surql_parser.Overshift.Types.{manifest, Error, Result, ok, err, Migration, SchemaModule}
use surql_parser.Overshift.Migration.{validate_migration_sequence}
use surql_parser.Overshift.Migration.Sequence.{
  StartsAtOne, validate_migration_sequence_accepts, validate_migration_sequence_returns,
}
use surql_parser.Overshift.Planning.Consistent.{IsUnique}
use surql_parser.Overshift.Modules.{ModuleConfig, returned, topological_sort}
use surql_parser.Overshift.Modules.Counts.{count}
use surql_parser.Overshift.Modules.Sorted.{DepsFirst}
use surql_parser.Overshift.Modules.Correct.{names, topological_sort_returns, topological_sort_sound}
use surql_parser.Overshift.Modules.Names.{mem-is_named}
use surql_parser.Overshift.Builder.{
  ManifestMeta, ManifestBuilder, BuiltManifest, version_le, configs, module_content, schema_modules,
  assembled, with_order, with_valid, build_with, build,
}
use surql_parser.Overshift.Builder.Contents.{
  loaded, IsLoaded, has_key-module_content, IsGiven, parts_of_given,
}

version_le-IsOrder : IsOrder version_le
version_le-IsOrder = record { total = λ a b h. ground arith; trans = λ a b c h k. ground arith }

-- The migrations stand in the order of their versions, no two with one version and the first with 1,
-- and are those that were added. The modules stand in an order with each behind its dependencies, and
-- are those that were added, each once, with the contents that were given for them.
pub record IsBuilt (b : ManifestBuilder) (m : BuiltManifest) : Type 0 where
  pub unique : IsUnique m.preloaded_migrations
  pub starts : StartsAtOne m.preloaded_migrations
  pub sorted : IsSortedBy version_le m.preloaded_migrations
  pub same : (x : Migration) → Memᴰ x m.preloaded_migrations ↔ Memᴰ x b.migrations
  pub given : m.modules ≡ configs b.modules
  pub order : List ModuleConfig
  pub deps_first : DepsFirst [] order
  pub all_of : length order ≡ length m.modules
  pub members : (c : ModuleConfig) → Memᴰ c order → Memᴰ c m.modules
  pub distinct : (n : Text) → count n (names order) ≤ 1
  pub in_order : map (λ x. x.name) m.preloaded_modules ≡ names order
  pub contents : (x : SchemaModule) → Memᴰ x m.preloaded_modules → IsGiven b.modules x

Result-cases : {A : Type 0} (r : Result A) → ((e : Error) × (r ≡ err e)) ⊎ ((a : A) × (r ≡ ok a))
Result-cases (ok a) = inr (a, refl)
Result-cases (err e) = inl (e, refl)

module _ (b : ManifestBuilder) (meta : ManifestMeta) where
  abbrev ms : List Migration
  ms = sort_by version_le b.migrations

  ordered_modules :
      (ordered : List ModuleConfig)
      → topological_sort (configs b.modules) ≡ returned (ok ordered)
      → (out : List SchemaModule) × (schema_modules (module_content b.modules []) ordered
          ≡ some out)
        × (map (λ m. m.name) out ≡ names ordered)
        × ((x : SchemaModule) → Memᴰ x out → IsLoaded (module_content b.modules []) x)
  ordered_modules ordered t =
      let (f, n, members, u) = topological_sort_sound (configs b.modules) ordered t in
      loaded (module_content b.modules []) ordered (λ c m.
        has_key-module_content c.name b.modules []
        ∙ mem-is_named c (configs b.modules) (members c m))

  -- With the modules in an order, the manifest is put together.
  assembled-IsBuilt :
      validate_migration_sequence ms ≡ some (ok tt)
      → (ordered : List ModuleConfig) (m : BuiltManifest)
      → topological_sort (configs b.modules) ≡ returned (ok ordered)
      → with_order meta ms b.modules (returned (ok ordered)) ≡ some (ok m)
      → IsBuilt b m
  assembled-IsBuilt v ordered m t h =
      let (f, n, members, u) = topological_sort_sound (configs b.modules) ordered t in
      let (out, q, in_order, l) = ordered_modules ordered t in
      let (unique, starts) = validate_migration_sequence_accepts ms v in
      let made : assembled meta ms b.modules (some out) ≡ some (ok m) =
        ap (assembled meta ms b.modules) (sym q) ∙ h in
      let e : m ≡ record {
        meta = meta;
        modules = configs b.modules;
        preloaded_migrations = ms;
        preloaded_modules = out;
      } =
        ground arith in
      rw e (record {
        unique = unique;
        starts = starts;
        sorted = sort_by-IsSortedBy version_le version_le-IsOrder b.migrations;
        same = λ x. Memᴰ-sort_by version_le x b.migrations;
        given = refl;
        order = ordered;
        deps_first = f;
        all_of = n;
        members = members;
        distinct = u;
        in_order = in_order;
        contents = λ x k.
            let (parts, found, content, files) = l x k in
            let (g, given, name, same) = parts_of_given x.name b.modules parts found in
            (g, given, sym name, content ∙ ap join_lines (sym same), files);
      })

  with_order-IsBuilt :
      validate_migration_sequence ms ≡ some (ok tt)
      → (m : BuiltManifest)
      → with_order meta ms b.modules (topological_sort (configs b.modules)) ≡ some (ok m)
      → IsBuilt b m
  with_order-IsBuilt v m h =
      let (r, t) = topological_sort_returns (configs b.modules) in
      let g : with_order meta ms b.modules (returned r) ≡ some (ok m) =
        ap (with_order meta ms b.modules) (sym t) ∙ h in
      elim (Result-cases r) [
        | inl (e, q) ↦ cc (ap (λ x. with_order meta ms b.modules (returned x)) (sym q) ∙ g)
        | inr (ordered, q) ↦
            assembled-IsBuilt v ordered m (t ∙ ap returned q)
              (ap (λ x. with_order meta ms b.modules (returned x)) (sym q) ∙ g)
      ]

  with_order_returns :
      (r : Result BuiltManifest) × (with_order meta ms b.modules
          (topological_sort (configs b.modules))
        ≡ some r)
  with_order_returns =
      let (r, t) = topological_sort_returns (configs b.modules) in
      elim (Result-cases r) [
        | inl (e, q) ↦ (err e, ap (with_order meta ms b.modules) (t ∙ ap returned q))
        | inr (ordered, q) ↦
            let (out, s, n, l) = ordered_modules ordered (t ∙ ap returned q) in
            (
              ok _,
              ap (with_order meta ms b.modules) (t ∙ ap returned q)
                  ∙ ap (assembled meta ms b.modules) s,
            )
      ]

build-none :
    (b : ManifestBuilder)
    → b.meta ≡ none
    → build b ≡ some (err (manifest (codes "meta is required")))
unfolding build build_with
build-none b e = ap (λ o. build_with o b) e

build-some :
    (b : ManifestBuilder) (meta : ManifestMeta) (r : Option (Result (Unit {0})))
    → b.meta ≡ some meta
    → validate_migration_sequence (ms b meta) ≡ r
    → build b ≡ with_valid meta (ms b meta) b.modules r
unfolding build build_with
build-some b meta r e v = ap (λ o. build_with o b) e ∙ ap (with_valid meta (ms b meta) b.modules) v

-- The check of the sorted migrations returns.
checked_migrations :
    (b : ManifestBuilder) (meta : ManifestMeta)
    → ((m : Migration) → Memᴰ m b.migrations → m.version < 2 ^ 32)
    → (r : Result (Unit {0})) × (validate_migration_sequence (ms b meta) ≡ some r)
checked_migrations b meta small =
    validate_migration_sequence_returns (ms b meta)
      (sort_by-IsSortedBy version_le version_le-IsOrder b.migrations)
      (λ m k. small m ((Memᴰ-sort_by version_le m b.migrations).0 k))

-- For a builder whose migrations have versions below 2 ^ 32, as their type says, `build` returns: the
-- gaps between sorted versions are in range, no module's content is missing, and the sorting of the
-- modules neither panics nor runs out of fuel.
pub build_returns :
    (b : ManifestBuilder)
    → ((m : Migration) → Memᴰ m b.migrations → m.version < 2 ^ 32)
    → (r : Result BuiltManifest) × (build b ≡ some r)
build_returns b small = elim (Option-cases b.meta) [
  | inl e ↦ (err (manifest (codes "meta is required")), build-none b e)
  | inr (meta, e) ↦
      let (checked, v) = checked_migrations b meta small in
      elim (Result-cases checked) [
        | inl (x, q) ↦ (err x, build-some b meta (some (err x)) e (v ∙ ap some q))
        | inr (u, q) ↦
            let (r, p) = with_order_returns b meta in
            (r, build-some b meta (some (ok u)) e (v ∙ ap some q) ∙ p)
      ]
]

-- What `build` returns has the migrations that were added, in the order of their versions, no two with
-- one version and the first with version 1. It has the modules that were added, each once and behind
-- all that it depends on, and each loaded module has the name of a module that was added, with the
-- parts of that module's content joined by newlines and no files.
pub build-IsBuilt : (b : ManifestBuilder) (m : BuiltManifest) → build b ≡ some (ok m) → IsBuilt b m
build-IsBuilt b m h = elim (Option-cases b.meta) [
  | inl e ↦ cc (sym (build-none b e) ∙ h)
  | inr (meta, e) ↦ elim (Option-cases (validate_migration_sequence (ms b meta))) [
    | inl v ↦ cc (sym (build-some b meta none e v) ∙ h)
    | inr (c, v) ↦ elim (Result-cases c) [
      | inl (x, q) ↦ cc (sym (build-some b meta (some (err x)) e (v ∙ ap some q)) ∙ h)
      | inr (u, q) ↦
          with_order-IsBuilt b meta (v ∙ ap some q) m
            (sym (build-some b meta (some (ok u)) e (v ∙ ap some q)) ∙ h)
    ]
  ]
]
