-- ===== src/Overshift/Builder.antt =====
-- overshift/src/manifest.rs: `ManifestBuilder`, which makes a manifest of migrations and modules given
-- in the program. The checksum is a parameter.
pub mod Contents
pub mod Built
use surql_parser.Prelude.{ℕ, Bool, Option, none, some, List, [], ◌∷◌, ◌++◌, leb, map, codes, Text}
use surql_parser.Prelude.HashMap.{HashMap, lookup, put}
use surql_parser.Prelude.Sorting.{sort_by}
use surql_parser.Strings.Lines.{join_lines}
use surql_parser.Overshift.Types.{Error, manifest, Result, ok, err, Migration, SchemaModule}
use surql_parser.Overshift.Migration.{validate_migration_sequence}
use surql_parser.Overshift.Modules.{
  ModuleConfig, Outcome, returned, panicked, out_of_fuel, topological_sort,
}

pub record ManifestMeta : Type 0 where
  pub ns : Text
  pub db : Text
  pub system_db : Text
  pub surrealdb : Option Text

-- Name, dependencies and parts of the content.
abbrev pub GivenModule : Type 0
GivenModule = Text × List Text × List Text

pub record ManifestBuilder : Type 0 where
  pub meta : Option ManifestMeta
  pub migrations : List Migration
  pub modules : List GivenModule

-- The manifest that is built, without a root.
pub record BuiltManifest : Type 0 where
  pub meta : ManifestMeta
  pub modules : List ModuleConfig
  pub preloaded_migrations : List Migration
  pub preloaded_modules : List SchemaModule

-- `Manifest::builder()`
abbrev pub builder : ManifestBuilder
builder = record { meta = none; migrations = []; modules = [] }

abbrev pub with_meta_full : ManifestMeta → ManifestBuilder → ManifestBuilder
with_meta_full meta b = record b { meta = some meta }

abbrev pub with_meta : Text → Text → Text → ManifestBuilder → ManifestBuilder
with_meta ns db system_db b =
    with_meta_full (record { ns = ns; db = db; system_db = system_db; surrealdb = none }) b

abbrev pub with_module : Text → List Text → List Text → ManifestBuilder → ManifestBuilder
with_module name depends_on content b = record b {
  modules = b.modules ++ (name, depends_on, content) ∷ [];
}

module _ (compute_checksum : Text → Text) where
  abbrev push_migration : ℕ → Text → Text → Option Text → ManifestBuilder → ManifestBuilder
  push_migration version name content down b = record b {
    migrations =
        b.migrations
        ++ record {
          version = version;
          name = name;
          content = content;
          checksum = compute_checksum content;
          down_content = down;
        }
          ∷ [];
  }

  abbrev pub with_migration : ℕ → Text → Text → ManifestBuilder → ManifestBuilder
  with_migration version name content b = push_migration version name content none b

  abbrev pub with_migration_and_down : ℕ → Text → Text → Text → ManifestBuilder → ManifestBuilder
  with_migration_and_down version name content down b =
      push_migration version name content (some down) b

-- `sort_by_key(|m| m.version)`
abbrev pub version_le : Migration → Migration → Bool
version_le a b = leb a.version b.version

abbrev pub config_of : GivenModule → ModuleConfig
config_of m = record { name = m.0; path = []; depends_on = m.1 }

abbrev pub configs : List GivenModule → List ModuleConfig
configs modules = map config_of modules

-- `module_content`: the parts of the last module of a name
unfoldable pub module_content : List GivenModule → HashMap (List Text) → HashMap (List Text)
module_content [] acc = acc
module_content (m ∷ ms) acc = module_content ms (put m.0 m.2 acc)

-- The schema modules in the order of the configurations; `none` is the panic of a missing key.
unfoldable pub schema_modules : HashMap (List Text) → List ModuleConfig → Option (List SchemaModule)
schema_modules contents [] = some []
schema_modules contents (c ∷ cs) = elim (lookup c.name contents) [
  | none ↦ none
  | some parts ↦ elim (schema_modules contents cs) [
    | none ↦ none
    | some rest ↦ some (record { name = c.name; content = join_lines parts; files = [] } ∷ rest)
  ]
]

abbrev pub assembled :
    ManifestMeta
    → List Migration
    → List GivenModule
    → Option (List SchemaModule)
    → Option (Result BuiltManifest)
assembled meta migrations modules none = none
assembled meta migrations modules (some loaded) = some (
    ok (record {
      meta = meta;
      modules = configs modules;
      preloaded_migrations = migrations;
      preloaded_modules = loaded;
    }))

abbrev pub with_order :
    ManifestMeta → List Migration → List GivenModule → Outcome → Option (Result BuiltManifest)
with_order meta migrations modules (returned (ok ordered)) =
    assembled meta migrations modules (schema_modules (module_content modules []) ordered)
with_order meta migrations modules (returned (err e)) = some (err e)
with_order meta migrations modules panicked = none
with_order meta migrations modules out_of_fuel = none

abbrev pub with_valid :
    ManifestMeta
    → List Migration
    → List GivenModule
    → Option (Result (Unit {0}))
    → Option (Result BuiltManifest)
with_valid meta migrations modules none = none
with_valid meta migrations modules (some (err e)) = some (err e)
with_valid meta migrations modules (some (ok u)) =
    with_order meta migrations modules (topological_sort (configs modules))

unfoldable pub build_with : Option ManifestMeta → ManifestBuilder → Option (Result BuiltManifest)
unfolding sort_by validate_migration_sequence topological_sort module_content schema_modules
build_with none b = some (err (manifest (codes "meta is required")))
build_with (some meta) b =
    let migrations = sort_by version_le b.migrations in
    with_valid meta migrations b.modules (validate_migration_sequence migrations)

-- `none` is a panic.
unfoldable pub build : ManifestBuilder → Option (Result BuiltManifest)
unfolding build_with
build b = build_with b.meta b
