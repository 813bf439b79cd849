-- ===== src/Tests/Builders.antt =====
-- A manifest built of two migrations, added in the wrong order, and two modules.
use mathlib.Core.List.{Memᴰ}
use mathlib.Core.List.Memᴰ
use surql_parser.Prelude.{
  ◌<◌, ◌^◌, arith, inl, inr, some, none, [], ◌∷◌, ◌++◌, ◌≡◌, refl, codes, Text, text_compare,
}
use surql_parser.Prelude.HashMap.{put, lookup}
use surql_parser.Overshift.Types.{Result, ok, Migration, SchemaModule}
use surql_parser.Overshift.Builder.{
  ManifestBuilder, BuiltManifest, builder, with_meta, with_module, with_migration, configs, build,
}
use surql_parser.Overshift.Builder.Built.{IsBuilt, build_returns, build-IsBuilt}

abbrev checksum_of : Text → Text
checksum_of content = content

abbrev project : ManifestBuilder
project = with_module (codes "views") (codes "base" ∷ []) (codes "v" ∷ codes "w" ∷ []) (
    with_module (codes "base") [] (codes "b" ∷ []) (
      with_migration checksum_of 2 (codes "second") (codes "s") (
        with_migration checksum_of 1 (codes "first") (codes "f")
          (with_meta (codes "ns") (codes "db") (codes "_system") builder))))

abbrev script : Text → Text → Migration
script name content = record {
  version = 1;
  name = name;
  content = content;
  checksum = content;
  down_content = none;
}

abbrev module_of : Text → Text → SchemaModule
module_of name content = record { name = name; content = content; files = [] }

abbrev result : BuiltManifest
result = record {
  meta = record { ns = codes "ns"; db = codes "db"; system_db = codes "_system"; surrealdb = none };
  modules = configs project.modules;
  preloaded_migrations =
      script (codes "first") (codes "f")
      ∷ record (script (codes "second") (codes "s")) { version = 2 }
      ∷ [];
  preloaded_modules =
      module_of (codes "base") (codes "b")
      ∷ module_of (codes "views") (codes "v" ++ b'\n' ∷ codes "w")
      ∷ [];
}

built : build project ≡ some (ok result)
unfolding build text_compare put lookup
built = refl

build-IsBuilt_example : IsBuilt project result
build-IsBuilt_example = build-IsBuilt project result built

project-IsSmall : (m : Migration) → Memᴰ m project.migrations → m.version < 2 ^ 32
project-IsSmall m k = elim (Memᴰ.cases_cons k) [
  | inl e ↦ rw e (omega arith)
  | inr l ↦ elim (Memᴰ.cases_cons l) [
    | inl e ↦ rw e (omega arith)
    | inr n ↦ absurd (Memᴰ.not-nil n)
  ]
]

build_returns_example : (r : Result BuiltManifest) × (build project ≡ some r)
build_returns_example = build_returns project project-IsSmall
