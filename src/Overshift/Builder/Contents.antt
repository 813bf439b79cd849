-- ===== src/Overshift/Builder/Contents.antt =====
-- The contents of the modules that `build` loads.
use mathlib.Core.List.{Memᴰ}
use mathlib.Core.List.Memᴰ
use surql_parser.Prelude.{
  ◌⊎◌, Bool-cases, text_eq, text_eq_iff, true, ◌||◌, some, List, [], ◌∷◌, map, Text, ◌≡◌, refl, sym,
  ap, arith, inl, inr,
}
use surql_parser.Prelude.HashMap.{
  HashMap, lookup, lookup-put, put, has_key, has_key-put, lookup-ne-none,
}
use surql_parser.Strings.Lines.{join_lines}
use surql_parser.Overshift.Types.{SchemaModule}
use surql_parser.Overshift.Modules.{ModuleConfig}
use surql_parser.Overshift.Modules.Counts.{is_named}
use surql_parser.Overshift.Modules.Correct.{names}
use surql_parser.Overshift.Builder.{GivenModule, configs, module_content, schema_modules}

pub has_key-module_content :
    (n : Text) (ms : List GivenModule) (acc : HashMap (List Text))
    → has_key n (module_content ms acc) ≡ (has_key n acc || is_named (configs ms) n)
unfolding module_content
has_key-module_content n [] acc = ground arith
has_key-module_content n (m ∷ ms) acc =
    ground (arith, has_key-put m.0 n m.2 acc, has_key-module_content n ms (put m.0 m.2 acc))

-- A module of the name with the parts as its content.
abbrev HasParts : List GivenModule → Text → List Text → Type 0
HasParts given n parts = (m : GivenModule) × Memᴰ m given × (m.0 ≡ n) × (m.2 ≡ parts)

-- The module has the name of a given one, and its parts, joined.
abbrev pub IsGiven : List GivenModule → SchemaModule → Type 0
IsGiven given x =
    (m : GivenModule) × Memᴰ m given
    × (x.name ≡ m.0)
    × (x.content ≡ join_lines m.2)
    × (x.files ≡ [])

found_in :
    (n : Text) (given : List GivenModule) (acc : HashMap (List Text)) (parts : List Text)
    → lookup n (module_content given acc) ≡ some parts
    → HasParts given n parts ⊎ (lookup n acc ≡ some parts)
unfolding module_content
found_in n [] acc parts h = inr h
found_in n (m ∷ given) acc parts h = elim (found_in n given (put m.0 m.2 acc) parts h) [
  | inl (x, k, e, f) ↦ inl (x, Memᴰ.tail k, e, f)
  | inr e ↦ elim (Bool-cases (text_eq n m.0)) [
    | inl same ↦
        let found : some m.2 ≡ some parts = ground (arith, lookup-put m.0 n m.2 acc, e, same) in
        inl (m, Memᴰ.head refl, sym ((text_eq_iff n m.0).0 same), cc found)
    | inr other ↦ inr (ground (arith, lookup-put m.0 n m.2 acc, e, other))
  ]
]

pub parts_of_given :
    (n : Text) (given : List GivenModule) (parts : List Text)
    → lookup n (module_content given []) ≡ some parts
    → HasParts given n parts
unfolding lookup
parts_of_given n given parts h = elim (found_in n given [] parts h) [
  | inl g ↦ g
  | inr e ↦ absurd cc
]

-- The module's content is the one under its name.
abbrev pub IsLoaded : HashMap (List Text) → SchemaModule → Type 0
IsLoaded contents x =
    (parts : List Text) × (lookup x.name contents ≡ some parts)
    × (x.content ≡ join_lines parts)
    × (x.files ≡ [])

-- Every module has its content, so that none is missing, and the order is kept.
pub loaded :
    (contents : HashMap (List Text)) (cs : List ModuleConfig)
    → ((c : ModuleConfig) → Memᴰ c cs → has_key c.name contents ≡ true)
    → (out : List SchemaModule) × (schema_modules contents cs ≡ some out)
      × (map (λ m. m.name) out ≡ names cs)
      × ((x : SchemaModule) → Memᴰ x out → IsLoaded contents x)
unfolding schema_modules
loaded contents [] h = ([], refl, refl, λ x k. absurd (Memᴰ.not-nil k))
loaded contents (c ∷ cs) h =
    let (parts, e) = lookup-ne-none c.name contents (h c (Memᴰ.head refl)) in
    let (rest, q, n, l) = loaded contents cs (λ x m. h x (Memᴰ.tail m)) in
    let first : SchemaModule = record { name = c.name; content = join_lines parts; files = [] } in
    (
      first ∷ rest,
      rw (schema_modules, e, q),
      ap (◌∷◌ c.name) n,
      λ x k. elim (Memᴰ.cases_cons k) [
        | inl here ↦ rw here (parts, e, refl, refl)
        | inr there ↦ l x there
      ],
    )
