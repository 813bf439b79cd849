-- ===== src/TypeCheck.antt =====
-- macros/src/type_check.rs: whether a SurrealQL type and a Rust type, both as texts, go together.
pub mod Shorter
pub mod Ends
pub mod Nullable
use surql_parser.Prelude.{
  ℕ, zero, suc, Bool, true, false, not, ◌&&◌, ◌||◌, Option, none, some, List, [], ◌∷◌, ◌++◌, ◌==◌,
  if◌then◌else◌, drop, length, any, keep, map, codes, Text, text_eq, is_whitespace, to_lower,
}
use surql_parser.Strings.{starts_with, contains_text, ends_with, trim, init}

-- `strip_suffix('>')`
abbrev pub without_bracket : Text → Option Text
without_bracket t = if ends_with b'>' t then some (init t) else none

-- `strip_wrapper(s, prefix, ">")`
abbrev pub strip_wrapper : Text → Text → Option Text
strip_wrapper s prefix =
    if starts_with prefix s && ends_with b'>' s then some (init (drop (length prefix) s)) else none

abbrev pub strip_prefix : Text → Text → Option Text
strip_prefix s prefix = if starts_with prefix s then some (drop (length prefix) s) else none

abbrev inner_of : Option Text → Option Text
inner_of none = none
inner_of (some rest) = without_bracket rest

abbrev or_else : Option Text → Option Text → Option Text
or_else none o = o
or_else (some t) o = some t

-- `Vec<T>` and `Vec <T>`
unfoldable pub extract_generic_inner : Text → Text → Option Text
unfolding trim
extract_generic_inner rust_type wrapper =
    or_else (inner_of (strip_prefix (trim rust_type) (wrapper ++ codes "<")))
      (inner_of (strip_prefix (trim rust_type) (wrapper ++ codes " <")))

-- `Option<T>` and `Option <T>`
abbrev pub extract_option_inner : Text → Option Text
extract_option_inner rust_type = extract_generic_inner rust_type (codes "Option")

abbrev pub push_front : ℕ → List Text → List Text
push_front c [] = (c ∷ []) ∷ []
push_front c (p ∷ ps) = (c ∷ p) ∷ ps

-- `split('|')`
unfoldable pub split_bars : Text → List Text
split_bars [] = [] ∷ []
split_bars (c ∷ t) = let rest = split_bars t in if c == b'|' then [] ∷ rest else push_front c rest

abbrev pub is_none : Text → Bool
is_none part = text_eq part (codes "none") || text_eq part (codes "null")

abbrev pub mentions : Text → List Text → Bool
mentions rust_type parts = any (λ p. contains_text p rust_type) parts

abbrev one_of : Text → List Text → Bool
one_of rust_type names = any (text_eq rust_type) names

abbrev pub text_types : List Text
text_types = codes "RecordId" ∷ codes "Thing" ∷ codes "&str" ∷ codes "String" ∷ codes "str" ∷ []

abbrev pub list_wrappers : List Text
list_wrappers = codes "Vec" ∷ codes "Array" ∷ codes "&[" ∷ []

abbrev pub set_wrappers : List Text
set_wrappers = codes "Vec" ∷ codes "Set" ∷ codes "BTreeSet" ∷ codes "HashSet" ∷ []

-- The inner type of a `Vec`, a `BTreeSet` or a `HashSet`.
unfoldable pub set_inner : Text → Option Text
unfolding extract_generic_inner
set_inner rust = or_else (extract_generic_inner rust (codes "Vec")) (
    or_else (extract_generic_inner rust (codes "BTreeSet"))
      (extract_generic_inner rust (codes "HashSet")))

-- The last `match`, on a type without parameters.
unfoldable pub simple_match : Text → Text → Bool
simple_match ty rust =
    if text_eq ty (codes "string")
    then mentions rust (codes "str" ∷ codes "String" ∷ codes "Cow" ∷ [])
    else if text_eq ty (codes "int")
    then one_of rust (
        codes "i64"
        ∷ codes "i32"
        ∷ codes "i16"
        ∷ codes "i8"
        ∷ codes "u64"
        ∷ codes "u32"
        ∷ codes "u16"
        ∷ codes "u8"
        ∷ codes "isize"
        ∷ codes "usize"
        ∷ [])
    else if text_eq ty (codes "float")
    then one_of rust (codes "f64" ∷ codes "f32" ∷ [])
    else if text_eq ty (codes "bool")
    then text_eq rust (codes "bool")
    else if text_eq ty (codes "datetime")
    then mentions rust (codes "DateTime" ∷ codes "Datetime" ∷ codes "NaiveDateTime" ∷ [])
    else if text_eq ty (codes "duration")
    then contains_text (codes "Duration") rust
    else if text_eq ty (codes "object")
    then mentions rust
        (codes "Value" ∷ codes "Object" ∷ codes "Map" ∷ codes "BTreeMap" ∷ codes "HashMap" ∷ [])
    else if text_eq ty (codes "array")
    then mentions rust (codes "Vec" ∷ codes "Array" ∷ codes "&[" ∷ [])
    else if text_eq ty (codes "number")
    then one_of rust
        (codes "f64" ∷ codes "f32" ∷ codes "i64" ∷ codes "i32" ∷ codes "u64" ∷ codes "u32" ∷ [])
      || mentions rust (codes "Decimal" ∷ codes "Number" ∷ [])
    else if text_eq ty (codes "decimal")
    then contains_text (codes "Decimal") rust
    else if text_eq ty (codes "bytes")
    then mentions rust (codes "Vec<u8>" ∷ codes "Bytes" ∷ codes "&[u8]" ∷ [])
    else if text_eq ty (codes "uuid")
    then contains_text (codes "Uuid") rust
    else if text_eq ty (codes "record")
    then mentions rust text_types
    else if text_eq ty (codes "regex")
    then mentions rust (codes "Regex" ∷ codes "str" ∷ codes "String" ∷ [])
    else if is_none ty
    then text_eq rust (codes "()") || contains_text (codes "Option") rust
    else true

-- The recursive calls are those of `rec`; `none` is a call that ran out of fuel.
module _ (rec : Text → Text → Option Bool) where
  -- `parts.iter().any(...)`, up to the first that goes together
  pub any_matches : List Text → Text → Option Bool
  any_matches [] rust = some false
  any_matches (p ∷ ps) rust =
      let rest = any_matches ps rust in
      elim (rec p rust) [ none ↦ none | some true ↦ some true | some false ↦ rest ]

  -- With an inner type of the Rust type, if there is one.
  pub inner_matches : Text → Option Text → Option Bool
  inner_matches ty none = some true
  inner_matches ty (some inner) = rec ty inner

  -- Of a union with one type beside none, and of `option<T>`.
  pub nullable : Text → Text → Option Bool
  unfolding inner_matches
  nullable ty rust =
      if contains_text (codes "Option") rust
      then inner_matches ty (extract_option_inner rust)
      else rec ty rust

  pub union : List Text → Text → Option Bool
  unfolding any_matches nullable
  union parts rust =
      if any is_none parts
      then elim (keep (λ p. not (is_none p)) parts) [
        | ty ∷ [] ↦ nullable ty rust
        | _ ↦ if contains_text (codes "Option") rust then some true else any_matches parts rust
      ]
      else any_matches parts rust

  pub collection : List Text → Text → Option Text → Text → Option Bool
  unfolding inner_matches
  collection wrappers ty inner rust =
      if not (mentions rust wrappers) then some false else inner_matches ty inner

  -- The arms for `record`, `array<T>` and `set<T>`, and the last `match`.
  pub plain : Text → Text → Option Bool
  unfolding collection simple_match extract_generic_inner set_inner
  plain ty rust =
      if starts_with (codes "record<") ty || text_eq ty (codes "record")
      then some (mentions rust text_types)
      else elim (strip_wrapper ty (codes "array<")) [
        | some inner ↦
            collection list_wrappers inner (extract_generic_inner rust (codes "Vec")) rust
        | none ↦ elim (strip_wrapper ty (codes "set<")) [
          | some inner ↦ collection set_wrappers inner (set_inner rust) rust
          | none ↦ some (simple_match ty rust)
        ]
      ]

  pub check : Text → Text → Option Bool
  unfolding union nullable plain
  check ty rust =
      if contains_text (codes "|") ty
      then union (map (λ t. trim t) (split_bars ty)) rust
      else elim (strip_wrapper ty (codes "option<")) [
        | some inner ↦ nullable inner rust
        | none ↦ plain ty rust
      ]

abbrev pub normalized : Text → Text
normalized ty = trim (map to_lower ty)

unfoldable pub matches : ℕ → Text → Text → Option Bool
unfolding check
matches zero ty rust = none
matches (suc fuel) ty rust = check (matches fuel) (normalized ty) rust

-- Each recursive call is on a shorter SurrealQL type.
unfoldable pub surql_type_matches_rust : Text → Text → Option Bool
unfolding matches trim split_bars to_lower
surql_type_matches_rust ty rust = matches (suc (length ty)) ty rust
