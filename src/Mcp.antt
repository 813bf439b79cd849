-- ===== src/Mcp.antt =====
-- mcp/src/file_ops.rs: how project files are sorted and made idempotent. A path is the list of its
-- components.
pub mod Overwrite
pub mod Buckets
use surql_parser.Prelude.{
  to_lower, ◌+◌, ℕ, zero, suc, Bool, true, false, not, ◌&&◌, ◌||◌, Option, none, some, List, [],
  ◌∷◌, ◌++◌, ◌==◌, leb, if◌then◌else◌, is_empty, take, drop, length, any, all, find, map, codes,
  Text, is_ascii_alphanumeric, is_ascii_digit, is_whitespace, to_upper,
}
use surql_parser.Strings.{
  starts_with, contains_text, ends_with, trim_start, leading_ws, uppercase, init,
}
use surql_parser.Strings.Lines.{lines, unlines}
use surql_parser.Strings.Edit.{edit_lines}

-- `DEFINE_KEYWORDS`
abbrev pub define_keywords : List Text
define_keywords =
    codes "DEFINE TABLE"
    ∷ codes "DEFINE FIELD"
    ∷ codes "DEFINE INDEX"
    ∷ codes "DEFINE FUNCTION"
    ∷ codes "DEFINE EVENT"
    ∷ codes "DEFINE ANALYZER"
    ∷ codes "DEFINE PARAM"
    ∷ []

-- The first keyword that the line begins with, in any case.
abbrev pub find_keyword : Text → Option Text
find_keyword upper = find (λ k. starts_with k upper) define_keywords

-- What stands behind the keyword asks for no change.
abbrev pub is_idempotent : Text → Bool
is_idempotent after =
    starts_with (codes "OVERWRITE") (uppercase (trim_start after))
    || starts_with (codes "IF NOT EXISTS") (uppercase (trim_start after))

pub with_overwrite : Text → Text → Text → Text
with_overwrite keyword line trimmed =
    let after = drop (length keyword) trimmed in
    if is_idempotent after
    then line
    else leading_ws line ++ (take (length keyword) trimmed ++ (codes " OVERWRITE" ++ after))

pub inject_define : Option Text → Text → Text
unfolding with_overwrite
inject_define none line = line
inject_define (some keyword) line = with_overwrite keyword line (trim_start line)

-- One line, by whether it stands in a block comment.
pub inject_line : Bool → Text → Bool × Text
unfolding inject_define
inject_line in_block_comment line =
    let trimmed = trim_start line in
    let inside = in_block_comment || starts_with (codes "/*") trimmed in
    if inside || starts_with (codes "--") trimmed
    then (not (contains_text (codes "*/") trimmed) && inside, line)
    else (inside, inject_define (find_keyword (uppercase trimmed)) line)

unfoldable pub inject_overwrite : Text → Text
unfolding inject_line lines edit_lines trim_start leading_ws to_upper is_whitespace
inject_overwrite content =
    let result = unlines (edit_lines inject_line false (lines content)) in
    if not (ends_with b'\n' content) && ends_with b'\n' result then init result else result

pub data FileCategory : Type 0 where
  schema function migration example general : FileCategory

pub record CategorizedFiles : Type 0 where
  pub schema : List (List Text)
  pub functions : List (List Text)
  pub migrations : List (List Text)
  pub examples : List (List Text)
  pub general : List (List Text)

-- The name before its last dot, unless that is its first byte.
abbrev before_last_dot : Text → Option Text
before_last_dot [] = none
before_last_dot (c ∷ name) = elim (before_last_dot name) [
  | some stem ↦ some (c ∷ stem)
  | none ↦ if c == b'.' then some [] else none
]

abbrev stem_or : Text → Option Text → Text
stem_or name none = name
stem_or name (some []) = name
stem_or name (some (c ∷ stem)) = c ∷ stem

-- `path.file_stem()` of a path by its last component
abbrev pub file_stem : List Text → Text
file_stem [] = []
file_stem (name ∷ []) = stem_or name (before_last_dot name)
file_stem (name ∷ next ∷ path) = file_stem (next ∷ path)

abbrev pub in_dir : List Text → Text → Bool
in_dir path name = any (λ d. contains_text name (map to_lower d)) path

unfoldable pub classify_file : List Text → FileCategory
unfolding to_lower
classify_file path =
    let stem = map to_lower (file_stem path) in
    if in_dir path (codes "example") || in_dir path (codes "seed") || in_dir path (codes "test")
    then FileCategory.example
    else if in_dir path (codes "schema") || starts_with (codes "schema") stem
    then FileCategory.schema
    else if in_dir path (codes "function") || starts_with (codes "function") stem
    then FileCategory.function
    else if in_dir path (codes "migration")
    then FileCategory.migration
    else FileCategory.general

pub push_file : FileCategory → List Text → CategorizedFiles → CategorizedFiles
push_file FileCategory.schema path r = record r { schema = r.schema ++ path ∷ [] }
push_file FileCategory.function path r = record r { functions = r.functions ++ path ∷ [] }
push_file FileCategory.migration path r = record r { migrations = r.migrations ++ path ∷ [] }
push_file FileCategory.example path r = record r { examples = r.examples ++ path ∷ [] }
push_file FileCategory.general path r = record r { general = r.general ++ path ∷ [] }

pub categorize_from : List (List Text) → CategorizedFiles → CategorizedFiles
unfolding push_file
categorize_from [] r = r
categorize_from (path ∷ files) r = categorize_from files (push_file (classify_file path) path r)

unfoldable pub categorize_files : List (List Text) → CategorizedFiles
unfolding categorize_from
categorize_files files =
    categorize_from files
      (record { schema = []; functions = []; migrations = []; examples = []; general = [] })
