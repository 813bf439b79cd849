-- ===== src/Files.antt =====
-- src/filesystem.rs: the search for `.surql` files below a directory. A directory tree is what the file
-- system answers during the walk, with names in UTF-8; warnings are not modelled.
pub mod Cut
pub mod Exact
use surql_parser.Prelude.{
  ℕ, zero, suc, ◌+◌, Bool, true, false, not, ◌&&◌, ◌||◌, Option, none, some, List, [], ◌∷◌, ◌++◌,
  ltb, ◌==◌, if◌then◌else◌, drop, length, take, is_empty, any, Text, codes, text_eq,
}
use Prim.Native.Nat.{◌-◌}
use surql_parser.Prelude.SortedSet.{contains}
use surql_parser.Strings.{starts_with}

mutual
  -- What `read_dir` answers.
  pub data Dir : Type 0 where
    unreadable : Dir
    listing : Entries → Dir

  -- The entries of a directory in the order in which they come; one may be unreadable itself.
  pub data Entries : Type 0 where
    end : Entries
    skipped : Entries → Entries
    entry : Text → Node → Entries → Entries

  -- A directory comes with the answer of `canonicalize`.
  pub data Node : Type 0 where
    symlink : Node
    file : Node
    directory : Option Text → Dir → Node

-- `out` and `visited`
pub record Walk : Type 0 where
  pub out : List Text
  pub visited : List Text

-- Is the path empty, or its last byte a slash?
abbrev ends_in_slash : Text → Bool
ends_in_slash [] = true
ends_in_slash (c ∷ []) = c == b'/'
ends_in_slash (c ∷ rest) = ends_in_slash rest

-- `entry.path()`: a slash between the two, where the path of the directory needs one
abbrev pub join : Text → Text → Text
join dir name = if ends_in_slash dir then dir ++ name else dir ++ codes "/" ++ name

abbrev ignored_names : List Text
ignored_names =
    codes "target"
    ∷ codes "node_modules"
    ∷ codes ".git"
    ∷ codes "build"
    ∷ codes "fixtures"
    ∷ codes "dist"
    ∷ codes ".cache"
    ∷ codes "surql-lsp-out"
    ∷ []

unfoldable pub is_ignored : Text → Bool
is_ignored name = contains ignored_names name || starts_with (codes ".") name

-- `path.extension().is_some_and(|ext| ext == "surql")`: a stem that is not empty before `.surql`
pub is_surql : Text → Bool
is_surql name = ltb 6 (length name) && text_eq (drop (length name - 6) name) (codes ".surql")

-- `visited.insert(canonical)`, and the walk below a directory that is new
pub descend : (Walk → Walk) → Option Text → Walk → Walk
descend walk none w = walk w
descend walk (some c) w =
    if contains w.visited c then w else walk (record w { visited = c ∷ w.visited })

mutual
  pub collect_dir : Text → Dir → ℕ → Walk → Walk
  collect_dir path unreadable depth w = w
  collect_dir path (listing es) depth w =
      if ltb 32 depth then w else collect_entries path es depth w

  pub collect_entries : Text → Entries → ℕ → Walk → Walk
  collect_entries path end depth w = w
  collect_entries path (skipped es) depth w = collect_entries path es depth w
  collect_entries path (entry name n es) depth w =
      collect_entries path es depth (collect_node (join path name) name n depth w)

  pub collect_node : Text → Text → Node → ℕ → Walk → Walk
  collect_node path name symlink depth w = w
  collect_node path name file depth w =
      if is_surql name then record w { out = w.out ++ path ∷ [] } else w
  collect_node path name (directory canonical d) depth w =
      if is_ignored name then w else descend (collect_dir path d (suc depth)) canonical w

abbrev pub start_walk : Option Text → List Text → Walk
start_walk none out = record { out = out; visited = [] }
start_walk (some c) out = record { out = out; visited = c ∷ [] }

-- `collect_surql_files(dir, out)`, with the canonical form of `dir`
unfoldable pub collect_surql_files : Text → Option Text → Dir → List Text → List Text
unfolding collect_dir collect_entries collect_node descend is_surql is_ignored
collect_surql_files path canonical d out = (collect_dir path d 0 (start_walk canonical out)).out
