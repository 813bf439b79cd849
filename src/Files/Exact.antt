-- ===== src/Files/Exact.antt =====
-- The walk against a plain list of the files of a tree.
use surql_parser.Prelude.{
  ℕ, suc, Option, none, some, List, [], ◌∷◌, ◌++◌, ◌≡◌, refl, ap, ◌∙◌, ltb, Text, Bool-cases, inl,
  inr,
}
use mathlib.Core.List.{append_assoc, append-nil}
use surql_parser.Prelude.SortedSet.{contains}
use surql_parser.Files.{
  Dir, Entries, Node, unreadable, listing, end, skipped, entry, symlink, file, directory, Walk,
  join, is_ignored, is_surql, descend, collect_dir, collect_entries, collect_node, start_walk,
  collect_surql_files,
}
use surql_parser.Files.Cut.{
  option_list, files_in, files_among, files_at, dirs_in, dirs_among, dirs_at, AreNew, see,
  see-append, cut_dir, cut_entries, cut_node, dir_cut, node_cut,
}

-- A walk with these files behind its own and these directories visited.
abbrev grown : Walk → List Text → List Text → Walk
grown w files dirs = record { out = w.out ++ files; visited = see w.visited dirs }

grown-nil : (w : Walk) → w ≡ grown w [] []
grown-nil w = simp append-nil

grown-grown :
    (w : Walk) (fs fs' ds ds' : List Text)
    → grown (grown w fs ds) fs' ds' ≡ grown w (fs ++ fs') (ds ++ ds')
grown-grown w fs fs' ds ds' = simp (append_assoc, see-append)

mutual
  unfolding collect_dir collect_entries collect_node descend

  collect_dir_lem :
      (path : Text) (d : Dir) (depth : ℕ) (w : Walk)
      → collect_dir path d depth w
        ≡ grown w
            (files_in path (cut_dir d depth w.visited).0 depth)
            (dirs_in (cut_dir d depth w.visited).0 depth)
  collect_dir_lem path unreadable depth w = grown-nil w
  collect_dir_lem path (listing es) depth w = elim (Bool-cases (ltb 32 depth)) [
    | inl e ↦ rw e (rw e (grown-nil w))
    | inr e ↦ rw e (rw e (collect_entries_lem path es depth w))
  ]

  collect_entries_lem :
      (path : Text) (es : Entries) (depth : ℕ) (w : Walk)
      → collect_entries path es depth w
        ≡ grown w
            (files_among path (cut_entries es depth w.visited).0 depth)
            (dirs_among (cut_entries es depth w.visited).0 depth)
  collect_entries_lem path end depth w = grown-nil w
  collect_entries_lem path (skipped es) depth w = collect_entries_lem path es depth w
  collect_entries_lem path (entry name n es) depth w =
      let r = cut_node name n depth w.visited in
      let files = files_at (join path name) name r.0 depth in
      let dirs = dirs_at name r.0 depth in
      let v = grown w files dirs in
      let seen : v.visited ≡ r.1 = (node_cut name n depth w.visited).1 in
      ap (collect_entries path es depth) (collect_node_lem (join path name) name n depth w)
      ∙ collect_entries_lem path es depth v
      ∙ ap
          (λ s.
            grown v (files_among path (cut_entries es depth s).0 depth)
              (dirs_among (cut_entries es depth s).0 depth))
          seen
      ∙ grown-grown w files _ dirs _

  collect_node_lem :
      (path name : Text) (n : Node) (depth : ℕ) (w : Walk)
      → collect_node path name n depth w
        ≡ grown w
            (files_at path name (cut_node name n depth w.visited).0 depth)
            (dirs_at name (cut_node name n depth w.visited).0 depth)
  collect_node_lem path name symlink depth w = grown-nil w
  collect_node_lem path name file depth w = elim (Bool-cases (is_surql name)) [
    | inl e ↦ rw e refl
    | inr e ↦ rw e (grown-nil w)
  ]
  collect_node_lem path name (directory none d) depth w = elim (Bool-cases (is_ignored name)) [
    | inl e ↦ rw e (rw e (grown-nil w))
    | inr e ↦ rw e (rw e (collect_dir_lem path d (suc depth) w))
  ]
  collect_node_lem path name (directory (some c) d) depth w = elim (Bool-cases (is_ignored name)) [
    | inl e ↦ rw e (rw e (grown-nil w))
    | inr e ↦ elim (Bool-cases (contains w.visited c)) [
      | inl f ↦ rw (e, f) (grown-nil w)
      | inr f ↦
          rw (e, f)
            (rw e (collect_dir_lem path d (suc depth) (record w { visited = c ∷ w.visited })))
    ]
  ]

-- For the tree without its repetitions, in which a directory whose canonical form was met before on the
-- way gives way to a symbolic link: the search finds the `.surql` files behind no symbolic link and in
-- no ignored directory, at most 32 directories below the given one, in the order of the listings and
-- behind what `out` held, and on the way through that tree no canonical form is met twice. The paths
-- begin with the given one as it is written.
pub collect_surql_files-files_in :
    (path : Text) (canonical : Option Text) (d : Dir) (out : List Text)
    → (collect_surql_files path canonical d out
        ≡ out ++ files_in path (cut_dir d 0 (option_list canonical)).0 0)
      × AreNew (option_list canonical) (dirs_in (cut_dir d 0 (option_list canonical)).0 0)
unfolding collect_surql_files
collect_surql_files-files_in path none d out =
    (ap (λ w. w.out) (collect_dir_lem path d 0 (start_walk none out)), (dir_cut d 0 []).0)
collect_surql_files-files_in path (some c) d out =
    (ap (λ w. w.out) (collect_dir_lem path d 0 (start_walk (some c) out)), (dir_cut d 0 (c ∷ [])).0)
