-- ===== src/Files/Cut.antt =====
-- The files of a directory tree, the directories on the way through it, and the tree without its
-- repetitions.
use surql_parser.Prelude.{
  arith, ℕ, suc, false, Option, none, some, List, [], ◌∷◌, ◌++◌, ◌≡◌, refl, sym, ap, ◌∙◌, ltb,
  if◌then◌else◌, Text, Bool-cases, inl, inr,
}
use mathlib.Core.Path.{subst}
use surql_parser.Prelude.SortedSet.{contains}
use surql_parser.Files.{
  Dir, Entries, Node, unreadable, listing, end, skipped, entry, symlink, file, directory, join,
  is_ignored, is_surql,
}

abbrev pub option_list : Option Text → List Text
option_list none = []
option_list (some c) = c ∷ []

abbrev mutual
  -- The `.surql` files of a directory at a depth, each directory's in the place of its entry: those
  -- behind no symbolic link, in no ignored directory, and not below a depth of 32.
  pub files_in : Text → Dir → ℕ → List Text
  files_in path unreadable depth = []
  files_in path (listing es) depth = if ltb 32 depth then [] else files_among path es depth

  pub files_among : Text → Entries → ℕ → List Text
  files_among path end depth = []
  files_among path (skipped es) depth = files_among path es depth
  files_among path (entry name n es) depth =
      files_at (join path name) name n depth ++ files_among path es depth

  pub files_at : Text → Text → Node → ℕ → List Text
  files_at path name symlink depth = []
  files_at path name file depth = if is_surql name then path ∷ [] else []
  files_at path name (directory canonical d) depth =
      if is_ignored name then [] else files_in path d (suc depth)

abbrev mutual
  -- The canonical forms of the directories on the way.
  pub dirs_in : Dir → ℕ → List Text
  dirs_in unreadable depth = []
  dirs_in (listing es) depth = if ltb 32 depth then [] else dirs_among es depth

  pub dirs_among : Entries → ℕ → List Text
  dirs_among end depth = []
  dirs_among (skipped es) depth = dirs_among es depth
  dirs_among (entry name n es) depth = dirs_at name n depth ++ dirs_among es depth

  pub dirs_at : Text → Node → ℕ → List Text
  dirs_at name symlink depth = []
  dirs_at name file depth = []
  dirs_at name (directory canonical d) depth =
      if is_ignored name then [] else option_list canonical ++ dirs_in d (suc depth)

-- The names of the second list are new: not in the first, and each once.
abbrev pub AreNew : List Text → List Text → Type 0
AreNew seen [] = Unit
AreNew seen (c ∷ cs) = (contains seen c ≡ false) × AreNew (c ∷ seen) cs

abbrev pub see : List Text → List Text → List Text
see seen [] = seen
see seen (c ∷ cs) = see (c ∷ seen) cs

AreNew-append :
    (seen xs ys : List Text) → AreNew seen xs → AreNew (see seen xs) ys → AreNew seen (xs ++ ys)
AreNew-append seen [] ys h k = k
AreNew-append seen (x ∷ xs) ys (n, h) k = (n, AreNew-append (x ∷ seen) xs ys h k)

pub see-append : (seen xs ys : List Text) → see seen (xs ++ ys) ≡ see (see seen xs) ys
see-append seen [] ys = refl
see-append seen (x ∷ xs) ys = see-append (x ∷ seen) xs ys

abbrev mutual
  -- The tree without its repetitions: a directory on the way whose canonical form was seen before gives
  -- way to a symbolic link. With the tree comes what is seen behind it.
  pub cut_dir : Dir → ℕ → List Text → Dir × List Text
  cut_dir unreadable depth seen = (unreadable, seen)
  cut_dir (listing es) depth seen =
      let r = cut_entries es depth seen in
      if ltb 32 depth then (listing es, seen) else (listing r.0, r.1)

  pub cut_entries : Entries → ℕ → List Text → Entries × List Text
  cut_entries end depth seen = (end, seen)
  cut_entries (skipped es) depth seen = let r = cut_entries es depth seen in (skipped r.0, r.1)
  cut_entries (entry name n es) depth seen =
      let r = cut_node name n depth seen in
      let t = cut_entries es depth r.1 in (entry name r.0 t.0, t.1)

  pub cut_node : Text → Node → ℕ → List Text → Node × List Text
  cut_node name symlink depth seen = (symlink, seen)
  cut_node name file depth seen = (file, seen)
  cut_node name (directory none d) depth seen =
      let r = cut_dir d (suc depth) seen in
      if is_ignored name then (directory none d, seen) else (directory none r.0, r.1)
  cut_node name (directory (some c) d) depth seen =
      let r = cut_dir d (suc depth) (c ∷ seen) in
      if is_ignored name
      then (directory (some c) d, seen)
      else if contains seen c
      then (symlink, seen)
      else (directory (some c) r.0, r.1)

mutual
  -- On the way through what is left no directory is met twice, and all of them are seen behind it.
  pub dir_cut :
      (d : Dir) (depth : ℕ) (seen : List Text)
      → AreNew seen (dirs_in (cut_dir d depth seen).0 depth)
        × (see seen (dirs_in (cut_dir d depth seen).0 depth) ≡ (cut_dir d depth seen).1)
  dir_cut unreadable depth seen = (tt, refl)
  dir_cut (listing es) depth seen = elim (Bool-cases (ltb 32 depth)) [
    | inl e ↦ rw e (rw e (tt, refl))
    | inr e ↦ rw e (rw e (entries_cut es depth seen))
  ]

  entries_cut :
      (es : Entries) (depth : ℕ) (seen : List Text)
      → AreNew seen (dirs_among (cut_entries es depth seen).0 depth)
        × (see seen (dirs_among (cut_entries es depth seen).0 depth)
            ≡ (cut_entries es depth seen).1)
  entries_cut end depth seen = (tt, refl)
  entries_cut (skipped es) depth seen = entries_cut es depth seen
  entries_cut (entry name n es) depth seen =
      let r = cut_node name n depth seen in
      let here = dirs_at name r.0 depth in
      let there = dirs_among (cut_entries es depth r.1).0 depth in
      let (a, b) = node_cut name n depth seen in
      let (c, e) = entries_cut es depth r.1 in
      (
        AreNew-append seen here there a (subst (λ v. AreNew v there) (sym b) c),
        see-append seen here there ∙ ap (λ v. see v there) b ∙ e,
      )

  pub node_cut :
      (name : Text) (n : Node) (depth : ℕ) (seen : List Text)
      → AreNew seen (dirs_at name (cut_node name n depth seen).0 depth)
        × (see seen (dirs_at name (cut_node name n depth seen).0 depth)
            ≡ (cut_node name n depth seen).1)
  node_cut name symlink depth seen = (tt, refl)
  node_cut name file depth seen = (tt, refl)
  node_cut name (directory none d) depth seen = elim (Bool-cases (is_ignored name)) [
    | inl e ↦ rw e (rw e (tt, refl))
    | inr e ↦ rw e (rw e (dir_cut d (suc depth) seen))
  ]
  node_cut name (directory (some c) d) depth seen = elim (Bool-cases (is_ignored name)) [
    | inl e ↦ rw e (rw e (tt, refl))
    | inr e ↦ elim (Bool-cases (contains seen c)) [
      | inl f ↦ rw (e, f) (tt, refl)
      | inr f ↦ let (a, b) = dir_cut d (suc depth) (c ∷ seen) in rw (e, f) (rw e ((f, a), b))
    ]
  ]

AreNew-split :
    (seen xs ys : List Text) → AreNew seen (xs ++ ys) → AreNew seen xs × AreNew (see seen xs) ys
AreNew-split seen [] ys h = (tt, h)
AreNew-split seen (x ∷ xs) ys (n, h) = let (l, r) = AreNew-split (x ∷ seen) xs ys h in ((n, l), r)

mutual
  -- A tree in which no directory is met twice on the way stays as it is.
  cut_dir_new :
      (d : Dir) (depth : ℕ) (seen : List Text)
      → AreNew seen (dirs_in d depth)
      → cut_dir d depth seen ≡ (d, see seen (dirs_in d depth))
  cut_dir_new unreadable depth seen h = refl
  cut_dir_new (listing es) depth seen h = elim (Bool-cases (ltb 32 depth)) [
    | inl e ↦ rw e refl
    | inr e ↦
        let k : AreNew seen (dirs_among es depth) = ground arith in
        rw e (ap (λ r. (listing r.0, r.1)) (cut_entries_new es depth seen k))
  ]

  cut_entries_new :
      (es : Entries) (depth : ℕ) (seen : List Text)
      → AreNew seen (dirs_among es depth)
      → cut_entries es depth seen ≡ (es, see seen (dirs_among es depth))
  cut_entries_new end depth seen h = refl
  cut_entries_new (skipped es) depth seen h =
      ap (λ r. (skipped r.0, r.1)) (cut_entries_new es depth seen h)
  cut_entries_new (entry name n es) depth seen h =
      let here = dirs_at name n depth in
      let there = dirs_among es depth in
      let (a, b) = AreNew-split seen here there h in
      ap (λ r. let t = cut_entries es depth r.1 in (entry name r.0 t.0, t.1))
        (cut_node_new name n depth seen a)
      ∙ ap (λ t. (entry name n t.0, t.1)) (cut_entries_new es depth (see seen here) b)
      ∙ ap (λ v. (entry name n es, v)) (sym (see-append seen here there))

  cut_node_new :
      (name : Text) (n : Node) (depth : ℕ) (seen : List Text)
      → AreNew seen (dirs_at name n depth)
      → cut_node name n depth seen ≡ (n, see seen (dirs_at name n depth))
  cut_node_new name symlink depth seen h = refl
  cut_node_new name file depth seen h = refl
  cut_node_new name (directory none d) depth seen h = elim (Bool-cases (is_ignored name)) [
    | inl e ↦ rw e refl
    | inr e ↦
        let k : AreNew seen (dirs_in d (suc depth)) = ground arith in
        rw e (ap (λ r. (directory none r.0, r.1)) (cut_dir_new d (suc depth) seen k))
  ]
  cut_node_new name (directory (some c) d) depth seen h = elim (Bool-cases (is_ignored name)) [
    | inl e ↦ rw e refl
    | inr e ↦
        let k : AreNew seen (c ∷ dirs_in d (suc depth)) = ground arith in
        rw (e, k.0)
          (ap (λ r. (directory (some c) r.0, r.1)) (cut_dir_new d (suc depth) (c ∷ seen) k.1))
  ]
