-- ===== src/Tests/Files.antt =====
-- The search for `.surql` files in a small tree.
use surql_parser.Prelude.{none, some, [], ◌∷◌, ◌++◌, ◌≡◌, refl, codes, text_compare}
use surql_parser.Files.{
  Dir, unreadable, listing, end, skipped, entry, symlink, file, directory, collect_surql_files,
}
use surql_parser.Files.Cut.{files_in, cut_dir, option_list, AreNew, dirs_in}
use surql_parser.Files.Exact.{collect_surql_files-files_in}

-- Two files, a link, a build directory, and a directory of migrations.
abbrev tree : Dir
tree = listing (
    entry (codes "a.surql") file (
      entry (codes "README.md") file (
        entry (codes "link") symlink (
          entry (codes "target")
            (directory (some (codes "/p/target")) (listing (entry (codes "x.surql") file end)))
            (skipped (
              entry (codes "migrations")
                (directory (some (codes "/p/migrations"))
                  (listing (entry (codes "b.surql") file (entry (codes ".surql") file end))))
                (entry (codes "private") (directory none unreadable) end)))))))

collected :
    collect_surql_files (codes "p") (some (codes "/p")) tree []
    ≡ codes "p/a.surql" ∷ codes "p/migrations/b.surql" ∷ []
unfolding collect_surql_files text_compare
collected = refl

-- A directory that is mounted twice is read once.
abbrev mounted_twice : Dir
mounted_twice = listing (
    entry (codes "a") (directory (some (codes "/m")) (listing (entry (codes "q.surql") file end))) (
      entry (codes "b") (directory (some (codes "/m")) (listing (entry (codes "q.surql") file end)))
        end))

collected_once : collect_surql_files (codes "p") none mounted_twice [] ≡ codes "p/a/q.surql" ∷ []
unfolding collect_surql_files text_compare
collected_once = refl

collect_surql_files-files_in_example :
    (collect_surql_files (codes "p") none mounted_twice []
      ≡ [] ++ files_in (codes "p") (cut_dir mounted_twice 0 (option_list none)).0 0)
    × AreNew (option_list none) (dirs_in (cut_dir mounted_twice 0 (option_list none)).0 0)
collect_surql_files-files_in_example =
    collect_surql_files-files_in (codes "p") none mounted_twice []
