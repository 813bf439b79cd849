-- ===== src/Mcp/Buckets.antt =====
-- `categorize_files` against a filter for each category.
use mathlib.Core.List.{append_assoc, append-nil}
use surql_parser.Prelude.{
  Bool, true, false, List, [], ◌∷◌, ◌++◌, if◌then◌else◌, Text, keep, ◌≡◌, refl, sym, ap, ◌∙◌,
}
use surql_parser.Mcp.{
  FileCategory, CategorizedFiles, classify_file, push_file, categorize_from, categorize_files,
}

abbrev pub bucket : FileCategory → CategorizedFiles → List (List Text)
bucket FileCategory.schema r = r.schema
bucket FileCategory.function r = r.functions
bucket FileCategory.migration r = r.migrations
bucket FileCategory.example r = r.examples
bucket FileCategory.general r = r.general

abbrev pub same_category : FileCategory → FileCategory → Bool
same_category FileCategory.schema FileCategory.schema = true
same_category FileCategory.function FileCategory.function = true
same_category FileCategory.migration FileCategory.migration = true
same_category FileCategory.example FileCategory.example = true
same_category FileCategory.general FileCategory.general = true
same_category _ _ = false

bucket-push_file :
    (c d : FileCategory) (path : List Text) (r : CategorizedFiles)
    → bucket c (push_file d path r) ≡ bucket c r ++ (if same_category c d then path ∷ [] else [])
unfolding push_file
bucket-push_file FileCategory.schema FileCategory.schema path r = refl
bucket-push_file FileCategory.function FileCategory.function path r = refl
bucket-push_file FileCategory.migration FileCategory.migration path r = refl
bucket-push_file FileCategory.example FileCategory.example path r = refl
bucket-push_file FileCategory.general FileCategory.general path r = refl
bucket-push_file c d path r = sym (append-nil (bucket c r))

joined :
    (b : Bool) (before : List (List Text)) (path : List Text) (rest : List (List Text))
    → (before ++ (if b then path ∷ [] else [])) ++ rest
      ≡ before ++ (if b then path ∷ rest else rest)
joined true before path rest = append_assoc before (path ∷ []) rest
joined false before path rest = append_assoc before [] rest

abbrev no_files : CategorizedFiles
no_files = record { schema = []; functions = []; migrations = []; examples = []; general = [] }

bucket-categorize_from :
    (c : FileCategory) (files : List (List Text)) (r : CategorizedFiles)
    → bucket c (categorize_from files r)
      ≡ bucket c r ++ keep (λ p. same_category c (classify_file p)) files
unfolding categorize_from
bucket-categorize_from c [] r = sym (append-nil (bucket c r))
bucket-categorize_from c (path ∷ files) r =
    let rest = keep (λ p. same_category c (classify_file p)) files in
    let d = classify_file path in
    bucket-categorize_from c files (push_file d path r)
    ∙ ap (λ b. b ++ rest) (bucket-push_file c d path r)
    ∙ joined (same_category c d) (bucket c r) path rest

-- Every file is in the list of its category and in no other, in the order of the files, and nothing
-- else is in the lists.
bucket-categorize_files :
    (c : FileCategory) (files : List (List Text))
    → bucket c (categorize_files files) ≡ keep (λ p. same_category c (classify_file p)) files
unfolding categorize_files
bucket-categorize_files FileCategory.schema files =
    bucket-categorize_from FileCategory.schema files no_files
bucket-categorize_files FileCategory.function files =
    bucket-categorize_from FileCategory.function files no_files
bucket-categorize_files FileCategory.migration files =
    bucket-categorize_from FileCategory.migration files no_files
bucket-categorize_files FileCategory.example files =
    bucket-categorize_from FileCategory.example files no_files
bucket-categorize_files FileCategory.general files =
    bucket-categorize_from FileCategory.general files no_files
