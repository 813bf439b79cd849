-- ===== src/Overshift/Planning/Consistent.antt =====
-- What `plan` accepts, and which migrations it leaves to be applied.
use surql_parser.Prelude.{
  ℕ, Bool, true, false, not, Option, none, some, List, [], ◌∷◌, ◌≡◌, ◌≢◌, ◌↔◌, refl, sym, ap, ◌∙◌,
  arith, ◌==◌, text_eq, text_eq_iff, keep, find, All, Bool-cases, inl, inr,
}
use surql_parser.Overshift.Types.{Error, ok, Migration, AppliedMigration}
use surql_parser.Overshift.Migration.{is_seen}
use surql_parser.Overshift.Planning.{
  mismatch, first_mismatch, overlap_mismatch, has_repeats, is_applied, pending_of,
}

-- The applied migration has the checksum of every known one of its version.
abbrev pub Agrees : List Migration → AppliedMigration → Type 0
Agrees migrations a = All (λ m. m.version ≡ a.version → a.checksum ≡ m.checksum) migrations

abbrev pub IsUnique : List Migration → Type 0
IsUnique [] = Unit
IsUnique (m ∷ ms) = All (λ n. n.version ≢ m.version) ms × IsUnique ms

-- What the engine checks before anything is run.
abbrev pub IsConsistent : List AppliedMigration → List Migration → Type 0
IsConsistent applied migrations = All (Agrees migrations) applied × IsUnique migrations

All-map :
    {A : Type 0} {P Q : A → Type 0} → ((a : A) → P a → Q a) → (xs : List A) → All P xs → All Q xs
All-map f [] h = tt
All-map f (x ∷ xs) h = (f x h.0, All-map f xs h.1)

All-both :
    {A : Type 0} {P Q R : A → Type 0}
    → ((a : A) → P a → Q a → R a)
    → (xs : List A) → All P xs
    → All Q xs
    → All R xs
All-both f [] h k = tt
All-both f (x ∷ xs) h k = (f x h.0 k.0, All-both f xs h.1 k.1)

-- Where the version is nowhere, there is nothing to disagree with.
Agrees-fresh :
    (ms : List Migration) (a : AppliedMigration) → All (λ n. n.version ≢ a.version) ms → Agrees ms a
Agrees-fresh ms a h = All-map (λ n k e. absurd (k e)) ms h

mismatch-Agrees :
    (ms : List Migration) (a : AppliedMigration) → IsUnique ms → mismatch ms a ≡ none → Agrees ms a
unfolding mismatch
mismatch-Agrees [] a u h = tt
mismatch-Agrees (m ∷ ms) a u h = elim (Bool-cases (m.version == a.version)) [
  | inl e ↦
      let v : m.version ≡ a.version = ground arith in
      ((λ k. ground (arith, text_eq_iff a.checksum m.checksum)), Agrees-fresh ms a (rw (sym v) u.0))
  | inr e ↦ ((λ k. ground arith), mismatch-Agrees ms a u.1 (ground arith))
]

Agrees-mismatch : (ms : List Migration) (a : AppliedMigration) → Agrees ms a → mismatch ms a ≡ none
unfolding mismatch
Agrees-mismatch [] a h = refl
Agrees-mismatch (m ∷ ms) a h = elim (Bool-cases (m.version == a.version)) [
  | inl e ↦
      let c : text_eq a.checksum m.checksum ≡ true =
        (text_eq_iff a.checksum m.checksum).1 (h.0 (ground arith)) in
      ground arith
  | inr e ↦ let ih = Agrees-mismatch ms a h.1 in ground arith
]

first_mismatch-All :
    (ms : List Migration) (xs : List AppliedMigration)
    → first_mismatch ms xs ≡ none
    → All (λ a. mismatch ms a ≡ none) xs
unfolding first_mismatch
first_mismatch-All ms [] h = tt
first_mismatch-All ms (a ∷ xs) h = (ground arith, first_mismatch-All ms xs (ground arith))

All-first_mismatch :
    (ms : List Migration) (xs : List AppliedMigration)
    → All (λ a. mismatch ms a ≡ none) xs
    → first_mismatch ms xs ≡ none
unfolding first_mismatch
All-first_mismatch ms [] h = refl
All-first_mismatch ms (a ∷ xs) h =
    let here = h.0 in let ih = All-first_mismatch ms xs h.1 in ground arith

find-All :
    (P : AppliedMigration → Type 0) (p : AppliedMigration → Bool) (xs : List AppliedMigration)
    (b : AppliedMigration)
    → All P xs
    → find p xs ≡ some b
    → P b
find-All P p [] b h e = absurd cc
find-All P p (x ∷ xs) b h e = elim (Bool-cases (p x)) [
  | inl t ↦ let q : x ≡ b = ground arith in rw (sym q) h.0
  | inr t ↦ find-All P p xs b h.1 (ground arith)
]

overlap-step :
    (ms : List Migration) (found : Option AppliedMigration) (rest : Option Error) {H : Type 0}
    → ((b : AppliedMigration) → H → found ≡ some b → mismatch ms b ≡ none)
    → H
    → rest ≡ none
    → elim found as (λ x. Option Error) [
      | none ↦ rest
      | some b ↦ elim (mismatch ms b) as (λ x. Option Error) [ none ↦ rest | some e ↦ some e ]
    ]
      ≡ none
overlap-step ms none rest f h r = r
overlap-step ms (some b) rest f h r = rw (f b h refl) r

-- The second check finds nothing where the first found nothing.
overlap_mismatch-none :
    (ms : List Migration) (applied xs : List AppliedMigration)
    → All (λ a. mismatch ms a ≡ none) applied
    → overlap_mismatch ms applied xs ≡ none
unfolding overlap_mismatch
overlap_mismatch-none ms applied [] h = refl
overlap_mismatch-none ms applied (a ∷ xs) h =
    overlap-step ms (find (λ b. b.version == a.version) applied) (overlap_mismatch ms applied xs)
      (find-All (λ b. mismatch ms b ≡ none) (λ b. b.version == a.version) applied) h
      (overlap_mismatch-none ms applied xs h)

pub has_repeats-IsUnique :
    (seen : List ℕ) (ms : List Migration)
    → has_repeats seen ms ≡ false
    → IsUnique ms × All (λ m. is_seen seen m.version ≡ false) ms
unfolding has_repeats is_seen
has_repeats-IsUnique seen [] h = (tt, tt)
has_repeats-IsUnique seen (m ∷ ms) h =
    let (u, f) = has_repeats-IsUnique (m.version ∷ seen) ms (ground arith) in
    ((All-map (λ n k e. ground arith) ms f, u), (ground arith, All-map (λ n k. ground arith) ms f))

pub IsUnique-has_repeats :
    (seen : List ℕ) (ms : List Migration)
    → IsUnique ms
    → All (λ m. is_seen seen m.version ≡ false) ms
    → has_repeats seen ms ≡ false
unfolding has_repeats is_seen
IsUnique-has_repeats seen [] u f = refl
IsUnique-has_repeats seen (m ∷ ms) u f = rw (
  f.0,
  IsUnique-has_repeats (m.version ∷ seen) ms u.1 (All-both (λ n k l. ground arith) ms u.0 f.1),
)

pub nothing_seen : (ms : List Migration) → All (λ m. is_seen [] m.version ≡ false) ms
unfolding is_seen
nothing_seen [] = tt
nothing_seen (m ∷ ms) = (refl, nothing_seen ms)

-- The migrations that are not applied yet.
abbrev pub unapplied : List AppliedMigration → List Migration → List Migration
unapplied applied ms = keep (λ m. not (is_applied applied m.version)) ms

accepted :
    (applied : List AppliedMigration) (ms : List Migration)
    → IsConsistent applied ms
    → pending_of applied ms ≡ ok (unapplied applied ms)
unfolding pending_of
accepted applied ms (c, u) =
    let none_off = All-map (λ a h. Agrees-mismatch ms a h) applied c in
    let first = All-first_mismatch ms applied none_off in
    let second = overlap_mismatch-none ms applied applied none_off in
    let third = IsUnique-has_repeats [] ms u (nothing_seen ms) in ground arith

checks_passed :
    (applied : List AppliedMigration) (ms ps : List Migration)
    → pending_of applied ms ≡ ok ps
    → (first_mismatch ms applied ≡ none) × (has_repeats [] ms ≡ false) × (unapplied applied ms ≡ ps)
unfolding pending_of
checks_passed applied ms ps h = ground arith

-- The checks of `plan` accept exactly the consistent inputs, where no two migrations share a version and
-- each applied migration has the checksum of the known one of its version, and what is pending then is
-- the migrations whose version is not applied, in their order.
pub pending_of_iff :
    (applied : List AppliedMigration) (ms ps : List Migration)
    → (pending_of applied ms ≡ ok ps) ↔ (IsConsistent applied ms × (unapplied applied ms ≡ ps))
pending_of_iff applied ms ps = (
  (λ h.
      let (f, r, e) = checks_passed applied ms ps h in
      let u = (has_repeats-IsUnique [] ms r).0 in
      (
        (All-map (λ a k. mismatch-Agrees ms a u k) applied (first_mismatch-All ms applied f), u),
        e,
      )),
  λ (c, e). accepted applied ms c ∙ ap ok e,
)
