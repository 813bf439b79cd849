-- ===== src/Overshift/Apply/Ran.antt =====
-- The loop over the pending migrations: what it counts and records.
use surql_parser.Prelude.{
  ℕ, ◌+◌, true, List, [], ◌∷◌, ◌++◌, ◌≡◌, refl, sym, ap, ◌∙◌, arith, ◌⊎◌, inl, inr, Text, is_empty,
  length,
}
use surql_parser.Overshift.Types.{Error, Result, ok, err, Migration}
use surql_parser.Overshift.Db.{
  Database, M, World, Reply, query_error, statement_error, rows, info, record_migration, ask, sent,
}
use surql_parser.Overshift.Db.Ensures.{
  OnReturn, Ensures, Ensures-Keeps, Ensures-pure, Ensures-if, Ensures-bind, Ensures-then,
  Ensures-from, Ensures-seq,
}
use surql_parser.Overshift.Apply.{Progress, record_applied, run_migrations}
use surql_parser.Overshift.Apply.Books.{
  books, Booked, is_done, log_entry-Booked, run_migration-Booked,
}

-- The books behind the migrations, each recorded in its turn.
abbrev pub booked : List Migration → List (ℕ × Text) → List (ℕ × Text)
booked [] b = b
booked (m ∷ ms) b = booked ms ((m.version, m.checksum) ∷ b)

-- The loop ran to its end, or stopped at a migration that is not recorded.
abbrev pub Ran : List Migration → Progress → Progress → List (ℕ × Text) → List (ℕ × Text) → Type 0
Ran [] p q b b' = (q ≡ p) × (b' ≡ b)
Ran (m ∷ ms) p q b b' =
    ((q ≡ record p { failed = p.failed ++ m.name ∷ [] }) × (b' ≡ b))
    ⊎ Ran ms (record p { applied = p.applied + 1 }) q ((m.version, m.checksum) ∷ b) b'

not_empty : (xs : List Text) (x : Text) → ¬ (is_empty (xs ++ x ∷ []) ≡ true)
not_empty [] x h = absurd cc
not_empty (y ∷ ys) x h = absurd cc

-- Where no migration failed, all of them are counted and in the books.
pub Ran-all :
    (ms : List Migration) (p q : Progress) (b b' : List (ℕ × Text))
    → Ran ms p q b b'
    → is_empty p.failed ≡ true
    → is_empty q.failed ≡ true
    → (q.applied ≡ p.applied + length ms) × (b' ≡ booked ms b)
Ran-all [] p q b b' (e, h) f g = (rw e (omega arith), h)
Ran-all (m ∷ ms) p q b b' (inl (e, h)) f g =
    absurd (not_empty p.failed m.name (ap (λ r. is_empty r.failed) (sym e) ∙ g))
Ran-all (m ∷ ms) p q b b' (inr r) f g =
    let (n, h) =
      Ran-all ms (record p { applied = p.applied + 1 }) q ((m.version, m.checksum) ∷ b) b' r f g in
    (omega (arith, n), h)

weaker-OnReturn :
    {A : Type 0} (Q R : A → World → Type 0)
    → ((a : A) (w : World) → Q a w → R a w)
    → (r : Result A) (w : World) → OnReturn Q (r, w)
    → OnReturn R (r, w)
weaker-OnReturn Q R f (ok a) w h = f a w h
weaker-OnReturn Q R f (err e) w h = tt

module _ (checksum_of : Text → Text) (db : Database)
    (unfailed : (w : World) (version : ℕ) (checksum : Text)
      → ¬ (db w (record_migration version checksum) ≡ statement_error)) where
  -- The request is in the books if it was answered without an error, and its statement did not fail.
  abbrev Asked : List (ℕ × Text) → ℕ × Text → Reply → World → Type 0
  Asked b x r w = (is_done r ≡ true → Booked db (x ∷ b) w) × ¬ (r ≡ statement_error)

  ask_record :
      (b : List (ℕ × Text)) (m : Migration)
      → Ensures
          (Booked db b)
          (Asked b (m.version, m.checksum))
          (ask db (record_migration m.version m.checksum))
  unfolding ask
  ask_record b m = record {
    at = λ w h. ((λ d. rw d (ap (◌∷◌ (m.version, m.checksum)) h)), unfailed w m.version m.checksum);
  }

  sent-Booked :
      (b : List (ℕ × Text)) (x : ℕ × Text) (e : Error) (r : Reply)
      → Ensures (Asked b x r) (λ u. Booked db (x ∷ b)) (sent e r)
  unfolding sent
  sent-Booked b x e query_error = record { at = λ w h. tt }
  sent-Booked b x e statement_error = record { at = λ w h. absurd (h.1 refl) }
  sent-Booked b x e (rows rs) = record { at = λ w h. h.0 refl }
  sent-Booked b x e (info fs) = record { at = λ w h. h.0 refl }

  record_applied-Booked :
      (b : List (ℕ × Text)) (m : Migration)
      → Ensures
          (Booked db b)
          (λ u. Booked db ((m.version, m.checksum) ∷ b))
          (record_applied checksum_of db m)
  unfolding record_applied
  record_applied-Booked b m =
      let x : ℕ × Text = (m.version, m.checksum) in
      Ensures-bind _ (Asked b x) _ _ _ (ask_record b m) λ r.
        Ensures-bind _ (λ u. Booked db (x ∷ b)) _ _ _ (sent-Booked b x _ r)
          λ u. Ensures-Keeps _ _ (log_entry-Booked checksum_of db (x ∷ b) _ _ _ _)

  Ensures-weaker :
      {A : Type 0} (P : World → Type 0) (Q R : A → World → Type 0) (m : M A)
      → ((a : A) (w : World) → Q a w → R a w)
      → Ensures P Q m
      → Ensures P R m
  Ensures-weaker P Q R m f k = record {
    at = λ w h. let (r, w') = m w in weaker-OnReturn Q R f r w' (k.at w h);
  }

  pub run_migrations-Ran :
      (ms : List Migration) (p : Progress) (b : List (ℕ × Text))
      → Ensures
          (Booked db b)
          (λ q w. Ran ms p q b (books db w))
          (run_migrations checksum_of db ms p)
  unfolding run_migrations
  run_migrations-Ran [] p b = Ensures-pure _ _ p (λ w h. (refl, h))
  run_migrations-Ran (m ∷ ms) p b =
      let next : Progress = record p { applied = p.applied + 1 } in
      let after = (m.version, m.checksum) ∷ b in
      Ensures-from _ _ _ _ (run_migration-Booked checksum_of db b m) λ fine.
        Ensures-if _ _ fine _ _
          (λ t. Ensures-seq _ (Booked db after) _ _ _ (record_applied-Booked b m) (
            Ensures-weaker _ (λ q w. Ran ms next q after (books db w)) _ _ (λ q w r. inr r)
              (run_migrations-Ran ms next after)))
          (λ t.
            Ensures-then _ _ _ _ (log_entry-Booked checksum_of db b _ _ _ _)
              (Ensures-pure _ _ _ (λ w h. inl (refl, h))))
