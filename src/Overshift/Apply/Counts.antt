-- ===== src/Overshift/Apply/Counts.antt =====
-- What `apply` records and counts where it returns.
use surql_parser.Prelude.{
  ℕ, ◌+◌, true, ◌&&◌, List, [], ◌∷◌, ◌≡◌, refl, ◌∙◌, arith, Text, is_empty, length,
}
use mathlib.Core.Path.{subst}
use surql_parser.Overshift.Types.{Result, ok, err, Migration, SchemaModule, Plan, ApplyResult}
use surql_parser.Overshift.Db.{
  Database, M, World, Target, bootstrap, release, record_migration, statement_error, pure, ◌>>=◌,
  ◌>>◌, switch_to,
}
use surql_parser.Overshift.Db.Keeps.{Keeps, Keeps-bind, Keeps-sent}
use surql_parser.Overshift.Db.Ensures.{
  OnReturn, Ensures, Ensures-pure, Ensures-raise, Ensures-if, Ensures-bind, Ensures-then,
  Ensures-from,
}
use surql_parser.Overshift.Lock.{release_lock}
use surql_parser.Overshift.Apply.{
  Progress, plan_is_empty, run_modules, log_modules, validate_plan, finish, apply_inner, locked,
  apply,
}
use surql_parser.Overshift.Apply.Books.{
  books, Booked, ask-Booked, switch_to-Booked, log_modules-Booked, validate_plan-Booked,
  acquire-Booked, run_modules-Counted,
}
use surql_parser.Overshift.Apply.Ran.{booked, Ran, Ran-all, run_migrations-Ran}

-- A result keeps what it says of the books where the books stay.
rebooked-OnReturn :
    {A : Type 0} (db : Database) (Q : A → List (ℕ × Text) → Type 0) (r : Result A) (w v : World)
    → books db v ≡ books db w
    → OnReturn (λ a u. Q a (books db u)) (r, w)
    → OnReturn (λ a u. Q a (books db u)) (r, v)
rebooked-OnReturn db Q (ok a) w v e h = rw e h
rebooked-OnReturn db Q (err x) w v e h = tt

-- An empty plan counts nothing and leaves the books.
nothing :
    (db : Database) (ms : List Migration) (ss : List SchemaModule) (b : List (ℕ × Text)) (w : World)
    → (is_empty ms && is_empty ss) ≡ true
    → Booked db b w
    → (0 ≡ length ms) × (0 ≡ length ss) × (books db w ≡ booked ms b)
nothing db [] [] b w t g = (refl, refl, g)
nothing db [] (s ∷ ss) b w t g = absurd cc
nothing db (m ∷ ms) ss b w t g = absurd cc

module _ (checksum_of : Text → Text) (db : Database)
    (unfailed : (w : World) (version : ℕ) (checksum : Text)
      → ¬ (db w (record_migration version checksum) ≡ statement_error)) where
  -- The counts are those of the plan, and its migrations are in the books.
  abbrev Complete : Plan → List (ℕ × Text) → ℕ × ℕ → World → Type 0
  Complete plan b (n, k) w =
      (n ≡ length plan.pending_migrations)
      × (k ≡ length plan.schema_modules)
      × (books db w ≡ booked plan.pending_migrations b)

  finish-Complete :
      (plan : Plan) (b b' : List (ℕ × Text)) (p : Progress) (k : ℕ)
      → Ran plan.pending_migrations (record { applied = 0; failed = [] }) p b b'
      → k ≡ 0 + length plan.schema_modules
      → Ensures (Booked db b') (Complete plan b) (finish checksum_of db p k)
  unfolding finish
  finish-Complete plan b b' p k r e =
      Ensures-if _ _ (is_empty p.failed) _ _
        (λ t.
          let (n, h) = Ran-all plan.pending_migrations _ p b b' r refl t in
          Ensures-pure _ _ (p.applied, k) (λ w g. (omega (arith, n), omega (arith, e), g ∙ h)))
        (λ t. Ensures-raise _ _ _)

  -- The steps behind the modules.
  after_modules : Plan → Progress → ℕ → M (ℕ × ℕ)
  after_modules plan p modules = do
    switch_to db Target.system
    log_modules checksum_of db plan.schema_modules
    validate_plan checksum_of db plan.functions_to_validate
    finish checksum_of db p modules

  after_modules-Complete :
      (plan : Plan) (b b' : List (ℕ × Text)) (p : Progress) (k : ℕ)
      → Ran plan.pending_migrations (record { applied = 0; failed = [] }) p b b'
      → k ≡ 0 + length plan.schema_modules
      → Ensures (Booked db b') (Complete plan b) (after_modules plan p k)
  unfolding after_modules
  after_modules-Complete plan b b' p k r e =
      Ensures-then _ _ _ _ (switch_to-Booked checksum_of db b' Target.system) (
        Ensures-then _ _ _ _ (log_modules-Booked checksum_of db b' plan.schema_modules) (
          Ensures-then _ _ _ _ (validate_plan-Booked checksum_of db b' plan.functions_to_validate)
            (finish-Complete plan b b' p k r e)))

  -- The steps behind the migrations, by the books they find.
  after_migrations : Plan → Progress → M (ℕ × ℕ)
  after_migrations plan p = do
    switch_to db Target.main
    modules ← run_modules checksum_of db plan.schema_modules 0
    after_modules plan p modules

  after_migrations-Complete :
      (plan : Plan) (b b' : List (ℕ × Text)) (p : Progress)
      → Ran plan.pending_migrations (record { applied = 0; failed = [] }) p b b'
      → Ensures (Booked db b') (Complete plan b) (after_migrations plan p)
  unfolding after_migrations
  after_migrations-Complete plan b b' p r =
      Ensures-then _ _ _ _ (switch_to-Booked checksum_of db b' Target.main) (
        Ensures-bind _ (λ k w. (k ≡ 0 + length plan.schema_modules) × Booked db b' w) _ _ _
          (run_modules-Counted checksum_of db b' plan.schema_modules 0)
          λ k. record { at = λ w (e, h). (after_modules-Complete plan b b' p k r e).at w h })

  apply_inner-Complete :
      (plan : Plan) (b : List (ℕ × Text))
      → Ensures (Booked db b) (Complete plan b) (apply_inner checksum_of db plan)
  unfolding apply_inner after_migrations after_modules
  apply_inner-Complete plan b =
      let start : Progress = record { applied = 0; failed = [] } in
      Ensures-bind _ (λ p w. Ran plan.pending_migrations start p b (books db w)) _ _ _
        (run_migrations-Ran checksum_of db unfailed plan.pending_migrations start b)
        λ p. record { at = λ w r. (after_migrations-Complete plan b (books db w) p r).at w refl }

  release_lock-Booked : (b : List (ℕ × Text)) → Keeps (Booked db b) (release_lock db)
  unfolding release_lock
  release_lock-Booked b =
      Keeps-bind _ _ (ask-Booked checksum_of db b release (λ r. refl)) λ r. Keeps-sent _ r

  locked-Complete :
      {A : Type 0} (Q : A → List (ℕ × Text) → Type 0) (P : World → Type 0) (body : M A)
      → Ensures P (λ a w. Q a (books db w)) body
      → Ensures P (λ a w. Q a (books db w)) (locked checksum_of db body)
  unfolding locked
  locked-Complete Q P body k = record {
    at = λ w h.
        let (r, w') = body w in
        rebooked-OnReturn db Q r w' (release_lock db w').1
          ((release_lock-Booked (books db w')).at w' refl) (k.at w h);
  }

  report : ℕ × ℕ → M ApplyResult
  report (n, k) = do
    switch_to db Target.main
    pure (record { applied_migrations = n; applied_modules = k })

  report-Complete :
      (plan : Plan) (b : List (ℕ × Text)) (c : ℕ × ℕ) (b' : List (ℕ × Text))
      → (c.0 ≡ length plan.pending_migrations)
        × (c.1 ≡ length plan.schema_modules)
        × (b' ≡ booked plan.pending_migrations b)
      → Ensures
          (Booked db b')
          (λ r. Complete plan b (r.applied_migrations, r.applied_modules))
          (report c)
  unfolding report
  report-Complete plan b c b' h =
      Ensures-then _ _ _ _ (switch_to-Booked checksum_of db b' Target.main)
        (Ensures-pure _ _ _ (λ w g. (h.0, h.1, g ∙ h.2)))

  nothing_pending :
      (plan : Plan) (b : List (ℕ × Text))
      → plan_is_empty plan ≡ true
      → (w : World) → Booked db b w
      → Complete plan b (0, 0) w
  nothing_pending plan b t w g = nothing db plan.pending_migrations plan.schema_modules b w t g

  apply-Complete :
      (plan : Plan) (b : List (ℕ × Text))
      → Ensures
          (Booked db b)
          (λ r. Complete plan b (r.applied_migrations, r.applied_modules))
          (apply checksum_of db plan)
  unfolding apply report
  apply-Complete plan b =
      Ensures-if _ _ (plan_is_empty plan) _ _
        (λ t.
          Ensures-then _ _ _ _ (switch_to-Booked checksum_of db b Target.main)
            (Ensures-pure _ _ _ (nothing_pending plan b t)))
        (λ t. Ensures-then _ _ _ _ (switch_to-Booked checksum_of db b Target.system) (
          Ensures-from _ _ _ _ (ask-Booked checksum_of db b bootstrap (λ r. refl)) λ r.
            Ensures-then _ _ _ _ (Keeps-sent _ r) (
              Ensures-then _ _ _ _ (acquire-Booked checksum_of db b) (
                Ensures-bind _ (λ c. Complete plan b c) _ _ _
                  (locked-Complete
                    (λ (n, k) books'.
                      (n ≡ length plan.pending_migrations)
                      × (k ≡ length plan.schema_modules)
                      × (books' ≡ booked plan.pending_migrations b))
                    _ _ (apply_inner-Complete plan b))
                  λ c. record {
                    at = λ w h. (report-Complete plan b c (books db w) h).at w refl;
                  }))))

  returned :
      (plan : Plan) (b : List (ℕ × Text)) (o : Result ApplyResult × World) (r : ApplyResult)
      (v : World)
      → o ≡ (ok r, v)
      → OnReturn (λ a. Complete plan b (a.applied_migrations, a.applied_modules)) o
      → Complete plan b (r.applied_migrations, r.applied_modules) v
  returned plan b o r v e h =
      subst (OnReturn (λ a. Complete plan b (a.applied_migrations, a.applied_modules))) e h

  -- For a database whose statement for a request to record a migration never fails, though the query
  -- itself may: where `apply` returns a result, it counts all pending migrations and all modules of the
  -- plan, and what the database has recorded in answer to it is the version and the checksum of each
  -- pending migration, once and in the order of the plan.
  pub apply_lem :
      (plan : Plan) (w v : World) (r : ApplyResult)
      → apply checksum_of db plan w ≡ (ok r, v)
      → (r.applied_migrations ≡ length plan.pending_migrations)
        × (r.applied_modules ≡ length plan.schema_modules)
        × (books db v ≡ booked plan.pending_migrations (books db w))
  apply_lem plan w v r e =
      returned plan (books db w) (apply checksum_of db plan w) r v e
        ((apply-Complete plan (books db w)).at w refl)
