-- ===== src/Overshift/Modules/Complete.antt =====
-- `topological_sort` finds an order where there is one.
use mathlib.Core.List.{Memᴰ}
use mathlib.Core.List.Memᴰ
use surql_parser.Prelude.{
  ℕ, suc, ◌≤◌, ◌<◌, true, none, some, List, [], ◌∷◌, length, map, All, All-map, Text, text_eq,
  text_eq_iff, ◌≡◌, refl, sym, ap, ◌∙◌, arith, Bool-cases, inl, inr,
}
use surql_parser.Prelude.HashMap.{HashMap}
use surql_parser.Prelude.SortedSet.{contains}
use surql_parser.Overshift.Types.{ok}
use surql_parser.Overshift.Modules.{
  ModuleConfig, returned, module_map, unknown_in, unknown_module, checked, topological_sort,
}
use surql_parser.Overshift.Modules.Counts.{count, lacking, unmet, is_named}
use surql_parser.Overshift.Modules.Sorted.{
  DepsFirst, after, State, contains-count, absent-count, has_key-module_map,
}
use surql_parser.Overshift.Modules.Names.{
  is_named-mem, mem-is_named, is_named-count, count-is_named, same_module, count-length,
}
use surql_parser.Overshift.Modules.Correct.{run_ends, names, count-after}

-- Every module of an order that stands behind its dependencies is done in the end.
module _ (ms : List ModuleConfig) (u : (n : Text) → count n (names ms) ≤ 1) (done : List Text)
    (d : HashMap ℕ) (out : List ModuleConfig) (s : State ms done [] d out) where
  lacking_zero : (deps : List Text) → All (λ x. contains done x ≡ true) deps → lacking done deps ≡ 0
  lacking_zero [] h = refl
  lacking_zero (x ∷ deps) h = rw h.0 (lacking_zero deps h.1)

  unmet-all :
      (n : Text) (cs : List ModuleConfig)
      → ((c : ModuleConfig) → Memᴰ c cs → c.name ≡ n → lacking done c.depends_on ≡ 0)
      → unmet done n cs ≡ 0
  unmet-all n [] h = refl
  unmet-all n (c ∷ cs) h = elim (Bool-cases (text_eq n c.name)) [
    | inl e ↦
        rw (e, h c (Memᴰ.head refl) (sym ((text_eq_iff n c.name).0 e)))
          (omega (arith, unmet-all n cs (λ x m. h x (Memᴰ.tail m))))
    | inr e ↦ rw e (omega (arith, unmet-all n cs (λ x m. h x (Memᴰ.tail m))))
  ]

  count-contains : (n : Text) → 1 ≤ count n done → contains done n ≡ true
  count-contains n h = elim (Bool-cases (contains done n)) [
    | inl e ↦ e
    | inr e ↦ absurd (omega (arith, h, absent-count n done e))
  ]

  is_done :
      (c : ModuleConfig)
      → Memᴰ c ms
      → All (λ x. contains done x ≡ true) c.depends_on
      → contains done c.name ≡ true
  is_done c m h =
      let met : unmet done c.name ms ≡ 0 = unmet-all c.name ms (λ x mx e.
        ap (λ y. lacking done y.depends_on) (same_module ms u x c mx m e)
        ∙ lacking_zero c.depends_on h) in
      count-contains c.name
        (omega (arith, s.all_idle c.name (mem-is_named c ms m) (s.degrees c.name ∙ met)))

  all_done :
      (seen : List Text) (cs : List ModuleConfig)
      → ((x : Text) → contains seen x ≡ true → contains done x ≡ true)
      → ((c : ModuleConfig) → Memᴰ c cs → Memᴰ c ms)
      → DepsFirst seen cs
      → (c : ModuleConfig) → Memᴰ c cs
      → contains done c.name ≡ true
  all_done seen [] h given f c m = absurd (Memᴰ.not-nil m)
  all_done seen (b ∷ cs) h given f c m =
      let now = is_done b (given b (Memᴰ.head refl)) (All-map h b.depends_on f.0) in
      elim (Memᴰ.cases_cons m) [
        | inl e ↦ ap (λ x. contains done x.name) e ∙ now
        | inr r ↦
            all_done (b.name ∷ seen) cs
              (λ x k. elim (Bool-cases (text_eq x b.name)) [
                | inl e ↦ ap (contains done) ((text_eq_iff x b.name).0 e) ∙ now
                | inr e ↦ h x (ground arith)
              ])
              (λ x mx. given x (Memᴰ.tail mx)) f.1 c r
      ]

module _ (ms order : List ModuleConfig)
    (within : (c : ModuleConfig) → Memᴰ c order → Memᴰ c ms) where
  known_in :
      (deps : List Text)
      → All (λ x. is_named ms x ≡ true) deps
      → unknown_in (module_map ms []) deps ≡ none
  unfolding unknown_in
  known_in [] h = refl
  known_in (x ∷ deps) h = rw (unknown_in, has_key-module_map x ms [], h.0) (known_in deps h.1)

  -- What stands before a module in the order has the name of a module.
  known_deps :
      (seen : List Text) (cs : List ModuleConfig)
      → ((x : Text) → contains seen x ≡ true → is_named ms x ≡ true)
      → ((c : ModuleConfig) → Memᴰ c cs → Memᴰ c order)
      → DepsFirst seen cs
      → (c : ModuleConfig) → Memᴰ c cs
      → All (λ x. is_named ms x ≡ true) c.depends_on
  known_deps seen [] h sub f c m = absurd (Memᴰ.not-nil m)
  known_deps seen (b ∷ cs) h sub f c m = elim (Memᴰ.cases_cons m) [
    | inl e ↦ rw e (All-map h b.depends_on f.0)
    | inr r ↦
        known_deps (b.name ∷ seen) cs
          (λ x k. elim (Bool-cases (text_eq x b.name)) [
            | inl e ↦
                ap (is_named ms) ((text_eq_iff x b.name).0 e)
                ∙ mem-is_named b ms (within b (sub b (Memᴰ.head refl)))
            | inr e ↦ h x (ground arith)
          ])
          (λ x mx. sub x (Memᴰ.tail mx)) f.1 c r
  ]

  nothing_unknown :
      (map : HashMap ModuleConfig) (cs : List ModuleConfig)
      → ((c : ModuleConfig) → Memᴰ c cs → unknown_in map c.depends_on ≡ none)
      → unknown_module map cs ≡ none
  unfolding unknown_module
  nothing_unknown map [] h = refl
  nothing_unknown map (c ∷ cs) h =
      rw (unknown_module, h c (Memᴰ.head refl)) (nothing_unknown map cs (λ x m. h x (Memᴰ.tail m)))

length-names : (cs : List ModuleConfig) → length (names cs) ≡ length cs
length-names [] = refl
length-names (c ∷ cs) = ap suc (length-names cs)

checked-same_length :
    (ms out : List ModuleConfig)
    → length out ≡ length ms
    → checked ms (some out, true) ≡ returned (ok out)
unfolding checked
checked-same_length ms out h = ground arith

-- A name is done in the end exactly where a module has it.
same_count :
    (ms order out : List ModuleConfig) (d : HashMap ℕ)
    → ((n : Text) → count n (names ms) ≤ 1)
    → ((c : ModuleConfig) → Memᴰ c ms → Memᴰ c order)
    → ((c : ModuleConfig) → Memᴰ c order → Memᴰ c ms)
    → DepsFirst [] order
    → State ms (after [] out) [] d out
    → (n : Text) → count n (names out) ≡ count n (names ms)
same_count ms order out d u all within first s n = elim (Bool-cases (is_named ms n)) [
  | inl e ↦
      let (c, m, q) = is_named-mem n ms e in
      let done : contains (after [] out) n ≡ true =
        ap (contains (after [] out)) (sym q)
        ∙ all_done ms u (after [] out) d out s [] order (λ x k. cc k) within first c (all c m) in
      omega (
        arith,
        contains-count n (after [] out) done,
        s.once n,
        count-after n [] out,
        u n,
        is_named-count n ms e,
      )
  | inr e ↦ elim (Bool-cases (contains (after [] out) n)) [
    | inl k ↦ cc (s.named n (omega (arith, contains-count n (after [] out) k)), e)
    | inr k ↦
        let none_named : count n (names ms) < 1 = ground (arith, count-is_named n ms) in
        omega (arith, absent-count n (after [] out) k, count-after n [] out, none_named)
  ]
]

-- Where no two modules share a name and the modules have an order in which each stands behind all
-- that it depends on, `topological_sort` returns an order, and no error.
pub topological_sort_complete :
    (ms order : List ModuleConfig)
    → ((n : Text) → count n (names ms) ≤ 1)
    → ((c : ModuleConfig) → Memᴰ c ms → Memᴰ c order)
    → ((c : ModuleConfig) → Memᴰ c order → Memᴰ c ms)
    → DepsFirst [] order
    → (out : List ModuleConfig) × (topological_sort ms ≡ returned (ok out))
unfolding topological_sort
topological_sort_complete [] order u all within first = ([], refl)
topological_sort_complete (m ∷ ms) order u all within first =
    let known : unknown_module (module_map (m ∷ ms) []) (m ∷ ms) ≡ none =
      nothing_unknown (m ∷ ms) order within (module_map (m ∷ ms) []) (m ∷ ms) (λ c mc.
        known_in (m ∷ ms) order within c.depends_on (
          known_deps (m ∷ ms) order within [] order (λ x k. cc k) (λ x k. k) first c (all c mc))) in
    let (out, d, e, s) = run_ends (m ∷ ms) in
    let same_length : length (names out) ≡ length (names (m ∷ ms)) =
      count-length (names out) (names (m ∷ ms))
        (same_count (m ∷ ms) order out d u all within first s) in
    (
      out,
      rw (topological_sort, known)
          (ap (checked (m ∷ ms)) e
            ∙ checked-same_length (m ∷ ms) out
                (sym (length-names out) ∙ same_length ∙ length-names (m ∷ ms))),
    )
