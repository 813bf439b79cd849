-- ===== src/Overshift/Modules/Correct.antt =====
-- `topological_sort` returns, and returns an order exactly where there is one.
use mathlib.Core.List.{Memᴰ}
use mathlib.Core.List.Memᴰ
use surql_parser.Prelude.{
  ℕ, zero, suc, ◌+◌, ◌≤◌, Bool, true, ◌&&◌, some, List, [], ◌∷◌, ◌==◌, if◌then◌else◌, length, map,
  keep, Text, text_eq_iff, ◌≡◌, refl, sym, ap, ◌∙◌, arith, Bool-cases, Option-cases, inl, inr,
}
use surql_parser.Prelude.HashMap.{HashMap, IsMap, lookup, put-IsMap, has_key}
use surql_parser.Schema.Links.{text_le}
use surql_parser.Overshift.Types.{Result, ok, err}
use surql_parser.Overshift.Modules.{
  ModuleConfig, returned, module_map, unknown_module, raise_by, count_deps, in_degree, ready, total,
  checked, run, topological_sort, circular, unknown,
}
use surql_parser.Overshift.Modules.Counts.{
  count, degree, count-sort_by, degree-in_degree, has_key-in_degree,
}
use surql_parser.Overshift.Modules.Sorted.{DepsFirst, after, State, drain_ends}

count_deps-IsMap :
    (name : Text) (deps : List Text) (d : HashMap ℕ) → IsMap d → IsMap (count_deps name deps d)
unfolding count_deps
count_deps-IsMap name [] d h = h
count_deps-IsMap name (dep ∷ deps) d h =
    count_deps-IsMap name deps (raise_by 1 name d) (put-IsMap name (degree name d + 1) d h)

in_degree-IsMap : (ms : List ModuleConfig) (d : HashMap ℕ) → IsMap d → IsMap (in_degree ms d)
unfolding in_degree
in_degree-IsMap [] d h = h
in_degree-IsMap (m ∷ ms) d h =
    in_degree-IsMap ms (count_deps m.name m.depends_on (raise_by 0 m.name d)) (
      count_deps-IsMap m.name m.depends_on (raise_by 0 m.name d)
        (put-IsMap m.name (degree m.name d + 0) d h))

abbrev idle_names : HashMap ℕ → List Text
idle_names d = map (λ e. e.0) (keep (λ e. e.1 == 0) d)

count-idle_names :
    (n : Text) (d : HashMap ℕ)
    → IsMap d
    → count n (idle_names d) ≡ (if has_key n d && degree n d == 0 then 1 else 0)
unfolding lookup
count-idle_names n [] h = refl
count-idle_names n ((m, zero) ∷ d) h = ground (arith, text_eq_iff n m, count-idle_names n d h.1)
count-idle_names n ((m, suc k) ∷ d) h = ground (arith, text_eq_iff n m, count-idle_names n d h.1)

count-ready :
    (n : Text) (d : HashMap ℕ)
    → IsMap d
    → count n (ready d) ≡ (if has_key n d && degree n d == 0 then 1 else 0)
unfolding ready
count-ready n d h = count-sort_by text_le n (idle_names d) ∙ count-idle_names n d h

State-start : (ms : List ModuleConfig) → State ms [] (ready (in_degree ms [])) (in_degree ms []) []
unfolding lookup
State-start ms =
    let d = in_degree ms [] in
    let c : (n : Text) → count n (ready d) ≡ (if has_key n d && degree n d == 0 then 1 else 0) =
      λ n. count-ready n d (in_degree-IsMap ms [] tt) in
    record {
      degrees = λ n. omega (arith, degree-in_degree n ms []);
      once = λ n. ground (arith, c n);
      idle = λ n h. ground (arith, c n);
      all_idle = λ n k z. ground (arith, c n, has_key-in_degree n ms []);
      named = λ n h. ground (arith, c n, has_key-in_degree n ms []);
      listed = refl;
      first = tt;
      given = λ c h. absurd (Memᴰ.not-nil h);
    }

-- The loop of a call: it ends, without a panic.
pub run_ends :
    (ms : List ModuleConfig)
    → (out : List ModuleConfig) × (d : HashMap ℕ) × (run ms ≡ (some out, true))
      × State ms (after [] out) [] d out
run_ends ms =
    let d = in_degree ms [] in
    drain_ends ms (total d + length (ready d)) [] (ready d) d [] (State-start ms) (omega arith)

checked_returns :
    (ms out : List ModuleConfig) (b : Bool)
    → (r : Result (List ModuleConfig)) × (checked ms (some out, b) ≡ returned r)
unfolding checked
checked_returns ms out b = elim (Bool-cases (length out == length ms)) [
  | inl e ↦ (ok out, rw e)
  | inr e ↦ (err circular, rw e)
]

-- `topological_sort` returns for all modules: it takes no module of a missing name, lowers no degree
-- below 0, and its loop ends, also where modules share a name or depend on each other in a circle.
pub topological_sort_returns :
    (ms : List ModuleConfig) → (r : Result (List ModuleConfig)) × (topological_sort ms ≡ returned r)
unfolding topological_sort
topological_sort_returns [] = (ok [], refl)
topological_sort_returns (m ∷ ms) =
    elim (Option-cases (unknown_module (module_map (m ∷ ms) []) (m ∷ ms))) [
      | inr (e, u) ↦ (err (unknown e), rw (topological_sort, u))
      | inl u ↦
          let (out, d, e, s) = run_ends (m ∷ ms) in
          let (r, c) = checked_returns (m ∷ ms) out true in
          (r, rw (topological_sort, u) (ap (checked (m ∷ ms)) e ∙ c))
    ]

pub count-after :
    (n : Text) (seen : List Text) (cs : List ModuleConfig)
    → count n (after seen cs) ≡ count n seen + count n (map (λ c. c.name) cs)
count-after n seen [] = omega arith
count-after n seen (c ∷ cs) = omega (arith, count-after n (c.name ∷ seen) cs)

abbrev pub names : List ModuleConfig → List Text
names = map (λ c. c.name)

checked-ok :
    (ms out res : List ModuleConfig)
    → checked ms (some res, true) ≡ returned (ok out)
    → (res ≡ out) × (length res ≡ length ms)
unfolding checked
checked-ok ms out res h = ground arith

-- What `topological_sort` returns has each module behind all modules that it depends on, no name
-- twice, only given modules, and as many as are given.
pub topological_sort_sound :
    (ms out : List ModuleConfig)
    → topological_sort ms ≡ returned (ok out)
    → DepsFirst [] out
      × (length out ≡ length ms)
      × ((c : ModuleConfig) → Memᴰ c out → Memᴰ c ms)
      × ((n : Text) → count n (names out) ≤ 1)
unfolding topological_sort
topological_sort_sound [] out h =
    let e : out ≡ [] = ground arith in rw e (tt, refl, λ c m. m, λ n. omega arith)
topological_sort_sound (m ∷ ms) out h =
    elim (Option-cases (unknown_module (module_map (m ∷ ms) []) (m ∷ ms))) [
      | inr (e, u) ↦ absurd (ground arith)
      | inl u ↦
          let (res, d, e, s) = run_ends (m ∷ ms) in
          let (same, len) =
            checked-ok (m ∷ ms) out res
              (ap (checked (m ∷ ms)) (sym e) ∙ (rw (u, topological_sort) at h)) in
          rw (sym same) (s.first, len, s.given, λ n. omega (arith, s.once n, count-after n [] res))
    ]
