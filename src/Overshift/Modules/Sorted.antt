-- ===== src/Overshift/Modules/Sorted.antt =====
-- The loop of `topological_sort`: its state, and what a round keeps.
use mathlib.Core.List.{Memᴰ}
use mathlib.Core.List.Memᴰ
use surql_parser.Prelude.{
  ℕ, zero, suc, ◌+◌, ◌≤◌, true, false, ◌||◌, some, List, [], ◌∷◌, ◌++◌, length, length-append, All,
  Text, text_eq, text_eq_iff, text_eq_refl, ◌≡◌, ◌⊎◌, refl, sym, ap, ◌∙◌, arith, Bool-cases, inl,
  inr,
}
use surql_parser.Prelude.HashMap.{
  HashMap, lookup, put, lookup-put, has_key, has_key-put, lookup-ne-none,
}
use surql_parser.Prelude.SortedSet.{contains}
use surql_parser.Prelude.Sorting.{sort_by, Memᴰ-concat}
use surql_parser.Schema.Links.{text_le}
use surql_parser.Overshift.Modules.{ModuleConfig, module_map, dependents, release, drain, total}
use surql_parser.Overshift.Modules.Counts.{
  is, count, degree, dependents_on, count-append, count-sort_by, length-sort_by, lacking, unmet,
  is_named, count-dependents, unmet-cons,
}
use surql_parser.Overshift.Modules.Released.{
  Released, release-Released, release-total, release_fine,
}

-- Each module stands behind all that it depends on; `seen` are the names before the list.
abbrev pub DepsFirst : List Text → List ModuleConfig → Type 0
DepsFirst seen [] = Unit
DepsFirst seen (c ∷ cs) =
    All (λ d. contains seen d ≡ true) c.depends_on × DepsFirst (c.name ∷ seen) cs

-- The names of a list, the last one first, before the names seen.
abbrev pub after : List Text → List ModuleConfig → List Text
after seen [] = seen
after seen (c ∷ cs) = after (c.name ∷ seen) cs

after-concat :
    (seen : List Text) (cs : List ModuleConfig) (m : ModuleConfig)
    → after seen (cs ++ m ∷ []) ≡ m.name ∷ after seen cs
after-concat seen [] m = refl
after-concat seen (c ∷ cs) m = after-concat (c.name ∷ seen) cs m

DepsFirst-concat :
    (seen : List Text) (cs : List ModuleConfig) (m : ModuleConfig)
    → DepsFirst seen cs
    → All (λ d. contains (after seen cs) d ≡ true) m.depends_on
    → DepsFirst seen (cs ++ m ∷ [])
DepsFirst-concat seen [] m f a = (a, tt)
DepsFirst-concat seen (c ∷ cs) m f a = (f.0, DepsFirst-concat (c.name ∷ seen) cs m f.1 a)

pub contains-count : (n : Text) (xs : List Text) → contains xs n ≡ true → 1 ≤ count n xs
contains-count n [] h = cc
contains-count n (x ∷ xs) h = ground (arith, contains-count n xs)

pub absent-count : (n : Text) (xs : List Text) → contains xs n ≡ false → count n xs ≡ 0
absent-count n [] h = refl
absent-count n (x ∷ xs) h = ground (arith, absent-count n xs)

lacking-none :
    (done deps : List Text) → lacking done deps ≡ 0 → All (λ d. contains done d ≡ true) deps
lacking-none done [] h = tt
lacking-none done (d ∷ deps) h = ground (arith, lacking-none done deps)

unmet-none :
    (done : List Text) (n : Text) (ms : List ModuleConfig) (m : ModuleConfig)
    → unmet done n ms ≡ 0
    → Memᴰ m ms
    → m.name ≡ n
    → All (λ d. contains done d ≡ true) m.depends_on
unmet-none done n [] m h mem e = absurd (Memᴰ.not-nil mem)
unmet-none done n (c ∷ ms) m h mem e = elim (Memᴰ.cases_cons mem) [
  | inl s ↦
      let k : text_eq n c.name ≡ true = (text_eq_iff n c.name).1 (sym e ∙ ap (λ x. x.name) s) in
      let z : lacking done c.depends_on ≡ 0 = ground arith in
      rw s (lacking-none done c.depends_on z)
  | inr r ↦ unmet-none done n ms m (omega (arith, h)) r e
]

unmet-named :
    (done : List Text) (n : Text) (ms : List ModuleConfig)
    → 1 ≤ unmet done n ms
    → is_named ms n ≡ true
unmet-named done n [] h = absurd (omega (arith, h))
unmet-named done n (m ∷ ms) h = ground (arith, unmet-named done n ms)

-- The map holds a module of each name.
pub lookup-module_map :
    (n : Text) (ms : List ModuleConfig) (acc : HashMap ModuleConfig) (c : ModuleConfig)
    → lookup n (module_map ms acc) ≡ some c
    → (lookup n acc ≡ some c) ⊎ (Memᴰ c ms × (c.name ≡ n))
unfolding module_map
lookup-module_map n [] acc c h = inl h
lookup-module_map n (m ∷ ms) acc c h = elim (lookup-module_map n ms (put m.name m acc) c h) [
  | inr (mem, e) ↦ inr (Memᴰ.tail mem, e)
  | inl e ↦ elim (Bool-cases (text_eq n m.name)) [
    | inl t ↦
        let s : c ≡ m = ground (arith, lookup-put m.name n m acc) in
        inr (Memᴰ.head s, ap (λ x. x.name) s ∙ sym ((text_eq_iff n m.name).0 t))
    | inr t ↦ inl (ground (arith, lookup-put m.name n m acc))
  ]
]

pub has_key-module_map :
    (n : Text) (ms : List ModuleConfig) (acc : HashMap ModuleConfig)
    → has_key n (module_map ms acc) ≡ (has_key n acc || is_named ms n)
unfolding module_map
has_key-module_map n [] acc = ground arith
has_key-module_map n (m ∷ ms) acc =
    ground (arith, has_key-put m.name n m acc, has_key-module_map n ms (put m.name m acc))

module _ (ms : List ModuleConfig) where
  -- The state of the loop: the names done, the last one first, the queue, the degrees and the result.
  pub record State (done queue : List Text) (d : HashMap ℕ) (result : List ModuleConfig)
      : Type 0 where
    pub degrees : (n : Text) → degree n d ≡ unmet done n ms
    pub once : (n : Text) → count n done + count n queue ≤ 1
    pub idle : (n : Text) → 1 ≤ count n done + count n queue → degree n d ≡ 0
    pub all_idle :
        (n : Text) → is_named ms n ≡ true → degree n d ≡ 0 → 1 ≤ count n done + count n queue
    pub named : (n : Text) → 1 ≤ count n done + count n queue → is_named ms n ≡ true
    pub listed : done ≡ after [] result
    pub first : DepsFirst [] result
    pub given : (c : ModuleConfig) → Memᴰ c result → Memᴰ c ms

  abbrev behind : Text → List Text
  behind x = dependents_on x (dependents ms [])

  module _ (x : Text) (done queue : List Text) (d : HashMap ℕ) (result : List ModuleConfig)
      (s : State done (x ∷ queue) d result) where
    one : (n : Text) → is n x ≤ 1
    one n = ground arith

    self : is x x ≡ 1
    self = rw (text_eq_refl x)

    new : contains done x ≡ false
    new = elim (Bool-cases (contains done x)) [
      | inl e ↦ absurd (omega (arith, contains-count x done e, s.once x, self))
      | inr e ↦ e
    ]

    found : (m : ModuleConfig) × (lookup x (module_map ms []) ≡ some m) × Memᴰ m ms × (m.name ≡ x)
    unfolding lookup
    found =
        let key : has_key x (module_map ms []) ≡ true =
          has_key-module_map x ms [] ∙ s.named x (omega (arith, self)) in
        let (m, e) = lookup-ne-none x (module_map ms []) key in
        elim (lookup-module_map x ms [] m e) [
          | inl none_yet ↦ cc none_yet
          | inr (mem, named) ↦ (m, e, mem, named)
        ]

    fine : (out : HashMap ℕ × List Text) × (release (behind x) d ≡ some out)
    unfolding lookup
    fine =
        release_fine (behind x) d
          (λ n. omega (arith, count-dependents n x ms [], s.degrees n, unmet-cons done x n ms new))

    module _ (m : ModuleConfig) (out : HashMap ℕ × List Text) (mem : Memᴰ m ms) (name : m.name ≡ x)
        (r : release (behind x) d ≡ some out) where
      counted :
          (n : Text) → count n (queue ++ sort_by text_le out.1) ≡ count n queue + count n out.1
      counted n =
          omega (arith, count-append n queue (sort_by text_le out.1), count-sort_by text_le n out.1)

      released : (n : Text) → Released n (behind x) d out
      released n = release-Released n (behind x) d out r

      met : All (λ y. contains done y ≡ true) m.depends_on
      met = unmet-none done x ms m (sym (s.degrees x) ∙ s.idle x (omega (arith, self))) mem name

      State-next : State (x ∷ done) (queue ++ sort_by text_le out.1) out.0 (result ++ m ∷ [])
      unfolding lookup
      State-next = record {
        degrees = λ n.
            let a = released n in
            omega (
              arith,
              a.lowered,
              count-dependents n x ms [],
              s.degrees n,
              unmet-cons done x n ms new,
            );
        once = λ n.
            let a = released n in
            ground (arith, counted n, s.once n, s.idle n, a.once, a.from_above, one n);
        idle =
            λ n h. let a = released n in ground (arith, counted n, s.idle n, a.to_zero, a.lowered);
        all_idle = λ n e z. let a = released n in ground (arith, counted n, s.all_idle n, a.met);
        named = λ n h.
            let a = released n in
            ground (arith, counted n, s.named n, a.from_above, s.degrees n, unmet-named done n ms);
        listed = sym (
            after-concat [] result m
            ∙ ap (λ l. m.name ∷ l) (sym s.listed)
            ∙ ap (λ n. n ∷ done) name);
        first = DepsFirst-concat [] result m s.first (rw s.listed at met);
        given = λ c h. elim ((Memᴰ-concat c m result).0 h) [
          | inl old ↦ s.given c old
          | inr e ↦ rw e mem
        ];
      }

  -- The loop ends, without a panic, in a state whose queue is empty.
  pub drain_ends :
      (fuel : ℕ) (done queue : List Text) (d : HashMap ℕ) (result : List ModuleConfig)
      → State done queue d result
      → total d + length queue ≤ fuel
      → (out : List ModuleConfig) × (d' : HashMap ℕ) × (drain
            (module_map ms [])
            (dependents ms [])
            fuel
            d
            queue
            result
          ≡ (some out, true))
        × State (after [] out) [] d' out
  unfolding drain
  drain_ends zero done [] d result s w = (result, d, refl, rw s.listed at s)
  drain_ends zero done (x ∷ queue) d result s w = absurd (omega (arith, w))
  drain_ends (suc fuel) done [] d result s w = (result, d, refl, rw s.listed at s)
  drain_ends (suc fuel) done (x ∷ queue) d result s w =
      let (m, e, mem, name) = found x done queue d result s in
      let (out, r) = fine x done queue d result s in
      let queue' = queue ++ sort_by text_le out.1 in
      let small : total out.0 + length queue' ≤ fuel = omega (
        arith,
        w,
        release-total (behind x) d out r,
        length-append queue (sort_by text_le out.1),
        length-sort_by text_le out.1,
      ) in
      let (last, d', f, t) =
        drain_ends fuel (x ∷ done) queue' out.0 (result ++ m ∷ [])
          (State-next x done queue d result s m out mem name r) small in
      (last, d', rw (drain, e, r) f, t)
