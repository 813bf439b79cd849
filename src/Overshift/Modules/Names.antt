-- ===== src/Overshift/Modules/Names.antt =====
-- The names of modules, how often they stand, and lists of equally many.
use mathlib.Core.List.{Memᴰ}
use mathlib.Core.List.Memᴰ
use surql_parser.Prelude.{
  suc, ◌+◌, ◌≤◌, true, List, [], ◌∷◌, if◌then◌else◌, length, Text, text_eq, text_eq_iff,
  text_eq_refl, ◌≡◌, refl, sym, ap, ◌∙◌, arith, Bool-cases, inl, inr,
}
use surql_parser.Overshift.Modules.{ModuleConfig}
use surql_parser.Overshift.Modules.Counts.{is, count, is_named}
use surql_parser.Overshift.Modules.Correct.{names}

-- Names and members.
pub is_named-mem :
    (n : Text) (cs : List ModuleConfig)
    → is_named cs n ≡ true
    → (c : ModuleConfig) × Memᴰ c cs × (c.name ≡ n)
is_named-mem n [] h = cc
is_named-mem n (c ∷ cs) h = elim (Bool-cases (text_eq n c.name)) [
  | inl e ↦ (c, Memᴰ.head refl, sym ((text_eq_iff n c.name).0 e))
  | inr e ↦ let (d, m, q) = is_named-mem n cs (ground arith) in (d, Memᴰ.tail m, q)
]

pub mem-is_named :
    (c : ModuleConfig) (cs : List ModuleConfig) → Memᴰ c cs → is_named cs c.name ≡ true
mem-is_named c [] m = absurd (Memᴰ.not-nil m)
mem-is_named c (d ∷ cs) m = elim (Memᴰ.cases_cons m) [
  | inl e ↦
      let t : text_eq c.name d.name ≡ true = (text_eq_iff c.name d.name).1 (ap (λ x. x.name) e) in
      ground arith
  | inr r ↦ ground (arith, mem-is_named c cs r)
]

pub is_named-count :
    (n : Text) (cs : List ModuleConfig) → is_named cs n ≡ true → 1 ≤ count n (names cs)
is_named-count n [] h = cc
is_named-count n (c ∷ cs) h = ground (arith, is_named-count n cs)

pub count-is_named :
    (n : Text) (cs : List ModuleConfig) → 1 ≤ count n (names cs) → is_named cs n ≡ true
count-is_named n [] h = absurd (omega (arith, h))
count-is_named n (c ∷ cs) h = ground (arith, count-is_named n cs)

-- Where no name stands twice, a name has one module.
pub same_module :
    (cs : List ModuleConfig)
    → ((n : Text) → count n (names cs) ≤ 1)
    → (c d : ModuleConfig) → Memᴰ c cs
    → Memᴰ d cs
    → c.name ≡ d.name
    → c ≡ d
same_module [] u c d m k e = absurd (Memᴰ.not-nil m)
same_module (b ∷ cs) u c d m k e =
    let self : is b.name b.name ≡ 1 = rw (text_eq_refl b.name) in
    let once : (x : ModuleConfig) → Memᴰ x cs → x.name ≡ b.name → ⊥ = λ x mx ex. absurd (
      omega (
        arith,
        u b.name,
        self,
        is_named-count b.name cs (ap (is_named cs) (sym ex) ∙ mem-is_named x cs mx),
      )) in
    elim (Memᴰ.cases_cons m) [
      | inl a ↦ elim (Memᴰ.cases_cons k) [
        | inl b' ↦ a ∙ sym b'
        | inr r ↦ absurd (once d r (sym e ∙ ap (λ x. x.name) a))
      ]
      | inr q ↦ elim (Memᴰ.cases_cons k) [
        | inl b' ↦ absurd (once c q (e ∙ ap (λ x. x.name) b'))
        | inr r ↦ same_module cs (λ n. omega (arith, u n)) c d q r e
      ]
    ]

-- Lists that have each name equally often have equal lengths.
abbrev remove : Text → List Text → List Text
remove x [] = []
remove x (y ∷ ys) = if text_eq x y then ys else y ∷ remove x ys

count-remove :
    (n x : Text) (ys : List Text) → 1 ≤ count x ys → count n (remove x ys) + is n x ≡ count n ys
count-remove n x [] h = absurd (omega (arith, h))
count-remove n x (y ∷ ys) h =
    ground (arith, text_eq_iff x y, text_eq_iff n y, text_eq_iff n x, count-remove n x ys)

length-remove :
    (x : Text) (ys : List Text) → 1 ≤ count x ys → suc (length (remove x ys)) ≡ length ys
length-remove x [] h = absurd (omega (arith, h))
length-remove x (y ∷ ys) h = ground (arith, length-remove x ys)

pub count-length :
    (xs ys : List Text) → ((n : Text) → count n xs ≡ count n ys) → length xs ≡ length ys
count-length [] [] h = refl
count-length [] (y ∷ ys) h =
    let self : is y y ≡ 1 = rw (text_eq_refl y) in absurd (omega (arith, h y, self))
count-length (x ∷ xs) ys h =
    let self : is x x ≡ 1 = rw (text_eq_refl x) in
    let some_x : 1 ≤ count x ys = omega (arith, h x, self) in
    omega (
      arith,
      length-remove x ys some_x,
      count-length xs (remove x ys) (λ n. omega (arith, h n, count-remove n x ys some_x)),
    )
