-- ===== src/Schema/Reach/Ends.antt =====
-- The search of `tables_reachable_from` ends within its fuel.
use mathlib.Core.List.{Memᴰ}
use mathlib.Core.List.Memᴰ
use surql_parser.Prelude.{
  ℕ, zero, suc, ◌+◌, ◌≤◌, ◌<◌, false, not, some, List, [], ◌∷◌, leb, length, length-append, keep,
  Text, text_eq, text_eq_refl, ◌≡◌, inl, inr, refl, ap, arith, Bool-cases, Option-cases, List-cases,
}
use surql_parser.Prelude.HashMap.{HashMap, lookup}
use surql_parser.Prelude.SortedSet.{contains}
use surql_parser.Schema.Model.{SchemaGraph, TableDef}
use surql_parser.Schema.Links.{links, links_of}
use surql_parser.Schema.Reach.{
  Hop, Search, hop, offer, offer_all, expand, search, all_links, start_search,
}

-- The links that do not lead to a visited table yet.
abbrev unseen : List Text → List (Text × Text) → ℕ
unseen visited ls = length (keep (λ l. not (contains visited l.1)) ls)

unseen-visit :
    (v : Text) (visited : List Text) (ls : List (Text × Text))
    → unseen (v ∷ visited) ls ≤ unseen visited ls
unseen-visit v visited [] = omega arith
unseen-visit v visited (l ∷ ls) = ground (arith, unseen-visit v visited ls)

unseen-visit-lt :
    (l : Text × Text) (visited : List Text) (ls : List (Text × Text))
    → Memᴰ l ls
    → contains visited l.1 ≡ false
    → unseen (l.1 ∷ visited) ls < unseen visited ls
unseen-visit-lt l visited [] m e = absurd (Memᴰ.not-nil m)
unseen-visit-lt l visited (k ∷ ls) m e = elim (Memᴰ.cases_cons m) [
  | inl q ↦ ground (
    arith,
    ap (λ j. contains visited j.1) q,
    ap (λ j. text_eq j.1 l.1) q,
    text_eq_refl l.1,
    unseen-visit l.1 visited ls,
  )
  | inr r ↦ ground (arith, unseen-visit-lt l visited ls r e)
]

unseen_bound : (visited : List Text) (ls : List (Text × Text)) → unseen visited ls ≤ length ls
unseen_bound visited [] = omega arith
unseen_bound visited (l ∷ ls) = ground (arith, unseen_bound visited ls)

mem-all_links :
    (ts : HashMap TableDef) (name : Text) (t : TableDef)
    → lookup name ts ≡ some t
    → (l : Text × Text) → Memᴰ l (links t.fields)
    → Memᴰ l (all_links ts)
unfolding lookup
mem-all_links [] name t e l m = cc
mem-all_links ((k, u) ∷ ts) name t e l m = elim (Bool-cases (text_eq name k)) [
  | inl q ↦ let same : u ≡ t = ground arith in Memᴰ.append_left {s = links u.fields} _ (rw same m)
  | inr q ↦ Memᴰ.append_right (links u.fields) (mem-all_links ts name t (ground arith) l m)
]

mem-links_of :
    (g : SchemaGraph) (name : Text) (l : Text × Text)
    → Memᴰ l (links_of g name)
    → Memᴰ l (all_links g.tables)
mem-links_of g name l m = elim (Option-cases (lookup name g.tables)) [
  | inl e ↦ absurd (Memᴰ.not-nil (rw (e, links_of) at m))
  | inr (t, e) ↦ mem-all_links g.tables name t e l (rw (e, links_of) at m)
]

module _ (g : SchemaGraph) where
  abbrev work : Search → ℕ
  work s = unseen s.visited (all_links g.tables) + length s.queue

  offer-work :
      (h : Hop) (s : Search) (l : Text × Text)
      → Memᴰ l (all_links g.tables)
      → work (offer h s l) ≤ work s
  unfolding offer
  offer-work h s l m = elim (Bool-cases (contains s.visited l.1)) [
    | inl e ↦ rw e (omega arith)
    | inr e ↦ rw e (
        omega (
          arith,
          unseen-visit-lt l s.visited (all_links g.tables) m e,
          length-append s.queue (hop h l ∷ []),
        ))
  ]

  offer_all-work :
      (h : Hop) (s : Search) (ls : List (Text × Text))
      → ((l : Text × Text) → Memᴰ l ls → Memᴰ l (all_links g.tables))
      → work (offer_all h s ls) ≤ work s
  unfolding offer_all
  offer_all-work h s [] m = omega arith
  offer_all-work h s (l ∷ ls) m = omega (
    arith,
    offer-work h s l (m l (Memᴰ.head refl)),
    offer_all-work h (offer h s l) ls (λ x n. m x (Memᴰ.tail n)),
  )

  expand-work : (max : ℕ) (h : Hop) (s : Search) → work (expand g max h s) ≤ work s
  unfolding expand
  expand-work max h s = elim (Bool-cases (leb max h.depth)) [
    | inl e ↦ rw e (omega arith)
    | inr e ↦ rw e (offer_all-work h s (links_of g h.target) (mem-links_of g h.target))
  ]

  search_ends :
      (max fuel : ℕ) (s : Search) → work s ≤ fuel → (t : Search) × (search g max fuel s ≡ some t)
  unfolding search
  search_ends max zero s w = elim (List-cases s.queue) [
    | inl e ↦ (s, rw e)
    | inr (h, rest, e) ↦ absurd (omega (arith, ap length e))
  ]
  search_ends max (suc fuel) s w = elim (List-cases s.queue) [
    | inl e ↦ (s, rw e)
    | inr (h, rest, e) ↦
        let next = record s { queue = rest } in
        let (t, q) =
          search_ends max fuel (expand g max h next)
            (omega (arith, ap length e, expand-work max h next)) in
        (t, rw e q)
  ]

  pub search_returns :
      (start : Text) (max : ℕ)
      → (t : Search) × (search g max (suc (length (all_links g.tables))) (start_search start)
          ≡ some t)
  search_returns start max =
      search_ends max (suc (length (all_links g.tables))) (start_search start)
        (omega (arith, unseen_bound (start ∷ []) (all_links g.tables)))
