-- ===== src/Schema/Reach/Rounds.antt =====
-- The inner loop of `tables_reachable_from`: what offering the links of one table keeps.
use mathlib.Core.List.{Memᴰ}
use mathlib.Core.List.Memᴰ
use surql_parser.Prelude.{
  ℕ, suc, ◌≤◌, ◌<◌, true, false, List, [], ◌∷◌, ◌++◌, Text, text_eq, text_eq_iff, text_eq_refl, ◌≡◌,
  ◌≢◌, ◌⊎◌, ◌↔◌, inl, inr, refl, sym, ap, ◌∙◌, arith, Bool-cases,
}
use surql_parser.Prelude.SortedSet.{contains}
use surql_parser.Prelude.Sorting.{Memᴰ-cons, Memᴰ-concat}
use surql_parser.Schema.Model.{SchemaGraph}
use surql_parser.Schema.Links.{links_of}
use surql_parser.Schema.Reach.{Hop, Search, segment, hop, root, offer, offer_all}

-- The walks from a table along links, with their segments and their length.
pub data Walk (g : SchemaGraph) (start : Text) : List Text → ℕ → Text → Type 0 where
  here : Walk g start [] 0 start
  along :
      {p : List Text} {n : ℕ} {u : Text} (l : Text × Text)
      → Walk g start p n u
      → Memᴰ l (links_of g u)
      → Walk g start (p ++ segment u l.0 ∷ []) (suc n) l.1

-- The hops found so far, the start's included.
abbrev pub known : Text → Search → List Hop
known start s = root start ∷ s.results

-- No hop of the first list is behind one of the second.
abbrev pub Ascending : List Hop → Type 0
Ascending [] = Unit
Ascending (h ∷ q) = ((k : Hop) → Memᴰ k q → h.depth ≤ k.depth) × Ascending q

module _ (g : SchemaGraph) (start : Text) (max : ℕ) where
  -- A hop whose links all lead to known hops, at most one deeper.
  abbrev pub Closed : Search → Hop → Type 0
  Closed s k =
      (l : Text × Text)
      → Memᴰ l (links_of g k.target)
      → (j : Hop) × Memᴰ j (known start s) × (j.target ≡ l.1) × (j.depth ≤ suc k.depth)

  pub record IsSearch (s : Search) : Type 0 where
    pub seen :
        (v : Text)
        → contains s.visited v ≡ true
        → (k : Hop) × Memᴰ k (known start s) × (k.target ≡ v)
    pub start_seen : contains s.visited start ≡ true
    pub queued : (k : Hop) → Memᴰ k s.queue → Memᴰ k (known start s)
    pub sound : (k : Hop) → Memᴰ k (known start s) → Walk g start k.path k.depth k.target
    pub within : (k : Hop) → Memᴰ k (known start s) → k.depth ≤ max
    pub fresh : (k : Hop) → Memᴰ k s.results → k.target ≢ start
    pub ascending : Ascending s.queue
    pub counted : (k : Hop) → Memᴰ k (known start s) → contains s.visited k.target ≡ true
    pub unique :
        (k j : Hop) → Memᴰ k (known start s) → Memᴰ j (known start s) → k.target ≡ j.target → k ≡ j

  -- In the round of the hop `h`.
  pub record Round (h : Hop) (s : Search) : Type 0 where
    pub search : IsSearch s
    pub low : (k : Hop) → Memᴰ k s.queue → h.depth ≤ k.depth
    pub high : (k : Hop) → Memᴰ k (known start s) → k.depth ≤ suc h.depth
    pub closed :
        (k : Hop) → Memᴰ k (known start s) → k.depth < max → (k ≡ h) ⊎ (Memᴰ k s.queue ⊎ Closed s k)

  Ascending-concat :
      (q : List Hop) (n : Hop)
      → Ascending q
      → ((k : Hop) → Memᴰ k q → k.depth ≤ n.depth)
      → Ascending (q ++ n ∷ [])
  Ascending-concat [] n a b = (λ k m. absurd (Memᴰ.not-nil m), tt)
  Ascending-concat (h ∷ q) n a b = (
    λ k m. elim ((Memᴰ-concat k n q).0 m) [
      | inl old ↦ a.0 k old
      | inr e ↦ rw e (b h (Memᴰ.head refl))
    ],
    Ascending-concat q n a.1 (λ k m. b k (Memᴰ.tail m)),
  )

  module _ (h : Hop) (s : Search) (l : Text × Text) where
    found : Search
    found = record {
      results = s.results ++ hop h l ∷ [];
      queue = s.queue ++ hop h l ∷ [];
      visited = l.1 ∷ s.visited;
    }

    offer-found : contains s.visited l.1 ≡ false → offer h s l ≡ found
    unfolding offer found
    offer-found e = rw e

    offer-old_visited : contains s.visited l.1 ≡ true → offer h s l ≡ s
    unfolding offer
    offer-old_visited e = rw e

    mem-known : (k : Hop) → Memᴰ k (known start found) ↔ (Memᴰ k (known start s) ⊎ (k ≡ hop h l))
    unfolding found
    mem-known k = Memᴰ-concat k (hop h l) (known start s)

    mem-queue : (k : Hop) → Memᴰ k found.queue ↔ (Memᴰ k s.queue ⊎ (k ≡ hop h l))
    unfolding found
    mem-queue k = Memᴰ-concat k (hop h l) s.queue

    mem-results : (k : Hop) → Memᴰ k found.results ↔ (Memᴰ k s.results ⊎ (k ≡ hop h l))
    unfolding found
    mem-results k = Memᴰ-concat k (hop h l) s.results

    module _ (r : Round h s) (here_known : Memᴰ h (known start s)) (room : h.depth < max)
        (is_link : Memᴰ l (links_of g h.target)) (new : contains s.visited l.1 ≡ false) where
      seen' :
          (v : Text)
          → contains found.visited v ≡ true
          → (k : Hop) × Memᴰ k (known start found) × (k.target ≡ v)
      unfolding found
      seen' v e = elim (Bool-cases (text_eq v l.1)) [
        | inl t ↦ (hop h l, (mem-known (hop h l)).1 (inr refl), sym ((text_eq_iff v l.1).0 t))
        | inr t ↦ let (k, m, q) = r.search.seen v (ground arith) in (k, (mem-known k).1 (inl m), q)
      ]

      not_start : (k : Hop) → k ≡ hop h l → k.target ≢ start
      not_start k e q =
          let same : l.1 ≡ start = sym (ap (λ j. j.target) e) ∙ q in
          cc (ap (contains s.visited) same, r.search.start_seen, new)

      -- A known hop leads elsewhere than the new one.
      not_new : (k : Hop) → Memᴰ k (known start s) → k.target ≢ l.1
      not_new k m q = cc (ap (contains s.visited) q, r.search.counted k m, new)

      unique' :
          (k j : Hop)
          → Memᴰ k (known start found)
          → Memᴰ j (known start found)
          → k.target ≡ j.target
          → k ≡ j
      unique' k j mk mj q = elim ((mem-known k).0 mk) [
        | inl a ↦ elim ((mem-known j).0 mj) [
          | inl b ↦ r.search.unique k j a b q
          | inr b ↦ absurd (not_new k a (q ∙ ap (λ x. x.target) b))
        ]
        | inr a ↦ elim ((mem-known j).0 mj) [
          | inl b ↦ absurd (not_new j b (sym q ∙ ap (λ x. x.target) a))
          | inr b ↦ a ∙ sym b
        ]
      ]

      found-IsSearch : IsSearch found
      unfolding found
      found-IsSearch = record {
        seen = seen';
        start_seen = ground (arith, r.search.start_seen);
        queued = λ k m. ground (arith, mem-known k, mem-queue k, r.search.queued k);
        sound = λ k m. elim ((mem-known k).0 m) [
          | inl old ↦ r.search.sound k old
          | inr e ↦ rw e (along l (r.search.sound h here_known) is_link)
        ];
        within = λ k m. elim ((mem-known k).0 m) [
          | inl old ↦ r.search.within k old
          | inr e ↦ rw e (omega (arith, room))
        ];
        fresh = λ k m. elim ((mem-results k).0 m) [
          | inl old ↦ r.search.fresh k old
          | inr e ↦ not_start k e
        ];
        ascending =
            Ascending-concat s.queue (hop h l) r.search.ascending
              (λ k m. r.high k (r.search.queued k m));
        counted = λ k m. elim ((mem-known k).0 m) [
          | inl old ↦ ground (arith, r.search.counted k old)
          | inr e ↦ rw (e, text_eq_refl l.1) refl
        ];
        unique = unique';
      }

      found-Round : Round h found
      found-Round = record {
        search = found-IsSearch;
        low =
            λ k m. elim ((mem-queue k).0 m) [ inl old ↦ r.low k old | inr e ↦ rw e (omega arith) ];
        high =
            λ k m. elim ((mem-known k).0 m) [ inl old ↦ r.high k old | inr e ↦ rw e (omega arith) ];
        closed = λ k m lt. elim ((mem-known k).0 m) [
          | inr e ↦ inr (inl ((mem-queue k).1 (inr e)))
          | inl old ↦ elim (r.closed k old lt) [
            | inl same ↦ inl same
            | inr (inl waiting) ↦ inr (inl ((mem-queue k).1 (inl waiting)))
            | inr (inr done) ↦
                inr
                  (inr (λ x y. let (j, mj, t, d) = done x y in (j, (mem-known j).1 (inl mj), t, d)))
          ]
        ];
      }

  -- What offering links gives: the round goes on, nothing known or visited is lost, and the links are
  -- visited.
  pub record Offered (h : Hop) (s t : Search) (ls : List (Text × Text)) : Type 0 where
    pub round : Round h t
    pub still : (k : Hop) → Memᴰ k (known start s) → Memᴰ k (known start t)
    pub seen_still : (v : Text) → contains s.visited v ≡ true → contains t.visited v ≡ true
    pub offered : (l : Text × Text) → Memᴰ l ls → contains t.visited l.1 ≡ true

  offer-Offered :
      (h : Hop) (s : Search) (l : Text × Text)
      → Round h s
      → Memᴰ h (known start s)
      → h.depth < max
      → Memᴰ l (links_of g h.target)
      → Offered h s (offer h s l) (l ∷ [])
  unfolding found
  offer-Offered h s l r m room link = elim (Bool-cases (contains s.visited l.1)) [
    | inl e ↦ rw (offer-old_visited h s l e) (record {
      round = r;
      still = λ k n. n;
      seen_still = λ v n. n;
      offered = λ x n. rw (Memᴰ.eq_of_singleton n) e;
    })
    | inr e ↦ rw (offer-found h s l e) (record {
      round = found-Round h s l r m room link e;
      still = λ k n. (mem-known h s l k).1 (inl n);
      seen_still = λ v n. ground (arith, n);
      offered = λ x n. rw (Memᴰ.eq_of_singleton n, text_eq_refl l.1) refl;
    })
  ]

  pub offer_all-Offered :
      (h : Hop) (s : Search) (ls : List (Text × Text))
      → Round h s
      → Memᴰ h (known start s)
      → h.depth < max
      → ((l : Text × Text) → Memᴰ l ls → Memᴰ l (links_of g h.target))
      → Offered h s (offer_all h s ls) ls
  unfolding offer_all
  offer_all-Offered h s [] r m room link = record {
    round = r;
    still = λ k n. n;
    seen_still = λ v n. n;
    offered = λ x n. absurd (Memᴰ.not-nil n);
  }
  offer_all-Offered h s (l ∷ ls) r m room link =
      let one = offer-Offered h s l r m room (link l (Memᴰ.head refl)) in
      let rest =
        offer_all-Offered h (offer h s l) ls one.round (one.still h m) room
          (λ x n. link x (Memᴰ.tail n)) in
      record {
        round = rest.round;
        still = λ k n. rest.still k (one.still k n);
        seen_still = λ v n. rest.seen_still v (one.seen_still v n);
        offered = λ x n. elim ((Memᴰ-cons x l ls).0 n) [
          | inl e ↦ rest.seen_still x.1 (one.offered x (Memᴰ.head e))
          | inr t ↦ rest.offered x t
        ];
      }
