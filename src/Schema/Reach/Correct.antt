-- ===== src/Schema/Reach/Correct.antt =====
-- `tables_reachable_from` finds exactly what walks of the given length reach, each at its distance.
use mathlib.Core.List.{Memᴰ}
use mathlib.Core.List.Memᴰ
use surql_parser.Prelude.{
  ℕ, zero, suc, ◌≤◌, ◌<◌, true, false, some, List, [], ◌∷◌, leb, leb→le, length, Text, text_eq_iff,
  text_eq_refl, ◌≡◌, ◌≢◌, ◌⊎◌, ◌↔◌, inl, inr, refl, sym, ap, ◌∙◌, arith, Bool-cases, List-cases,
}
use surql_parser.Prelude.HashMap.{has_key, lookup-none}
use surql_parser.Prelude.Sorting.{Memᴰ-cons, Memᴰ-sort_by, sort_by}
use surql_parser.Schema.Model.{SchemaGraph}
use surql_parser.Schema.Links.{links_of}
use surql_parser.Schema.Reach.{
  Hop, Search, root, offer_all, expand, search, start_search, hop_le, all_links,
  tables_reachable_from,
}
use surql_parser.Schema.Reach.Ends.{search_returns}
use surql_parser.Schema.Reach.Rounds.{
  Walk, here, along, known, Ascending, Closed, IsSearch, Round, Offered, offer_all-Offered,
}

module _ (g : SchemaGraph) (start : Text) (max : ℕ) where
  record Between (s : Search) : Type 0 where
    searching : IsSearch g start max s
    bounded : (h k : Hop) → Memᴰ h s.queue → Memᴰ k (known start s) → k.depth ≤ suc h.depth
    closed :
        (k : Hop) → Memᴰ k (known start s) → k.depth < max → Memᴰ k s.queue ⊎ Closed g start max s k

  abbrev popped : Search → List Hop → Search
  popped s rest = record s { queue = rest }

  module _ (s : Search) (h : Hop) (rest : List Hop) (q : s.queue ≡ h ∷ rest) (b : Between s) where
    in_queue : (k : Hop) → Memᴰ k s.queue ↔ ((k ≡ h) ⊎ Memᴰ k rest)
    in_queue k = rw q (Memᴰ-cons k h rest)

    rising : Ascending (h ∷ rest)
    rising = rw q at b.searching.ascending

    h_known : Memᴰ h (known start s)
    h_known = b.searching.queued h ((in_queue h).1 (inl refl))

    Round-start : Round g start max h (popped s rest)
    Round-start = record {
      search = record {
        seen = b.searching.seen;
        start_seen = b.searching.start_seen;
        queued = λ k m. b.searching.queued k ((in_queue k).1 (inr m));
        sound = b.searching.sound;
        within = b.searching.within;
        fresh = b.searching.fresh;
        ascending = rising.1;
        counted = b.searching.counted;
        unique = b.searching.unique;
      };
      low = rising.0;
      high = λ k m. b.bounded h k ((in_queue h).1 (inl refl)) m;
      closed = λ k m lt. elim (b.closed k m lt) [
        | inr c ↦ inr (inr c)
        | inl waiting ↦ elim ((in_queue k).0 waiting) [ inl e ↦ inl e | inr r ↦ inr (inl r) ]
      ];
    }

    Between-idle : max ≤ h.depth → Between (popped s rest)
    Between-idle le = record {
      searching = Round-start.search;
      bounded = λ j k mj mk. omega (arith, rising.0 j mj, Round-start.high k mk);
      closed = λ k m lt. elim (Round-start.closed k m lt) [
        | inl e ↦ absurd (omega (arith, ap (λ x. x.depth) e, le, lt))
        | inr r ↦ r
      ];
    }

    Between-Offered :
        (t : Search) → Offered g start max h (popped s rest) t (links_of g h.target) → Between t
    Between-Offered t o = record {
      searching = o.round.search;
      bounded = λ j k mj mk. omega (arith, o.round.low j mj, o.round.high k mk);
      closed = λ k m lt. elim (o.round.closed k m lt) [
        | inr r ↦ r
        | inl e ↦ inr (λ l ml.
            let (j, mj, tj) = o.round.search.seen l.1 (o.offered l (rw e at ml)) in
            (j, mj, tj, omega (arith, o.round.high j mj, ap (λ x. x.depth) e)))
      ];
    }

    Between-expand : Between (expand g max h (popped s rest))
    unfolding expand
    Between-expand = elim (Bool-cases (leb max h.depth)) [
      | inl e ↦ rw e (Between-idle (leb→le max h.depth e))
      | inr e ↦ rw e (
          Between-Offered (offer_all h (popped s rest) (links_of g h.target)) (
            offer_all-Offered g start max h (popped s rest) (links_of g h.target) Round-start
              h_known (ground arith) (λ l m. m)))
    ]

  search-Between :
      (fuel : ℕ) (s t : Search)
      → Between s
      → search g max fuel s ≡ some t
      → Between t × (t.queue ≡ [])
  unfolding search
  search-Between zero s t b h = elim (List-cases s.queue) [
    | inl e ↦ let same : s ≡ t = ground arith in rw (sym same) (b, e)
    | inr (k, rest, e) ↦ absurd (ground arith)
  ]
  search-Between (suc fuel) s t b h = elim (List-cases s.queue) [
    | inl e ↦ let same : s ≡ t = ground arith in rw (sym same) (b, e)
    | inr (k, rest, e) ↦
        search-Between fuel (expand g max k (popped s rest)) t (Between-expand s k rest e b)
          (rw (e, search) at h)
  ]

  Between-start : Between (start_search start)
  Between-start = record {
    searching = record {
      seen = λ v e. (root start, Memᴰ.head refl, sym ((text_eq_iff v start).0 (ground arith)));
      start_seen = rw (text_eq_refl start);
      queued = λ k m. m;
      sound = λ k m. rw (Memᴰ.eq_of_singleton m) here;
      within = λ k m. rw (Memᴰ.eq_of_singleton m) (omega arith);
      fresh = λ k m. absurd (Memᴰ.not-nil m);
      ascending = (λ k m. absurd (Memᴰ.not-nil m), tt);
      counted = λ k m. rw (Memᴰ.eq_of_singleton m, text_eq_refl start);
      unique = λ k j mk mj e. Memᴰ.eq_of_singleton mk ∙ sym (Memᴰ.eq_of_singleton mj);
    };
    bounded = λ h k mh mk. rw (Memᴰ.eq_of_singleton mk) (omega arith);
    closed = λ k m lt. inl m;
  }

  -- Where no hop waits, each walk leads to a hop no deeper than the walk is long.
  arrives :
      (s : Search)
      → Between s
      → s.queue ≡ []
      → (p : List Text) (n : ℕ) (v : Text) → Walk g start p n v
      → n ≤ max
      → (k : Hop) × Memᴰ k (known start s) × (k.target ≡ v) × (k.depth ≤ n)
  arrives s b q _ _ _ here le = (root start, Memᴰ.head refl, refl, omega arith)
  arrives s b q _ _ _ (along {p} {n} {u} l w link) le =
      let (k, m, t, d) = arrives s b q p n u w (omega (arith, le)) in
      elim (b.closed k m (omega (arith, d, le))) [
        | inl waiting ↦ absurd (Memᴰ.not-nil (rw q at waiting))
        | inr c ↦
            let (j, mj, tj, dj) = c l (rw (sym t) at link) in (j, mj, tj, omega (arith, d, dj))
      ]

  -- What the search leaves, put in order.
  finished :
      (hops : List Hop)
      → has_key start g.tables ≡ true
      → tables_reachable_from g start max ≡ some hops
      → (s : Search) × Between s × (s.queue ≡ []) × (hops ≡ sort_by hop_le s.results)
  unfolding tables_reachable_from
  finished hops e h =
      let (s, q) = search_returns g start max in
      let (b, empty) =
        search-Between (suc (length (all_links g.tables))) (start_search start) s Between-start q in
      let f = search g max (suc (length (all_links g.tables))) (start_search start) in
      (s, b, empty, ground (arith, q, h, e))

  no_hops :
      (hops : List Hop)
      → has_key start g.tables ≡ false
      → tables_reachable_from g start max ≡ some hops
      → hops ≡ []
  unfolding tables_reachable_from
  no_hops hops e h = ground arith

  -- Without the table no walk leaves the start.
  stuck :
      has_key start g.tables ≡ false
      → (p : List Text) (n : ℕ) (v : Text) → Walk g start p n v
      → v ≡ start
  stuck e _ _ _ here = refl
  stuck e _ _ _ (along {p} {n} {u} l w link) =
      absurd (Memᴰ.not-nil (rw (stuck e p n u w, links_of, lookup-none start g.tables e) at link))

-- The search of `tables_reachable_from` ends, whatever cycles the links have: it returns a list of
-- hops for every graph, start and depth.
pub tables_reachable_from_returns :
    (g : SchemaGraph) (start : Text) (max : ℕ)
    → (hops : List Hop) × (tables_reachable_from g start max ≡ some hops)
unfolding tables_reachable_from
tables_reachable_from_returns g start max =
    let (s, e) = search_returns g start max in
    elim (Bool-cases (has_key start g.tables)) [
      | inl k ↦ (sort_by hop_le s.results, rw (k, e))
      | inr k ↦ ([], rw k)
    ]

-- Each hop that `tables_reachable_from` returns is the end of a walk along links from the start, with
-- the returned path as its segments and the returned depth as its length. The depth is at most the
-- given one, no walk to the table is shorter, and the table is not the start.
pub tables_reachable_from_sound :
    (g : SchemaGraph) (start : Text) (max : ℕ) (hops : List Hop)
    → tables_reachable_from g start max ≡ some hops
    → (h : Hop) → Memᴰ h hops
    → Walk g start h.path h.depth h.target
      × (h.depth ≤ max)
      × ((p : List Text) (n : ℕ) → Walk g start p n h.target → h.depth ≤ n)
      × (h.target ≢ start)
tables_reachable_from_sound g start max hops e h m = elim (Bool-cases (has_key start g.tables)) [
  | inr k ↦ absurd (Memᴰ.not-nil (rw (no_hops g start max hops k e) at m))
  | inl k ↦
      let (s, b, empty, sorted) = finished g start max hops k e in
      let found : Memᴰ h s.results = (Memᴰ-sort_by hop_le h s.results).0 (rw sorted at m) in
      let old : Memᴰ h (known start s) = Memᴰ.tail found in
      (
        b.searching.sound h old,
        b.searching.within h old,
        λ p n w. elim (Bool-cases (leb n max)) [
          | inl le ↦
              let (j, mj, tj, dj) =
                arrives g start max s b empty p n h.target w (leb→le n max le) in
              omega (arith, dj, ap (λ x. x.depth) (b.searching.unique j h mj old tj))
          | inr gt ↦ let lt : max < n = ground arith in omega (arith, lt, b.searching.within h old)
        ],
        b.searching.fresh h found,
      )
]

-- Every table other than the start that a walk along links reaches within the given depth is among
-- the hops that `tables_reachable_from` returns.
pub tables_reachable_from_complete :
    (g : SchemaGraph) (start : Text) (max : ℕ) (hops : List Hop)
    → tables_reachable_from g start max ≡ some hops
    → (p : List Text) (n : ℕ) (v : Text) → Walk g start p n v
    → n ≤ max
    → v ≢ start
    → (h : Hop) × Memᴰ h hops × (h.target ≡ v)
tables_reachable_from_complete g start max hops e p n v w le other =
    elim (Bool-cases (has_key start g.tables)) [
      | inr k ↦ absurd (other (stuck g start max k p n v w))
      | inl k ↦
          let (s, b, empty, sorted) = finished g start max hops k e in
          let (h, m, t, d) = arrives g start max s b empty p n v w le in
          elim ((Memᴰ-cons h (root start) s.results).0 m) [
            | inl r ↦ absurd (other (sym t ∙ ap (λ x. x.target) r))
            | inr found ↦ (h, rw sorted ((Memᴰ-sort_by hop_le h s.results).1 found), t)
          ]
    ]
