-- ===== src/Federation/Found.antt =====
-- The search ends and answers with the walks: _bounded_paths of src/codekg/federation.py.
use my_kg_codebase.Prelude.{
  ℕ, zero, suc, ◌≤◌, ◌<◌, ◌≡◌, refl, sym, ◌∙◌, subst, Bool, true, false, ◌||◌, inl, inr, List, [],
  ◌∷◌, ◌++◌, length, leb, arith, Bool-cases,
}
use my_kg_codebase.Prelude.Text.{Text, text_eq}
use my_kg_codebase.Prelude.Dict.{lookup}
use my_kg_codebase.Federation.Session.{Page, Catalog, Clock, Session, Action, ◌>>=◌, query}
use my_kg_codebase.Federation.Paths.{
  Trail, Route, Answer, route_of, offer_edges, must_stop, visiting, paths_from, first_trail, fresh,
  bounded_paths,
}
use my_kg_codebase.Federation.Sound.{
  HasFacts, Keeps, Yields, Yields-and_then, Yields-weaken, query-Yields,
}
use my_kg_codebase.Federation.Extend.{Counts, offer_edges-Yields}
use my_kg_codebase.Federation.Search.{Walk, here, next_trails, IsAnswer, AreAll-Closed}
use my_kg_codebase.Federation.Holds.{
  InBudget, HasShortPages, Holds, must_stop-false, Holds-arrived, Holds-deep, Holds-followed,
}

abbrev Finds : Catalog → Text → Text → ℕ → Answer → Session → Type 0
Finds catalog start target max_depth answer t =
    IsAnswer catalog start target max_depth answer × HasFacts catalog t × InBudget t

module _ (catalog : Catalog) (clock : Clock) (start target : Text) (max_depth : ℕ) where
  -- The page of a trail, and the loop over its edges.
  followed-Yields :
      HasShortPages catalog
      → (queue : List Trail) (trail : Trail) (s : Session) (Q : Answer → Session → Type 0)
        (rest : Page → List Trail → Action Answer)
      → HasFacts catalog s
      → InBudget s
      → s.edges < 10000
      → ((page : Page) (t : Session)
          → page ≡ catalog.neighbors trail.node
          → HasFacts catalog t
          → InBudget t
          → t.visited ≡ s.visited
          → Yields clock Q (rest page (queue ++ next_trails catalog trail) t))
      → Yields clock Q (
          (query clock (catalog.neighbors trail.node) >>= λ page.
          offer_edges catalog clock trail page.items queue >>= λ longer. rest page longer)
            s)
  followed-Yields short queue trail s Q rest facts budget edges go =
      let page = catalog.neighbors trail.node in
      Yields-and_then clock (λ a t. (a ≡ page) × Keeps catalog s t × (t.facts ≡ s.facts)) Q
        (query clock page s)
        (λ page. offer_edges catalog clock trail page.items queue >>= λ longer. rest page longer)
        (query-Yields catalog clock page s facts)
        (λ a t p.
          subst
            (λ b.
              Yields clock Q
                ((offer_edges catalog clock trail b.items queue >>= λ longer. rest b longer) t))
            (sym p.0)
            (Yields-and_then clock
              (λ longer u.
                (longer ≡ queue ++ next_trails catalog trail)
                × Counts catalog clock trail t (length page.items) u)
              Q (offer_edges catalog clock trail page.items queue t) (λ longer. rest page longer)
              (offer_edges-Yields catalog clock trail page.items queue t p.1.0)
              (λ longer u q.
                subst (λ l. Yields clock Q (rest page l u)) (sym q.0)
                  (go page u refl q.1.0
                    (
                      omega (arith, q.1.1, p.1.1, budget),
                      omega (arith, q.1.2, p.1.2, edges, short trail.node),
                    )
                    (q.1.1 ∙ p.1.1)))))

  paths_from-Finds :
      HasShortPages catalog
      → (rounds : ℕ) (done queue : List Trail) (paths : List Route) (truncated : Bool) (s : Session)
      → Holds catalog start target max_depth rounds done queue paths truncated s
      → Yields clock
          (Finds catalog start target max_depth)
          (paths_from catalog clock target max_depth rounds queue paths truncated s)
  unfolding paths_from
  paths_from-Finds short zero done queue paths truncated s h = absurd (omega (arith, h.some_left))
  paths_from-Finds short (suc rounds) done [] paths truncated s h = (
    (h.routes, h.few, λ t. AreAll-Closed catalog start target done paths (h.closed t)),
    h.facts,
    h.budget,
  )
  paths_from-Finds short (suc rounds) done (trail ∷ queue) paths truncated s h =
      let stopped : Finds catalog start target max_depth (paths, true) s =
        ((h.routes, h.few, λ t. absurd (ground (arith, t))), h.facts, h.budget) in
      elim (Bool-cases (leb 5 (length paths))) [
        | inl full ↦ rw (paths_from, full) stopped
        | inr room ↦ elim (Bool-cases (must_stop clock s)) [
          | inl stops ↦ rw (paths_from, room, stops) stopped
          | inr goes ↦
              let (visits, edges) = must_stop-false clock s goes in
              elim (Bool-cases (text_eq trail.node target)) [
                | inl at_target ↦
                    rw (paths_from, room, goes, at_target)
                      (paths_from-Finds short rounds (trail ∷ done) queue
                        (paths ++ route_of trail ∷ []) truncated (visiting s)
                        (Holds-arrived catalog clock start target max_depth rounds done queue paths
                          trail truncated s h visits at_target room))
                | inr elsewhere ↦ elim (Bool-cases (leb max_depth (length trail.steps))) [
                  | inl deep ↦
                      rw (paths_from, room, goes, elsewhere, deep)
                        (paths_from-Finds short rounds done queue paths true (visiting s) (
                          Holds-deep catalog clock start target max_depth rounds done queue paths
                            trail truncated s h visits))
                  | inr shallow ↦
                      rw (paths_from, room, goes, elsewhere, shallow)
                        (followed-Yields short queue trail (visiting s)
                          (Finds catalog start target max_depth)
                          (λ page longer.
                            paths_from catalog clock target max_depth rounds longer paths
                              (truncated || page.truncated))
                          h.facts (omega (arith, visits), h.budget.1) edges
                          (λ page t same facts budget visited.
                            paths_from-Finds short rounds (trail ∷ done)
                              (queue ++ next_trails catalog trail) paths
                              (truncated || page.truncated) t
                              (Holds-followed catalog clock start target max_depth rounds done queue
                                paths trail truncated s h visits page.truncated t elsewhere shallow
                                facts budget visited)))
                ]
              ]
        ]
      ]

  bounded_paths-Finds :
      HasShortPages catalog
      → (s : Session) → InBudget s
      → Yields clock
          (Finds catalog start target max_depth)
          (bounded_paths catalog clock start target max_depth s)
  unfolding bounded_paths lookup
  bounded_paths-Finds short s budget =
      paths_from-Finds short 1001 [] (first_trail start ∷ []) [] false (fresh s) (record {
        facts = λ key fact found. absurd (ground (arith, found));
        budget = budget;
        some_left = omega arith;
        enough = omega arith;
        within = λ w o. elim o [
          | inl same ↦
              subst (λ v. Walk catalog start target v × (length v.steps ≤ max_depth)) (sym same)
                (here, omega arith)
          | inr p ↦ absurd p
        ];
        routes = λ route o. absurd o;
        few = omega arith;
        closed = λ e. record {
          started = inl (inl refl);
          arrived = λ w o. absurd o;
          followed = λ w o. absurd o;
        };
      })

-- For every catalog whose pages have at most 100 edges, start, target and depth, and a budget that
-- is not overdrawn: `_bounded_paths` ends, and with the deadline only if the clock says so.
-- Otherwise it gives at most five paths, each from the start to the target over allowed edges,
-- without a node twice and of at most max_depth edges; and if it does not say that it is truncated,
-- it gives every such path, of any length. The visits stay within 1000, the edges within 10099.
pub bounded_paths-IsAnswer :
    (catalog : Catalog) (clock : Clock) (start target : Text) (max_depth : ℕ)
    → HasShortPages catalog
    → (s : Session) → InBudget s
    → Yields clock
        (λ answer t. IsAnswer catalog start target max_depth answer × InBudget t)
        (bounded_paths catalog clock start target max_depth s)
bounded_paths-IsAnswer catalog clock start target max_depth short s budget =
    Yields-weaken clock (Finds catalog start target max_depth)
      (λ answer t. IsAnswer catalog start target max_depth answer × InBudget t)
      (bounded_paths catalog clock start target max_depth s) (λ answer t p. (p.0, p.2))
      (bounded_paths-Finds catalog clock start target max_depth short s budget)
