-- ===== src/Federation/Search.antt =====
-- What the search finds: _bounded_paths of src/codekg/federation.py against the walks of the graph.
use my_kg_codebase.Prelude.{
  ℕ, ◌≤◌, ◌≡◌, ap, subst, true, false, ◌⊎◌, inl, inr, List, [], ◌∷◌, ◌++◌, append-nil, length,
  arith,
}
use my_kg_codebase.Prelude.Text.{Text, text_eq}
use my_kg_codebase.Prelude.Occurs.{Occurs, Occurs-left, Occurs-right}
use my_kg_codebase.Federation.Facts.{Edge}
use my_kg_codebase.Federation.Session.{Catalog}
use my_kg_codebase.Federation.Paths.{Trail, Route, Answer, extended, route_of, first_trail}
use my_kg_codebase.Federation.Extend.{lengthens, extensions, extensions_complete}

-- The walks from the start over allowed edges, without a node twice, which stop at the target.
pub data Walk (catalog : Catalog) (start target : Text) : Trail → Type 0 where
  here : Walk catalog start target (first_trail start)
  step :
      {trail : Trail}
      → Walk catalog start target trail
      → text_eq trail.node target ≡ false
      → (edge : Edge) → Occurs edge (catalog.neighbors trail.node).items
      → lengthens catalog trail edge ≡ true
      → Walk catalog start target (extended trail edge)

abbrev pub next_trails : Catalog → Trail → List Trail
next_trails catalog trail = extensions catalog trail (catalog.neighbors trail.node).items

abbrev pub Somewhere : List Trail → List Trail → Trail → Type 0
Somewhere done queue trail = Occurs trail queue ⊎ Occurs trail done

-- The trails that left the queue are `done`: each was a path or put its extensions in the queue.
pub record Closed (catalog : Catalog) (start target : Text) (done queue : List Trail)
    (paths : List Route) : Type 0 where
  pub started : Somewhere done queue (first_trail start)
  pub arrived :
      (trail : Trail)
      → Occurs trail done
      → text_eq trail.node target ≡ true
      → Occurs (route_of trail) paths
  pub followed :
      (trail : Trail)
      → Occurs trail done
      → text_eq trail.node target ≡ false
      → (longer : Trail) → Occurs longer (next_trails catalog trail)
      → Somewhere done queue longer

module _ (catalog : Catalog) (start target : Text) where
  -- The walk is one to the target.
  abbrev pub Arrives : Trail → Type 0
  Arrives trail = Walk catalog start target trail × (text_eq trail.node target ≡ true)

  abbrev pub Within : ℕ → List Trail → Type 0
  Within max_depth queue =
      (trail : Trail)
      → Occurs trail queue
      → Walk catalog start target trail × (length trail.steps ≤ max_depth)

  abbrev pub AreRoutes : ℕ → List Route → Type 0
  AreRoutes max_depth paths =
      (route : Route)
      → Occurs route paths
      → (trail : Trail) × Arrives trail
        × (length trail.steps ≤ max_depth)
        × (route ≡ route_of trail)

  abbrev pub AreAll : List Route → Type 0
  AreAll paths = (trail : Trail) → Arrives trail → Occurs (route_of trail) paths

  -- At most five routes, each that of a walk to the target of at most `max_depth` edges; and all
  -- walks to the target, of any length, where the answer is not called truncated.
  abbrev pub IsAnswer : ℕ → Answer → Type 0
  IsAnswer max_depth (paths, truncated) =
      AreRoutes max_depth paths × (length paths ≤ 5) × (truncated ≡ false → AreAll paths)

  moved :
      (done queue more : List Trail) (trail other : Trail)
      → Somewhere done (trail ∷ queue) other
      → Somewhere (trail ∷ done) (queue ++ more) other
  moved done queue more trail other (inl (inl same)) = inr (inl same)
  moved done queue more trail other (inl (inr o)) = inl (Occurs-left other queue more o)
  moved done queue more trail other (inr o) = inr (inr o)

  pub Closed-arrived :
      (done queue : List Trail) (paths : List Route) (trail : Trail)
      → text_eq trail.node target ≡ true
      → Closed catalog start target done (trail ∷ queue) paths
      → Closed catalog start target (trail ∷ done) queue (paths ++ route_of trail ∷ [])
  Closed-arrived done queue paths trail at_target c = record {
    started =
        subst (λ q. Somewhere (trail ∷ done) q (first_trail start)) (append-nil queue)
          (moved done queue [] trail (first_trail start) c.started);
    arrived = λ other o. elim o [
      | inl same ↦
          λ e. Occurs-right (route_of other) paths (route_of trail ∷ []) (inl (ap route_of same))
      | inr p ↦ λ e. Occurs-left (route_of other) paths (route_of trail ∷ []) (c.arrived other p e)
    ];
    followed = λ other o. elim o [
      | inl same ↦
          λ e. absurd (ground (arith, at_target, subst (λ w. text_eq w.node target ≡ false) same e))
      | inr p ↦ λ e longer there.
          subst (λ q. Somewhere (trail ∷ done) q longer) (append-nil queue)
            (moved done queue [] trail longer (c.followed other p e longer there))
    ];
  }

  pub Closed-followed :
      (done queue : List Trail) (paths : List Route) (trail : Trail)
      → text_eq trail.node target ≡ false
      → Closed catalog start target done (trail ∷ queue) paths
      → Closed catalog start target (trail ∷ done) (queue ++ next_trails catalog trail) paths
  Closed-followed done queue paths trail elsewhere c = record {
    started = moved done queue (next_trails catalog trail) trail (first_trail start) c.started;
    arrived = λ other o. elim o [
      | inl same ↦
          λ e. absurd (ground (arith, elsewhere, subst (λ w. text_eq w.node target ≡ true) same e))
      | inr p ↦ λ e. c.arrived other p e
    ];
    followed = λ other o. elim o [
      | inl same ↦ λ e longer there. inl (
          Occurs-right longer queue (next_trails catalog trail)
            (subst (λ w. Occurs longer (next_trails catalog w)) same there))
      | inr p ↦ λ e longer there.
          moved done queue (next_trails catalog trail) trail longer
            (c.followed other p e longer there)
    ];
  }

  -- When the queue is empty, every walk is done.
  Closed-all :
      (done : List Trail) (paths : List Route) (trail : Trail)
      → Closed catalog start target done [] paths
      → Walk catalog start target trail
      → Occurs trail done
  Closed-all done paths trail c here = elim c.started [ inl o ↦ absurd o | inr o ↦ o ]
  Closed-all done paths trail c (step {trail = shorter} walk elsewhere edge there longer) =
      let before = Closed-all done paths shorter c walk in
      let next =
        extensions_complete catalog shorter (catalog.neighbors shorter.node).items edge there
          longer in
      elim (c.followed shorter before elsewhere (extended shorter edge) next) [
        | inl o ↦ absurd o
        | inr o ↦ o
      ]

  pub AreAll-Closed :
      (done : List Trail) (paths : List Route)
      → Closed catalog start target done [] paths
      → AreAll paths
  AreAll-Closed done paths c trail (walk, at_target) =
      c.arrived trail (Closed-all done paths trail c walk) at_target
