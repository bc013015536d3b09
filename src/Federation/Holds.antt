-- ===== src/Federation/Holds.antt =====
-- The invariant of the search: the loop of _bounded_paths in src/codekg/federation.py.
use my_kg_codebase.Prelude.{
  ℕ, suc, ◌+◌, ◌≤◌, ◌<◌, ◌≡◌, refl, sym, subst, Bool, true, false, ◌||◌, inl, inr, List, [], ◌∷◌,
  ◌++◌, length, length-append, leb, arith,
}
use my_kg_codebase.Prelude.Text.{Text, text_eq}
use my_kg_codebase.Prelude.Occurs.{Occurs-split}
use my_kg_codebase.Federation.Session.{Catalog, Clock, Session}
use my_kg_codebase.Federation.Paths.{Trail, Route, route_of, must_stop, visiting}
use my_kg_codebase.Federation.Sound.{HasFacts}
use my_kg_codebase.Federation.Extend.{extensions_sound}
use my_kg_codebase.Federation.Search.{
  Walk, step, next_trails, Closed, Within, AreRoutes, Closed-arrived, Closed-followed,
}

-- No more than 1000 visits and, since a page is read to its end, no more than 10099 edges.
abbrev pub InBudget : Session → Type 0
InBudget s = (s.visited ≤ 1000) × (s.edges ≤ 10099)

-- What neighbors() promises with limit=100.
abbrev pub HasShortPages : Catalog → Type 0
HasShortPages catalog = (key : Text) → length (catalog.neighbors key).items ≤ 100

pub must_stop-false :
    (clock : Clock) (s : Session)
    → must_stop clock s ≡ false
    → (s.visited < 1000) × (s.edges < 10000)
unfolding must_stop
must_stop-false clock s h = ground (arith, h)

-- What holds at the head of the loop, when `done` left the queue.
pub record Holds (catalog : Catalog) (start target : Text) (max_depth rounds : ℕ)
    (done queue : List Trail) (paths : List Route) (truncated : Bool) (s : Session) : Type 0 where
  pub facts : HasFacts catalog s
  pub budget : InBudget s
  pub some_left : 1 ≤ rounds
  pub enough : 1001 ≤ rounds + s.visited
  pub within : Within catalog start target max_depth queue
  pub routes : AreRoutes catalog start target max_depth paths
  pub few : length paths ≤ 5
  pub closed : truncated ≡ false → Closed catalog start target done queue paths

module _ (catalog : Catalog) (clock : Clock) (start target : Text) (max_depth : ℕ) where
  Within-followed :
      (queue : List Trail) (trail : Trail)
      → text_eq trail.node target ≡ false
      → leb max_depth (length trail.steps) ≡ false
      → Within catalog start target max_depth (trail ∷ queue)
      → Within catalog start target max_depth (queue ++ next_trails catalog trail)
  Within-followed queue trail elsewhere shallow within longer o =
      elim (Occurs-split longer queue (next_trails catalog trail) o) [
        | inl p ↦ within longer (inr p)
        | inr p ↦
            let items = (catalog.neighbors trail.node).items in
            let (edge, there, lengthen, same) = extensions_sound catalog trail longer items p in
            let (walk, depth) = within trail (inl refl) in
            let more = length-append trail.steps (edge ∷ []) in
            subst (λ w. Walk catalog start target w × (length w.steps ≤ max_depth)) (sym same)
              (step walk elsewhere edge there lengthen, ground (arith, shallow, more))
      ]

  AreRoutes-arrived :
      (queue : List Trail) (paths : List Route) (trail : Trail)
      → text_eq trail.node target ≡ true
      → Within catalog start target max_depth (trail ∷ queue)
      → AreRoutes catalog start target max_depth paths
      → AreRoutes catalog start target max_depth (paths ++ route_of trail ∷ [])
  AreRoutes-arrived queue paths trail at_target within routes route o =
      elim (Occurs-split route paths (route_of trail ∷ []) o) [
        | inl p ↦ routes route p
        | inr (inl same) ↦
            let (walk, depth) = within trail (inl refl) in (trail, (walk, at_target), depth, same)
        | inr (inr p) ↦ absurd p
      ]

  module _ (rounds : ℕ) (done queue : List Trail) (paths : List Route) (trail : Trail)
      (truncated : Bool) (s : Session)
      (h : Holds catalog start target max_depth (suc rounds) done (trail ∷ queue) paths truncated s)
      (visits : s.visited < 1000) where
    pub Holds-arrived :
        text_eq trail.node target ≡ true
        → leb 5 (length paths) ≡ false
        → Holds catalog start target max_depth rounds
            (trail ∷ done)
            queue
            (paths ++ route_of trail ∷ [])
            truncated
            (visiting s)
    Holds-arrived at_target room =
        let more = length-append paths (route_of trail ∷ []) in
        record {
          facts = h.facts;
          budget = (omega (arith, visits), h.budget.1);
          some_left = omega (arith, visits, h.enough);
          enough = omega (arith, h.enough);
          within = λ w o. h.within w (inr o);
          routes = AreRoutes-arrived queue paths trail at_target h.within h.routes;
          few = ground (arith, more, room);
          closed = λ t.
              Closed-arrived catalog start target done queue paths trail at_target (h.closed t);
        }

    pub Holds-deep : Holds catalog start target max_depth rounds done queue paths true (visiting s)
    Holds-deep = record {
      facts = h.facts;
      budget = (omega (arith, visits), h.budget.1);
      some_left = omega (arith, visits, h.enough);
      enough = omega (arith, h.enough);
      within = λ w o. h.within w (inr o);
      routes = h.routes;
      few = h.few;
      closed = λ t. absurd (ground (arith, t));
    }

    pub Holds-followed :
        (more : Bool) (t : Session)
        → text_eq trail.node target ≡ false
        → leb max_depth (length trail.steps) ≡ false
        → HasFacts catalog t
        → InBudget t
        → t.visited ≡ s.visited + 1
        → Holds catalog start target max_depth rounds
            (trail ∷ done)
            (queue ++ next_trails catalog trail)
            paths
            (truncated || more)
            t
    Holds-followed more t elsewhere shallow facts budget visited = record {
      facts = facts;
      budget = budget;
      some_left = omega (arith, visits, h.enough);
      enough = omega (arith, h.enough, visited);
      within = Within-followed queue trail elsewhere shallow h.within;
      routes = h.routes;
      few = h.few;
      closed = λ e.
          Closed-followed catalog start target done queue paths trail elsewhere
            (h.closed (ground (arith, e)));
    }
