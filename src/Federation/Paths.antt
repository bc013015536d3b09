-- ===== src/Federation/Paths.antt =====
-- The search for paths in the database graph: _bounded_paths of src/codekg/federation.py.
use my_kg_codebase.Prelude.{
  ℕ, zero, suc, ◌+◌, Bool, true, false, not, ◌||◌, List, [], ◌∷◌, ◌++◌, length, if◌then◌else◌, leb,
}
use my_kg_codebase.Prelude.Text.{Text, text_eq, contains}
use my_kg_codebase.Federation.Facts.{Edge}
use my_kg_codebase.Federation.Session.{
  Catalog, Clock, Session, ok, out_of_fuel, Action, ◌>>=◌, ◌>>◌, pure, count_edge, query,
  database_edge_allowed,
}

-- An entry of the queue: the node, the nodes on the way to it, and the edges.
pub record Trail : Type 0 where
  pub node : Text
  pub nodes : List Text
  pub steps : List Edge

-- {"nodes": nodes, "edges": steps}
pub record Route : Type 0 where
  pub nodes : List Text
  pub edges : List Edge

abbrev pub Answer : Type 0
Answer = List Route × Bool

abbrev pub extended : Trail → Edge → Trail
extended trail edge = record {
  node = edge.target_key;
  nodes = trail.nodes ++ edge.target_key ∷ [];
  steps = trail.steps ++ edge ∷ [];
}

abbrev pub route_of : Trail → Route
route_of trail = record { nodes = trail.nodes; edges = trail.steps }

abbrev pub reading : Session → Session
reading s = record s { readings = s.readings + 1 }

abbrev pub visiting : Session → Session
visiting s = record s { readings = s.readings + 1; visited = s.visited + 1 }

abbrev pub first_trail : Text → Trail
first_trail start = record { node = start; nodes = start ∷ []; steps = [] }

abbrev pub fresh : Session → Session
fresh s = record s { facts = [] }

-- The deadline, read at each round, and the budget.
unfoldable pub must_stop : Clock → Session → Bool
must_stop clock s = clock.expired s.readings || leb 1000 s.visited || leb 10000 s.edges

module _ (catalog : Catalog) (clock : Clock) where
  -- The loop over the edges of a page, which appends to the queue.
  unfoldable pub offer_edges : Trail → List Edge → List Trail → Action (List Trail)
  offer_edges trail [] queue = pure queue
  offer_edges trail (edge ∷ edges) queue = do
    count_edge
    allowed ← database_edge_allowed catalog clock edge
    let next =
        if not allowed || contains edge.target_key trail.nodes
        then queue
        else queue ++ extended trail edge ∷ []
    offer_edges trail edges next

  module _ (target : Text) (max_depth : ℕ) where
    -- The while loop, with the number of rounds that it may still take.
    unfoldable pub paths_from : ℕ → List Trail → List Route → Bool → Action Answer
    paths_from zero queue paths truncated s = (out_of_fuel, s)
    paths_from (suc rounds) [] paths truncated s = (ok (paths, truncated), s)
    paths_from (suc rounds) (trail ∷ queue) paths truncated s = elim (leb 5 (length paths)) [
      | Bool.true ↦ (ok (paths, true), s)
      | Bool.false ↦ elim (must_stop clock s) [
        | Bool.true ↦ (ok (paths, true), reading s)
        | Bool.false ↦ elim (text_eq trail.node target) [
          | Bool.true ↦
              paths_from rounds queue (paths ++ route_of trail ∷ []) truncated (visiting s)
          | Bool.false ↦ elim (leb max_depth (length trail.steps)) [
            | Bool.true ↦ paths_from rounds queue paths true (visiting s)
            | Bool.false ↦
                (do
                  page ← query clock (catalog.neighbors trail.node)
                  longer ← offer_edges trail page.items queue
                  paths_from rounds longer paths (truncated || page.truncated))
                  (visiting s)
          ]
        ]
      ]
    ]

  -- _bounded_paths. Each round but the last visits a node, and no node is visited past the budget.
  unfoldable pub bounded_paths : Text → Text → ℕ → Action Answer
  bounded_paths start target max_depth s =
      paths_from target max_depth 1001 (first_trail start ∷ []) [] false (fresh s)
