-- ===== src/Federation/Chains.antt =====
-- The search for callees ends, and finds chains of calls: _python_reachable of
-- src/codekg/federation.py.
use my_kg_codebase.Prelude.{
  ℕ, zero, suc, ◌+◌, ◌≤◌, ◌<◌, ◌≡◌, refl, sym, subst, Bool, true, false, ◌||◌, inl, inr, Option,
  none, some, List, [], ◌∷◌, ◌++◌, length, length-append, take, leb, ltb, arith, Bool-cases,
}
use my_kg_codebase.Prelude.Text.{Text, contains}
use my_kg_codebase.Prelude.Occurs.{Occurs, Occurs-split}
use my_kg_codebase.Federation.Session.{Clock, Session, query, timed_query}
use my_kg_codebase.Federation.Paths.{must_stop, visiting}
use my_kg_codebase.Federation.Sound.{Yields, Yields-and_then}
use my_kg_codebase.Federation.Holds.{must_stop-false}
use my_kg_codebase.Federation.Reach.{
  CallRow, CallGraph, CallEdge, Visit, Reached, called, Scan, counting, see, scan_rows, with_edges,
  found_owner, reach_from, python_reachable,
}

-- The edge that a row makes
abbrev pub edge_of : Text → Text → CallRow → CallEdge
edge_of from_key child row = record {
  from_key = from_key;
  to_key = child;
  path = row.path;
  line = row.line;
  column = row.column;
}

-- The chains of exact calls from the start, along the first hundred rows of each callable
pub data Chain {Owner : Type 0} (graph : CallGraph Owner) (start : Text)
    : Text → List CallEdge → Type 0 where
  here : Chain graph start start []
  call :
      {key : Text} {call_chain : List CallEdge}
      → Chain graph start key call_chain
      → (row : CallRow) (child : Text) → Occurs row (take 100 (graph.rows key))
      → row.key ≡ some child
      → Chain graph start child (call_chain ++ edge_of key child row ∷ [])

module _ {Owner : Type 0} (graph : CallGraph Owner) (start : Text) (max_depth : ℕ) where
  -- A place in the queue has a chain of calls, as long as its depth says.
  abbrev IsVisit : Visit → Type 0
  IsVisit visit =
      Chain graph start visit.key visit.call_chain
      × (length visit.call_chain ≡ visit.depth)
      × (visit.depth ≤ max_depth)

  -- The owner is that of a callable that the chain leads to.
  abbrev pub IsReached : Reached Owner → Type 0
  IsReached reached =
      (key : Text) × Chain graph start key reached.call_chain
      × (graph.python_owner key ≡ some reached.owner)
      × (length reached.call_chain ≤ max_depth)

-- The queue holds visits, and not too many keys and edges were seen.
record IsScan {Owner : Type 0} (graph : CallGraph Owner) (start : Text) (max_depth : ℕ)
    (scan : Scan) : Type 0 where
  visits : (visit : Visit) → Occurs visit scan.queue → IsVisit graph start max_depth visit
  keys : length scan.seen ≤ 1000
  bound : scan.edges ≤ 10000

-- What holds at the head of the loop
record Runs {Owner : Type 0} (graph : CallGraph Owner) (start : Text) (max_depth rounds : ℕ)
    (seen : List Text) (queue : List Visit) (owners : List (Reached Owner)) (s : Session)
    : Type 0 where
  some_left : 1 ≤ rounds
  enough : 1001 ≤ rounds + s.visited
  visited : s.visited ≤ 1000
  scan :
      IsScan graph start max_depth
        (record { seen = seen; queue = queue; truncated = false; edges = s.edges })
  reached : (found : Reached Owner) → Occurs found owners → IsReached graph start max_depth found

query-Keeps :
    {A : Type 0} (clock : Clock) (answer : A) (s : Session)
    → Yields clock
        (λ a t. (a ≡ answer) × (t.visited ≡ s.visited) × (t.edges ≡ s.edges))
        (query clock answer s)
unfolding query
query-Keeps clock answer s =
    elim (Bool-cases (clock.expired s.readings || clock.interrupted s.readings)) [
      | inl e ↦ rw e (s.readings, e)
      | inr e ↦ rw e (refl, refl, refl)
    ]

timed_query-Keeps :
    {A : Type 0} (clock : Clock) (answer : A) (s : Session)
    → Yields clock
        (λ a t. (a ≡ answer) × (t.visited ≡ s.visited) × (t.edges ≡ s.edges))
        (timed_query clock answer s)
unfolding timed_query
timed_query-Keeps clock answer s = elim (Bool-cases (clock.interrupted s.readings)) [
  | inl e ↦
      let either : (clock.expired s.readings || clock.interrupted s.readings) ≡ true =
        ground (arith, e) in
      rw (timed_query, e) (s.readings, either)
  | inr e ↦ rw (timed_query, e) (refl, refl, refl)
]

module _ {Owner : Type 0} (graph : CallGraph Owner) (start : Text) (max_depth : ℕ) where
  see-IsScan :
      (visit : Visit) (row : CallRow) (key : Option Text) (scan : Scan)
      → row.key ≡ key
      → Occurs row (take 100 (graph.rows visit.key))
      → visit.depth < max_depth
      → IsVisit graph start max_depth visit
      → length scan.seen < 1000
      → IsScan graph start max_depth scan
      → IsScan graph start max_depth (see visit row key scan)
  unfolding see
  see-IsScan visit row none scan e o shallow at room h = h
  see-IsScan visit row (some child) scan e o shallow at room h =
      elim (Bool-cases (contains child scan.seen)) [
        | inl known ↦ rw known h
        | inr fresh ↦ rw fresh (record {
          visits = λ other p. elim (Occurs-split other scan.queue (called visit child row ∷ []) p) [
            | inl q ↦ h.visits other q
            | inr (inl same) ↦ subst (IsVisit graph start max_depth) (sym same) (
              call at.0 row child o e,
              omega
                  (arith, at.1, length-append visit.call_chain (edge_of visit.key child row ∷ [])),
              omega (arith, shallow),
            )
            | inr (inr q) ↦ absurd q
          ];
          keys = omega (arith, room);
          bound = h.bound;
        })
      ]

  scan_rows-IsScan :
      (visit : Visit) (rows : List CallRow) (scan : Scan)
      → ((row : CallRow) → Occurs row rows → Occurs row (take 100 (graph.rows visit.key)))
      → visit.depth < max_depth
      → IsVisit graph start max_depth visit
      → IsScan graph start max_depth scan
      → IsScan graph start max_depth (scan_rows visit rows scan)
  unfolding scan_rows
  scan_rows-IsScan visit [] scan o shallow at h = h
  scan_rows-IsScan visit (row ∷ rows) scan o shallow at h =
      elim (Bool-cases (leb 1000 (length scan.seen) || leb 10000 scan.edges)) [
        | inl full ↦
            rw (scan_rows, full) (record { visits = h.visits; keys = h.keys; bound = h.bound })
        | inr room ↦
            rw (scan_rows, room)
              (scan_rows-IsScan visit rows (see visit row row.key (counting scan))
                (λ r p. o r (inr p)) shallow at
                (see-IsScan visit row row.key (counting scan) refl (o row (inl refl)) shallow at
                  (ground (arith, room))
                  (record { visits = h.visits; keys = h.keys; bound = ground (arith, room) })))
      ]

  found_owner_reached :
      (visit : Visit) (owner : Option Owner) (owners : List (Reached Owner))
      → IsVisit graph start max_depth visit
      → owner ≡ graph.python_owner visit.key
      → ((found : Reached Owner) → Occurs found owners → IsReached graph start max_depth found)
      → (found : Reached Owner) → Occurs found (found_owner owners visit.call_chain owner)
      → IsReached graph start max_depth found
  found_owner_reached visit none owners at same h found o = h found o
  found_owner_reached visit (some owner) owners at same h found o =
      let here_found : Reached Owner = record { owner = owner; call_chain = visit.call_chain } in
      elim (Occurs-split found owners (here_found ∷ []) o) [
        | inl p ↦ h found p
        | inr (inl e) ↦
            subst (IsReached graph start max_depth) (sym e)
              (visit.key, at.0, sym same, omega (arith, at.1, at.2))
        | inr (inr p) ↦ absurd p
      ]

  abbrev Answers : List (Reached Owner) × Bool → Session → Type 0
  Answers (owners, truncated) t =
      ((found : Reached Owner) → Occurs found owners → IsReached graph start max_depth found)
      × (t.visited ≤ 1000)
      × (t.edges ≤ 10000)

  module _ (clock : Clock) where
    reach_from-Answers :
        (rounds : ℕ) (seen : List Text) (queue : List Visit) (owners : List (Reached Owner))
        (truncated : Bool) (s : Session)
        → Runs graph start max_depth rounds seen queue owners s
        → Yields clock Answers
            (reach_from graph clock max_depth rounds seen queue owners truncated s)
    unfolding reach_from
    reach_from-Answers zero seen queue owners truncated s h = absurd (omega (arith, h.some_left))
    reach_from-Answers (suc rounds) seen [] owners truncated s h =
        (h.reached, h.visited, h.scan.bound)
    reach_from-Answers (suc rounds) seen (visit ∷ queue) owners truncated s h =
        elim (Bool-cases (must_stop clock s)) [
          | inl stops ↦ rw (reach_from, stops) (h.reached, h.visited, h.scan.bound)
          | inr goes ↦
              let (visits, edges) = must_stop-false clock s goes in
              let at = h.scan.visits visit (inl refl) in
              let answer = graph.python_owner visit.key in
              rw (reach_from, goes)
                (Yields-and_then clock
                  (λ a t. (a ≡ answer) × (t.visited ≡ s.visited + 1) × (t.edges ≡ s.edges)) Answers
                  (query clock answer (visiting s)) _ (query-Keeps clock answer (visiting s))
                  (λ owner t p.
                    let reached = found_owner_reached visit owner owners at p.0 h.reached in
                    elim (Bool-cases (leb max_depth visit.depth)) [
                      | inl deep ↦ rw deep (
                          reach_from-Answers rounds seen queue
                            (found_owner owners visit.call_chain owner) true t
                            (record {
                              some_left = omega (arith, visits, h.enough);
                              enough = omega (arith, h.enough, p.1);
                              visited = omega (arith, visits, p.1);
                              scan = record {
                                visits = λ v o. h.scan.visits v (inr o);
                                keys = h.scan.keys;
                                bound = omega (arith, p.2, h.scan.bound);
                              };
                              reached = reached;
                            }))
                      | inr shallow ↦ rw shallow (
                          Yields-and_then clock
                            (λ a u.
                              (a ≡ graph.rows visit.key)
                              × (u.visited ≡ t.visited)
                              × (u.edges ≡ t.edges))
                            Answers (timed_query clock (graph.rows visit.key) t) _
                            (timed_query-Keeps clock (graph.rows visit.key) t)
                            (λ rows u q.
                              let begun : Scan = record {
                                seen = seen;
                                queue = queue;
                                truncated = truncated || ltb 100 (length rows);
                                edges = u.edges;
                              } in
                              let after = scan_rows visit (take 100 rows) begun in
                              let scanned =
                                scan_rows-IsScan visit (take 100 rows) begun
                                  (λ r o. subst (λ rs. Occurs r (take 100 rs)) q.0 o)
                                  (ground (arith, shallow)) at
                                  (record {
                                    visits = λ v o. h.scan.visits v (inr o);
                                    keys = h.scan.keys;
                                    bound = omega (arith, q.2, p.2, h.scan.bound);
                                  }) in
                              reach_from-Answers rounds after.seen after.queue
                                (found_owner owners visit.call_chain owner) after.truncated
                                (with_edges after.edges u)
                                (record {
                                  some_left = omega (arith, visits, h.enough);
                                  enough = omega (arith, h.enough, p.1, q.1);
                                  visited = omega (arith, visits, p.1, q.1);
                                  scan = record {
                                    visits = scanned.visits;
                                    keys = scanned.keys;
                                    bound = scanned.bound;
                                  };
                                  reached = reached;
                                })))
                    ]))
        ]

-- For every graph of calls, clock, start and depth, and a budget that is not overdrawn:
-- `_python_reachable` ends, and with the deadline only if the clock says so. Each owner that it
-- gives is that of a callable to which the call chain beside it leads from the start, by exact calls
-- that are rows of the graph and of at most max_depth calls. The visits stay within 1000, the edges
-- within 10000.
pub python_reachable-IsReached :
    {Owner : Type 0} (graph : CallGraph Owner) (clock : Clock) (start : Text) (max_depth : ℕ)
    (s : Session)
    → s.visited ≤ 1000
    → s.edges ≤ 10000
    → Yields clock
        (λ answer t.
          ((found : Reached Owner) → Occurs found answer.0 → IsReached graph start max_depth found)
          × (t.visited ≤ 1000)
          × (t.edges ≤ 10000))
        (python_reachable graph clock max_depth start s)
unfolding python_reachable
python_reachable-IsReached graph clock start max_depth s visits edges =
    reach_from-Answers graph start max_depth clock 1001 (start ∷ [])
      (record { key = start; depth = 0; call_chain = [] } ∷ []) [] false s
      (record {
        some_left = omega arith;
        enough = omega arith;
        visited = visits;
        scan = record {
          visits = λ v o. elim o [
            | inl e ↦ subst (IsVisit graph start max_depth) (sym e) (here, omega arith, omega arith)
            | inr p ↦ absurd p
          ];
          keys = omega arith;
          bound = edges;
        };
        reached = λ found o. absurd o;
      })
