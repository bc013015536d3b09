-- ===== src/Federation/Reach.antt =====
-- What a Python function reaches by exact calls: _python_reachable of src/codekg/federation.py.
use my_kg_codebase.Prelude.{
  ℕ, zero, suc, ◌+◌, Bool, true, false, ◌||◌, Option, none, some, List, [], ◌∷◌, ◌++◌, length, take,
  if◌then◌else◌, leb, ltb,
}
use my_kg_codebase.Prelude.Text.{Text, contains}
use my_kg_codebase.Federation.Session.{
  Clock, Session, ok, out_of_fuel, Action, and_then, query, timed_query,
}
use my_kg_codebase.Federation.Paths.{must_stop, reading, visiting}

-- A row of the query for EXACT_CALLS; none for a key that is no string.
pub record CallRow : Type 0 where
  pub key : Option Text
  pub path : Option Text
  pub line : Option ℕ
  pub column : Option ℕ

-- What the search asks: python_owner of the catalog, and the rows of the query, timed_query, in its order, with
-- one row more than are used.
pub record CallGraph (Owner : Type 0) : Type 0 where
  pub python_owner : Text → Option Owner
  pub rows : Text → List CallRow

-- An edge of a call chain, less its two constant fields
pub record CallEdge : Type 0 where
  pub from_key : Text
  pub to_key : Text
  pub path : Option Text
  pub line : Option ℕ
  pub column : Option ℕ

-- An entry of the queue
pub record Visit : Type 0 where
  pub key : Text
  pub depth : ℕ
  pub call_chain : List CallEdge

-- {"owner": owner, "call_chain": call_chain}
pub record Reached (Owner : Type 0) : Type 0 where
  pub owner : Owner
  pub call_chain : List CallEdge

abbrev pub called : Visit → Text → CallRow → Visit
called visit child row = record {
  key = child;
  depth = visit.depth + 1;
  call_chain =
      visit.call_chain
      ++ record {
        from_key = visit.key;
        to_key = child;
        path = row.path;
        line = row.line;
        column = row.column;
      }
        ∷ [];
}

-- What the loop over the rows changes: the keys seen, the queue, the flag and the edges counted.
pub record Scan : Type 0 where
  pub seen : List Text
  pub queue : List Visit
  pub truncated : Bool
  pub edges : ℕ

-- budget["edges"] += 1
abbrev pub counting : Scan → Scan
counting scan = record scan { edges = scan.edges + 1 }

-- A child that was not seen joins the queue.
unfoldable pub see : Visit → CallRow → Option Text → Scan → Scan
see visit row none scan = scan
see visit row (some child) scan =
    if contains child scan.seen
    then scan
    else record scan { seen = child ∷ scan.seen; queue = scan.queue ++ called visit child row ∷ [] }

-- for row in rows[:100], which stops at 1000 keys or 10000 edges
unfoldable pub scan_rows : Visit → List CallRow → Scan → Scan
unfolding see
scan_rows visit [] scan = scan
scan_rows visit (row ∷ rows) scan =
    let rest = scan_rows visit rows (see visit row row.key (counting scan)) in
    if leb 1000 (length scan.seen) || leb 10000 scan.edges
    then record scan { truncated = true }
    else rest

abbrev pub with_edges : ℕ → Session → Session
with_edges n s = record s { edges = n }

module _ {Owner : Type 0} where
  abbrev pub found_owner :
      List (Reached Owner) → List CallEdge → Option Owner → List (Reached Owner)
  found_owner owners call_chain none = owners
  found_owner owners call_chain (some owner) =
      owners ++ record { owner = owner; call_chain = call_chain } ∷ []

  module _ (graph : CallGraph Owner) (clock : Clock) (max_depth : ℕ) where
    -- The while loop, with the number of rounds that it may still take.
    unfoldable pub reach_from :
        ℕ
        → List Text
        → List Visit
        → List (Reached Owner)
        → Bool
        → Action (List (Reached Owner) × Bool)
    reach_from zero seen queue owners truncated s = (out_of_fuel, s)
    reach_from (suc rounds) seen [] owners truncated s = (ok (owners, truncated), s)
    reach_from (suc rounds) seen (visit ∷ queue) owners truncated s = elim (must_stop clock s) [
      | Bool.true ↦ (ok (owners, true), reading s)
      | Bool.false ↦ and_then (query clock (graph.python_owner visit.key) (visiting s)) (λ owner t.
          let reached = found_owner owners visit.call_chain owner in
          elim (leb max_depth visit.depth) [
            | Bool.true ↦ reach_from rounds seen queue reached true t
            | Bool.false ↦ and_then (timed_query clock (graph.rows visit.key) t) (λ rows u.
                let scan = scan_rows visit (take 100 rows) (record {
                  seen = seen;
                  queue = queue;
                  truncated = truncated || ltb 100 (length rows);
                  edges = u.edges;
                }) in
                reach_from rounds scan.seen scan.queue reached scan.truncated
                  (with_edges scan.edges u))
          ])
    ]

    -- _python_reachable
    unfoldable pub python_reachable : Text → Action (List (Reached Owner) × Bool)
    python_reachable start s =
        reach_from 1001 (start ∷ []) (record { key = start; depth = 0; call_chain = [] } ∷ []) []
          false s
