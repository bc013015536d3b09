-- ===== src/Federation/Complete.antt =====
-- The search for callees misses nothing unless it says so: _python_reachable of
-- src/codekg/federation.py.
use my_kg_codebase.Prelude.{
  ℕ, zero, suc, ◌≤◌, ◌≡◌, refl, sym, ap, ◌∙◌, subst, Bool, true, false, ◌||◌, inl, inr, Option,
  none, some, List, [], ◌∷◌, length, take, leb, ltb, arith, Bool-cases,
}
use my_kg_codebase.Prelude.Text.{Text}
use my_kg_codebase.Prelude.Occurs.{Occurs, Occurs-left, Occurs-right}
use my_kg_codebase.Federation.Session.{
  Clock, Session, Outcome, ok, deadline, out_of_fuel, Action, and_then, query, timed_query,
}
use my_kg_codebase.Federation.Paths.{must_stop, visiting}
use my_kg_codebase.Federation.Reach.{
  CallRow, CallGraph, CallEdge, Visit, Reached, Scan, scan_rows, with_edges, found_owner,
  reach_from, python_reachable,
}
use my_kg_codebase.Federation.Sound.{Yields}
use my_kg_codebase.Federation.Chains.{IsReached, python_reachable-IsReached}
use my_kg_codebase.Federation.Seen.{
  Leads, here, call, keys_of, IsSeen, contains_first, only_seen, Closed, scan_rows-Grows,
}

-- If there is a value, it has the property.
abbrev IfOk : {A : Type 0} → (A → Type 0) → Outcome A × Session → Type 0
IfOk P (ok a, t) = P a
IfOk P (deadline, t) = Unit
IfOk P (out_of_fuel, t) = Unit

IfOk-and_then :
    {A B : Type 0} (P : A → Type 0) (Q : B → Type 0) (r : Outcome A × Session) (f : A → Action B)
    → IfOk P r
    → ((a : A) (t : Session) → P a → IfOk Q (f a t))
    → IfOk Q (and_then r f)
IfOk-and_then P Q (ok a, t) f h k = k a t h
IfOk-and_then P Q (deadline, t) f h k = tt
IfOk-and_then P Q (out_of_fuel, t) f h k = tt

Yields-IfOk :
    {A : Type 0} (clock : Clock) (P : A → Session → Type 0) (Q : A → Type 0)
    (r : Outcome A × Session)
    → Yields clock P r
    → IfOk Q r
    → Yields clock (λ a t. P a t × Q a) r
Yields-IfOk clock P Q (ok a, t) h k = (h, k)
Yields-IfOk clock P Q (deadline, t) h k = h
Yields-IfOk clock P Q (out_of_fuel, t) h k = h

query-IfOk :
    {A : Type 0} (clock : Clock) (answer : A) (s : Session)
    → IfOk (λ a. a ≡ answer) (query clock answer s)
unfolding query
query-IfOk clock answer s =
    elim (Bool-cases (clock.expired s.readings || clock.interrupted s.readings)) [
      | inl e ↦ rw e tt
      | inr e ↦ rw e refl
    ]

timed_query-IfOk :
    {A : Type 0} (clock : Clock) (answer : A) (s : Session)
    → IfOk (λ a. a ≡ answer) (timed_query clock answer s)
unfolding timed_query
timed_query-IfOk clock answer s = elim (Bool-cases (clock.interrupted s.readings)) [
  | inl e ↦ rw (timed_query, e) tt
  | inr e ↦ rw (timed_query, e) refl
]

not_truncated : (b : Bool) (n : ℕ) → (b || ltb 100 n) ≡ false → (b ≡ false) × (n ≤ 100)
not_truncated b n h = (ground (arith, h), ground (arith, h))

take_all {ℓ} : {A : Type ℓ} (n : ℕ) (xs : List A) → length xs ≤ n → take n xs ≡ xs
take_all zero [] h = refl
take_all zero (x ∷ xs) h = absurd (omega (arith, h))
take_all (suc n) [] h = refl
take_all (suc n) (x ∷ xs) h = ap (λ t. x ∷ t) (take_all n xs (omega (arith, h)))

module _ {Owner : Type 0} (graph : CallGraph Owner) (start : Text) where
  -- The owner of each callable to which calls lead is among those given.
  abbrev pub HasAllOwners : List (Reached Owner) → Type 0
  HasAllOwners owners =
      (key : Text) (owner : Owner)
      → Leads graph start key
      → graph.python_owner key ≡ some owner
      → (found : Reached Owner) × Occurs found owners × (found.owner ≡ owner)

  Closed-IsSeen :
      (done seen : List Text) (owners : List (Reached Owner)) (key : Text)
      → Closed graph start done seen [] owners
      → Leads graph start key
      → IsSeen key seen × Occurs key done
  Closed-IsSeen done seen owners key c here =
      (c.started, elim (c.pending start c.started) [ inl o ↦ absurd o | inr d ↦ d ])
  Closed-IsSeen done seen owners key c (call {key = caller} leads row child o named) =
      let (seen_before, done_before) = Closed-IsSeen done seen owners caller c leads in
      let now = c.followed caller done_before row o child named in
      (now, elim (c.pending child now) [ inl p ↦ absurd p | inr d ↦ d ])

  Closed-HasAllOwners :
      (done seen : List Text) (owners : List (Reached Owner))
      → Closed graph start done seen [] owners
      → HasAllOwners owners
  Closed-HasAllOwners done seen owners c key owner leads named =
      let (seen_key, done_key) = Closed-IsSeen done seen owners key c leads in
      c.owned key owner done_key named

  found_owner_keeps :
      (owners : List (Reached Owner)) (call_chain : List CallEdge) (answer : Option Owner)
      (found : Reached Owner)
      → Occurs found owners
      → Occurs found (found_owner owners call_chain answer)
  found_owner_keeps owners call_chain none found o = o
  found_owner_keeps owners call_chain (some owner) found o =
      Occurs-left found owners (record { owner = owner; call_chain = call_chain } ∷ []) o

  found_owner_has :
      (owners : List (Reached Owner)) (call_chain : List CallEdge) (answer : Option Owner)
      (owner : Owner)
      → answer ≡ some owner
      → (found : Reached Owner) × Occurs found (found_owner owners call_chain answer)
        × (found.owner ≡ owner)
  found_owner_has owners call_chain none owner e = absurd (ground (arith, e))
  found_owner_has owners call_chain (some other) owner e =
      let found : Reached Owner = record { owner = other; call_chain = call_chain } in
      (found, Occurs-right found owners (found ∷ []) (inl refl), cc e)

  Closed-followed :
      (done seen : List Text) (visit : Visit) (queue : List Visit) (owners : List (Reached Owner))
      (answer : Option Owner) (begun : Scan)
      → begun.seen ≡ seen
      → begun.queue ≡ queue
      → answer ≡ graph.python_owner visit.key
      → length (graph.rows visit.key) ≤ 100
      → (scan_rows visit (take 100 (graph.rows visit.key)) begun).truncated ≡ false
      → Closed graph start done seen (visit ∷ queue) owners
      → Closed graph start
          (visit.key ∷ done)
          (scan_rows visit (take 100 (graph.rows visit.key)) begun).seen
          (scan_rows visit (take 100 (graph.rows visit.key)) begun).queue
          (found_owner owners visit.call_chain answer)
  Closed-followed done seen visit queue owners answer begun e q same short whole c =
      let rows = take 100 (graph.rows visit.key) in
      let (grows, sees) = scan_rows-Grows visit rows begun in
      record {
        started = grows.kept start (subst (IsSeen start) (sym e) c.started);
        pending = λ key h. elim (grows.waits key h) [
          | inr o ↦ inl o
          | inl before ↦ elim (c.pending key (subst (IsSeen key) e before)) [
            | inl (inl now) ↦ inr (inl now)
            | inl (inr o) ↦ inl (grows.stays key (subst (λ vs. Occurs key (keys_of vs)) (sym q) o))
            | inr d ↦ inr (inr d)
          ]
        ];
        owned = λ key owner o named. elim o [
          | inl now ↦
              found_owner_has owners visit.call_chain answer owner
                (same ∙ subst (λ k. graph.python_owner k ≡ some owner) now named)
          | inr d ↦
              let (found, there, right) = c.owned key owner d named in
              (found, found_owner_keeps owners visit.call_chain answer found there, right)
        ];
        followed = λ key o row there child named. elim o [
          | inl now ↦
              sees whole row
                (subst (Occurs row) (sym (take_all 100 (graph.rows visit.key) short))
                  (subst (λ k. Occurs row (graph.rows k)) now there))
                child named
          | inr d ↦
              grows.kept child
                (subst (IsSeen child) (sym e) (c.followed key d row there child named))
        ];
      }

  abbrev begun_scan : List Text → List Visit → Bool → List CallRow → Session → Scan
  begun_scan seen queue truncated rows s = record {
    seen = seen;
    queue = queue;
    truncated = truncated || ltb 100 (length rows);
    edges = s.edges;
  }

  abbrev IsWhole : List (Reached Owner) × Bool → Type 0
  IsWhole (owners, truncated) = truncated ≡ false → HasAllOwners owners

  module _ (clock : Clock) (max_depth : ℕ) where
    reach_from-IsWhole :
        (rounds : ℕ) (done seen : List Text) (queue : List Visit) (owners : List (Reached Owner))
        (truncated : Bool) (s : Session)
        → (truncated ≡ false → Closed graph start done seen queue owners)
        → IfOk IsWhole (reach_from graph clock max_depth rounds seen queue owners truncated s)
    unfolding reach_from
    reach_from-IsWhole zero done seen queue owners truncated s c = tt
    reach_from-IsWhole (suc rounds) done seen [] owners truncated s c =
        λ e. Closed-HasAllOwners done seen owners (c e)
    reach_from-IsWhole (suc rounds) done seen (visit ∷ queue) owners truncated s c =
        elim (Bool-cases (must_stop clock s)) [
          | inl stops ↦ rw (reach_from, stops) (λ e. absurd (ground (arith, e)))
          | inr goes ↦
              rw (reach_from, goes)
                (IfOk-and_then (λ a. a ≡ graph.python_owner visit.key) IsWhole
                  (query clock (graph.python_owner visit.key) (visiting s)) _
                  (query-IfOk clock (graph.python_owner visit.key) (visiting s))
                  (λ answer t same. elim (Bool-cases (leb max_depth visit.depth)) [
                    | inl deep ↦ rw deep (
                        reach_from-IsWhole rounds done seen queue
                          (found_owner owners visit.call_chain answer) true t
                          (λ e. absurd (ground (arith, e))))
                    | inr shallow ↦ rw shallow (
                        IfOk-and_then (λ a. a ≡ graph.rows visit.key) IsWhole
                          (timed_query clock (graph.rows visit.key) t) _
                          (timed_query-IfOk clock (graph.rows visit.key) t)
                          (λ rows u read.
                            let now = graph.rows visit.key in
                            let begun =
                              λ (rs : List CallRow). begun_scan seen queue truncated rs u in
                            let scan =
                              λ (rs : List CallRow). scan_rows visit (take 100 rs) (begun rs) in
                            let owners' = found_owner owners visit.call_chain answer in
                            subst
                              (λ rs. IfOk IsWhole (
                                reach_from graph clock max_depth rounds (scan rs).seen
                                  (scan rs).queue owners' (scan rs).truncated
                                  (with_edges (scan rs).edges u)))
                              (sym read)
                              (reach_from-IsWhole rounds (visit.key ∷ done) (scan now).seen
                                (scan now).queue owners' (scan now).truncated
                                (with_edges (scan now).edges u)
                                (λ whole.
                                  let (grows, sees) =
                                    scan_rows-Grows visit (take 100 now) (begun now) in
                                  let unbroken : (truncated || ltb 100 (length now)) ≡ false =
                                    grows.unbroken whole in
                                  Closed-followed done seen visit queue owners answer (begun now)
                                    refl refl same
                                    ((not_truncated truncated (length now) unbroken).1) whole
                                    (c (not_truncated truncated (length now) unbroken).0)))))
                  ]))
        ]

-- For every graph of calls, clock, start and depth, and a budget that is not overdrawn:
-- `_python_reachable` ends, and with the deadline only if the clock says so. Each owner that it
-- gives is that of a callable to which the call chain beside it leads from the start, by exact calls
-- that are rows of the graph and of at most max_depth calls. If it does not say that it is
-- truncated, it gives the owner of every callable to which exact calls lead, by chains of any
-- length. The visits stay within 1000, the edges within 10000.
pub python_reachable-HasAllOwners :
    {Owner : Type 0} (graph : CallGraph Owner) (clock : Clock) (start : Text) (max_depth : ℕ)
    (s : Session)
    → s.visited ≤ 1000
    → s.edges ≤ 10000
    → Yields clock
        (λ answer t.
          (((found : Reached Owner) → Occurs found answer.0 → IsReached graph start max_depth found)
            × (t.visited ≤ 1000)
            × (t.edges ≤ 10000))
          × (answer.1 ≡ false → HasAllOwners graph start answer.0))
        (python_reachable graph clock max_depth start s)
unfolding python_reachable
python_reachable-HasAllOwners {Owner} graph clock start max_depth s visits edges =
    Yields-IfOk clock
      (λ answer t.
        ((found : Reached Owner) → Occurs found answer.0 → IsReached graph start max_depth found)
        × (t.visited ≤ 1000)
        × (t.edges ≤ 10000))
      (λ answer. answer.1 ≡ false → HasAllOwners graph start answer.0)
      (python_reachable graph clock max_depth start s)
      (python_reachable-IsReached graph clock start max_depth s visits edges)
      (reach_from-IsWhole graph start clock max_depth 1001 [] (start ∷ [])
        (record { key = start; depth = 0; call_chain = [] } ∷ []) [] false s
        (λ e. record {
          started = contains_first start [];
          pending = λ key h. inl (inl (only_seen key start h));
          owned = λ key owner o. absurd o;
          followed = λ key o. absurd o;
        }))
