-- ===== src/Federation/Session.antt =====
-- What a search keeps, with the deadline as an exception: _remaining, _database_fact and
-- _database_edge_allowed of src/codekg/federation.py.
use my_kg_codebase.Prelude.{
  ℕ, ◌+◌, Bool, true, false, ◌||◌, Option, none, some, List, if◌then◌else◌,
}
use my_kg_codebase.Prelude.Text.{Text, codes, text_eq}
use my_kg_codebase.Prelude.Dict.{Dict, lookup, insert}
use my_kg_codebase.Federation.Facts.{Fact, Edge, facts_allow, is_native_kind, is_routine_kind}

-- A page of neighbors(), in its order.
pub record Page : Type 0 where
  pub items : List Edge
  pub truncated : Bool

-- What a search asks of a catalog, whose tables do not change.
pub record Catalog : Type 0 where
  pub fact : Text → Option Fact
  pub neighbors : Text → Page

-- The clock, by the number of the reading: whether the deadline has passed at it, and whether it
-- passes during the query that follows, which is then interrupted.
pub record Clock : Type 0 where
  pub expired : ℕ → Bool
  pub interrupted : ℕ → Bool

-- fact_cache, the number of readings of the clock, and the budget.
pub record Session : Type 0 where
  pub facts : Dict (Option Fact)
  pub readings : ℕ
  pub visited : ℕ
  pub edges : ℕ

-- deadline is CatalogDeadline; out_of_fuel is no result of the code.
pub data Outcome {ℓ} (A : Type ℓ) : Type ℓ where
  ok : A → Outcome A
  deadline : Outcome A
  out_of_fuel : Outcome A

abbrev pub Action : Type 0 → Type 0
Action A = Session → Outcome A × Session

abbrev pub and_then : {A B : Type 0} → Outcome A × Session → (A → Action B) → Outcome B × Session
and_then (ok a, t) f = f a t
and_then (deadline, t) f = (deadline, t)
and_then (out_of_fuel, t) f = (out_of_fuel, t)

-- `abbrev`, so that a do block computes.
infixl 5 ◌>>=◌ ◌>>◌
abbrev pub ◌>>=◌ : {A B : Type 0} → Action A → (A → Action B) → Action B
◌>>=◌ m f s = and_then (m s) f

abbrev pub ◌>>◌ : {B : Type 0} → Action (Unit {0}) → Action B → Action B
m >> k = m >>= λ _. k

abbrev pub pure : {A : Type 0} → A → Action A
pure a s = (ok a, s)

-- budget["edges"] += 1
abbrev pub count_edge : Action (Unit {0})
count_edge s = (ok tt, record s { edges = s.edges + 1 })

-- budget["visited"] += 1
abbrev pub count_visit : Action (Unit {0})
count_visit s = (ok tt, record s { visited = s.visited + 1 })

-- A query with deadline_seconds=_remaining(deadline).
unfoldable pub query : {A : Type 0} → Clock → A → Action A
query clock answer s =
    let t = record s { readings = s.readings + 1 } in
    if clock.expired s.readings || clock.interrupted s.readings
    then (deadline, t)
    else (ok answer, t)

-- A query with a time of its own, max(0.001, min(2.0, deadline - time.monotonic())): the clock is read
-- and does not raise. An interrupted one raises, which ends the search as a deadline does.
unfoldable pub timed_query : {A : Type 0} → Clock → A → Action A
timed_query clock answer s =
    let t = record s { readings = s.readings + 1 } in
    if clock.interrupted s.readings then (deadline, t) else (ok answer, t)

abbrev pub remember : Text → Option Fact → Action (Option Fact)
remember key fact s = (ok fact, record s { facts = insert key fact s.facts })

module _ (catalog : Catalog) (clock : Clock) where
  -- _database_fact
  unfoldable pub database_fact : Text → Action (Option Fact)
  database_fact key s = elim (lookup key s.facts) [
    | some fact ↦ (ok fact, s)
    | none ↦ (query clock (catalog.fact key) >>= remember key) s
  ]

  -- The facts of both ends, and the tests on them.
  unfoldable pub facts_checked : Edge → Action Bool
  facts_checked edge = do
    source ← database_fact edge.source_key
    target ← database_fact edge.target_key
    pure (facts_allow (text_eq edge.kind (codes "HAS_EVIDENCE")) source target)

  -- _database_edge_allowed
  unfoldable pub database_edge_allowed : Edge → Action Bool
  database_edge_allowed edge =
      if is_native_kind edge.kind
      then pure true
      else if is_routine_kind edge.kind
      then facts_checked edge
      else pure false
