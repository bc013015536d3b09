-- ===== src/Federation/Sound.antt =====
-- What the search may use of a catalog, without the cache and the clock: _database_edge_allowed
-- of src/codekg/federation.py.
use my_kg_codebase.Prelude.{
  ℕ, ◌≡◌, refl, sym, ◌∙◌, subst, Bool, true, false, ◌||◌, inl, inr, Option, some, if◌then◌else◌,
  Bool-cases, Option-cases,
}
use my_kg_codebase.Prelude.Text.{Text, codes, text_eq, text_eq_sound}
use my_kg_codebase.Prelude.Dict.{lookup, insert, lookup-insert}
use my_kg_codebase.Federation.Facts.{Fact, Edge, facts_allow, is_native_kind, is_routine_kind}
use my_kg_codebase.Federation.Session.{
  Catalog, Clock, Session, Outcome, ok, deadline, out_of_fuel, Action, and_then, ◌>>=◌, pure,
  remember, query, database_fact, facts_checked, database_edge_allowed,
}

-- The edges that the search may take.
unfoldable pub allows : Catalog → Edge → Bool
allows catalog edge =
    if is_native_kind edge.kind
    then true
    else if is_routine_kind edge.kind
    then facts_allow (text_eq edge.kind (codes "HAS_EVIDENCE")) (catalog.fact edge.source_key)
        (catalog.fact edge.target_key)
    else false

-- The cached facts are the catalog's.
abbrev pub HasFacts : Catalog → Session → Type 0
HasFacts catalog s =
    (key : Text) (fact : Option Fact) → lookup key s.facts ≡ some fact → fact ≡ catalog.fact key

-- An outcome that is no lack of fuel; if there is a value, it has the property with the state that
-- is left. A deadline comes only of the clock.
abbrev pub Yields : {A : Type 0} → Clock → (A → Session → Type 0) → Outcome A × Session → Type 0
Yields clock P (ok a, t) = P a t
Yields clock P (deadline, t) = (n : ℕ) × ((clock.expired n || clock.interrupted n) ≡ true)
Yields clock P (out_of_fuel, t) = ⊥

pub Yields-and_then :
    {A B : Type 0} (clock : Clock) (P : A → Session → Type 0) (Q : B → Session → Type 0)
    (r : Outcome A × Session) (f : A → Action B)
    → Yields clock P r
    → ((a : A) (t : Session) → P a t → Yields clock Q (f a t))
    → Yields clock Q (and_then r f)
Yields-and_then clock P Q (ok a, t) f h k = k a t h
Yields-and_then clock P Q (deadline, t) f h k = h
Yields-and_then clock P Q (out_of_fuel, t) f h k = h

pub Yields-weaken :
    {A : Type 0} (clock : Clock) (P Q : A → Session → Type 0) (r : Outcome A × Session)
    → ((a : A) (t : Session) → P a t → Q a t)
    → Yields clock P r
    → Yields clock Q r
Yields-weaken clock P Q (ok a, t) k h = k a t h
Yields-weaken clock P Q (deadline, t) k h = h
Yields-weaken clock P Q (out_of_fuel, t) k h = h

-- The budget is as before, and the facts are the catalog's.
abbrev pub Keeps : Catalog → Session → Session → Type 0
Keeps catalog s t = HasFacts catalog t × (t.visited ≡ s.visited) × (t.edges ≡ s.edges)

module _ (catalog : Catalog) (clock : Clock) where
  pub query-Yields :
      {A : Type 0} (answer : A) (s : Session)
      → HasFacts catalog s
      → Yields clock
          (λ a t. (a ≡ answer) × Keeps catalog s t × (t.facts ≡ s.facts))
          (query clock answer s)
  unfolding query
  query-Yields answer s h =
      elim (Bool-cases (clock.expired s.readings || clock.interrupted s.readings)) [
        | inl e ↦ rw e (s.readings, e)
        | inr e ↦ rw e (refl, (h, refl, refl), refl)
      ]

  HasFacts-remember :
      (key : Text) (s : Session)
      → HasFacts catalog s
      → HasFacts catalog (record s { facts = insert key (catalog.fact key) s.facts })
  HasFacts-remember key s h other fact found = elim (Bool-cases (text_eq key other)) [
    | inl e ↦
        let same = text_eq_sound key other e in
        let there : some (catalog.fact key) ≡ some fact =
          rw (lookup-insert key other (catalog.fact key) s.facts, e) at found in
        let fact' : catalog.fact key ≡ fact = cc there in rw (← same) (sym fact')
    | inr e ↦ h other fact (rw (lookup-insert key other (catalog.fact key) s.facts, e) at found)
  ]

  database_fact-Yields :
      (key : Text) (s : Session)
      → HasFacts catalog s
      → Yields clock
          (λ a t. (a ≡ catalog.fact key) × Keeps catalog s t)
          (database_fact catalog clock key s)
  unfolding database_fact
  database_fact-Yields key s h = elim (Option-cases (lookup key s.facts)) [
    | inr (fact, found) ↦ rw (database_fact, found) (h key fact found, (h, refl, refl))
    | inl absent ↦
        rw (database_fact, absent)
          (Yields-and_then clock
            (λ a t. (a ≡ catalog.fact key) × Keeps catalog s t × (t.facts ≡ s.facts))
            (λ a t. (a ≡ catalog.fact key) × Keeps catalog s t) (query clock (catalog.fact key) s)
            (remember key) (query-Yields (catalog.fact key) s h)
            (λ a t p. (
              p.0,
              (
                subst (λ f. HasFacts catalog (record t { facts = insert key f t.facts })) (sym p.0)
                    (HasFacts-remember key t p.1.0),
                p.1.1,
                p.1.2,
              ),
            )))
  ]

  facts_checked-Yields :
      (edge : Edge) (s : Session)
      → HasFacts catalog s
      → Yields clock
          (λ allowed t.
            (allowed
              ≡ facts_allow
                  (text_eq edge.kind (codes "HAS_EVIDENCE"))
                  (catalog.fact edge.source_key)
                  (catalog.fact edge.target_key))
            × Keeps catalog s t)
          (facts_checked catalog clock edge s)
  unfolding facts_checked
  facts_checked-Yields edge s h =
      let has_evidence = text_eq edge.kind (codes "HAS_EVIDENCE") in
      let source = catalog.fact edge.source_key in
      let target = catalog.fact edge.target_key in
      Yields-and_then clock (λ a t. (a ≡ source) × Keeps catalog s t)
        (λ allowed t. (allowed ≡ facts_allow has_evidence source target) × Keeps catalog s t)
        (database_fact catalog clock edge.source_key s)
        (λ a.
          database_fact catalog clock edge.target_key >>= λ b. pure (facts_allow has_evidence a b))
        (database_fact-Yields edge.source_key s h)
        (λ a t p.
          Yields-and_then clock (λ b u. (b ≡ target) × Keeps catalog t u)
            (λ allowed u. (allowed ≡ facts_allow has_evidence source target) × Keeps catalog s u)
            (database_fact catalog clock edge.target_key t)
            (λ b. pure (facts_allow has_evidence a b))
            (database_fact-Yields edge.target_key t p.1.0)
            (λ b u q. (rw (p.0, q.0) refl, (q.1.0, q.1.1 ∙ p.1.1, q.1.2 ∙ p.1.2))))

  -- The cache and the clock do not show: an edge is allowed as the facts of the catalog say.
  pub database_edge_allowed-Yields :
      (edge : Edge) (s : Session)
      → HasFacts catalog s
      → Yields clock
          (λ allowed t. (allowed ≡ allows catalog edge) × Keeps catalog s t)
          (database_edge_allowed catalog clock edge s)
  unfolding database_edge_allowed allows
  database_edge_allowed-Yields edge s h = elim (Bool-cases (is_native_kind edge.kind)) [
    | inl e ↦ rw e (refl, (h, refl, refl))
    | inr e ↦ elim (Bool-cases (is_routine_kind edge.kind)) [
      | inr k ↦ rw (e, k) (refl, (h, refl, refl))
      | inl k ↦ rw (e, k) (facts_checked-Yields edge s h)
    ]
  ]
