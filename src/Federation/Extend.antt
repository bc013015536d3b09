-- ===== src/Federation/Extend.antt =====
-- The edges of a page that lengthen a path: the inner loop of _bounded_paths in
-- src/codekg/federation.py.
use my_kg_codebase.Prelude.{
  ℕ, ◌+◌, ◌≡◌, refl, sym, ap, ◌∙◌, subst, Bool, true, not, ◌||◌, inl, inr, List, [], ◌∷◌, ◌++◌,
  append_assoc, append-nil, length, if◌then◌else◌, arith, Bool-cases,
}
use my_kg_codebase.Prelude.Text.{contains}
use my_kg_codebase.Prelude.Occurs.{Occurs}
use my_kg_codebase.Federation.Facts.{Edge}
use my_kg_codebase.Federation.Session.{Catalog, Clock, Session, database_edge_allowed}
use my_kg_codebase.Federation.Paths.{Trail, extended, offer_edges}
use my_kg_codebase.Federation.Sound.{
  allows, HasFacts, Keeps, Yields, Yields-and_then, Yields-weaken, database_edge_allowed-Yields,
}

-- The edge is allowed and leads to a node that is not on the way yet.
unfoldable pub lengthens : Catalog → Trail → Edge → Bool
lengthens catalog trail edge =
    not (not (allows catalog edge) || contains edge.target_key trail.nodes)

unfoldable pub extensions : Catalog → Trail → List Edge → List Trail
extensions catalog trail [] = []
extensions catalog trail (edge ∷ edges) =
    let rest = extensions catalog trail edges in
    if lengthens catalog trail edge then extended trail edge ∷ rest else rest

pub extensions_complete :
    (catalog : Catalog) (trail : Trail) (edges : List Edge) (edge : Edge)
    → Occurs edge edges
    → lengthens catalog trail edge ≡ true
    → Occurs (extended trail edge) (extensions catalog trail edges)
unfolding extensions
extensions_complete catalog trail [] edge o h = absurd o
extensions_complete catalog trail (e ∷ edges) edge (inl same) h =
    let h' : lengthens catalog trail e ≡ true =
      subst (λ x. lengthens catalog trail x ≡ true) same h in
    rw h' (inl (ap (extended trail) same))
extensions_complete catalog trail (e ∷ edges) edge (inr o) h =
    let later = extensions_complete catalog trail edges edge o h in
    elim (Bool-cases (lengthens catalog trail e)) [ inl k ↦ rw k (inr later) | inr k ↦ rw k later ]

-- An extension comes of an edge of the page that lengthens the trail.
pub extensions_sound :
    (catalog : Catalog) (trail longer : Trail) (edges : List Edge)
    → Occurs longer (extensions catalog trail edges)
    → (edge : Edge) × Occurs edge edges
      × (lengthens catalog trail edge ≡ true)
      × (longer ≡ extended trail edge)
unfolding extensions
extensions_sound catalog trail longer [] o = absurd o
extensions_sound catalog trail longer (e ∷ edges) o =
    elim (Bool-cases (lengthens catalog trail e)) [
      | inl k ↦ elim (rw k at o) [
        | inl same ↦ (e, inl refl, k, same)
        | inr p ↦
            let (edge, there, allowed, same) = extensions_sound catalog trail longer edges p in
            (edge, inr there, allowed, same)
      ]
      | inr k ↦
          let (edge, there, allowed, same) =
            extensions_sound catalog trail longer edges (rw k at o) in
          (edge, inr there, allowed, same)
    ]

module _ (catalog : Catalog) (clock : Clock) (trail : Trail) where
  -- The facts are the catalog's, and `seen` edges were counted.
  abbrev pub Counts : Session → ℕ → Session → Type 0
  Counts s seen t = HasFacts catalog t × (t.visited ≡ s.visited) × (t.edges ≡ s.edges + seen)

  offered :
      (edge : Edge) (edges : List Edge) (queue : List Trail)
      → (if not (allows catalog edge) || contains edge.target_key trail.nodes
            then queue
            else queue ++ extended trail edge ∷ [])
          ++ extensions catalog trail edges
        ≡ queue ++ extensions catalog trail (edge ∷ edges)
  unfolding extensions lengthens
  offered edge edges queue =
      elim (Bool-cases (not (allows catalog edge) || contains edge.target_key trail.nodes)) [
        | inl k ↦ rw k refl
        | inr k ↦
            rw k (append_assoc queue (extended trail edge ∷ []) (extensions catalog trail edges))
      ]

  pub offer_edges-Yields :
      (edges : List Edge) (queue : List Trail) (s : Session)
      → HasFacts catalog s
      → Yields clock
          (λ longer t.
            (longer ≡ queue ++ extensions catalog trail edges) × Counts s (length edges) t)
          (offer_edges catalog clock trail edges queue s)
  unfolding offer_edges extensions
  offer_edges-Yields [] queue s h = (sym (append-nil queue), (h, refl, omega arith))
  offer_edges-Yields (edge ∷ edges) queue s h =
      let counted = record s { edges = s.edges + 1 } in
      let next = λ (allowed : Bool).
        if not allowed || contains edge.target_key trail.nodes
        then queue
        else queue ++ extended trail edge ∷ [] in
      Yields-and_then clock (λ allowed t. (allowed ≡ allows catalog edge) × Keeps catalog counted t)
        (λ longer t.
          (longer ≡ queue ++ extensions catalog trail (edge ∷ edges))
          × Counts s (length (edge ∷ edges)) t)
        (database_edge_allowed catalog clock edge counted)
        (λ allowed. offer_edges catalog clock trail edges (next allowed))
        (database_edge_allowed-Yields catalog clock edge counted h)
        (λ allowed t p.
          Yields-weaken clock
            (λ longer u.
              (longer ≡ next allowed ++ extensions catalog trail edges) × Counts t (length edges) u)
            (λ longer u.
              (longer ≡ queue ++ extensions catalog trail (edge ∷ edges))
              × Counts s (length (edge ∷ edges)) u)
            (offer_edges catalog clock trail edges (next allowed) t)
            (λ longer u q. (
              q.0
                  ∙ ap (λ a. next a ++ extensions catalog trail edges) p.0
                  ∙ offered edge edges queue,
              (q.1.0, q.1.1 ∙ p.1.1, omega (arith, q.1.2, p.1.2)),
            ))
            (offer_edges-Yields edges (next allowed) t p.1.0))
