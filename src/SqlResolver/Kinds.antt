-- ===== src/SqlResolver/Kinds.antt =====
-- The kinds that a reference can mean, told apart from the sets of kinds that `_compatible_kinds` of
-- src/codekg/sql_resolver.py gives.
use my_kg_codebase.Prelude.{
  ◌≡◌, ◌≢◌, refl, sym, subst, true, ◌⊎◌, inl, inr, List, [], ◌∷◌, All, arith, Bool-cases,
}
use my_kg_codebase.Prelude.Text.{Text, codes, contains, text_eq, text_eq_sound, text_eq_refl}
use my_kg_codebase.Prelude.Occurs.{Occurs}
use my_kg_codebase.Ir.Sql.{SqlObjectRefIr, SqlObjectRole}
use my_kg_codebase.SqlResolver.{known_object_kinds, relation_kinds, routine_kinds}
use my_kg_codebase.SqlResolver.Lookup.{compatible_kinds}

-- A reference to a table can mean a view or a materialized view as well, one to a routine a
-- function or a procedure, and any other an object of its own kind.
abbrev pub MeansKind : Text → Text → Type 0
MeansKind hint kind =
    ((hint ≢ codes "routine") × (kind ≡ hint))
    ⊎ ((hint ≡ codes "table") × ((kind ≡ codes "view") ⊎ (kind ≡ codes "materialized_view")))
    ⊎ ((hint ≡ codes "routine") × ((kind ≡ codes "function") ⊎ (kind ≡ codes "procedure")))

-- A definition is of its own kind only.
abbrev pub OfKind : SqlObjectRefIr → Text → Text → Type 0
OfKind ref hint kind =
    ((ref.role ≡ SqlObjectRole.define) × (kind ≡ hint))
    ⊎ ((ref.role ≢ SqlObjectRole.define) × MeansKind hint kind)

-- The kinds are those that the reference can mean.
abbrev pub AreKinds : SqlObjectRefIr → Text → List Text → Type 0
AreKinds ref hint kinds =
    ((kind : Text) → contains kind kinds ≡ true → OfKind ref hint kind)
    × ((kind : Text) → OfKind ref hint kind → contains kind kinds ≡ true)

pub contains-Occurs : (k : Text) (l : List Text) → contains k l ≡ true → Occurs k l
unfolding contains
contains-Occurs k [] h = absurd (ground (arith, h))
contains-Occurs k (j ∷ l) h = elim (Bool-cases (text_eq k j)) [
  | inl e ↦ inl (text_eq_sound k j e)
  | inr e ↦ inr (contains-Occurs k l (ground (arith, h, e)))
]

pub All-Occurs : (P : Text → Type 0) (k : Text) (l : List Text) → All P l → Occurs k l → P k
All-Occurs P k [] h o = absurd o
All-Occurs P k (j ∷ l) h (inl e) = subst P (sym e) h.0
All-Occurs P k (j ∷ l) h (inr o) = All-Occurs P k l h.1 o

pub All-contains :
    (P : Text → Type 0) (k : Text) (l : List Text) → All P l → contains k l ≡ true → P k
All-contains P k l h c = All-Occurs P k l h (contains-Occurs k l c)

-- What holds of every known kind
abbrev Means : Text → Type 0
Means hint = (kind : Text) → contains kind (compatible_kinds hint) ≡ true → MeansKind hint kind

abbrev IsMeant : Text → Type 0
IsMeant hint = contains hint (compatible_kinds hint) ≡ true

itself : (hint : Text) → hint ≢ codes "routine" → compatible_kinds hint ≡ hint ∷ [] → Means hint
itself hint other alone kind c = elim (contains-Occurs kind (hint ∷ []) (rw alone at c)) [
  | inl e ↦ inl (other, e)
  | inr o ↦ absurd o
]

table-Means : Means (codes "table")
unfolding compatible_kinds
table-Means kind c = elim (contains-Occurs kind relation_kinds c) [
  | inl e ↦ inl ((λ r. ground (arith, r)), e)
  | inr (inl e) ↦ inr (inl (refl, inl e))
  | inr (inr (inl e)) ↦ inr (inl (refl, inr e))
  | inr (inr (inr o)) ↦ absurd o
]

routine-Means : Means (codes "routine")
unfolding compatible_kinds
routine-Means kind c = elim (contains-Occurs kind routine_kinds c) [
  | inl e ↦ inr (inr (refl, inl e))
  | inr (inl e) ↦ inr (inr (refl, inr e))
  | inr (inr o) ↦ absurd o
]

known-Means : All Means known_object_kinds
unfolding compatible_kinds
known-Means = (
  table-Means,
  (
    itself (codes "view") (λ r. ground (arith, r)) refl,
    (
      itself (codes "materialized_view") (λ r. ground (arith, r)) refl,
      (
        itself (codes "sequence") (λ r. ground (arith, r)) refl,
        (
          itself (codes "index") (λ r. ground (arith, r)) refl,
          (
            itself (codes "statistics") (λ r. ground (arith, r)) refl,
            (
              itself (codes "function") (λ r. ground (arith, r)) refl,
              (
                itself (codes "procedure") (λ r. ground (arith, r)) refl,
                (
                  itself (codes "schema") (λ r. ground (arith, r)) refl,
                  (
                    itself (codes "extension") (λ r. ground (arith, r)) refl,
                    (itself (codes "type") (λ r. ground (arith, r)) refl, tt),
                  ),
                ),
              ),
            ),
          ),
        ),
      ),
    ),
  ),
)

known-IsMeant : All IsMeant known_object_kinds
unfolding compatible_kinds
known-IsMeant =
    (refl, (refl, (refl, (refl, (refl, (refl, (refl, (refl, (refl, (refl, (refl, tt)))))))))))

meant-compatible_kinds :
    (hint kind : Text)
    → Occurs hint known_object_kinds
    → MeansKind hint kind
    → contains kind (compatible_kinds hint) ≡ true
unfolding compatible_kinds
meant-compatible_kinds hint kind known (inl (other, e)) =
    subst (λ k. contains k (compatible_kinds hint) ≡ true) (sym e)
      (All-Occurs IsMeant hint known_object_kinds known-IsMeant known)
meant-compatible_kinds hint kind known (inr (inl (e, inl v))) = rw (e, v) refl
meant-compatible_kinds hint kind known (inr (inl (e, inr v))) = rw (e, v) refl
meant-compatible_kinds hint kind known (inr (inr (e, inl v))) = rw (e, v) refl
meant-compatible_kinds hint kind known (inr (inr (e, inr v))) = rw (e, v) refl

meant-routine_kinds :
    (kind : Text)
    → MeansKind (codes "routine") kind
    → contains kind (compatible_kinds (codes "routine")) ≡ true
unfolding compatible_kinds
meant-routine_kinds kind (inl (other, e)) = absurd (other refl)
meant-routine_kinds kind (inr (inl (e, v))) = absurd (ground (arith, e))
meant-routine_kinds kind (inr (inr (e, inl v))) = rw v refl
meant-routine_kinds kind (inr (inr (e, inr v))) = rw v refl

-- The kinds that are searched for a reference other than a definition are those that it can mean.
pub AreKinds-compatible_kinds :
    (ref : SqlObjectRefIr) (hint : Text)
    → ref.role ≢ SqlObjectRole.define
    → contains hint (codes "routine" ∷ known_object_kinds) ≡ true
    → AreKinds ref hint (compatible_kinds hint)
AreKinds-compatible_kinds ref hint used known =
    elim (contains-Occurs hint (codes "routine" ∷ known_object_kinds) known) [
      | inl e ↦
          subst (λ h. AreKinds ref h (compatible_kinds h)) (sym e)
            (
              (λ kind c. inr (used, routine-Means kind c)),
              λ kind m. elim m [
                | inl (define, _) ↦ absurd (used define)
                | inr (_, means) ↦ meant-routine_kinds kind means
              ],
            )
      | inr o ↦ (
        (λ kind c. inr (used, All-Occurs Means hint known_object_kinds known-Means o kind c)),
        λ kind m. elim m [
          | inl (define, _) ↦ absurd (used define)
          | inr (_, means) ↦ meant-compatible_kinds hint kind o means
        ],
      )
    ]

-- A definition searches its own kind.
pub AreKinds-own :
    (ref : SqlObjectRefIr) (hint : Text)
    → ref.role ≡ SqlObjectRole.define
    → AreKinds ref hint (hint ∷ [])
unfolding contains
AreKinds-own ref hint define = (
  (λ kind c. elim (contains-Occurs kind (hint ∷ []) c) [
    | inl e ↦ inl (define, e)
    | inr o ↦ absurd o
  ]),
  λ kind m. elim m [
    | inl (_, e) ↦ rw (e, text_eq_refl hint) refl
    | inr (used, _) ↦ absurd (used define)
  ],
)
