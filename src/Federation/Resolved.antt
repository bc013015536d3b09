-- ===== src/Federation/Resolved.antt =====
-- What a resolution rests on: _resolve of src/codekg/federation.py.
use my_kg_codebase.Prelude.{
  ◌≡◌, ◌≢◌, refl, sym, subst, ◌∙◌, Bool, true, false, ◌⊎◌, inl, inr, Option, none, some, List, [],
  ◌∷◌, is_empty, arith, Bool-cases,
}
use my_kg_codebase.Prelude.Text.{Text, codes}
use my_kg_codebase.Federation.Facts.{Fact, is_among}
use my_kg_codebase.Federation.Session.{Clock, Session, ◌>>=◌, pure, query}
use my_kg_codebase.Federation.Sound.{Yields, Yields-and_then, Yields-weaken}
use my_kg_codebase.Federation.Resolve.{
  ResolveStatus, unresolved, dynamic, documentation, exact, Candidates, Side, Context, Resolution,
  concluded, settle, settle_or, schemas_of, own_query, database_query, with_condition,
  resolve_schemas, resolve_name, resolve_object, resolve_evidence,
}
use my_kg_codebase.Federation.Exact.{IsExact, settle-IsExact, query-answer, settle_or-Yields}

module _ (app db : Side) (context : Context) (postgres_alias : Text) (evidence : Fact) where
  abbrev pub own_answer : Text → Option Text → Candidates
  own_answer name scope = app.routine_candidates (own_query app evidence name scope)

  abbrev pub database_answer : Text → Option Text → Candidates
  database_answer name scope =
      db.routine_candidates (database_query context postgres_alias evidence name scope)

  -- Neither graph has a candidate in the schema.
  abbrev pub IsVoid : Text → Option Text → Type 0
  IsVoid name scope =
      ((own_answer name scope).items ≡ []) × ((database_answer name scope).items ≡ [])

  -- The candidates are the application's of the first schema where either graph has any, and the
  -- database's only where the application has none in it.
  abbrev pub IsFirst : Text → List (Option Text) → Resolution → Type 0
  IsFirst name [] r = r.candidates ≡ []
  IsFirst name (scope ∷ schemas) r =
      ((r.of_application ≡ true)
        × (r.candidates ≡ (own_answer name scope).items)
        × ((own_answer name scope).items ≢ []))
      ⊎ ((r.of_application ≡ false)
          × (r.candidates ≡ (database_answer name scope).items)
          × ((own_answer name scope).items ≡ [])
          × ((database_answer name scope).items ≢ []))
      ⊎ (IsVoid name scope × IsFirst name schemas r)

  -- The evidence names a routine that is looked for: it is not dynamic, and no documentation.
  abbrev pub IsSought : Text → Type 0
  IsSought name =
      (evidence.object_name ≡ some name)
      × (is_empty name ≡ false)
      × (evidence.dynamic ≡ false)
      × (is_among evidence.origin (codes "markdown_sql" ∷ codes "markdown_mention" ∷ []) ≡ false)

  abbrev pub IsGrounded : Resolution → Type 0
  IsGrounded r =
      IsExact evidence r
      × ((name : Text) → IsSought name → IsFirst name (schemas_of context evidence.schema_name) r)

module _ (app db : Side) (clock : Clock) (context : Context) (postgres_alias : Text)
    (evidence : Fact) where
  abbrev Settled : Text → List (Option Text) → Resolution → Type 0
  Settled name schemas r =
      IsExact evidence (with_condition evidence r)
      × IsFirst app db context postgres_alias evidence name schemas r

  resolve_schemas-Settled :
      (name : Text) (schemas : List (Option Text)) (s : Session)
      → evidence.dynamic ≡ false
      → Yields clock
          (λ r t. Settled name schemas r)
          (resolve_schemas app db clock context postgres_alias evidence name schemas s)
  unfolding resolve_schemas with_condition settle
  resolve_schemas-Settled name [] s still = (λ h. absurd (ground (arith, h)), refl)
  resolve_schemas-Settled name (scope ∷ schemas) s still =
      let own = own_answer app db context postgres_alias evidence name scope in
      let other = database_answer app db context postgres_alias evidence name scope in
      let later = resolve_schemas app db clock context postgres_alias evidence name schemas in
      let P = λ (r : Resolution) (t : Session). Settled name (scope ∷ schemas) r in
      Yields-and_then clock (λ a t. a ≡ own) P (query clock own s)
        (settle_or evidence true (query clock other >>= settle_or evidence false later))
        (query-answer clock own s)
        (λ a t p.
          settle_or-Yields clock P own evidence true
            (query clock other >>= settle_or evidence false later) a t p
            (λ full. (settle-IsExact evidence true own still, inl (refl, refl, full)))
            (λ void u.
              Yields-and_then clock (λ b v. b ≡ other) P (query clock other u)
                (settle_or evidence false later) (query-answer clock other u)
                (λ b v q.
                  settle_or-Yields clock P other evidence false later b v q
                    (λ full. (
                      settle-IsExact evidence false other still,
                      inr (inl (refl, refl, void, full)),
                    ))
                    (λ blank w.
                      Yields-weaken clock (λ r x. Settled name schemas r) P (later w)
                        (λ r x g. (g.0, inr (inr ((void, blank), g.1))))
                        (resolve_schemas-Settled name schemas w still)))))

  with_condition-IsFirst :
      (name : Text) (schemas : List (Option Text)) (r : Resolution)
      → IsFirst app db context postgres_alias evidence name schemas r
      → IsFirst app db context postgres_alias evidence name schemas (with_condition evidence r)
  unfolding with_condition
  with_condition-IsFirst name [] r h = h
  with_condition-IsFirst name (scope ∷ schemas) r (inl h) = inl h
  with_condition-IsFirst name (scope ∷ schemas) r (inr (inl h)) = inr (inl h)
  with_condition-IsFirst name (scope ∷ schemas) r (inr (inr (void, h))) =
      inr (inr (void, with_condition-IsFirst name schemas r h))

  plain_IsExact :
      (status : ResolveStatus) → (status ≡ exact → ⊥) → IsExact evidence (concluded status)
  plain_IsExact status other h = absurd (other h)

  resolve_name-documents :
      (name : Text) (s : Session)
      → is_among evidence.origin (codes "markdown_sql" ∷ codes "markdown_mention" ∷ []) ≡ true
      → resolve_name app db clock context postgres_alias evidence name s
        ≡ pure (concluded documentation) s
  unfolding resolve_name
  resolve_name-documents name s e = rw (resolve_name, e) refl

  resolve_name-sought :
      (name : Text) (s : Session)
      → is_among evidence.origin (codes "markdown_sql" ∷ codes "markdown_mention" ∷ []) ≡ false
      → resolve_name app db clock context postgres_alias evidence name s
        ≡ (resolve_schemas app db clock context postgres_alias evidence name
                (schemas_of context evidence.schema_name)
              >>= λ result. pure (with_condition evidence result))
            s
  unfolding resolve_name resolve_schemas
  resolve_name-sought name s e = rw (resolve_name, e) refl

  resolve_name-IsGrounded :
      (name : Text) (s : Session)
      → evidence.dynamic ≡ false
      → evidence.object_name ≡ some name
      → Yields clock
          (λ r t. IsGrounded app db context postgres_alias evidence r)
          (resolve_name app db clock context postgres_alias evidence name s)
  unfolding with_condition
  resolve_name-IsGrounded name s still named =
      let documents =
        is_among evidence.origin (codes "markdown_sql" ∷ codes "markdown_mention" ∷ []) in
      let schemas = schemas_of context evidence.schema_name in
      let P =
        λ (r : Resolution) (t : Session). IsGrounded app db context postgres_alias evidence r in
      elim (Bool-cases documents) [
        | inl e ↦ subst (Yields clock P) (sym (resolve_name-documents name s e)) (
          plain_IsExact documentation (λ h. absurd (ground (arith, h))),
          λ other sought. absurd (ground (arith, sought, e)),
        )
        | inr e ↦ subst (Yields clock P) (sym (resolve_name-sought name s e)) (
            Yields-and_then clock (λ r t. Settled name schemas r) P
              (resolve_schemas app db clock context postgres_alias evidence name schemas s)
              (λ result. pure (with_condition evidence result))
              (resolve_schemas-Settled name schemas s still)
              (λ r t p. (
                p.0,
                λ other sought.
                    let same : some name ≡ some other = sym named ∙ sought.0 in
                    let one : name ≡ other = cc same in
                    subst
                      (λ n.
                        IsFirst app db context postgres_alias evidence n schemas
                          (with_condition evidence r))
                      one (with_condition-IsFirst name schemas r p.1),
              )))
      ]

  resolve_object-IsGrounded :
      (is_dynamic : Bool) (object_name : Option Text) (s : Session)
      → evidence.dynamic ≡ is_dynamic
      → evidence.object_name ≡ object_name
      → Yields clock
          (λ r t. IsGrounded app db context postgres_alias evidence r)
          (resolve_object app db clock context postgres_alias evidence is_dynamic object_name s)
  unfolding resolve_object
  resolve_object-IsGrounded true object_name s d n = (
    plain_IsExact dynamic (λ h. absurd (ground (arith, h))),
    λ other sought. absurd (ground (arith, sought.2, d)),
  )
  resolve_object-IsGrounded false none s d n = (
    plain_IsExact unresolved (λ h. absurd (ground (arith, h))),
    λ other sought. absurd (ground (arith, sought.0, n)),
  )
  resolve_object-IsGrounded false (some name) s d n = elim (Bool-cases (is_empty name)) [
    | inl e ↦
        rw (resolve_object, e)
          (
            plain_IsExact unresolved (λ h. absurd (ground (arith, h))),
            λ other sought.
                let same : some name ≡ some other = sym n ∙ sought.0 in
                let one : name ≡ other = cc same in
                absurd (ground (arith, sought.1, subst (λ x. is_empty x ≡ true) one e)),
          )
    | inr e ↦ rw (resolve_object, e) (resolve_name-IsGrounded name s d n)
  ]

-- For both graphs, every clock, context and evidence: `_resolve` ends, and with the deadline only if
-- the clock says so. An exact resolution has one candidate, whose signature takes the call, with
-- evidence that is neither dynamic nor conditional nor of an unverified receiver, and a candidate
-- that is not conditional, in a result that is not truncated. Of evidence that names a routine, the
-- candidates are those of the first schema in which either graph has any: the application's, or the
-- database's where the application has none there; and none where no schema has any.
pub resolve_evidence-IsGrounded :
    (app db : Side) (clock : Clock) (context : Context) (postgres_alias : Text) (evidence : Fact)
    (s : Session)
    → Yields clock
        (λ r t. IsGrounded app db context postgres_alias evidence r)
        (resolve_evidence app db clock context postgres_alias evidence s)
unfolding resolve_evidence
resolve_evidence-IsGrounded app db clock context postgres_alias evidence s =
    resolve_object-IsGrounded app db clock context postgres_alias evidence evidence.dynamic
      evidence.object_name s refl refl
