-- ===== src/SqlResolver/Exact.antt =====
-- What an exact conclusion of `_resolve_uncached` in src/codekg/sql_resolver.py rests on.
use my_kg_codebase.Prelude.{
  take, ◌≤◌, ◌≡◌, refl, ap, Bool, true, false, ◌&&◌, ◌⊎◌, inl, inr, ◌≢◌, none, some, List, [], ◌∷◌,
  map, length, All, if◌then◌else◌, arith, Bool-cases, Option, Option-cases, is_empty, ◌==◌, leb,
  head?,
}
use my_kg_codebase.Prelude.Text.{Text, codes, contains}
use my_kg_codebase.Ir.Sql.{SqlObjectRefIr, SqlObjectRole}
use my_kg_codebase.SqlResolver.{
  SqlObject, SqlResolution, SqlStatus, exact, max_candidates, known_object_kinds, direct_kinds,
  routine_kinds, schemaless,
}
use my_kg_codebase.SqlResolver.Registry.{query_candidates, conclude, sort_keys, without_object}
use my_kg_codebase.SqlResolver.Lookup.{
  resolve_uncached, resolve_definition, resolve_use, resolve_routine, first_visible,
  definition_schema, has_safe_signature, compatible_kinds, subset, is_global, own_or, or_text,
  in_schema, candidates_in, resolve_named, resolve_with,
}
use my_kg_codebase.SqlResolver.Kinds.{AreKinds, AreKinds-own, AreKinds-compatible_kinds}
use my_kg_codebase.SqlResolver.Alone.{matching, IsAlone, one-IsAlone}
use my_kg_codebase.SqlResolver.Visible.{
  Visible, length-take-bound, length-take-le, length-sort_keys, one_row, single_keys, not_exact,
  definition_schema-Visible, path-Visible, own_or-Visible, others-Visible,
}

pub record IsGrounded (registry : List SqlObject) (ref : SqlObjectRefIr) (res : SqlResolution)
    : Type 0 where
  pub bounded : length res.candidate_keys ≤ max_candidates
  pub counted : length res.candidate_keys ≤ res.candidate_count
  pub targets_exact : (res.status ≡ exact) ⊎ (res.object_key ≡ none)
  pub exact_alone : res.status ≡ exact → IsAlone registry ref res

module _ (registry : List SqlObject) (ref : SqlObjectRefIr) where
  abbrev Grounded : SqlResolution → Type 0
  Grounded res = IsGrounded registry ref res

  without_object-Grounded : (s : SqlStatus) → s ≢ exact → Grounded (without_object ref s)
  without_object-Grounded s h = record {
    bounded = unfold max_candidates in omega arith;
    counted = omega arith;
    targets_exact = inr refl;
    exact_alone = λ e. absurd (h e);
  }

  unresolved-Grounded : Grounded (without_object ref SqlStatus.unresolved)
  unresolved-Grounded = without_object-Grounded SqlStatus.unresolved (λ e. cc)

  conclude-Grounded :
      (strict : Bool) (kinds : List Text) (name hint : Text) (schemas : List Text)
      (allow_exact : Bool)
      → ref.object_name ≡ some name
      → ref.object_kind_hint ≡ some hint
      → AreKinds ref hint kinds
      → All (Visible ref) schemas
      → Grounded (conclude ref (candidates_in registry ref strict kinds name schemas) allow_exact)
  unfolding conclude query_candidates
  conclude-Grounded strict kinds name hint schemas allow_exact named hinted known seen =
      let rows : List SqlObject = matching registry ref strict kinds name schemas in
      let keys : List Text = take max_candidates (sort_keys (map (λ r. r.key) rows)) in
      let short = length-take-bound max_candidates (sort_keys (map (λ r. r.key) rows)) in
      let fewer = length-take-le max_candidates (sort_keys (map (λ r. r.key) rows)) in
      elim (Bool-cases (length rows == 1 && allow_exact)) [
        | inr e ↦ rw e (record {
          bounded = short;
          counted = omega (arith, fewer, length-sort_keys rows);
          targets_exact = inr refl;
          exact_alone = λ s. absurd (not_exact (leb (length rows) 1) s);
        })
        | inl e ↦
            let (row, one) = one_row rows (ground (arith, e)) in
            rw e (record {
              bounded = short;
              counted = omega (arith, fewer, length-sort_keys rows);
              targets_exact = inl refl;
              exact_alone = λ _.
                  one-IsAlone registry ref _ strict kinds name hint schemas row named hinted known
                    seen one (ap head? (single_keys rows row one)) (single_keys rows row one);
            })
      ]

  first_visible-Grounded :
      (kinds : List Text) (name hint : Text) (schemas : List Text)
      → ref.object_name ≡ some name
      → ref.object_kind_hint ≡ some hint
      → AreKinds ref hint kinds
      → All (Visible ref) schemas
      → Grounded (first_visible ref (in_schema registry ref kinds name) schemas)
  unfolding first_visible
  first_visible-Grounded kinds name hint [] named hinted known seen = unresolved-Grounded
  first_visible-Grounded kinds name hint (s ∷ schemas) named hinted known seen =
      elim (Bool-cases ((in_schema registry ref kinds name s).0 == 0)) [
        | inl e ↦ rw e (first_visible-Grounded kinds name hint schemas named hinted known seen.1)
        | inr e ↦
            rw e (
              conclude-Grounded false kinds name hint (s ∷ []) true named hinted known (seen.0, tt))
      ]

  definition-Grounded :
      (name kind : Text)
      → ref.role ≡ SqlObjectRole.define
      → ref.object_name ≡ some name
      → ref.object_kind_hint ≡ some kind
      → Grounded (resolve_definition registry ref name kind)
  unfolding resolve_definition
  definition-Grounded name kind defines named hinted =
      elim (Option-cases (definition_schema ref kind)) [
        | inl e ↦ rw (e, resolve_definition) unresolved-Grounded
        | inr (s, e) ↦
            rw (e, resolve_definition)
              (conclude-Grounded true (kind ∷ []) name kind (or_text (some s) schemaless ∷ []) true
                named hinted (AreKinds-own ref kind defines)
                (definition_schema-Visible ref kind s e, tt))
      ]

  routine-Grounded :
      (kinds : List Text) (name hint : Text) (schemas : List Text)
      → ref.object_name ≡ some name
      → ref.object_kind_hint ≡ some hint
      → AreKinds ref hint kinds
      → All (Visible ref) schemas
      → Grounded (resolve_routine registry ref kinds name schemas)
  unfolding resolve_routine
  routine-Grounded kinds name hint schemas named hinted known seen =
      elim (Bool-cases (has_safe_signature ref.signature_hint)) [
        | inl e ↦ rw e (first_visible-Grounded kinds name hint schemas named hinted known seen)
        | inr e ↦
            rw e (conclude-Grounded false kinds name hint schemas false named hinted known seen)
      ]

  use-Grounded :
      (name kind : Text)
      → ref.role ≢ SqlObjectRole.define
      → ref.object_name ≡ some name
      → ref.object_kind_hint ≡ some kind
      → contains kind (codes "routine" ∷ known_object_kinds) ≡ true
      → Grounded (resolve_use registry ref name kind)
  unfolding resolve_use
  use-Grounded name kind other named hinted listed =
      let kinds = compatible_kinds kind in
      let known = AreKinds-compatible_kinds ref kind other listed in
      let schemas = own_or ref.schema_name ref.search_path in
      let seen =
        own_or-Visible ref ref.schema_name ref.search_path refl
          (path-Visible ref ref.search_path (λ s m. inr (inl m))) in
      elim (Bool-cases (is_empty kinds)) [
        | inl a ↦ rw (a, resolve_use) unresolved-Grounded
        | inr a ↦ elim (Bool-cases (subset kinds direct_kinds)) [
          | inl b ↦
              rw (a, b, resolve_use)
                (first_visible-Grounded kinds name kind
                  (own_or ref.schema_name
                    (if is_global kind then schemaless ∷ [] else ref.search_path))
                  named hinted known
                  (own_or-Visible ref ref.schema_name _ refl (others-Visible ref kind)))
          | inr b ↦ elim (Bool-cases (is_empty schemas)) [
            | inl c ↦ rw (a, b, c, resolve_use) unresolved-Grounded
            | inr c ↦ elim (Bool-cases (subset kinds routine_kinds)) [
              | inl d ↦
                  rw (a, b, c, d, resolve_use)
                    (routine-Grounded kinds name kind schemas named hinted known seen)
              | inr d ↦
                  rw (a, b, c, d, resolve_use)
                    (first_visible-Grounded kinds name kind schemas named hinted known seen)
            ]
          ]
        ]
      ]

  named-Grounded :
      (role : SqlObjectRole) (name kind : Text)
      → ref.role ≡ role
      → ref.object_name ≡ some name
      → ref.object_kind_hint ≡ some kind
      → contains kind (codes "routine" ∷ known_object_kinds) ≡ true
      → Grounded (resolve_named registry ref role name kind)
  named-Grounded SqlObjectRole.define name kind e named hinted listed =
      definition-Grounded name kind e named hinted
  named-Grounded SqlObjectRole.read name kind e named hinted listed =
      use-Grounded name kind (λ d. cc (d, e)) named hinted listed
  named-Grounded SqlObjectRole.write name kind e named hinted listed =
      use-Grounded name kind (λ d. cc (d, e)) named hinted listed
  named-Grounded SqlObjectRole.call name kind e named hinted listed =
      use-Grounded name kind (λ d. cc (d, e)) named hinted listed
  named-Grounded SqlObjectRole.alter name kind e named hinted listed =
      use-Grounded name kind (λ d. cc (d, e)) named hinted listed
  named-Grounded SqlObjectRole.drop name kind e named hinted listed =
      use-Grounded name kind (λ d. cc (d, e)) named hinted listed

  with-Grounded :
      (moving : Bool) (name hint : Option Text)
      → ref.object_name ≡ name
      → ref.object_kind_hint ≡ hint
      → Grounded (resolve_with registry ref moving name hint)
  with-Grounded true name hint named hinted = without_object-Grounded SqlStatus.dynamic (λ e. cc)
  with-Grounded false none hint named hinted = unresolved-Grounded
  with-Grounded false (some name) none named hinted = unresolved-Grounded
  with-Grounded false (some name) (some kind) named hinted =
      elim (Bool-cases (contains kind (codes "routine" ∷ known_object_kinds))) [
        | inl d ↦ rw d (named-Grounded ref.role name kind refl named hinted d)
        | inr d ↦ rw d unresolved-Grounded
      ]

-- For every registry and reference: a conclusion names at most 32 candidates and not more than it
-- counts; it has a target only if it is exact; and an exact one has as target, and as the only
-- candidate, a row of the registry with the reference's name, of a kind that the reference can
-- mean, in its database, in a schema that it can see, and with its signature where that is a safe
-- one; and no other row of such a kind has that row's database, schema, name and signature. A
-- definition means its own kind only; another reference to a table means views and materialized
-- views too, and one to a routine means functions and procedures.
pub resolve_uncached-IsGrounded :
    (registry : List SqlObject) (ref : SqlObjectRefIr)
    → IsGrounded registry ref (resolve_uncached registry ref)
unfolding resolve_uncached
resolve_uncached-IsGrounded registry ref =
    with-Grounded registry ref ref.dynamic ref.object_name ref.object_kind_hint refl refl
