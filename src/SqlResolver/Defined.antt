-- ===== src/SqlResolver/Defined.antt =====
-- A definition finds the object that the registry keeps of it: build_sql_registry and
-- _resolve_uncached of src/codekg/sql_resolver.py.
use my_kg_codebase.Prelude.{
  ℕ, ◌≡◌, ◌≢◌, refl, sym, ap, ◌∙◌, subst, true, false, not, ◌&&◌, ◌||◌, Option, none, some, List,
  [], ◌∷◌, ◌++◌, filter, length, is_some, arith, Bool-cases, Option-cases, inl, inr, head?,
}
use my_kg_codebase.Prelude.Text.{Text, codes, contains}
use my_kg_codebase.Ir.Sql.{SqlObjectRefIr, SqlObjectRole}
use my_kg_codebase.SqlResolver.{
  SqlObject, SqlStatus, default_database, schemaless, known_object_kinds,
}
use my_kg_codebase.SqlResolver.Registry.{row_fits, conclude, query_candidates}
use my_kg_codebase.SqlResolver.Keys.{some_inj}
use my_kg_codebase.SqlResolver.Lookup.{
  or_text, or_maybe, is_global, resolve_uncached, resolve_definition, definition_schema,
  candidates_in, resolve_named, resolve_with,
}
use my_kg_codebase.SqlResolver.Build.{
  Identity, identity_of, identity, group_rows, build_sql_objects, null_or_empty, schema_column,
  is_define, has_namespace, nullif_empty,
}
use my_kg_codebase.SqlResolver.Build.Groups.{one_if, length-groups_of, defines_split}
use my_kg_codebase.SqlResolver.Build.Fitting.{length-fitting}

-- What a row that passes the WHERE has.
record IsDefinition (r : SqlObjectRefIr) (i : Identity) : Type 0 where
  defining : is_define r.role ≡ true
  static : r.dynamic ≡ false
  name : Text
  kind : Text
  named : r.object_name ≡ some name
  hinted : r.object_kind_hint ≡ some kind
  known : contains kind known_object_kinds ≡ true
  identified : identity name kind r ≡ i

identity_of-IsDefinition :
    (r : SqlObjectRefIr) (i : Identity) → identity_of r ≡ some i → IsDefinition r i
unfolding identity_of
identity_of-IsDefinition r i h = elim (Bool-cases (is_define r.role && not r.dynamic)) [
  | inr a ↦ absurd (let gone = rw (a, identity_of) at h in ground (arith, gone))
  | inl a ↦ elim (Option-cases r.object_name) [
    | inl b ↦ absurd (let gone = rw (a, b, identity_of) at h in ground (arith, gone))
    | inr (name, b) ↦ elim (Option-cases r.object_kind_hint) [
      | inl c ↦ absurd (let gone = rw (a, b, c, identity_of) at h in ground (arith, gone))
      | inr (kind, c) ↦
          elim (Bool-cases
            (contains kind known_object_kinds && (is_global kind || has_namespace r))) [
              | inr d ↦
                  absurd (let gone = rw (a, b, c, d, identity_of) at h in ground (arith, gone))
              | inl d ↦ record {
                defining = ground (arith, a);
                static = ground (arith, a);
                name = name;
                kind = kind;
                named = b;
                hinted = c;
                known = ground (arith, d);
                identified =
                    let found : identity_of r ≡ some (identity name kind r) =
                      rw (a, b, c, d, identity_of) refl in
                    some_inj _ _ (sym found ∙ h);
              }
            ]
    ]
  ]
]

default_same : (d : Option Text) → d ≢ some [] → not (is_some d) ≡ null_or_empty d
default_same none h = refl
default_same (some []) h = absurd (h refl)
default_same (some (c ∷ s)) h = refl

or_maybe-nullif :
    (own p : Option Text) (s : Text)
    → or_maybe own (nullif_empty p) ≡ some s
    → (or_maybe own p ≡ some s) × (or_text (some s) schemaless ≡ s)
or_maybe-nullif none none s h = absurd (ground (arith, h))
or_maybe-nullif none (some []) s h = absurd (ground (arith, h))
or_maybe-nullif none (some (c ∷ p)) s h =
    (h, subst (λ x. or_text (some x) schemaless ≡ x) (some_inj _ _ h) refl)
or_maybe-nullif (some []) none s h = absurd (ground (arith, h))
or_maybe-nullif (some []) (some []) s h = absurd (ground (arith, h))
or_maybe-nullif (some []) (some (c ∷ p)) s h =
    (h, subst (λ x. or_text (some x) schemaless ≡ x) (some_inj _ _ h) refl)
or_maybe-nullif (some (c ∷ own)) p s h =
    (h, subst (λ x. or_text (some x) schemaless ≡ x) (some_inj _ _ h) refl)

same_schema :
    (r : SqlObjectRefIr) (kind s : Text)
    → schema_column kind r ≡ some s
    → (definition_schema r kind ≡ some s) × (or_text (some s) schemaless ≡ s)
same_schema r kind s h = elim (Bool-cases (is_global kind)) [
  | inl e ↦
      let whole : some schemaless ≡ some s = rw e at h in
      (rw e whole, subst (λ x. or_text (some x) schemaless ≡ x) (some_inj _ _ whole) refl)
  | inr e ↦
      let (found, plain) = or_maybe-nullif r.schema_name (head? r.search_path) s (rw e at h) in
      (rw e found, plain)
]

define_resolves_to :
    (registry : List SqlObject) (r : SqlObjectRefIr) (role : SqlObjectRole) (name kind : Text)
    → is_define role ≡ true
    → resolve_named registry r role name kind ≡ resolve_definition registry r name kind
define_resolves_to registry r SqlObjectRole.define name kind h = refl
define_resolves_to registry r SqlObjectRole.read name kind h = absurd (ground (arith, h))
define_resolves_to registry r SqlObjectRole.write name kind h = absurd (ground (arith, h))
define_resolves_to registry r SqlObjectRole.call name kind h = absurd (ground (arith, h))
define_resolves_to registry r SqlObjectRole.alter name kind h = absurd (ground (arith, h))
define_resolves_to registry r SqlObjectRole.drop name kind h = absurd (ground (arith, h))

-- One candidate makes an exact conclusion.
conclude_one :
    (r : SqlObjectRefIr) (found : ℕ × List Text)
    → found.0 ≡ 1
    → (conclude r found true).status ≡ SqlStatus.exact
unfolding conclude
conclude_one r (count, found) h = rw h refl

known_or_routine :
    (kind : Text)
    → contains kind known_object_kinds ≡ true
    → contains kind (codes "routine" ∷ known_object_kinds) ≡ true
unfolding contains
known_or_routine kind h = ground (arith, h)

resolve_uncached_named :
    (registry : List SqlObject) (r : SqlObjectRefIr) (name kind : Text)
    → r.dynamic ≡ false
    → r.object_name ≡ some name
    → r.object_kind_hint ≡ some kind
    → contains kind (codes "routine" ∷ known_object_kinds) ≡ true
    → resolve_uncached registry r ≡ resolve_named registry r r.role name kind
unfolding resolve_uncached
resolve_uncached_named registry r name kind a b c d =
    (λ i. resolve_with registry r (a i) (b i) (c i)) ∙ rw d refl

resolves_as_definition :
    (registry : List SqlObject) (r : SqlObjectRefIr) (i : Identity) (d : IsDefinition r i)
    → resolve_uncached registry r ≡ resolve_definition registry r d.name d.kind
resolves_as_definition registry r i d =
    resolve_uncached_named registry r d.name d.kind d.static d.named d.hinted
      (known_or_routine d.kind d.known)
    ∙ define_resolves_to registry r r.role d.name d.kind d.defining

-- The candidates of a definition are counted among the rows that fit its identity.
definition_status :
    (registry : List SqlObject) (r : SqlObjectRefIr) (name kind schema : Text)
    → r.database_name ≢ some []
    → schema_column kind r ≡ some schema
    → length (
        filter
          (row_fits
            (or_text r.database_name default_database)
            (null_or_empty r.database_name)
            (schema ∷ [])
            (kind ∷ [])
            name
            true
            r.signature_hint)
          registry)
      ≡ 1
    → (resolve_definition registry r name kind).status ≡ SqlStatus.exact
unfolding resolve_definition query_candidates
definition_status registry r name kind schema explicit column one =
    let (found, plain) = same_schema r kind schema column in
    let flag = default_same r.database_name explicit in
    let counted : (candidates_in registry r true (kind ∷ []) name
          (or_text (some schema) schemaless ∷ [])).0
        ≡ 1 =
      ap
        (λ s. length (
          filter
            (row_fits (or_text r.database_name default_database) (not (is_some r.database_name))
              (s ∷ []) (kind ∷ []) name true r.signature_hint)
            registry))
        plain
      ∙ ap
          (λ b. length (
            filter
              (row_fits (or_text r.database_name default_database) b (schema ∷ []) (kind ∷ []) name
                true r.signature_hint)
              registry))
          flag
      ∙ one in
    rw (found, resolve_definition) (conclude_one r _ counted)

-- If the registry of some rows could be built, and one of the rows is a definition that passes the
-- WHERE and whose database name is not the empty text, then the reference of that row resolves
-- exactly in the registry: each object is stored once, however often and wherever it is defined.
pub build_sql_objects-exact :
    (repo_prefix path : Text) (before after : List (Text × SqlObjectRefIr)) (r : SqlObjectRefIr)
    (registry : List SqlObject) (i : Identity) (schema : Text)
    → build_sql_objects repo_prefix (before ++ (path, r) ∷ after) ≡ some registry
    → identity_of r ≡ some i
    → i.schema_name ≡ some schema
    → r.database_name ≢ some []
    → (resolve_uncached registry r).status ≡ SqlStatus.exact
unfolding build_sql_objects
build_sql_objects-exact repo_prefix path before after r registry i schema built defined placed
      explicit =
    let d = identity_of-IsDefinition r i defined in
    let rows = before ++ (path, r) ∷ after in
    let one : length (
          filter
            (row_fits i.database_name i.database_is_default (schema ∷ []) (i.kind ∷ [])
              i.object_name true i.signature)
            registry)
        ≡ 1 =
      length-fitting repo_prefix (group_rows rows) registry i schema placed built
      ∙ length-groups_of i rows
      ∙ ap one_if (defines_split i before after path r defined) in
    ap (λ res. res.status) (resolves_as_definition registry r i d)
    ∙ definition_status registry r d.name d.kind schema explicit
        (ap (λ j. j.schema_name) d.identified ∙ placed)
        (subst
          (λ j.
            length (
              filter
                (row_fits j.database_name j.database_is_default (schema ∷ []) (j.kind ∷ [])
                  j.object_name true j.signature)
                registry)
            ≡ 1)
          (sym d.identified) one)
