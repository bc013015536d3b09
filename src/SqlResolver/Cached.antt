-- ===== src/SqlResolver/Cached.antt =====
-- `resolve` of SqliteSqlResolverIndex in src/codekg/sql_resolver.py: with the
-- cache of conclusions.
use my_kg_codebase.Prelude.{
  ℕ, ◌≡◌, refl, Bool, true, false, ◌&&◌, Option, none, some, List, [], ◌∷◌, if◌then◌else◌,
  Bool-cases, Option-cases, inl, inr, is_empty, ◌==◌,
}
use my_kg_codebase.Prelude.Text.{Text, codes, text_eq, contains}
use my_kg_codebase.Prelude.Lru.{find, put_last, trim}
use my_kg_codebase.Ir.Sql.{SqlObjectRefIr, SqlObjectRole}
use my_kg_codebase.SqlResolver.{
  SqlObject, SqlResolution, sql_cache_limit, known_object_kinds, direct_kinds, routine_kinds,
  schemaless,
}
use my_kg_codebase.SqlResolver.CacheKey.{CacheKey, cache_key, same_key, keyed_as}
use my_kg_codebase.SqlResolver.Registry.{conclude}
use my_kg_codebase.SqlResolver.Lookup.{
  resolve_uncached, resolve_definition, resolve_use, resolve_routine, first_visible,
  definition_schema, has_safe_signature, compatible_kinds, subset, is_global, own_or, in_schema,
  candidates_in, resolve_named, resolve_with,
}

abbrev pub SqlCache : Type 0
SqlCache = List (CacheKey × SqlResolution)

-- replace(cached, ref=ref)
abbrev pub with_ref : SqlObjectRefIr → SqlResolution → SqlResolution
with_ref ref res = record {
  ref = ref;
  status = res.status;
  object_key = res.object_key;
  candidate_count = res.candidate_count;
  candidate_keys = res.candidate_keys;
}

unfoldable pub resolve : List SqlObject → SqlObjectRefIr → SqlCache → SqlResolution × SqlCache
unfolding find put_last trim same_key text_eq cache_key resolve_uncached sql_cache_limit
resolve registry ref cache =
    let k = cache_key ref in
    let result = resolve_uncached registry ref in
    elim (find same_key k cache) [
      | some cached ↦ (with_ref ref cached, put_last same_key k cached cache)
      | none ↦ (result, trim sql_cache_limit (put_last same_key k result cache))
    ]

with_ref-conclude :
    (ref other : SqlObjectRefIr) (found : ℕ × List Text) (allow_exact : Bool)
    → with_ref other (conclude ref found allow_exact) ≡ conclude other found allow_exact
unfolding conclude
with_ref-conclude ref other (count, keys) allow_exact =
    elim (Bool-cases (count == 1 && allow_exact)) [ inl e ↦ rw e refl | inr e ↦ rw e refl ]

with_ref-first_visible :
    (ref other : SqlObjectRefIr) (query : Text → ℕ × List Text) (schemas : List Text)
    → with_ref other (first_visible ref query schemas) ≡ first_visible other query schemas
unfolding first_visible
with_ref-first_visible ref other query [] = refl
with_ref-first_visible ref other query (s ∷ schemas) = elim (Bool-cases ((query s).0 == 0)) [
  | inl e ↦ rw e (with_ref-first_visible ref other query schemas)
  | inr e ↦ rw e (with_ref-conclude ref other (query s) true)
]

module _ (registry : List SqlObject) (ref other : SqlObjectRefIr) where
  abbrev same : SqlObjectRefIr
  same = keyed_as ref other

  with_ref-definition :
      (name kind : Text)
      → with_ref same (resolve_definition registry ref name kind)
        ≡ resolve_definition registry same name kind
  unfolding resolve_definition
  with_ref-definition name kind = elim (Option-cases (definition_schema ref kind)) [
    | inl e ↦ rw (e, resolve_definition) refl
    | inr (s, e) ↦ rw (e, resolve_definition) (with_ref-conclude ref same _ true)
  ]

  with_ref-routine :
      (kinds : List Text) (name : Text) (schemas : List Text)
      → with_ref same (resolve_routine registry ref kinds name schemas)
        ≡ resolve_routine registry same kinds name schemas
  unfolding resolve_routine
  with_ref-routine kinds name schemas = elim (Bool-cases (has_safe_signature ref.signature_hint)) [
    | inl e ↦ rw e (with_ref-first_visible ref same (in_schema registry ref kinds name) schemas)
    | inr e ↦
        rw e
          (with_ref-conclude ref same (candidates_in registry ref false kinds name schemas) false)
  ]

  with_ref-use :
      (name kind : Text)
      → with_ref same (resolve_use registry ref name kind) ≡ resolve_use registry same name kind
  unfolding resolve_use
  with_ref-use name kind =
      let kinds = compatible_kinds kind in
      let schemas = own_or ref.schema_name ref.search_path in
      elim (Bool-cases (is_empty kinds)) [
        | inl a ↦ rw (a, resolve_use) refl
        | inr a ↦ elim (Bool-cases (subset kinds direct_kinds)) [
          | inl b ↦
              rw (a, b, resolve_use)
                (with_ref-first_visible ref same (in_schema registry ref kinds name) (
                  own_or ref.schema_name
                    (if is_global kind then schemaless ∷ [] else ref.search_path)))
          | inr b ↦ elim (Bool-cases (is_empty schemas)) [
            | inl c ↦ rw (a, b, c, resolve_use) refl
            | inr c ↦ elim (Bool-cases (subset kinds routine_kinds)) [
              | inl d ↦ rw (a, b, c, d, resolve_use) (with_ref-routine kinds name schemas)
              | inr d ↦
                  rw (a, b, c, d, resolve_use)
                    (with_ref-first_visible ref same (in_schema registry ref kinds name) schemas)
            ]
          ]
        ]
      ]

  with_ref-named :
      (role : SqlObjectRole) (name kind : Text)
      → with_ref same (resolve_named registry ref role name kind)
        ≡ resolve_named registry same role name kind
  with_ref-named SqlObjectRole.define name kind = with_ref-definition name kind
  with_ref-named SqlObjectRole.read name kind = with_ref-use name kind
  with_ref-named SqlObjectRole.write name kind = with_ref-use name kind
  with_ref-named SqlObjectRole.call name kind = with_ref-use name kind
  with_ref-named SqlObjectRole.alter name kind = with_ref-use name kind
  with_ref-named SqlObjectRole.drop name kind = with_ref-use name kind

  with_ref-with :
      (moving : Bool) (name hint : Option Text)
      → with_ref same (resolve_with registry ref moving name hint)
        ≡ resolve_with registry same moving name hint
  with_ref-with true name hint = refl
  with_ref-with false none hint = refl
  with_ref-with false (some name) none = refl
  with_ref-with false (some name) (some kind) =
      elim (Bool-cases (contains kind (codes "routine" ∷ known_object_kinds))) [
        | inl d ↦ rw d (with_ref-named ref.role name kind)
        | inr d ↦ rw d refl
      ]

  -- A conclusion depends on the cached fields of a reference, which is else only passed on.
  pub with_ref-resolve_uncached :
      with_ref same (resolve_uncached registry ref) ≡ resolve_uncached registry same
  unfolding resolve_uncached
  with_ref-resolve_uncached = with_ref-with ref.dynamic ref.object_name ref.object_kind_hint
