-- ===== src/SqlResolver/Lookup.antt =====
-- `_resolve_uncached` of src/codekg/sql_resolver.py, with `_compatible_kinds` and `_first_path`.
use my_kg_codebase.Prelude.{
  ℕ, Bool, true, false, not, ◌||◌, Option, none, some, List, [], ◌∷◌, all, if◌then◌else◌, is_empty,
  is_some, head?, ◌==◌,
}
use my_kg_codebase.Prelude.Text.{Text, codes, text_eq, contains}
use my_kg_codebase.Ir.Sql.{SqlObjectRefIr, SqlObjectRole}
use my_kg_codebase.SqlResolver.{
  SqlObject, SqlResolution, unresolved, dynamic, known_object_kinds, relation_kinds, routine_kinds,
  direct_kinds, default_database, schemaless,
}
use my_kg_codebase.SqlResolver.Registry.{query_candidates, conclude, without_object, safe_signature}

-- a or b: an empty text counts as missing.
abbrev pub or_maybe : Option Text → Option Text → Option Text
or_maybe none b = b
or_maybe (some []) b = b
or_maybe (some (c ∷ s)) b = some (c ∷ s)

abbrev pub or_text : Option Text → Text → Text
or_text none b = b
or_text (some []) b = b
or_text (some (c ∷ s)) b = c ∷ s

-- (ref.schema_name,) if ref.schema_name else the other schemas
abbrev pub own_or : Option Text → List Text → List Text
own_or none schemas = schemas
own_or (some []) schemas = schemas
own_or (some (c ∷ s)) schemas = (c ∷ s) ∷ []

-- kinds <= others
abbrev pub subset : List Text → List Text → Bool
subset kinds others = all (λ k. contains k others) kinds

abbrev pub is_global : Text → Bool
is_global kind = contains kind (codes "schema" ∷ codes "extension" ∷ [])

-- _compatible_kinds
unfoldable pub compatible_kinds : Text → List Text
unfolding contains text_eq
compatible_kinds kind =
    if contains kind relation_kinds
    then if text_eq kind (codes "table") then relation_kinds else kind ∷ []
    else if contains kind routine_kinds || contains kind direct_kinds
    then kind ∷ []
    else if text_eq kind (codes "routine")
    then routine_kinds
    else []

-- The loop over the schemas: the first with any candidate decides.
unfoldable pub first_visible : SqlObjectRefIr → (Text → ℕ × List Text) → List Text → SqlResolution
unfolding conclude
first_visible ref query [] = without_object ref unresolved
first_visible ref query (schema ∷ schemas) =
    let rest = first_visible ref query schemas in
    let (count, keys) = query schema in if count == 0 then rest else conclude ref (count, keys) true

-- The schema that a definition stands in, if there is one.
abbrev pub definition_schema : SqlObjectRefIr → Text → Option Text
definition_schema ref kind =
    if is_global kind then some schemaless else or_maybe ref.schema_name (head? ref.search_path)

-- if ref.signature_hint is not None and _safe_signature(ref.signature_hint)
abbrev pub has_safe_signature : Option Text → Bool
has_safe_signature none = false
has_safe_signature (some signature) = safe_signature signature

module _ (registry : List SqlObject) (ref : SqlObjectRefIr) where
  -- The rows of some schemas that can be meant by a reference.
  abbrev pub candidates_in : Bool → List Text → Text → List Text → ℕ × List Text
  candidates_in strict kinds name schemas =
      query_candidates registry (or_text ref.database_name default_database)
        (not (is_some ref.database_name)) schemas kinds name strict ref.signature_hint

  abbrev pub in_schema : List Text → Text → Text → ℕ × List Text
  in_schema kinds name schema = candidates_in false kinds name (schema ∷ [])

  unfoldable pub resolve_definition : Text → Text → SqlResolution
  unfolding conclude contains
  resolve_definition name kind = elim (definition_schema ref kind) [
    | none ↦ without_object ref unresolved
    | some schema ↦
        conclude ref (candidates_in true (kind ∷ []) name (or_text (some schema) schemaless ∷ []))
          true
  ]

  unfoldable pub resolve_routine : List Text → Text → List Text → SqlResolution
  unfolding first_visible safe_signature conclude
  resolve_routine kinds name schemas =
      if has_safe_signature ref.signature_hint
      then first_visible ref (in_schema kinds name) schemas
      else conclude ref (candidates_in false kinds name schemas) false

  -- References other than definitions.
  unfoldable pub resolve_use : Text → Text → SqlResolution
  unfolding compatible_kinds first_visible resolve_routine contains
  resolve_use name kind =
      let kinds = compatible_kinds kind in
      let others = if is_global kind then schemaless ∷ [] else ref.search_path in
      let schemas = own_or ref.schema_name ref.search_path in
      if is_empty kinds
      then without_object ref unresolved
      else if subset kinds direct_kinds
      then first_visible ref (in_schema kinds name) (own_or ref.schema_name others)
      else if is_empty schemas
      then without_object ref unresolved
      else if subset kinds routine_kinds
      then resolve_routine kinds name schemas
      else first_visible ref (in_schema kinds name) schemas

  abbrev pub resolve_named : SqlObjectRole → Text → Text → SqlResolution
  resolve_named SqlObjectRole.define name kind = resolve_definition name kind
  resolve_named _ name kind = resolve_use name kind

  -- The first tests of _resolve_uncached: on ref.dynamic, ref.object_name and ref.object_kind_hint
  abbrev pub resolve_with : Bool → Option Text → Option Text → SqlResolution
  resolve_with true name hint = without_object ref dynamic
  resolve_with false none hint = without_object ref unresolved
  resolve_with false (some name) none = without_object ref unresolved
  resolve_with false (some name) (some kind) =
      if contains kind (codes "routine" ∷ known_object_kinds)
      then resolve_named ref.role name kind
      else without_object ref unresolved

  -- _resolve_uncached
  unfoldable pub resolve_uncached : SqlResolution
  unfolding resolve_definition resolve_use contains
  resolve_uncached = resolve_with ref.dynamic ref.object_name ref.object_kind_hint
