-- ===== src/SqlResolver/Alone.antt =====
-- The one row that a reference means: what an exact conclusion of `_resolve_uncached` in
-- src/codekg/sql_resolver.py names.
use my_kg_codebase.Prelude.{
  ◌≡◌, refl, sym, ap, ◌∙◌, subst, Bool, true, false, not, ◌⊎◌, inl, inr, Option, none, some, List,
  [], ◌∷◌, filter, All, arith, Bool-cases, is_some,
}
use my_kg_codebase.Prelude.Text.{Text, contains, text_eq, text_eq_sound}
use my_kg_codebase.Prelude.Occurs.{Occurs}
use my_kg_codebase.Ir.Sql.{SqlObjectRefIr}
use my_kg_codebase.SqlResolver.{SqlObject, SqlResolution, default_database}
use my_kg_codebase.SqlResolver.Registry.{row_fits, signature_fits, safe_signature, bool_eq}
use my_kg_codebase.SqlResolver.CacheKey.{maybe_eq_sound, bool_eq_sound}
use my_kg_codebase.SqlResolver.Lookup.{or_text}
use my_kg_codebase.SqlResolver.Kinds.{OfKind, AreKinds, All-contains}
use my_kg_codebase.SqlResolver.Visible.{Visible}

-- The rows that a query finds.
abbrev pub matching :
    List SqlObject → SqlObjectRefIr → Bool → List Text → Text → List Text → List SqlObject
matching registry ref strict kinds name schemas =
    filter
      (row_fits (or_text ref.database_name default_database) (not (is_some ref.database_name))
        schemas kinds name strict ref.signature_hint)
      registry

-- The rows have the same database, schema, name and signature.
abbrev pub IsNamesake : SqlObject → SqlObject → Type 0
IsNamesake row other =
    (other.database_name ≡ row.database_name)
    × (other.database_is_default ≡ row.database_is_default)
    × (other.schema_name ≡ row.schema_name)
    × (other.object_name ≡ row.object_name)
    × (other.signature ≡ row.signature)

-- The target is a row of the registry that bears the name, of a kind that the reference can mean,
-- in its database and in a schema that it can see, with its signature where that is safe; and no
-- namesake of the row is of such a kind.
pub record IsAlone (registry : List SqlObject) (ref : SqlObjectRefIr) (res : SqlResolution)
    : Type 0 where
  pub row : SqlObject
  pub hint : Text
  pub hinted : ref.object_kind_hint ≡ some hint
  pub stored : Occurs row registry
  pub named : ref.object_name ≡ some row.object_name
  pub of_kind : OfKind ref hint row.kind
  pub in_database : row.database_name ≡ or_text ref.database_name default_database
  pub in_default : row.database_is_default ≡ not (is_some ref.database_name)
  pub visible : Visible ref row.schema_name
  pub signed :
      (wanted : Text)
      → ref.signature_hint ≡ some wanted
      → safe_signature wanted ≡ true
      → row.signature ≡ some wanted
  pub alone :
      (other : SqlObject)
      → Occurs other registry
      → IsNamesake row other
      → OfKind ref hint other.kind
      → other ≡ row
  pub target : res.object_key ≡ some row.key
  pub only_candidate : res.candidate_keys ≡ row.key ∷ []

module _ (p : SqlObject → Bool) (x : SqlObject) where
  Occurs-filter : (xs : List SqlObject) → Occurs x xs → p x ≡ true → Occurs x (filter p xs)
  Occurs-filter [] o h = absurd o
  Occurs-filter (y ∷ xs) (inl e) h = rw (subst (λ z. p z ≡ true) e h) (inl e)
  Occurs-filter (y ∷ xs) (inr o) h = elim (Bool-cases (p y)) [
    | inl e ↦ rw e (inr (Occurs-filter xs o h))
    | inr e ↦ rw e (Occurs-filter xs o h)
  ]

  filter-Occurs : (xs : List SqlObject) → Occurs x (filter p xs) → Occurs x xs × (p x ≡ true)
  filter-Occurs [] o = absurd o
  filter-Occurs (y ∷ xs) o = elim (Bool-cases (p y)) [
    | inr e ↦ let (there, fits) = filter-Occurs xs (rw e at o) in (inr there, fits)
    | inl e ↦
        let here : (x ≡ y) ⊎ Occurs x (filter p xs) = rw e at o in
        elim here [
          | inl same ↦ (inl same, subst (λ z. p z ≡ true) (sym same) e)
          | inr later ↦ let (there, fits) = filter-Occurs xs later in (inr there, fits)
        ]
  ]

maybe_eq-signed :
    (wanted : Text) (strict : Bool) (hint stored : Option Text)
    → signature_fits strict hint stored ≡ true
    → hint ≡ some wanted
    → safe_signature wanted ≡ true
    → stored ≡ some wanted
unfolding signature_fits
maybe_eq-signed wanted true hint stored h e safe = maybe_eq_sound stored hint h ∙ e
maybe_eq-signed wanted false none stored h e safe = absurd (ground (arith, e))
maybe_eq-signed wanted false (some w) stored h e safe =
    let same : w ≡ wanted = cc e in
    let sure : safe_signature w ≡ true = rw same safe in
    maybe_eq_sound stored (some w) (rw sure at h) ∙ e

module _ (database : Text) (is_default : Bool) (schemas kinds : List Text) (name : Text)
    (strict : Bool) (signature : Option Text) (row : SqlObject)
    (fits : row_fits database is_default schemas kinds name strict signature row ≡ true) where
  fits_parts :
      (text_eq row.database_name database ≡ true)
      × (bool_eq row.database_is_default is_default ≡ true)
      × (contains row.schema_name schemas ≡ true)
      × (contains row.kind kinds ≡ true)
      × (text_eq row.object_name name ≡ true)
      × (signature_fits strict signature row.signature ≡ true)
  unfolding row_fits
  fits_parts = (
    ground (arith, fits),
    ground (arith, fits),
    ground (arith, fits),
    ground (arith, fits),
    ground (arith, fits),
    ground (arith, fits),
  )

  fits-namesake :
      (other : SqlObject)
      → IsNamesake row other
      → contains other.kind kinds ≡ true
      → row_fits database is_default schemas kinds name strict signature other ≡ true
  unfolding row_fits
  fits-namesake other (d, f, s, n, g) k =
      let (pd, pf, ps, pk, pn, pg) = fits_parts in
      rw
        (
          subst (λ x. text_eq x database ≡ true) (sym d) pd,
          subst (λ x. bool_eq x is_default ≡ true) (sym f) pf,
          subst (λ x. contains x schemas ≡ true) (sym s) ps,
          k,
          subst (λ x. text_eq x name ≡ true) (sym n) pn,
        )
        (subst (λ x. signature_fits strict signature x ≡ true) (sym g) pg)

-- The one row that a query finds is alone.
pub one-IsAlone :
    (registry : List SqlObject) (ref : SqlObjectRefIr) (res : SqlResolution) (strict : Bool)
    (kinds : List Text) (name hint : Text) (schemas : List Text) (row : SqlObject)
    → ref.object_name ≡ some name
    → ref.object_kind_hint ≡ some hint
    → AreKinds ref hint kinds
    → All (Visible ref) schemas
    → matching registry ref strict kinds name schemas ≡ row ∷ []
    → res.object_key ≡ some row.key
    → res.candidate_keys ≡ row.key ∷ []
    → IsAlone registry ref res
one-IsAlone registry ref res strict kinds name hint schemas row named hinted known seen one target
      only =
    let database = or_text ref.database_name default_database in
    let is_default = not (is_some ref.database_name) in
    let test = row_fits database is_default schemas kinds name strict ref.signature_hint in
    let (there, fits) = filter-Occurs test row registry (subst (Occurs row) (sym one) (inl refl)) in
    let (pd, pf, ps, pk, pn, pg) =
      fits_parts database is_default schemas kinds name strict ref.signature_hint row fits in
    record {
      row = row;
      hint = hint;
      hinted = hinted;
      stored = there;
      named = named ∙ ap some (sym (text_eq_sound row.object_name name pn));
      of_kind = known.0 row.kind pk;
      in_database = text_eq_sound row.database_name database pd;
      in_default = bool_eq_sound row.database_is_default is_default pf;
      visible = All-contains (Visible ref) row.schema_name schemas seen ps;
      signed =
          λ wanted e safe. maybe_eq-signed wanted strict ref.signature_hint row.signature pg e safe;
      alone = λ other o namesake kind.
          elim (subst (Occurs other) one (
            Occurs-filter test other registry o (
              fits-namesake database is_default schemas kinds name strict ref.signature_hint row
                fits other namesake (known.1 other.kind kind)))) [
                  | inl e ↦ e
                  | inr never ↦ absurd never
                ];
      target = target;
      only_candidate = only;
    }
