-- ===== src/SqlResolver/CacheKey.antt =====
-- The key that `resolve` of src/codekg/sql_resolver.py caches a conclusion under.
use my_kg_codebase.Prelude.{
  ◌≡◌, refl, ap, Bool, true, false, ◌&&◌, Option, none, some, List, [], ◌∷◌, arith,
}
use my_kg_codebase.Prelude.Text.{Text, text_eq, text_eq_sound}
use my_kg_codebase.Ir.Sql.{SqlObjectRefIr, SqlObjectRole}
use my_kg_codebase.SqlResolver.Registry.{maybe_eq, bool_eq}

-- The tuple that `resolve` caches under: the parts of a reference.
pub record CacheKey : Type 0 where
  pub role : SqlObjectRole
  pub raw_name : Text
  pub database_name : Option Text
  pub schema_name : Option Text
  pub object_name : Option Text
  pub object_kind_hint : Option Text
  pub signature_hint : Option Text
  pub dynamic : Bool
  pub search_path : List Text

unfoldable pub cache_key : SqlObjectRefIr → CacheKey
cache_key ref = record {
  role = ref.role;
  raw_name = ref.raw_name;
  database_name = ref.database_name;
  schema_name = ref.schema_name;
  object_name = ref.object_name;
  object_kind_hint = ref.object_kind_hint;
  signature_hint = ref.signature_hint;
  dynamic = ref.dynamic;
  search_path = ref.search_path;
}

abbrev role_eq : SqlObjectRole → SqlObjectRole → Bool
role_eq SqlObjectRole.define SqlObjectRole.define = true
role_eq SqlObjectRole.read SqlObjectRole.read = true
role_eq SqlObjectRole.write SqlObjectRole.write = true
role_eq SqlObjectRole.call SqlObjectRole.call = true
role_eq SqlObjectRole.alter SqlObjectRole.alter = true
role_eq SqlObjectRole.drop SqlObjectRole.drop = true
role_eq _ _ = false

abbrev texts_eq : List Text → List Text → Bool
texts_eq [] [] = true
texts_eq (a ∷ rest) (b ∷ others) = text_eq a b && texts_eq rest others
texts_eq _ _ = false

-- Tuples are equal where all their items are.
unfoldable pub same_key : CacheKey → CacheKey → Bool
same_key a b =
    role_eq a.role b.role
    && text_eq a.raw_name b.raw_name
    && maybe_eq a.database_name b.database_name
    && maybe_eq a.schema_name b.schema_name
    && maybe_eq a.object_name b.object_name
    && maybe_eq a.object_kind_hint b.object_kind_hint
    && maybe_eq a.signature_hint b.signature_hint
    && bool_eq a.dynamic b.dynamic
    && texts_eq a.search_path b.search_path

role_eq_sound : (a b : SqlObjectRole) → role_eq a b ≡ true → a ≡ b
role_eq_sound SqlObjectRole.define b h = ground (arith, h)
role_eq_sound SqlObjectRole.read b h = ground (arith, h)
role_eq_sound SqlObjectRole.write b h = ground (arith, h)
role_eq_sound SqlObjectRole.call b h = ground (arith, h)
role_eq_sound SqlObjectRole.alter b h = ground (arith, h)
role_eq_sound SqlObjectRole.drop b h = ground (arith, h)

pub bool_eq_sound : (a b : Bool) → bool_eq a b ≡ true → a ≡ b
bool_eq_sound a b h = ground (arith, h)

pub maybe_eq_sound : (a b : Option Text) → maybe_eq a b ≡ true → a ≡ b
maybe_eq_sound none none h = refl
maybe_eq_sound none (some b) h = ground (arith, h)
maybe_eq_sound (some a) none h = ground (arith, h)
maybe_eq_sound (some a) (some b) h = ap some (text_eq_sound a b h)

texts_eq_sound : (a b : List Text) → texts_eq a b ≡ true → a ≡ b
texts_eq_sound [] [] h = refl
texts_eq_sound [] (y ∷ b) h = ground (arith, h)
texts_eq_sound (x ∷ a) [] h = ground (arith, h)
texts_eq_sound (x ∷ a) (y ∷ b) h = ground (arith, h, text_eq_sound x y, texts_eq_sound a b)

pub same_key_sound : (a b : CacheKey) → same_key a b ≡ true → a ≡ b
unfolding same_key
same_key_sound a b h =
    let h1 : role_eq a.role b.role ≡ true = ground (arith, h) in
    let h2 : text_eq a.raw_name b.raw_name ≡ true = ground (arith, h) in
    let h3 : maybe_eq a.database_name b.database_name ≡ true = ground (arith, h) in
    let h4 : maybe_eq a.schema_name b.schema_name ≡ true = ground (arith, h) in
    let h5 : maybe_eq a.object_name b.object_name ≡ true = ground (arith, h) in
    let h6 : maybe_eq a.object_kind_hint b.object_kind_hint ≡ true = ground (arith, h) in
    let h7 : maybe_eq a.signature_hint b.signature_hint ≡ true = ground (arith, h) in
    let h8 : bool_eq a.dynamic b.dynamic ≡ true = ground (arith, h) in
    let h9 : texts_eq a.search_path b.search_path ≡ true = ground (arith, h) in
    λ i. record {
      role = role_eq_sound a.role b.role h1 i;
      raw_name = text_eq_sound a.raw_name b.raw_name h2 i;
      database_name = maybe_eq_sound a.database_name b.database_name h3 i;
      schema_name = maybe_eq_sound a.schema_name b.schema_name h4 i;
      object_name = maybe_eq_sound a.object_name b.object_name h5 i;
      object_kind_hint = maybe_eq_sound a.object_kind_hint b.object_kind_hint h6 i;
      signature_hint = maybe_eq_sound a.signature_hint b.signature_hint h7 i;
      dynamic = bool_eq_sound a.dynamic b.dynamic h8 i;
      search_path = texts_eq_sound a.search_path b.search_path h9 i;
    }

-- A reference with the cached fields of one and the other fields of another
abbrev pub keyed_as : SqlObjectRefIr → SqlObjectRefIr → SqlObjectRefIr
keyed_as ref other = record other {
  role = ref.role;
  raw_name = ref.raw_name;
  database_name = ref.database_name;
  schema_name = ref.schema_name;
  object_name = ref.object_name;
  object_kind_hint = ref.object_kind_hint;
  signature_hint = ref.signature_hint;
  dynamic = ref.dynamic;
  search_path = ref.search_path;
}

pub keyed_as_same :
    (ref other : SqlObjectRefIr) → cache_key ref ≡ cache_key other → keyed_as ref other ≡ other
unfolding cache_key
keyed_as_same ref other e i = record other {
  role = (e i).role;
  raw_name = (e i).raw_name;
  database_name = (e i).database_name;
  schema_name = (e i).schema_name;
  object_name = (e i).object_name;
  object_kind_hint = (e i).object_kind_hint;
  signature_hint = (e i).signature_hint;
  dynamic = (e i).dynamic;
  search_path = (e i).search_path;
}
