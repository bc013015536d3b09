-- ===== src/SqlResolver/Witnesses.antt =====
-- Runs of src/codekg/sql_resolver.py on a small registry, and its theorems applied to them.
use my_kg_codebase.Prelude.{
  ◌≤◌, ◌≡◌, ◌≢◌, refl, true, false, Option, none, some, List, [], ◌∷◌, map, length, arith,
}
use my_kg_codebase.Prelude.Text.{Text, contains, text_eq, codes}
use my_kg_codebase.Ir.Sql.{SqlObjectRefIr, SqlObjectRole}
use my_kg_codebase.SqlResolver.{SqlObject, SqlStatus, sql_cache_limit}
use my_kg_codebase.SqlResolver.Keys.{
  sql_object_key, sql_database_key, sql_object_key_inj, sql_database_key-ne-sql_object_key,
}
use my_kg_codebase.SqlResolver.Lookup.{resolve_uncached}
use my_kg_codebase.SqlResolver.Registry.{query_candidates}
use my_kg_codebase.SqlResolver.Build.{
  Identity, identity, identity_of, stored_key, build_sql_objects,
}
use my_kg_codebase.SqlResolver.Defined.{build_sql_objects-exact}
use my_kg_codebase.SqlResolver.StoredKey.{stored_key-sql_object_key}
use my_kg_codebase.SqlResolver.Exact.{IsGrounded, resolve_uncached-IsGrounded}
use my_kg_codebase.SqlResolver.Transparent.{resolve_sequence, resolve_sequence-uncached}

abbrev table_row : Text → SqlObject
table_row schema = record {
  key = sql_object_key (codes "r") none (some schema) (codes "table") (codes "t") none;
  database_name = codes "<default>";
  schema_name = schema;
  kind = codes "table";
  object_name = codes "t";
  signature = none;
  definition_count = 1;
  owner_path = codes "a.sql";
  database_is_default = true;
}

abbrev registry : List SqlObject
registry = table_row (codes "app") ∷ table_row (codes "public") ∷ []

-- SELECT … FROM t, with a search path
abbrev read_t : List Text → SqlObjectRefIr
read_t path = record {
  artifact_ordinal = 0;
  statement_ordinal = 0;
  ordinal = 0;
  role = SqlObjectRole.read;
  raw_name = codes "t";
  database_name = none;
  schema_name = none;
  object_name = some (codes "t");
  object_kind_hint = some (codes "table");
  signature_hint = none;
  start_line = 1;
  start_column = 0;
  end_line = 1;
  end_column = 1;
  dynamic = false;
  search_path = path;
  call_arity = none;
}

abbrev shadowed : SqlObjectRefIr
shadowed = read_t (codes "none" ∷ codes "public" ∷ codes "app" ∷ [])

read_t_is_exact : (resolve_uncached registry shadowed).status ≡ SqlStatus.exact
unfolding resolve_uncached query_candidates
read_t_is_exact = refl

read_t_key :
    (resolve_uncached registry shadowed).object_key
    ≡ some (codes "r:sql:n:v6:public:v5:table:v1:t:n")
unfolding resolve_uncached query_candidates sql_object_key
read_t_key = refl

missing_t : (resolve_uncached registry (read_t (codes "x" ∷ []))).status ≡ SqlStatus.unresolved
unfolding resolve_uncached query_candidates
missing_t = refl

sql_object_key_inj_example :
    (◌≡◌ {A = Option Text} none none)
    × (some (codes "a:b") ≡ some (codes "a:b"))
    × (codes "table" ≡ codes "table")
    × (codes "t" ≡ codes "t")
    × (◌≡◌ {A = Option Text} none none)
sql_object_key_inj_example =
    sql_object_key_inj (codes "r") none none (some (codes "a:b")) (some (codes "a:b"))
      (codes "table") (codes "table") (codes "t") (codes "t") none none refl

sql_database_key-ne-sql_object_key_example :
    sql_database_key (codes "r") (codes "db") false
    ≢ sql_object_key (codes "r") (some (codes "db")) none (codes "schema") (codes "s") none
sql_database_key-ne-sql_object_key_example =
    sql_database_key-ne-sql_object_key (codes "r") (codes "db") false (some (codes "db")) none
      (codes "schema") (codes "s") none

resolve_uncached-IsGrounded_example :
    IsGrounded registry shadowed (resolve_uncached registry shadowed)
resolve_uncached-IsGrounded_example = resolve_uncached-IsGrounded registry shadowed

resolve_sequence-uncached_example :
    ((resolve_sequence registry (shadowed ∷ shadowed ∷ []) []).0
      ≡ map (resolve_uncached registry) (shadowed ∷ shadowed ∷ []))
    × (length (resolve_sequence registry (shadowed ∷ shadowed ∷ []) []).1 ≤ sql_cache_limit)
resolve_sequence-uncached_example = resolve_sequence-uncached registry (shadowed ∷ shadowed ∷ [])

-- CREATE TABLE t, with a search path
abbrev define_t : SqlObjectRefIr
define_t = record {
  artifact_ordinal = 0;
  statement_ordinal = 0;
  ordinal = 0;
  role = SqlObjectRole.define;
  raw_name = codes "t";
  database_name = none;
  schema_name = none;
  object_name = some (codes "t");
  object_kind_hint = some (codes "table");
  signature_hint = none;
  start_line = 1;
  start_column = 0;
  end_line = 1;
  end_column = 1;
  dynamic = false;
  search_path = codes "public" ∷ [];
  call_arity = none;
}

abbrev defined_t : Identity
defined_t = identity (codes "t") (codes "table") define_t

abbrev rows_twice : List (Text × SqlObjectRefIr)
rows_twice = (codes "b.sql", define_t) ∷ (codes "a.sql", define_t) ∷ []

-- Defined in two files, and stored once, under the first of their paths.
abbrev stored_t : SqlObject
stored_t = record {
  key = codes "r:sql:n:v6:public:v5:table:v1:t:n";
  database_name = codes "<default>";
  schema_name = codes "public";
  kind = codes "table";
  object_name = codes "t";
  signature = none;
  definition_count = 2;
  owner_path = codes "a.sql";
  database_is_default = true;
}

build_sql_objects_twice : build_sql_objects (codes "r") rows_twice ≡ some (stored_t ∷ [])
unfolding build_sql_objects
build_sql_objects_twice = refl

build_sql_objects-exact_example :
    (resolve_uncached (stored_t ∷ []) define_t).status ≡ SqlStatus.exact
unfolding build_sql_objects identity_of
build_sql_objects-exact_example =
    build_sql_objects-exact (codes "r") (codes "a.sql") ((codes "b.sql", define_t) ∷ []) [] define_t
      (stored_t ∷ []) defined_t (codes "public") refl refl refl (λ e. cc)

stored_key-sql_object_key_example :
    stored_key (codes "r") defined_t (codes "public")
    ≡ sql_object_key (codes "r") none (some (codes "public")) (codes "table") (codes "t") none
unfolding contains text_eq
stored_key-sql_object_key_example =
    stored_key-sql_object_key (codes "r") defined_t (codes "public") (omega arith) (omega arith)
      (omega arith) (omega arith) tt
