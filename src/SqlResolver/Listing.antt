-- ===== src/SqlResolver/Listing.antt =====
-- The other tables of build_sql_registry and the listings of SqliteSqlResolverIndex:
-- src/codekg/sql_resolver.py.
use my_kg_codebase.Prelude.{
  ℕ, Bool, true, not, ◌&&◌, Option, none, some, List, [], ◌∷◌, ◌++◌, map, filter, if◌then◌else◌,
}
use my_kg_codebase.Prelude.Text.{Text, text_eq, text_lt}
use my_kg_codebase.Ir.Sql.{SqlObjectRefIr}
use my_kg_codebase.SqlResolver.{SqlDatabase, SqlObject, default_database}
use my_kg_codebase.SqlResolver.Keys.{sql_database_key}
use my_kg_codebase.SqlResolver.Registry.{maybe_eq, bool_eq}
use my_kg_codebase.SqlResolver.Lookup.{or_text}
use my_kg_codebase.SqlResolver.Build.{null_or_empty, is_define, schema_column}

abbrev same_database : Text → Bool → SqlDatabase → Bool
same_database name is_default d =
    text_eq d.database_name name && bool_eq d.database_is_default is_default

abbrev owned : Text → SqlDatabase → SqlDatabase
owned path d = record {
  key = d.key;
  database_name = d.database_name;
  owner_path = if text_lt path d.owner_path then path else d.owner_path;
  database_is_default = d.database_is_default;
}

-- GROUP BY database_name, database_is_default, with MIN(path)
unfoldable pub add_database : Text → Text → Text → Bool → List SqlDatabase → List SqlDatabase
unfolding text_eq text_lt sql_database_key
add_database repo_prefix path name is_default [] =
    record {
      key = sql_database_key repo_prefix name is_default;
      database_name = name;
      owner_path = path;
      database_is_default = is_default;
    }
    ∷ []
add_database repo_prefix path name is_default (d ∷ databases) =
    let later = add_database repo_prefix path name is_default databases in
    if same_database name is_default d then owned path d ∷ databases else d ∷ later

-- The table of databases: one for each database that any reference is in.
unfoldable pub build_sql_databases : Text → List (Text × SqlObjectRefIr) → List SqlDatabase
unfolding add_database
build_sql_databases repo_prefix [] = []
build_sql_databases repo_prefix ((path, r) ∷ rows) =
    add_database repo_prefix path (or_text r.database_name default_database)
      (null_or_empty r.database_name) (build_sql_databases repo_prefix rows)

-- A row of the table of definitions.
pub record SqlDefinition : Type 0 where
  pub path : Text
  pub artifact_ordinal : ℕ
  pub statement_ordinal : ℕ
  pub ref_ordinal : ℕ
  pub object_key : Text

-- The schema of a definition; a missing kind is neither of the two that have none.
abbrev joined_schema : Option Text → SqlObjectRefIr → Option Text
joined_schema none r = schema_column [] r
joined_schema (some kind) r = schema_column kind r

-- The ON of the join.
unfoldable pub joins : SqlObjectRefIr → SqlObject → Bool
unfolding text_eq
joins r o =
    text_eq o.database_name (or_text r.database_name default_database)
    && bool_eq o.database_is_default (null_or_empty r.database_name)
    && maybe_eq (some o.schema_name) (joined_schema r.object_kind_hint r)
    && maybe_eq (some o.kind) r.object_kind_hint
    && maybe_eq (some o.object_name) r.object_name
    && maybe_eq o.signature r.signature_hint

-- The table of definitions: each occurrence with the object it defines.
unfoldable pub build_sql_definitions :
    List SqlObject → List (Text × SqlObjectRefIr) → List SqlDefinition
unfolding joins
build_sql_definitions objects [] = []
build_sql_definitions objects ((path, r) ∷ rows) =
    let rest = build_sql_definitions objects rows in
    if is_define r.role && not r.dynamic
    then map
        (λ o. record {
          path = path;
          artifact_ordinal = r.artifact_ordinal;
          statement_ordinal = r.statement_ordinal;
          ref_ordinal = r.ordinal;
          object_key = o.key;
        })
        (filter (joins r) objects)
      ++ rest
    else rest

-- ORDER BY key
unfoldable pub insert_by_key {ℓ} : {A : Type ℓ} → (A → Text) → A → List A → List A
insert_by_key key x [] = x ∷ []
insert_by_key key x (y ∷ ys) =
    let later = insert_by_key key x ys in if text_lt (key y) (key x) then y ∷ later else x ∷ y ∷ ys

unfoldable pub order_by_key {ℓ} : {A : Type ℓ} → (A → Text) → List A → List A
unfolding insert_by_key text_lt
order_by_key key [] = []
order_by_key key (x ∷ xs) = insert_by_key key x (order_by_key key xs)

-- A filter that is None is not applied.
abbrev passes : Option Text → Text → Bool
passes none value = true
passes (some wanted) value = text_eq value wanted

unfoldable pub databases : List SqlDatabase → Option Text → List SqlDatabase
unfolding order_by_key text_eq
databases rows owner_path =
    order_by_key (λ d. d.key) (filter (λ d. passes owner_path d.owner_path) rows)

abbrev pub databases_owned_by : List SqlDatabase → Text → List SqlDatabase
databases_owned_by rows path = databases rows (some path)

-- The keyword arguments of `objects`.
pub record ObjectFilters : Type 0 where
  pub database_name : Option Text
  pub schema_name : Option Text
  pub kind : Option Text
  pub object_name : Option Text
  pub owner_path : Option Text

unfoldable pub object_passes : ObjectFilters → SqlObject → Bool
unfolding text_eq
object_passes f o =
    passes f.database_name o.database_name
    && passes f.schema_name o.schema_name
    && passes f.kind o.kind
    && passes f.object_name o.object_name
    && passes f.owner_path o.owner_path

unfoldable pub objects : List SqlObject → ObjectFilters → List SqlObject
unfolding order_by_key object_passes
objects rows f = order_by_key (λ o. o.key) (filter (object_passes f) rows)

abbrev pub objects_owned_by : List SqlObject → Text → List SqlObject
objects_owned_by rows path = objects rows (record {
  database_name = none;
  schema_name = none;
  kind = none;
  object_name = none;
  owner_path = some path;
})
