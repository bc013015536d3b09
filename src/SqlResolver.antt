-- ===== src/SqlResolver.antt =====
-- SQL objects and conclusions about references to them: src/codekg/sql_resolver.py.
pub mod Keys
pub mod Registry
pub mod Lookup
pub mod CacheKey
pub mod Cached
pub mod Visible
pub mod Kinds
pub mod Alone
pub mod Exact
pub mod Build
pub mod Defined
pub mod StoredKey
pub mod Listing
pub mod Transparent
mod Witnesses
use my_kg_codebase.Prelude.{ℕ, Bool, Option, List, [], ◌∷◌, ◌++◌}
use my_kg_codebase.Prelude.Text.{Text, codes}
use my_kg_codebase.Ir.Sql.{SqlObjectRefIr}

-- SQL_KNOWN_OBJECT_KINDS
abbrev pub known_object_kinds : List Text
known_object_kinds =
    codes "table"
    ∷ codes "view"
    ∷ codes "materialized_view"
    ∷ codes "sequence"
    ∷ codes "index"
    ∷ codes "statistics"
    ∷ codes "function"
    ∷ codes "procedure"
    ∷ codes "schema"
    ∷ codes "extension"
    ∷ codes "type"
    ∷ []

abbrev pub relation_kinds : List Text
relation_kinds = codes "table" ∷ codes "view" ∷ codes "materialized_view" ∷ []

abbrev pub routine_kinds : List Text
routine_kinds = codes "function" ∷ codes "procedure" ∷ []

abbrev pub direct_kinds : List Text
direct_kinds =
    codes "sequence"
    ∷ codes "index"
    ∷ codes "statistics"
    ∷ codes "schema"
    ∷ codes "extension"
    ∷ codes "type"
    ∷ []

unfoldable pub max_candidates : ℕ
max_candidates = 32

unfoldable pub sql_cache_limit : ℕ
sql_cache_limit = 4096

abbrev pub default_database : Text
default_database = codes "<default>"

abbrev pub schemaless : Text
schemaless = codes "<schema-less>"

pub record SqlDatabase : Type 0 where
  pub key : Text
  pub database_name : Text
  pub owner_path : Text
  pub database_is_default : Bool

pub record SqlObject : Type 0 where
  pub key : Text
  pub database_name : Text
  pub schema_name : Text
  pub kind : Text
  pub object_name : Text
  pub signature : Option Text
  pub definition_count : ℕ
  pub owner_path : Text
  pub database_is_default : Bool

pub data SqlStatus : Type 0 where
  exact ambiguous unresolved dynamic : SqlStatus

pub record SqlResolution : Type 0 where
  pub ref : SqlObjectRefIr
  pub status : SqlStatus
  pub object_key : Option Text
  pub candidate_count : ℕ
  pub candidate_keys : List Text
