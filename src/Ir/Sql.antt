-- ===== src/Ir/Sql.antt =====
-- The SQL facts of a source file: src/codekg/sql_ir.py.
use my_kg_codebase.Prelude.{ℕ, Bool, Option, List}
use my_kg_codebase.Prelude.Text.{Text}

pub data SqlObjectRole : Type 0 where
  define read write call alter drop : SqlObjectRole

pub record SqlArtifactIr : Type 0 where
  pub ordinal : ℕ
  pub origin : Text
  pub dialect : Text
  pub text : Text
  pub text_hash : Text
  pub start_line : ℕ
  pub start_column : ℕ
  pub end_line : ℕ
  pub end_column : ℕ

pub record SqlStatementIr : Type 0 where
  pub artifact_ordinal : ℕ
  pub ordinal : ℕ
  pub kind : Text
  pub parent_ordinal : Option ℕ
  pub control_context : Option Text
  pub start_line : ℕ
  pub start_column : ℕ
  pub end_line : ℕ
  pub end_column : ℕ

pub record SqlObjectRefIr : Type 0 where
  pub artifact_ordinal : ℕ
  pub statement_ordinal : ℕ
  pub ordinal : ℕ
  pub role : SqlObjectRole
  pub raw_name : Text
  pub database_name : Option Text
  pub schema_name : Option Text
  pub object_name : Option Text
  pub object_kind_hint : Option Text
  pub signature_hint : Option Text
  pub start_line : ℕ
  pub start_column : ℕ
  pub end_line : ℕ
  pub end_column : ℕ
  pub dynamic : Bool
  pub search_path : List Text
  pub call_arity : Option ℕ
