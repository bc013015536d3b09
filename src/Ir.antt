-- ===== src/Ir.antt =====
-- The intermediate representation of a repository: src/codekg/ir.py.
pub mod Sql
use Sql.{SqlArtifactIr, SqlStatementIr, SqlObjectRefIr}
use my_kg_codebase.Prelude.{ℕ, Bool, Option, List}
use my_kg_codebase.Prelude.Text.{Text}
use my_kg_codebase.Prelude.Dict.{Dict}

pub record ImportIr : Type 0 where
  pub module_name : Text
  pub name : Text
  pub alias : Option Text

pub data ReceiverKind : Type 0 where
  bare name self cls super attribute dynamic : ReceiverKind

pub record CallIr : Type 0 where
  pub owner_qname : Text
  pub raw_callee : Text
  pub callee_name : Option Text
  pub callee_qname_hint : Option Text
  pub receiver_kind : ReceiverKind
  pub start_line : ℕ
  pub start_column : ℕ
  pub end_line : ℕ
  pub end_column : ℕ
  pub ordinal : ℕ

pub data ValueKind : Type 0 where
  call name annotation unknown : ValueKind

pub record LocalBindingIr : Type 0 where
  pub owner_qname : Text
  pub target_name : Text
  pub value_kind : ValueKind
  pub value_name : Option Text
  pub value_qname_hint : Option Text
  pub annotation : Option Text
  pub start_line : ℕ
  pub start_column : ℕ
  pub guarded : Bool

pub record InheritanceIr : Type 0 where
  pub type_qname : Text
  pub base_name : Text
  pub base_qname : Option Text

pub record SymbolIr : Type 0 where
  pub kind : Text
  pub name : Text
  pub qname : Text
  pub signature : Text
  pub start_line : ℕ
  pub end_line : ℕ
  pub cyclomatic : ℕ
  pub parent_qname : Option Text
  pub docstring : Option Text
  pub return_annotation : Option Text

-- The executable module scope.
pub record ModuleInitIr : Type 0 where
  pub qname : Text
  pub start_line : ℕ
  pub end_line : ℕ

pub data DiagnosticCategory : Type 0 where
  syntax_error sql_parse_error sql_unsupported_construct : DiagnosticCategory
  sql_dynamic_reference source_decode_error : DiagnosticCategory

pub data Severity : Type 0 where
  warning error : Severity

pub record ParseDiagnosticIr : Type 0 where
  pub category : DiagnosticCategory
  pub severity : Severity
  pub line : Option ℕ
  pub column : Option ℕ
  pub message : Text

pub data ParseStatus : Type 0 where
  parsed partial failed : ParseStatus

pub record FileIr : Type 0 where
  pub path : Text
  pub language : Text
  pub loc : ℕ
  pub module_qname : Text
  pub module_init : Option ModuleInitIr
  pub parse_status : ParseStatus
  pub diagnostics : List ParseDiagnosticIr
  pub imports : List ImportIr
  pub symbols : List SymbolIr
  pub inheritance : List InheritanceIr
  pub calls : List CallIr
  pub local_bindings : List LocalBindingIr
  pub sql_artifacts : List SqlArtifactIr
  pub sql_statements : List SqlStatementIr
  pub sql_object_refs : List SqlObjectRefIr

pub record RepositoryIr : Type 0 where
  pub repo_name : Text
  pub commit : Text
  pub root_path : Text
  pub files : List FileIr
  pub markdown_descriptions : Dict (List Text)
