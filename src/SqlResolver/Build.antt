-- ===== src/SqlResolver/Build.antt =====
-- build_sql_registry of src/codekg/sql_resolver.py: the definitions among the references, grouped
-- by what they define. The rows are those of `sqlrefs`, each with its path, and with its rows of
-- `sqlref_search_path` in their order.
pub mod Groups
pub mod Fitting
use my_kg_codebase.Prelude.{
  ℕ, zero, suc, ◌+◌, ◌≤◌, ◌≡◌, refl, Bool, true, false, not, ◌&&◌, ◌||◌, Option, none, some, List,
  [], ◌∷◌, ◌++◌, any, if◌then◌else◌, is_some, is_empty, head?, ◌==◌,
}
use my_kg_codebase.Prelude.Decimal.{digits}
use my_kg_codebase.Prelude.Text.{Text, codes, text_eq, text_lt, contains}
use my_kg_codebase.Ir.Sql.{SqlObjectRefIr, SqlObjectRole}
use my_kg_codebase.SqlResolver.{SqlObject, known_object_kinds, default_database, schemaless}
use my_kg_codebase.SqlResolver.Registry.{maybe_eq, bool_eq}
use my_kg_codebase.SqlResolver.Lookup.{or_text, or_maybe, is_global}

-- The columns that definitions are grouped by.
pub record Identity : Type 0 where
  pub database_name : Text
  pub database_is_default : Bool
  pub schema_name : Option Text
  pub kind : Text
  pub object_name : Text
  pub signature : Option Text

-- NULLIF(x, '')
abbrev pub nullif_empty : Option Text → Option Text
nullif_empty none = none
nullif_empty (some []) = none
nullif_empty (some (c ∷ s)) = some (c ∷ s)

-- x IS NULL OR x = ''
abbrev pub null_or_empty : Option Text → Bool
null_or_empty x = not (is_some (nullif_empty x))

abbrev pub is_define : SqlObjectRole → Bool
is_define SqlObjectRole.define = true
is_define _ = false

-- An explicit schema, or any value in the search path.
abbrev pub has_namespace : SqlObjectRefIr → Bool
has_namespace r = not (null_or_empty r.schema_name) || any (λ s. not (is_empty s)) r.search_path

-- COALESCE(NULLIF(r.schema_name, ''), the first value of the search path unless it is '')
abbrev pub schema_column : Text → SqlObjectRefIr → Option Text
schema_column kind r =
    if is_global kind
    then some schemaless
    else or_maybe r.schema_name (nullif_empty (head? r.search_path))

abbrev pub identity : Text → Text → SqlObjectRefIr → Identity
identity name kind r = record {
  database_name = or_text r.database_name default_database;
  database_is_default = null_or_empty r.database_name;
  schema_name = schema_column kind r;
  kind = kind;
  object_name = name;
  signature = r.signature_hint;
}

-- The identity that a row defines, if the row passes the WHERE.
unfoldable pub identity_of : SqlObjectRefIr → Option Identity
unfolding contains text_eq
identity_of r =
    if is_define r.role && not r.dynamic
    then elim r.object_name [
      | none ↦ none
      | some name ↦ elim r.object_kind_hint [
        | none ↦ none
        | some kind ↦
            if contains kind known_object_kinds && (is_global kind || has_namespace r)
            then some (identity name kind r)
            else none
      ]
    ]
    else none

-- NULL and NULL are in one group.
unfoldable pub same_identity : Identity → Identity → Bool
same_identity a b =
    text_eq a.database_name b.database_name
    && bool_eq a.database_is_default b.database_is_default
    && maybe_eq a.schema_name b.schema_name
    && text_eq a.kind b.kind
    && text_eq a.object_name b.object_name
    && maybe_eq a.signature b.signature

-- A group with its COUNT(*) and MIN(path).
pub record Group : Type 0 where
  pub identity : Identity
  pub count : ℕ
  pub least_path : Text

abbrev pub joined : Text → Group → Group
joined path g = record {
  identity = g.identity;
  count = g.count + 1;
  least_path = if text_lt path g.least_path then path else g.least_path;
}

unfoldable pub add_occurrence : Text → Identity → List Group → List Group
unfolding same_identity text_eq text_lt
add_occurrence path j [] = record { identity = j; count = 1; least_path = path } ∷ []
add_occurrence path j (g ∷ groups) =
    let later = add_occurrence path j groups in
    if same_identity g.identity j then joined path g ∷ groups else g ∷ later

-- GROUP BY
unfoldable pub group_rows : List (Text × SqlObjectRefIr) → List Group
unfolding add_occurrence identity_of
group_rows [] = []
group_rows ((path, r) ∷ rows) =
    let groups = group_rows rows in
    elim (identity_of r) [ none ↦ groups | some j ↦ add_occurrence path j groups ]

-- length(x) in SQL: the number of characters before the first NUL
unfoldable pub sql_length : Text → ℕ
sql_length [] = 0
sql_length (c ∷ x) = let rest = sql_length x in if c == 0 then 0 else suc rest

-- 'v' || length(x) || ':' || x
unfoldable pub sql_part : Text → Text
unfolding sql_length digits
sql_part x = codes "v" ++ (digits (sql_length x) ++ (codes ":" ++ x))

-- CASE WHEN signature IS NULL THEN 'n' ELSE … END
abbrev pub signature_part : Option Text → Text
signature_part none = codes "n"
signature_part (some signature) = sql_part signature

-- The key that the SELECT puts together.
unfoldable pub stored_key : Text → Identity → Text → Text
unfolding sql_part text_eq contains
stored_key repo_prefix j schema =
    repo_prefix
    ++ (codes ":sql:"
        ++ ((if j.database_is_default then codes "n" else sql_part j.database_name)
            ++ (codes ":"
                ++ ((if is_global j.kind then codes "n" else sql_part schema)
                    ++ (codes ":"
                        ++ (sql_part j.kind
                            ++ (codes ":"
                                ++ (sql_part j.object_name
                                    ++ (codes ":" ++ signature_part j.signature)))))))))

-- The row of a group with that schema.
abbrev pub made : Text → Group → Text → SqlObject
made repo_prefix g schema = record {
  key = stored_key repo_prefix g.identity schema;
  database_name = g.identity.database_name;
  schema_name = schema;
  kind = g.identity.kind;
  object_name = g.identity.object_name;
  signature = g.identity.signature;
  definition_count = g.count;
  owner_path = g.least_path;
  database_is_default = g.identity.database_is_default;
}

-- A schema that is NULL breaks the constraint NOT NULL.
abbrev pub object_in : Text → Group → Option Text → Option SqlObject
object_in repo_prefix g none = none
object_in repo_prefix g (some schema) = some (made repo_prefix g schema)

unfoldable pub object_of : Text → Group → Option SqlObject
unfolding stored_key
object_of repo_prefix g = object_in repo_prefix g g.identity.schema_name

-- The INSERT of all groups: it fails as a whole if one row does.
unfoldable pub objects_of : Text → List Group → Option (List SqlObject)
unfolding object_of
objects_of repo_prefix [] = some []
objects_of repo_prefix (g ∷ groups) =
    let rest = objects_of repo_prefix groups in
    elim (object_of repo_prefix g) [
      | none ↦ none
      | some row ↦ elim rest [ none ↦ none | some rows ↦ some (row ∷ rows) ]
    ]

unfoldable pub build_sql_objects : Text → List (Text × SqlObjectRefIr) → Option (List SqlObject)
unfolding objects_of group_rows
build_sql_objects repo_prefix rows = objects_of repo_prefix (group_rows rows)
