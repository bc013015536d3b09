-- ===== src/SqlResolver/StoredKey.antt =====
-- The keys that the SQL of build_sql_registry in src/codekg/sql_resolver.py puts together.
use my_kg_codebase.Prelude.{
  ◌<◌, ◌≡◌, refl, sym, ap, ◌∙◌, Bool, true, false, Option, none, some, [], ◌∷◌, ◌++◌, length,
  if◌then◌else◌, arith, append_assoc,
}
use my_kg_codebase.Prelude.Decimal.{digits}
use my_kg_codebase.Prelude.Text.{Text, codes}
use my_kg_codebase.SqlResolver.Keys.{component, sql_object_key, join_colons}
use my_kg_codebase.SqlResolver.Lookup.{is_global}
use my_kg_codebase.SqlResolver.Build.{Identity, sql_length, sql_part, signature_part, stored_key}

-- A text without the character NUL
abbrev pub NoNul : Text → Type 0
NoNul [] = Unit {0}
NoNul (c ∷ x) = (0 < c) × NoNul x

abbrev pub NoNulIn : Option Text → Type 0
NoNulIn none = Unit {0}
NoNulIn (some x) = NoNul x

sql_length-length : (x : Text) → NoNul x → sql_length x ≡ length x
unfolding sql_length
sql_length-length [] h = refl
sql_length-length (c ∷ x) h = ground (arith, h, sql_length-length x h.1)

sql_part-component : (x : Text) → NoNul x → sql_part x ≡ component (some x)
unfolding sql_part component
sql_part-component x h = ap (λ n. b'v' ∷ (digits n ++ (b':' ∷ x))) (sql_length-length x h)

sql_part-if :
    (b : Bool) (x : Text)
    → NoNul x
    → (if b then codes "n" else sql_part x) ≡ component (if b then none else some x)
unfolding component
sql_part-if true x h = refl
sql_part-if false x h = sql_part-component x h

signature_part-component :
    (signature : Option Text) → NoNulIn signature → signature_part signature ≡ component signature
unfolding component
signature_part-component none h = refl
signature_part-component (some x) h = sql_part-component x h

-- Where no column holds the character NUL, the key that the SQL of build_sql_registry puts
-- together for an object is the one that sql_object_key gives it, without a database where it is
-- the default one, and without a schema for schemas and extensions.
pub stored_key-sql_object_key :
    (repo_prefix : Text) (j : Identity) (schema : Text)
    → NoNul j.database_name
    → NoNul schema
    → NoNul j.kind
    → NoNul j.object_name
    → NoNulIn j.signature
    → stored_key repo_prefix j schema
      ≡ sql_object_key repo_prefix
          (if j.database_is_default then none else some j.database_name)
          (if is_global j.kind then none else some schema)
          j.kind
          j.object_name
          j.signature
unfolding stored_key sql_object_key join_colons
stored_key-sql_object_key repo_prefix j schema a b c d e =
    (λ i.
      repo_prefix
      ++ (codes ":sql:"
          ++ (sql_part-if j.database_is_default j.database_name a i
              ++ (codes ":"
                  ++ (sql_part-if (is_global j.kind) schema b i
                      ++ (codes ":"
                          ++ (sql_part-component j.kind c i
                              ++ (codes ":"
                                  ++ (sql_part-component j.object_name d i
                                      ++ (codes ":"
                                          ++ signature_part-component j.signature e i))))))))))
    ∙ sym (append_assoc repo_prefix (codes ":sql") _)
