-- ===== src/SqlResolver/Keys.antt =====
-- The identities of SQL objects and databases: `_component`, `sql_object_key` and
-- `sql_database_key` of src/codekg/sql_resolver.py.
use my_kg_codebase.Prelude.{
  ◌≡◌, ◌≢◌, refl, sym, ap, ◌∙◌, Bool, Option, none, some, List, [], ◌∷◌, ◌++◌, length, append_assoc,
  append-nil, if◌then◌else◌, arith,
}
use my_kg_codebase.Prelude.Text.{Text, codes}
use my_kg_codebase.Prelude.Decimal.{digits, digits_colon_inj}

-- _component
unfoldable pub component : Option Text → Text
unfolding digits
component none = codes "n"
component (some value) = b'v' ∷ (digits (length value) ++ (b':' ∷ value))

-- ":".join(parts)
unfoldable pub join_colons : List Text → Text
join_colons [] = []
join_colons (part ∷ []) = part
join_colons (part ∷ more ∷ parts) = part ++ (b':' ∷ join_colons (more ∷ parts))

unfoldable pub sql_object_key : Text → Option Text → Option Text → Text → Text → Option Text → Text
unfolding component join_colons
sql_object_key repo_prefix database_name schema_name kind object_name signature = join_colons (
    (repo_prefix ++ codes ":sql")
    ∷ component database_name
    ∷ component schema_name
    ∷ component (some kind)
    ∷ component (some object_name)
    ∷ component signature
    ∷ [])

unfoldable pub sql_database_key : Text → Text → Bool → Text
unfolding component
sql_database_key repo_prefix database_name database_is_default =
    let value = if database_is_default then none else some database_name in
    repo_prefix ++ (codes ":sql:database:" ++ component value)

append_cancel : (p u v : Text) → p ++ u ≡ p ++ v → u ≡ v
append_cancel [] u v h = h
append_cancel (c ∷ p) u v h = append_cancel p u v (cc h)

-- Texts of equal length that begin equal texts are equal.
same_length_split : (s t u v : Text) → length s ≡ length t → s ++ u ≡ t ++ v → (s ≡ t) × (u ≡ v)
same_length_split [] [] u v n h = (refl, h)
same_length_split [] (d ∷ t) u v n h = absurd (omega arith)
same_length_split (c ∷ s) [] u v n h = absurd (omega arith)
same_length_split (c ∷ s) (d ∷ t) u v n h =
    let (same, rest) = same_length_split s t u v (omega arith) (cc h) in (cc (h, same), rest)

-- What a component stands for, and where it ends, can be told from the text.
component_cancel :
    (a b : Option Text) (u v : Text) → component a ++ u ≡ component b ++ v → (a ≡ b) × (u ≡ v)
unfolding component
component_cancel none none u v h = (refl, cc h)
component_cancel none (some w) u v h = absurd (ground (arith, h))
component_cancel (some w) none u v h = absurd (ground (arith, h))
component_cancel (some a) (some b) u v h =
    let (n, rest) = digits_colon_inj (length a) (length b) (a ++ u) (b ++ v) (
      sym (append_assoc (digits (length a)) (b':' ∷ a) u)
      ∙ cc h
      ∙ append_assoc (digits (length b)) (b':' ∷ b) v) in
    let (same, behind) = same_length_split a b u v n rest in (ap some same, behind)

component_cancel_colon :
    (a b : Option Text) (u v : Text)
    → component a ++ (b':' ∷ u) ≡ component b ++ (b':' ∷ v)
    → (a ≡ b) × (u ≡ v)
component_cancel_colon a b u v h =
    let (same, rest) = component_cancel a b (b':' ∷ u) (b':' ∷ v) h in (same, cc rest)

pub some_inj : {A : Type 0} (a b : A) → some a ≡ some b → a ≡ b
some_inj a b h = cc h

-- Within one repository the key of an SQL object tells its database, schema, kind, name and
-- signature, whatever characters these hold: no two different objects share a key.
pub sql_object_key_inj :
    (repo_prefix : Text) (d d' s s' : Option Text) (k k' o o' : Text) (g g' : Option Text)
    → sql_object_key repo_prefix d s k o g ≡ sql_object_key repo_prefix d' s' k' o' g'
    → (d ≡ d') × (s ≡ s') × (k ≡ k') × (o ≡ o') × (g ≡ g')
unfolding sql_object_key join_colons
sql_object_key_inj repo_prefix d d' s s' k k' o o' g g' h =
    let start : _ = append_cancel (repo_prefix ++ codes ":sql") _ _ h in
    let (databases, h1) = component_cancel_colon d d' _ _ (cc start) in
    let (schemas, h2) = component_cancel_colon s s' _ _ h1 in
    let (kinds, h3) = component_cancel_colon (some k) (some k') _ _ h2 in
    let (names, h4) = component_cancel_colon (some o) (some o') _ _ h3 in
    let (signatures, _) =
      component_cancel g g' [] []
        (append-nil (component g) ∙ h4 ∙ sym (append-nil (component g'))) in
    (databases, schemas, some_inj k k' kinds, some_inj o o' names, signatures)

-- What stands before the colon in a component is not the word `database`.
component_database : (a : Option Text) (u v : Text) → component a ++ u ≢ codes "database:" ++ v
unfolding component
component_database none u v h = ground (arith, h)
component_database (some a) u v h = ground (arith, h)

-- Within one repository the key of a database, the default one or not, is never the key of an
-- object.
pub sql_database_key-ne-sql_object_key :
    (repo_prefix n : Text) (is_default : Bool) (d s : Option Text) (k o : Text) (g : Option Text)
    → sql_database_key repo_prefix n is_default ≢ sql_object_key repo_prefix d s k o g
unfolding sql_database_key sql_object_key join_colons
sql_database_key-ne-sql_object_key repo_prefix n is_default d s k o g h =
    let behind : _ =
      append_cancel repo_prefix _ _ (h ∙ append_assoc repo_prefix (codes ":sql") _) in
    component_database d _ _ (sym (append_cancel (codes ":sql:") _ _ behind))
