-- ===== src/SqlResolver/Registry.antt =====
-- The candidates of a reference in the registry: `_query_candidates`, `_query_candidates_schemas`
-- and `_conclude` of src/codekg/sql_resolver.py. The registry is the list of its `sqlobjects` rows.
use my_kg_codebase.Prelude.{
  ℕ, ◌+◌, Bool, true, false, not, ◌&&◌, Option, none, some, List, [], ◌∷◌, map, filter, length,
  take, if◌then◌else◌, leb, head?, ◌==◌,
}
use my_kg_codebase.Prelude.Text.{Text, codes, text_eq, text_lt, contains, has_text}
use my_kg_codebase.Ir.Sql.{SqlObjectRefIr}
use my_kg_codebase.SqlResolver.{
  SqlObject, SqlResolution, SqlStatus, exact, ambiguous, unresolved, max_candidates,
}

-- a == b, for values that can be None
abbrev pub maybe_eq : Option Text → Option Text → Bool
maybe_eq none none = true
maybe_eq (some a) (some b) = text_eq a b
maybe_eq _ _ = false

abbrev pub bool_eq : Bool → Bool → Bool
bool_eq true b = b
bool_eq false b = not b

-- ORDER BY key
unfoldable pub insert_key : Text → List Text → List Text
insert_key k [] = k ∷ []
insert_key k (j ∷ keys) =
    let later = insert_key k keys in if text_lt j k then j ∷ later else k ∷ j ∷ keys

unfoldable pub sort_keys : List Text → List Text
unfolding insert_key text_lt
sort_keys [] = []
sort_keys (k ∷ keys) = insert_key k (sort_keys keys)

-- str.lower() for one character, as far as letters of ASCII come of it: the capitals of ASCII and
-- the Kelvin sign. Other characters stay, which no search for a word of ASCII tells apart.
unfoldable pub lower_char : ℕ → ℕ
lower_char c = if leb b'A' c && leb c b'Z' then c + 32 else if c == 8490 then b'k' else c

-- _safe_signature
unfoldable pub safe_signature : Text → Bool
unfolding has_text lower_char
safe_signature signature =
    not (has_text (codes "unknown") (map lower_char signature))
    && not (has_text (codes "?") signature)

-- The condition on the signature that a query has: equal where it is strict, and otherwise only
-- if there is a safe one.
unfoldable pub signature_fits : Bool → Option Text → Option Text → Bool
unfolding safe_signature text_eq
signature_fits true wanted stored = maybe_eq stored wanted
signature_fits false none stored = true
signature_fits false (some wanted) stored =
    if safe_signature wanted then maybe_eq stored (some wanted) else true

-- WHERE database_name = ? AND database_is_default = ? AND schema_name IN (…) AND kind IN (…)
-- AND object_name = ? and the condition on the signature
unfoldable pub row_fits :
    Text → Bool → List Text → List Text → Text → Bool → Option Text → SqlObject → Bool
unfolding signature_fits text_eq contains
row_fits database is_default schemas kinds name strict signature row =
    text_eq row.database_name database
    && bool_eq row.database_is_default is_default
    && contains row.schema_name schemas
    && contains row.kind kinds
    && text_eq row.object_name name
    && signature_fits strict signature row.signature

-- The number of the rows, and the first keys in their order.
unfoldable pub query_candidates :
    List SqlObject → Text → Bool → List Text → List Text → Text → Bool → Option Text → ℕ × List Text
unfolding row_fits sort_keys max_candidates
query_candidates registry database is_default schemas kinds name strict signature =
    let rows = filter (row_fits database is_default schemas kinds name strict signature) registry in
    (length rows, take max_candidates (sort_keys (map (λ row. row.key) rows)))

-- SqlResolution(ref, status, …)
abbrev pub without_object : SqlObjectRefIr → SqlStatus → SqlResolution
without_object ref status = record {
  ref = ref;
  status = status;
  object_key = none;
  candidate_count = 0;
  candidate_keys = [];
}

-- _conclude. `keys[0]` is there when the count is one.
unfoldable pub conclude : SqlObjectRefIr → ℕ × List Text → Bool → SqlResolution
conclude ref (count, keys) allow_exact =
    if count == 1 && allow_exact
    then record {
      ref = ref;
      status = exact;
      object_key = head? keys;
      candidate_count = count;
      candidate_keys = keys;
    }
    else record {
      ref = ref;
      status = if leb count 1 then unresolved else ambiguous;
      object_key = none;
      candidate_count = count;
      candidate_keys = keys;
    }
