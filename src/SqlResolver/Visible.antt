-- ===== src/SqlResolver/Visible.antt =====
-- Which schemas a search of `_resolve_uncached` in src/codekg/sql_resolver.py visits, and what its
-- lists of keys are.
use my_kg_codebase.Prelude.{
  take, ℕ, zero, suc, ◌≤◌, ◌≡◌, refl, sym, ap, ◌∙◌, subst, Bool, true, false, ◌⊎◌, inl, inr, ◌≢◌,
  Option, none, some, List, [], ◌∷◌, map, length, All, if◌then◌else◌, arith, Bool-cases, head?,
}
use my_kg_codebase.Prelude.Text.{Text, contains, text_eq_refl}
use my_kg_codebase.Ir.Sql.{SqlObjectRefIr}
use my_kg_codebase.SqlResolver.{SqlObject, SqlStatus, exact, max_candidates, schemaless}
use my_kg_codebase.SqlResolver.Registry.{sort_keys, insert_key}
use my_kg_codebase.SqlResolver.Lookup.{definition_schema, is_global, own_or, or_text, or_maybe}

-- A schema that the reference can see: its own, one of its search path, or that of the objects
-- which have none.
abbrev pub Visible : SqlObjectRefIr → Text → Type 0
Visible ref schema =
    (ref.schema_name ≡ some schema)
    ⊎ (contains schema ref.search_path ≡ true)
    ⊎ (schema ≡ schemaless)

pub length-take-bound {ℓ} : {A : Type ℓ} (n : ℕ) (xs : List A) → length (take n xs) ≤ n
length-take-bound zero xs = omega arith
length-take-bound (suc n) [] = omega arith
length-take-bound (suc n) (x ∷ xs) = omega (arith, length-take-bound n xs)

pub length-take-le {ℓ} : {A : Type ℓ} (n : ℕ) (xs : List A) → length (take n xs) ≤ length xs
length-take-le zero xs = omega arith
length-take-le (suc n) [] = omega arith
length-take-le (suc n) (x ∷ xs) = omega (arith, length-take-le n xs)

pub length-insert_key :
    (k : Text) (keys : List Text) → length (insert_key k keys) ≡ suc (length keys)
unfolding insert_key
length-insert_key k [] = refl
length-insert_key k (j ∷ keys) = ground (arith, length-insert_key k keys)

pub length-sort_keys :
    (rows : List SqlObject) → length (sort_keys (map (λ row. row.key) rows)) ≡ length rows
unfolding sort_keys
length-sort_keys [] = refl
length-sort_keys (row ∷ rows) =
    length-insert_key row.key (sort_keys (map (λ r. r.key) rows)) ∙ ap suc (length-sort_keys rows)

pub one_row {ℓ} : {A : Type ℓ} (xs : List A) → length xs ≡ 1 → (x : A) × (xs ≡ x ∷ [])
one_row [] h = absurd (omega arith)
one_row (x ∷ []) h = (x, refl)
one_row (x ∷ y ∷ xs) h = absurd (omega arith)

pub single_keys :
    (rows : List SqlObject) (row : SqlObject)
    → rows ≡ row ∷ []
    → take max_candidates (sort_keys (map (λ r. r.key) rows)) ≡ row.key ∷ []
unfolding max_candidates sort_keys insert_key
single_keys rows row e = rw e refl

pub not_exact : (b : Bool) → (if b then SqlStatus.unresolved else SqlStatus.ambiguous) ≢ exact
not_exact true h = cc h
not_exact false h = cc h

pub contains_head : (k : Text) (path : List Text) → contains k (k ∷ path) ≡ true
unfolding contains
contains_head k path = ground (arith, text_eq_refl k)

pub or_maybe-from :
    (own : Option Text) (path : List Text) (s : Text)
    → or_maybe own (head? path) ≡ some s
    → (own ≡ some s) ⊎ (contains s path ≡ true)
or_maybe-from none [] s h = absurd (ground (arith, h))
or_maybe-from none (p ∷ path) s h =
    inr (subst (λ x. contains s (x ∷ path) ≡ true) (sym (cc h)) (contains_head s path))
or_maybe-from (some []) [] s h = absurd (ground (arith, h))
or_maybe-from (some []) (p ∷ path) s h =
    inr (subst (λ x. contains s (x ∷ path) ≡ true) (sym (cc h)) (contains_head s path))
or_maybe-from (some (c ∷ own)) path s h = inl h

pub definition_schema-Visible :
    (ref : SqlObjectRefIr) (kind s : Text)
    → definition_schema ref kind ≡ some s
    → Visible ref (or_text (some s) schemaless)
definition_schema-Visible ref kind [] h = inr (inr refl)
definition_schema-Visible ref kind (c ∷ s) h = elim (Bool-cases (is_global kind)) [
  | inl e ↦ inr (inr (sym (cc (rw e at h))))
  | inr e ↦ elim (or_maybe-from ref.schema_name ref.search_path (c ∷ s) (rw e at h)) [
    | inl own ↦ inl own
    | inr listed ↦ inr (inl listed)
  ]
]

pub path-Visible :
    (ref : SqlObjectRefIr) (path : List Text)
    → ((s : Text) → contains s path ≡ true → Visible ref s)
    → All (Visible ref) path
path-Visible ref [] h = tt
path-Visible ref (s ∷ path) h = (
  h s (contains_head s path),
  path-Visible ref path (λ t m. h t (unfold contains in ground (arith, m))),
)

pub own_or-Visible :
    (ref : SqlObjectRefIr) (own : Option Text) (others : List Text)
    → ref.schema_name ≡ own
    → All (Visible ref) others
    → All (Visible ref) (own_or own others)
own_or-Visible ref none others e seen = seen
own_or-Visible ref (some []) others e seen = seen
own_or-Visible ref (some (c ∷ s)) others e seen = (inl e, tt)

pub others-Visible :
    (ref : SqlObjectRefIr) (kind : Text)
    → All (Visible ref) (if is_global kind then schemaless ∷ [] else ref.search_path)
others-Visible ref kind = elim (Bool-cases (is_global kind)) [
  | inl e ↦ rw e (inr (inr refl), tt)
  | inr e ↦ rw e (path-Visible ref ref.search_path (λ s m. inr (inl m)))
]
