-- ===== src/SqlResolver/Build/Fitting.antt =====
-- The rows of the registry that fit an identity: build_sql_registry of src/codekg/sql_resolver.py.
use my_kg_codebase.Prelude.{
  suc, ◌≡◌, refl, ap, ◌∙◌, subst, Bool, true, false, Option, none, some, List, [], ◌∷◌, filter,
  length, if◌then◌else◌, arith, Option-cases, inl, inr,
}
use my_kg_codebase.Prelude.Text.{Text, text_eq, contains}
use my_kg_codebase.SqlResolver.{SqlObject}
use my_kg_codebase.SqlResolver.Registry.{maybe_eq, row_fits}
use my_kg_codebase.SqlResolver.Keys.{some_inj}
use my_kg_codebase.SqlResolver.Build.{
  Identity, Group, same_identity, object_of, objects_of, made, object_in,
}
use my_kg_codebase.SqlResolver.Build.Groups.{groups_of}

row_fits-made :
    (repo_prefix : Text) (g : Group) (i : Identity) (s schema : Text)
    → g.identity.schema_name ≡ some s
    → i.schema_name ≡ some schema
    → row_fits i.database_name i.database_is_default
        (schema ∷ [])
        (i.kind ∷ [])
        i.object_name
        true
        i.signature
        (made repo_prefix g s)
      ≡ same_identity g.identity i
unfolding row_fits same_identity contains
row_fits-made repo_prefix g i s schema n e =
    let schemas : maybe_eq g.identity.schema_name i.schema_name ≡ text_eq s schema =
      ap (λ x. maybe_eq x i.schema_name) n ∙ ap (maybe_eq (some s)) e in
    ground (arith, schemas)

row_fits-object_in :
    (repo_prefix : Text) (g : Group) (row : SqlObject) (i : Identity) (schema : Text)
    (own : Option Text)
    → g.identity.schema_name ≡ own
    → i.schema_name ≡ some schema
    → object_in repo_prefix g own ≡ some row
    → row_fits i.database_name i.database_is_default
        (schema ∷ [])
        (i.kind ∷ [])
        i.object_name
        true
        i.signature
        row
      ≡ same_identity g.identity i
row_fits-object_in repo_prefix g row i schema none n e h = absurd (ground (arith, h))
row_fits-object_in repo_prefix g row i schema (some s) n e h =
    subst
      (λ x.
        row_fits i.database_name i.database_is_default (schema ∷ []) (i.kind ∷ []) i.object_name
          true i.signature x
        ≡ same_identity g.identity i)
      (some_inj _ _ h) (row_fits-made repo_prefix g i s schema n e)

object_of-eq :
    (repo_prefix : Text) (g : Group) (row : SqlObject)
    → object_of repo_prefix g ≡ some row
    → object_in repo_prefix g g.identity.schema_name ≡ some row
unfolding object_of
object_of-eq repo_prefix g row h = h

length_if {ℓ κ} :
    {A : Type ℓ} {B : Type κ} (a b : Bool)
    → a ≡ b
    → (x : A) (y : B) (xs : List A) (ys : List B) → length xs ≡ length ys
    → length (if a then x ∷ xs else xs) ≡ length (if b then y ∷ ys else ys)
length_if true true e x y xs ys h = ap suc h
length_if true false e x y xs ys h = absurd (cc e)
length_if false true e x y xs ys h = absurd (cc e)
length_if false false e x y xs ys h = h

-- The rows that fit an identity are as many as its groups.
pub length-fitting :
    (repo_prefix : Text) (groups : List Group) (registry : List SqlObject) (i : Identity)
    (schema : Text)
    → i.schema_name ≡ some schema
    → objects_of repo_prefix groups ≡ some registry
    → length (
        filter
          (row_fits i.database_name i.database_is_default
            (schema ∷ [])
            (i.kind ∷ [])
            i.object_name
            true
            i.signature)
          registry)
      ≡ length (groups_of i groups)
unfolding objects_of
length-fitting repo_prefix [] registry i schema e h =
    subst
      (λ rows.
        length (
          filter
            (row_fits i.database_name i.database_is_default (schema ∷ []) (i.kind ∷ [])
              i.object_name true i.signature)
            rows)
        ≡ 0)
      (some_inj _ _ h) refl
length-fitting repo_prefix (g ∷ groups) registry i schema e h =
    elim (Option-cases (object_of repo_prefix g)) [
      | inl n ↦ absurd (let none_there = rw (n, objects_of) at h in ground (arith, none_there))
      | inr (row, n) ↦ elim (Option-cases (objects_of repo_prefix groups)) [
        | inl k ↦ absurd (let none_there = rw (n, k, objects_of) at h in ground (arith, none_there))
        | inr (rows, k) ↦
            let whole : some (row ∷ rows) ≡ some registry = rw (n, k, objects_of) at h in
            let fit =
              row_fits-object_in repo_prefix g row i schema g.identity.schema_name refl e
                (object_of-eq repo_prefix g row n) in
            subst
              (λ all.
                length (
                  filter
                    (row_fits i.database_name i.database_is_default (schema ∷ []) (i.kind ∷ [])
                      i.object_name true i.signature)
                    all)
                ≡ length (groups_of i (g ∷ groups)))
              (some_inj _ _ whole)
              (length_if _ _ fit row g _ _ (length-fitting repo_prefix groups rows i schema e k))
      ]
    ]
