-- ===== src/SqlResolver/Build/Groups.antt =====
-- GROUP BY in build_sql_registry of src/codekg/sql_resolver.py: one group for each identity.
use my_kg_codebase.Prelude.{
  ℕ, suc, ◌≤◌, ◌≡◌, ◌↔◌, refl, sym, ap, ◌∙◌, subst, Bool, true, false, ◌||◌, Option, none, some,
  List, [], ◌∷◌, ◌++◌, any, filter, length, if◌then◌else◌, arith, Bool-cases, Option-cases, inl,
  inr,
}
use my_kg_codebase.Prelude.Text.{Text, text_eq, text_eq_iff}
use my_kg_codebase.Ir.Sql.{SqlObjectRefIr}
use my_kg_codebase.SqlResolver.Registry.{maybe_eq, bool_eq}
use my_kg_codebase.SqlResolver.CacheKey.{maybe_eq_sound}
use my_kg_codebase.SqlResolver.Build.{
  Identity, Group, identity_of, same_identity, add_occurrence, group_rows,
}

maybe_eq_refl : (a : Option Text) → maybe_eq a a ≡ true
maybe_eq_refl none = refl
maybe_eq_refl (some a) = (text_eq_iff a a).1 refl

maybe_eq_iff : (a b : Option Text) → (maybe_eq a b ≡ true) ↔ (a ≡ b)
maybe_eq_iff a b = (maybe_eq_sound a b, λ e. subst (λ x. maybe_eq a x ≡ true) e (maybe_eq_refl a))

bool_eq_iff : (a b : Bool) → (bool_eq a b ≡ true) ↔ (a ≡ b)
bool_eq_iff a b = (λ h. ground (arith, h), λ h. ground (arith, h))

same_identity_refl : (a : Identity) → same_identity a a ≡ true
unfolding same_identity
same_identity_refl a = ground (
  arith,
  (text_eq_iff a.database_name a.database_name).1 refl,
  (bool_eq_iff a.database_is_default a.database_is_default).1 refl,
  maybe_eq_refl a.schema_name,
  (text_eq_iff a.kind a.kind).1 refl,
  (text_eq_iff a.object_name a.object_name).1 refl,
  maybe_eq_refl a.signature,
)

same_identity_sound : (a b : Identity) → same_identity a b ≡ true → a ≡ b
unfolding same_identity
same_identity_sound a b h =
    let h1 : text_eq a.database_name b.database_name ≡ true = ground (arith, h) in
    let h2 : bool_eq a.database_is_default b.database_is_default ≡ true = ground (arith, h) in
    let h3 : maybe_eq a.schema_name b.schema_name ≡ true = ground (arith, h) in
    let h4 : text_eq a.kind b.kind ≡ true = ground (arith, h) in
    let h5 : text_eq a.object_name b.object_name ≡ true = ground (arith, h) in
    let h6 : maybe_eq a.signature b.signature ≡ true = ground (arith, h) in
    λ i. record {
      database_name = (text_eq_iff a.database_name b.database_name).0 h1 i;
      database_is_default = (bool_eq_iff a.database_is_default b.database_is_default).0 h2 i;
      schema_name = maybe_eq_sound a.schema_name b.schema_name h3 i;
      kind = (text_eq_iff a.kind b.kind).0 h4 i;
      object_name = (text_eq_iff a.object_name b.object_name).0 h5 i;
      signature = maybe_eq_sound a.signature b.signature h6 i;
    }

same_identity_iff : (a b : Identity) → (same_identity a b ≡ true) ↔ (a ≡ b)
same_identity_iff a b =
    (same_identity_sound a b, λ e. subst (λ x. same_identity a x ≡ true) e (same_identity_refl a))

apart :
    (a b c : Identity)
    → same_identity a b ≡ true
    → same_identity a c ≡ false
    → same_identity c b ≡ false
apart a b c h k = elim (Bool-cases (same_identity c b)) [
  | inr e ↦ e
  | inl e ↦
      let same : a ≡ c = same_identity_sound a b h ∙ sym (same_identity_sound c b e) in
      absurd (cc (k, subst (λ x. same_identity a x ≡ true) same (same_identity_refl a)))
]

-- The groups of an identity.
abbrev pub groups_of : Identity → List Group → List Group
groups_of j groups = filter (λ g. same_identity g.identity j) groups

-- Joining a row to its group makes no second group, and leaves the others alone.
length-groups_of-add :
    (path : Text) (i j : Identity) (groups : List Group)
    → length (groups_of i groups) ≤ 1
    → length (groups_of i (add_occurrence path j groups))
      ≡ (if same_identity j i then 1 else length (groups_of i groups))
unfolding add_occurrence
length-groups_of-add path i j [] h = ground arith
length-groups_of-add path i j (g ∷ groups) h = elim (Bool-cases (same_identity g.identity j)) [
  | inl e ↦
      let moved : same_identity g.identity i ≡ same_identity j i =
        ap (λ k. same_identity k i) (same_identity_sound g.identity j e) in
      rw (e, moved)
        (elim (Bool-cases (same_identity j i)) [
          | inl k ↦ rw k (let fits = rw (moved ∙ k) at h in omega (arith, fits))
          | inr k ↦ rw k refl
        ])
  | inr e ↦ rw e (elim (Bool-cases (same_identity g.identity i)) [
    | inl k ↦
        let fits = rw k at h in
        let ih = length-groups_of-add path i j groups (omega (arith, fits)) in
        let other : same_identity j i ≡ false = apart g.identity i j k e in
        rw (k, other) (ap suc (rw other at ih))
    | inr k ↦ rw k (length-groups_of-add path i j groups (rw k at h))
  ])
]

abbrev pub meets : Identity → Option Identity → Bool
meets i none = false
meets i (some j) = same_identity j i

-- A row defines the identity.
abbrev pub defines : Identity → Text × SqlObjectRefIr → Bool
defines i (path, r) = meets i (identity_of r)

abbrev pub one_if : Bool → ℕ
one_if b = if b then 1 else 0

at_most_one : (n : ℕ) (b : Bool) → n ≡ one_if b → n ≤ 1
at_most_one n true h = omega (arith, h)
at_most_one n false h = omega (arith, h)

one_if_either : (a b : Bool) (n : ℕ) → n ≡ one_if b → (if a then 1 else n) ≡ one_if (a || b)
one_if_either true b n h = refl
one_if_either false b n h = h

pub length-groups_of :
    (i : Identity) (rows : List (Text × SqlObjectRefIr))
    → length (groups_of i (group_rows rows)) ≡ one_if (any (defines i) rows)
unfolding group_rows
length-groups_of i [] = refl
length-groups_of i ((path, r) ∷ rows) =
    let ih = length-groups_of i rows in
    elim (Option-cases (identity_of r)) [
      | inl e ↦
          let plain : length (groups_of i (group_rows ((path, r) ∷ rows)))
              ≡ length (groups_of i (group_rows rows)) =
            rw (e, group_rows) refl in
          plain ∙ ih ∙ ap (λ o. one_if (meets i o || any (defines i) rows)) (sym e)
      | inr (j, e) ↦
          let grown : length (groups_of i (group_rows ((path, r) ∷ rows)))
              ≡ length (groups_of i (add_occurrence path j (group_rows rows))) =
            rw (e, group_rows) refl in
          grown
          ∙ length-groups_of-add path i j (group_rows rows) (at_most_one _ _ ih)
          ∙ one_if_either (same_identity j i) (any (defines i) rows) _ ih
          ∙ ap (λ o. one_if (meets i o || any (defines i) rows)) (sym e)
    ]

pub defines_split :
    (i : Identity) (before after : List (Text × SqlObjectRefIr)) (path : Text) (r : SqlObjectRefIr)
    → identity_of r ≡ some i
    → any (defines i) (before ++ (path, r) ∷ after) ≡ true
defines_split i [] after path r e =
    let here : defines i (path, r) ≡ true = ap (meets i) e ∙ same_identity_refl i in
    ap (λ b. b || any (defines i) after) here
defines_split i (row ∷ before) after path r e =
    or_true (defines i row) _ (defines_split i before after path r e)
  where
    or_true : (a b : Bool) → b ≡ true → (a || b) ≡ true
    or_true a b h = ground (arith, h)
