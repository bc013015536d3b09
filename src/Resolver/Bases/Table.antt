-- ===== src/Resolver/Bases/Table.antt =====
-- The table of bases that the in-memory index builds holds, for each type, the parents that its
-- inheritance facts name, in order.
use my_kg_codebase.Prelude.{
  ◌≡◌, refl, sym, ap, ◌∙◌, Bool, true, false, ◌||◌, Option, none, some, List, [], ◌∷◌, ◌++◌, length,
  arith, subst, if◌then◌else◌, Bool-cases, inl, inr, append-nil, append_assoc, ◌==◌,
}
use my_kg_codebase.Prelude.Text.{Text, text_eq, text_eq_iff, text_eq_sound, text_eq_refl, contains}
use my_kg_codebase.Prelude.Dict.{Dict, insert, lookup-insert}
use my_kg_codebase.Ir.{FileIr, InheritanceIr}
use my_kg_codebase.Resolver.Names.{import_bindings}
use my_kg_codebase.Resolver.Refs.{SymbolRef, get_list}
use my_kg_codebase.Resolver.Bases.{
  BaseTable, parent_of, add_inheritance, add_inheritances, add_files, add_parent,
}

-- What the facts about one type name, in order: a parent, or nothing that is certain.
abbrev pub parents_in :
    (Text → List SymbolRef) → Text → Dict Text → List InheritanceIr → List (Option Text)
parents_in types q bindings [] = []
parents_in types q bindings (i ∷ rest) =
    let more = parents_in types q bindings rest in
    if text_eq i.type_qname q then parent_of types bindings i ∷ more else more

abbrev pub parents : (Text → List SymbolRef) → Text → List FileIr → List (Option Text)
parents types q [] = []
parents types q (f ∷ files) =
    parents_in types q (import_bindings f.imports) f.inheritance ++ parents types q files

abbrev pub known : List (Option Text) → List Text
known [] = []
known (none ∷ ps) = known ps
known (some p ∷ ps) = p ∷ known ps

abbrev pub any_unknown : List (Option Text) → Bool
any_unknown [] = false
any_unknown (none ∷ ps) = true
any_unknown (some p ∷ ps) = any_unknown ps

pub known-append : (ps qs : List (Option Text)) → known (ps ++ qs) ≡ known ps ++ known qs
known-append [] qs = refl
known-append (none ∷ ps) qs = known-append ps qs
known-append (some p ∷ ps) qs = cc (known-append ps qs)

pub any_unknown-append :
    (ps qs : List (Option Text)) → any_unknown (ps ++ qs) ≡ (any_unknown ps || any_unknown qs)
any_unknown-append [] qs = refl
any_unknown-append (none ∷ ps) qs = refl
any_unknown-append (some p ∷ ps) qs = any_unknown-append ps qs

get_list-insert :
    (k j : Text) (v : List Text) (d : Dict (List Text))
    → get_list j (insert k v d) ≡ (if text_eq k j then v else get_list j d)
get_list-insert k j v d = ground (arith, lookup-insert k j v d)

-- What a type's entry of the table becomes.
abbrev pub HasParts : Text → List (Option Text) → BaseTable → BaseTable → Type 0
HasParts q ps t u =
    (get_list q u.bases ≡ get_list q t.bases ++ known ps)
    × (contains q u.incomplete ≡ (contains q t.incomplete || any_unknown ps))

HasParts-nil : (q : Text) (t : BaseTable) → HasParts q [] t t
HasParts-nil q t = (sym (append-nil _), ground arith)

HasParts-append :
    (q : Text) (ps qs : List (Option Text)) (t u v : BaseTable)
    → HasParts q ps t u
    → HasParts q qs u v
    → HasParts q (ps ++ qs) t v
HasParts-append q ps qs t u v (b, c) (b', c') = (
  b'
      ∙ ap (λ l. l ++ known qs) b
      ∙ append_assoc (get_list q t.bases) (known ps) (known qs)
      ∙ ap (λ l. get_list q t.bases ++ l) (sym (known-append ps qs)),
  ground (arith, b, c, b', c', any_unknown-append ps qs),
)

add_parent-same :
    (q : Text) (p : Option Text) (t : BaseTable) → HasParts q (p ∷ []) t (add_parent q p t)
unfolding add_parent
add_parent-same q none t = (sym (append-nil _), unfold contains in ground (arith, text_eq_refl q))
add_parent-same q (some p) t = (rw (get_list-insert, text_eq_refl q) refl, ground arith)

add_parent-other :
    (q k : Text) (p : Option Text) (t : BaseTable)
    → text_eq k q ≡ false
    → HasParts q [] t (add_parent k p t)
unfolding add_parent
add_parent-other q k none t e =
    (sym (append-nil _), unfold contains in ground (arith, text_eq_iff q k, text_eq_iff k q))
add_parent-other q k (some p) t e = (rw (get_list-insert, e) (sym (append-nil _)), ground arith)

module _ (types : Text → List SymbolRef) (q : Text) (one : length (types q) ≡ 1) where
  add_inheritance-parts :
      (bindings : Dict Text) (i : InheritanceIr) (t : BaseTable)
      → HasParts q (parents_in types q bindings (i ∷ [])) t (add_inheritance types bindings i t)
  unfolding add_inheritance
  add_inheritance-parts bindings i t = elim (Bool-cases (text_eq i.type_qname q)) [
    | inr e ↦ rw e (add_parent-other q i.type_qname _ t e)
    | inl e ↦ rw e (
        subst
          (λ k.
            HasParts q (parent_of types bindings i ∷ []) t
              (add_parent k (if length (types k) == 1 then parent_of types bindings i else none) t))
          (sym (text_eq_sound i.type_qname q e))
          (rw one (add_parent-same q (parent_of types bindings i) t)))
  ]

  add_inheritances-parts :
      (bindings : Dict Text) (is : List InheritanceIr) (t : BaseTable)
      → HasParts q (parents_in types q bindings is) t (add_inheritances types bindings is t)
  unfolding add_inheritances
  add_inheritances-parts bindings [] t = HasParts-nil q t
  add_inheritances-parts bindings (i ∷ is) t =
      let next = add_inheritance types bindings i t in
      let whole =
        HasParts-append q (parents_in types q bindings (i ∷ [])) (parents_in types q bindings is) t
          next (add_inheritances types bindings is next) (add_inheritance-parts bindings i t)
          (add_inheritances-parts bindings is next) in
      elim (Bool-cases (text_eq i.type_qname q)) [
        | inl e ↦ rw e (rw e at whole)
        | inr e ↦ rw e (rw e at whole)
      ]

  pub add_files-parts :
      (files : List FileIr) (t : BaseTable)
      → HasParts q (parents types q files) t (add_files types files t)
  unfolding add_files
  add_files-parts [] t = HasParts-nil q t
  add_files-parts (f ∷ files) t =
      let next = add_inheritances types (import_bindings f.imports) f.inheritance t in
      HasParts-append q (parents_in types q (import_bindings f.imports) f.inheritance)
        (parents types q files) t next (add_files types files next)
        (add_inheritances-parts (import_bindings f.imports) f.inheritance t)
        (add_files-parts files next)
