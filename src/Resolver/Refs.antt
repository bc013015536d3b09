-- ===== src/Resolver/Refs.antt =====
-- Symbol references and the dicts of them: src/codekg/resolver.py.
pub mod Groups
use my_kg_codebase.Prelude.{
  ℕ, Bool, true, false, ◌&&◌, ◌||◌, not, Option, none, some, List, [], ◌∷◌, ◌++◌, map, any, filter,
  length, if◌then◌else◌, ◌==◌,
}
use my_kg_codebase.Prelude.Text.{Text, codes, text_eq, text_lt, contains}
use my_kg_codebase.Prelude.Dict.{Dict, lookup, insert}
use my_kg_codebase.Ir.{FileIr, InheritanceIr}
use my_kg_codebase.Resolver.Names.{import_bindings, inheritance_candidates}

pub record SymbolRef : Type 0 where
  pub key : Text
  pub qname : Text
  pub path : Text
  pub kind : Text
  pub parent_qname : Option Text
  pub return_annotation : Option Text

-- sorted(values, key=lambda value: value.key), which is stable.
unfoldable pub insert_ref : SymbolRef → List SymbolRef → List SymbolRef
insert_ref r [] = r ∷ []
insert_ref r (s ∷ refs) =
    let later = insert_ref r refs in if text_lt s.key r.key then s ∷ later else r ∷ s ∷ refs

unfoldable pub sort_refs : List SymbolRef → List SymbolRef
unfolding insert_ref text_lt
sort_refs [] = []
sort_refs (r ∷ refs) = insert_ref r (sort_refs refs)

abbrev pub get_list {ℓ} : {A : Type ℓ} → Text → Dict (List A) → List A
get_list k d = elim (lookup k d) [ none ↦ [] | some xs ↦ xs ]

-- grouped[value.qname].append(value), for each value
unfoldable pub group_onto : Dict (List SymbolRef) → List SymbolRef → Dict (List SymbolRef)
unfolding lookup insert
group_onto grouped [] = grouped
group_onto grouped (v ∷ values) =
    group_onto (insert v.qname (get_list v.qname grouped ++ v ∷ []) grouped) values

abbrev sort_group : Text × List SymbolRef → Text × List SymbolRef
sort_group (qname, refs) = (qname, sort_refs refs)

-- _group_by_qname
unfoldable pub group_by_qname : List SymbolRef → Dict (List SymbolRef)
unfolding group_onto sort_refs
group_by_qname values = map sort_group (group_onto [] values)

-- {ref.key: ref for ref in refs}
unfoldable pub by_key : Dict SymbolRef → List SymbolRef → Dict SymbolRef
unfolding insert
by_key d [] = d
by_key d (r ∷ refs) = by_key (insert r.key r d) refs

abbrev pub flat_map {ℓ κ} : {A : Type ℓ} {B : Type κ} → (A → List B) → List A → List B
flat_map f [] = []
flat_map f (x ∷ xs) = f x ++ flat_map f xs

abbrev pub second {ℓ κ} : {A : Type ℓ} {B : Type κ} → A × B → B
second (a, b) = b

-- {ref.key: ref for qname in candidates for ref in index.types(qname)}.values()
unfoldable pub parent_refs : (Text → List SymbolRef) → List Text → List SymbolRef
unfolding by_key
parent_refs types candidates = map second (by_key [] (flat_map types candidates))
