-- ===== src/Resolver/Bases.antt =====
-- The direct bases of a type, as each backend of the index of src/codekg/resolver.py finds them.
pub mod Table
pub mod States
pub mod Rows
use my_kg_codebase.Prelude.{
  ℕ, Bool, true, false, ◌&&◌, ◌||◌, not, Option, none, some, List, [], ◌∷◌, ◌++◌, map, any, filter,
  length, if◌then◌else◌, ◌==◌,
}
use my_kg_codebase.Prelude.Text.{Text, codes, text_eq, text_lt, contains}
use my_kg_codebase.Prelude.Dict.{Dict, lookup, insert}
use my_kg_codebase.Ir.{FileIr, InheritanceIr}
use my_kg_codebase.Resolver.Names.{import_bindings, inheritance_candidates}
use my_kg_codebase.Resolver.Refs.{SymbolRef, get_list, flat_map, parent_refs, sort_refs}

pub record BaseState : Type 0 where
  pub bases : List Text
  pub incomplete : Bool

abbrev pub no_bases : BaseState
no_bases = record { bases = []; incomplete = false }

-- The one parent that an inheritance fact names, if there is exactly one.
unfoldable pub parent_of : (Text → List SymbolRef) → Dict Text → InheritanceIr → Option Text
unfolding parent_refs inheritance_candidates
parent_of types bindings inheritance =
    elim (parent_refs types
      (inheritance_candidates inheritance.base_name inheritance.base_qname bindings)) [
        | [] ↦ none
        | ref ∷ rest ↦ elim rest [ [] ↦ some ref.qname | other ∷ more ↦ none ]
      ]

-- The two locals of `_base_states_from_files`.
pub record BaseTable : Type 0 where
  pub bases : Dict (List Text)
  pub incomplete : List Text

-- xs.add(x), for a set of texts
abbrev set_add : Text → List Text → List Text
set_add x xs = if contains x xs then xs else x ∷ xs

abbrev mark_incomplete : Text → BaseTable → BaseTable
mark_incomplete qname t = record t { incomplete = set_add qname t.incomplete }

-- bases.setdefault(qname, []).append(parent), or incomplete.add(qname)
unfoldable pub add_parent : Text → Option Text → BaseTable → BaseTable
unfolding lookup insert contains
add_parent qname none t = mark_incomplete qname t
add_parent qname (some parent) t = record t {
  bases = insert qname (get_list qname t.bases ++ parent ∷ []) t.bases;
}

-- The body of the inner loop of `_base_states_from_files`.
unfoldable pub add_inheritance :
    (Text → List SymbolRef) → Dict Text → InheritanceIr → BaseTable → BaseTable
unfolding parent_of add_parent
add_inheritance types bindings i t =
    add_parent i.type_qname
      (if length (types i.type_qname) == 1 then parent_of types bindings i else none) t

unfoldable pub add_inheritances :
    (Text → List SymbolRef) → Dict Text → List InheritanceIr → BaseTable → BaseTable
unfolding add_inheritance
add_inheritances types bindings [] t = t
add_inheritances types bindings (i ∷ rest) t =
    add_inheritances types bindings rest (add_inheritance types bindings i t)

unfoldable pub add_files : (Text → List SymbolRef) → List FileIr → BaseTable → BaseTable
unfolding add_inheritances import_bindings
add_files types [] t = t
add_files types (f ∷ files) t =
    add_files types files (add_inheritances types (import_bindings f.imports) f.inheritance t)

abbrev pub empty_table : BaseTable
empty_table = record { bases = []; incomplete = [] }

abbrev pub state_of : BaseTable → Text × List Text → Text × BaseState
state_of t (qname, values) =
    (qname, record { bases = values; incomplete = contains qname t.incomplete })

abbrev pub incomplete_state : Text → Text × BaseState
incomplete_state qname = (qname, record { bases = []; incomplete = true })

abbrev pub has_key {ℓ} : {V : Type ℓ} → Dict V → Text → Bool
has_key d k = elim (lookup k d) [ none ↦ false | some v ↦ true ]

-- _base_states_from_files
unfoldable pub base_states_from_files : (Text → List SymbolRef) → List FileIr → Dict BaseState
unfolding add_files contains
base_states_from_files types files =
    let t = add_files types files empty_table in
    map (state_of t) t.bases
    ++ map incomplete_state (filter (λ qname. not (has_key t.bases qname)) t.incomplete)

-- InMemoryResolverIndex.base_state
unfoldable pub memory_base_state : (Text → List SymbolRef) → List FileIr → Text → BaseState
unfolding base_states_from_files
memory_base_state types files qname = elim (lookup qname (base_states_from_files types files)) [
  | none ↦ no_bases
  | some s ↦ s
]

-- The dict `self._files`: the last file of a path.
unfoldable pub file_at : Text → List FileIr → Option FileIr
file_at path [] = none
file_at path (f ∷ files) = elim (file_at path files) [
  | none ↦ if text_eq f.path path then some f else none
  | some g ↦ some g
]

-- What `SqliteResolverIndex.base_state` reads: the rows about one type, in the order of the files
-- and of the facts in each.
unfoldable pub inheritance_rows : Text → List FileIr → List (Text × InheritanceIr)
inheritance_rows qname files =
    flat_map (λ f. map (λ i. (f.path, i)) (filter (λ i. text_eq i.type_qname qname) f.inheritance))
      files

-- The loop over the rows. `none` is the AssertionError of a row whose file is not there.
unfoldable pub row_bases :
    (Text → List SymbolRef)
    → (Text → Option FileIr)
    → List Text
    → List (Text × InheritanceIr)
    → Option BaseState
row_bases types file bases [] = some (record { bases = bases; incomplete = false })
row_bases types file bases ((path, i) ∷ rows) = elim (file path) [
  | none ↦ none
  | some f ↦ elim (parent_of types (import_bindings f.imports) i) [
    | none ↦ some (record { bases = []; incomplete = true })
    | some parent ↦ row_bases types file (bases ++ parent ∷ []) rows
  ]
]

-- SqliteResolverIndex.base_state
unfoldable pub sqlite_base_state : (Text → List SymbolRef) → List FileIr → Text → Option BaseState
sqlite_base_state types files qname =
    if length (types qname) == 1
    then row_bases types (λ path. file_at path files) [] (inheritance_rows qname files)
    else some (record { bases = []; incomplete = true })
