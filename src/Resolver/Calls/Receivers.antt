-- ===== src/Resolver/Calls/Receivers.antt =====
-- The type of a local name at a call: `_local_receiver_type` of src/codekg/resolver.py.
use my_kg_codebase.Prelude.{
  Bool, ◌&&◌, ◌||◌, Option, none, some, List, [], ◌∷◌, filter, if◌then◌else◌, ◌==◌, ltb,
}
use my_kg_codebase.Prelude.Text.{Text, text_eq, text_lt}
use my_kg_codebase.Prelude.Dict.{Dict, lookup, insert}
use my_kg_codebase.Ir.{CallIr, FileIr, LocalBindingIr, ValueKind}
use my_kg_codebase.Resolver.Refs.{SymbolRef}
use my_kg_codebase.Resolver.Calls.Candidates.{
  Resolver, type_candidates, callable_candidates, annotation_type, binding_call_candidates,
}

-- (binding.start_line, binding.start_column) < (call.start_line, call.start_column)
abbrev pub stands_before : LocalBindingIr → CallIr → Bool
stands_before binding call =
    ltb binding.start_line call.start_line
    || (binding.start_line == call.start_line && ltb binding.start_column call.start_column)

-- The order of the sort key (start_line, start_column, target_name).
abbrev key_lt : LocalBindingIr → LocalBindingIr → Bool
key_lt a b =
    ltb a.start_line b.start_line
    || (a.start_line == b.start_line
        && (ltb a.start_column b.start_column
            || (a.start_column == b.start_column && text_lt a.target_name b.target_name)))

unfoldable pub insert_binding : LocalBindingIr → List LocalBindingIr → List LocalBindingIr
insert_binding b [] = b ∷ []
insert_binding b (c ∷ bindings) =
    let later = insert_binding b bindings in if key_lt c b then c ∷ later else b ∷ c ∷ bindings

unfoldable pub sort_bindings : List LocalBindingIr → List LocalBindingIr
sort_bindings [] = []
sort_bindings (b ∷ bindings) = insert_binding b (sort_bindings bindings)

-- The bindings of the call's owner that stand before the call, in source order.
unfoldable pub visible_bindings : FileIr → CallIr → List LocalBindingIr
visible_bindings file call = sort_bindings (
    filter (λ b. text_eq b.owner_qname call.owner_qname && stands_before b call)
      file.local_bindings)

-- The types of the local names; None is a name of unknown type.
abbrev pub LocalTypes : Type 0
LocalTypes = Dict (Option Text)

-- state.get(name)
abbrev pub type_of : LocalTypes → Text → Option Text
type_of state name = elim (lookup name state) [ none ↦ none | some t ↦ t ]

-- str(binding.value_name), which is "None" for None.
abbrev pub name_text : Option Text → Text
name_text none = 78 ∷ 111 ∷ 110 ∷ 101 ∷ []
name_text (some name) = name

-- annotation_type if value_type == annotation_type else None
abbrev pub confirmed : Text → Option Text → Option Text
confirmed annotated none = none
confirmed annotated (some value_type) =
    if text_eq value_type annotated then some annotated else none

module _ (r : Resolver) where
  -- The factory's return type, where exactly one callable is meant and it has an annotation.
  abbrev factory_type : List SymbolRef → Option Text
  factory_type [] = none
  factory_type (f ∷ []) = elim f.return_annotation [
    | none ↦ none
    | some annotation ↦ elim (r.index.file f.path) [
      | none ↦ none
      | some file ↦ annotation_type r file (some annotation)
    ]
  ]
  factory_type (f ∷ g ∷ rest) = none

  -- _call_result_type
  unfoldable pub call_result_type : FileIr → LocalBindingIr → SymbolRef → Option Text
  call_result_type file binding owner =
      let candidates = binding_call_candidates r file binding owner in
      elim (type_candidates r candidates) [
        | [] ↦ factory_type (callable_candidates r candidates)
        | t ∷ rest ↦ elim rest [ [] ↦ some t.qname | u ∷ more ↦ none ]
      ]

  -- The type that an unannotated binding gives its target.
  abbrev plain_type : FileIr → SymbolRef → LocalTypes → LocalBindingIr → ValueKind → Option Text
  plain_type file owner state b ValueKind.name = type_of state (name_text b.value_name)
  plain_type file owner state b ValueKind.call = call_result_type file b owner
  plain_type file owner state b _ = none

  -- The type that a binding annotated with a known type gives its target.
  abbrev annotated_type :
      FileIr → SymbolRef → LocalTypes → LocalBindingIr → Text → ValueKind → Option Text
  annotated_type file owner state b t ValueKind.annotation = some t
  annotated_type file owner state b t ValueKind.name =
      confirmed t (type_of state (name_text b.value_name))
  annotated_type file owner state b t ValueKind.call = confirmed t (call_result_type file b owner)
  annotated_type file owner state b t ValueKind.unknown = none

  -- The body of the loop: what the binding makes of its target's type.
  unfoldable pub bound_type : FileIr → SymbolRef → LocalTypes → LocalBindingIr → Option Text
  bound_type file owner state b = if b.guarded then none else elim b.annotation [
    | none ↦ plain_type file owner state b b.value_kind
    | some annotation ↦ elim (annotation_type r file (some annotation)) [
      | none ↦ none
      | some t ↦ annotated_type file owner state b t b.value_kind
    ]
  ]

  unfoldable pub bind_locals : FileIr → SymbolRef → LocalTypes → List LocalBindingIr → LocalTypes
  bind_locals file owner state [] = state
  bind_locals file owner state (b ∷ bindings) =
      bind_locals file owner (insert b.target_name (bound_type file owner state b) state) bindings

  -- _local_receiver_type
  unfoldable pub local_receiver_type : FileIr → CallIr → SymbolRef → Text → Option Text
  local_receiver_type file call owner receiver_name =
      type_of (bind_locals file owner [] (visible_bindings file call)) receiver_name
