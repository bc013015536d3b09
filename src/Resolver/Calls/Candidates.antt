-- ===== src/Resolver/Calls/Candidates.antt =====
-- The symbols that a call or an annotation may mean: the `_…_candidates` methods of
-- src/codekg/resolver.py and what they are read from.
use my_kg_codebase.Prelude.{
  ℕ, Bool, true, false, ◌&&◌, ◌||◌, Option, none, some, List, [], ◌∷◌, ◌++◌, map, all, filter,
  length, if◌then◌else◌, ◌==◌, leb,
}
use my_kg_codebase.Prelude.Text.{Text, codes, text_eq, strip}
use my_kg_codebase.Prelude.Dict.{Dict, lookup}
use my_kg_codebase.Ir.{CallIr, FileIr, LocalBindingIr, ReceiverKind, bare}
use my_kg_codebase.Resolver.Names.{
  or_else, root_of, has_dot, rest_of, split_dots, from_keys, dotted, lexical_candidates,
  import_bindings, listed,
}
use my_kg_codebase.Resolver.Refs.{SymbolRef, flat_map, by_key, second, sort_refs}
use my_kg_codebase.Resolver.Index.{ResolverIndex}

-- The resolver: its index, the depth that the search for an order is given, and two functions of
-- Python's library. `parse_attribute` reads an expression of the form `name.attr`, as `ast.parse`
-- does; `is_word` is the character class `\w` of `re`.
pub record Resolver : Type 0 where
  pub index : ResolverIndex
  pub depth : ℕ
  pub parse_attribute : Text → Option (Text × Text)
  pub is_word : ℕ → Bool

abbrev is_initial : ℕ → Bool
is_initial c = (leb b'A' c && leb c b'Z') || (leb b'a' c && leb c b'z') || c == b'_'

-- A falsy text is None or empty.
abbrev pub truthy : Option Text → List Text
truthy none = []
truthy (some []) = []
truthy (some (c ∷ s)) = (c ∷ s) ∷ []

-- The last character of a text that has one.
abbrev last_char : ℕ → Text → ℕ
last_char c [] = c
last_char c (d ∷ s) = last_char d s

-- s[:-1]
abbrev without_last : Text → Text
without_last [] = []
without_last (c ∷ []) = []
without_last (c ∷ d ∷ s) = c ∷ without_last (d ∷ s)

-- value[1:-1].strip() where the value stands in quotes, else the value.
unfoldable pub unquote : Text → Text
unfolding strip
unquote [] = []
unquote (c ∷ []) = c ∷ []
unquote (c ∷ d ∷ s) =
    if c == last_char d s && (c == b'\'' || c == 34)
    then strip (without_last (d ∷ s))
    else c ∷ d ∷ s

abbrev pub is_bare : ReceiverKind → Bool
is_bare bare = true
is_bare _ = false

module _ (r : Resolver) where
  -- _IDENTIFIER.fullmatch(part)
  unfoldable pub is_identifier : Text → Bool
  is_identifier [] = false
  is_identifier (c ∷ s) = is_initial c && all r.is_word s

  -- _DOTTED_IDENTIFIER.fullmatch(value)
  unfoldable pub is_dotted_identifier : Text → Bool
  is_dotted_identifier value = all is_identifier (split_dots value)

  -- _type_candidates
  unfoldable pub type_candidates : List Text → List SymbolRef
  type_candidates qnames = sort_refs (map second (by_key [] (flat_map r.index.types qnames)))

  -- _callable_candidates
  unfoldable pub callable_candidates : List Text → List SymbolRef
  callable_candidates qnames =
      sort_refs (map second (by_key [] (flat_map r.index.callables qnames)))

  abbrev is_method_of : Text → SymbolRef → Bool
  is_method_of type_qname ref =
      text_eq ref.kind (codes "method")
      && elim ref.parent_qname [ none ↦ false | some parent ↦ text_eq parent type_qname ]

  -- _methods_for_type
  unfoldable pub methods_for_type : Text → Option Text → List SymbolRef
  methods_for_type type_qname method_name = elim (truthy method_name) [
    | [] ↦ []
    | name ∷ rest ↦ filter (is_method_of type_qname) (r.index.callables (dotted type_qname name))
  ]

  -- What the root of a name is bound to, with the rest of the name behind it.
  abbrev rebased : Dict Text → Text → List Text
  rebased bindings value = elim (lookup (root_of value) bindings) [
    | none ↦ []
    | some target ↦ (if has_dot value then dotted target (rest_of value) else target) ∷ []
  ]

  -- The one type among the candidates.
  abbrev single_qname : List SymbolRef → Option Text
  single_qname [] = none
  single_qname (ref ∷ []) = some ref.qname
  single_qname (ref ∷ other ∷ refs) = none

  -- _annotation_type
  unfoldable pub annotation_type : FileIr → Option Text → Option Text
  annotation_type file none = none
  annotation_type file (some annotation) =
      let value = unquote (strip annotation) in
      if is_dotted_identifier value
      then single_qname (
          type_candidates (
            from_keys (
              value
              ∷ (rebased (import_bindings file.imports) value
                  ++ (if has_dot value then [] else dotted file.module_qname value ∷ [])))))
      else none

  abbrev bound_name : Dict Text → Option Text → List Text
  bound_name bindings name = elim (truthy name) [ [] ↦ [] | n ∷ rest ↦ listed (lookup n bindings) ]

  -- _binding_call_candidates: the candidates; the set of imported ones has no reader.
  unfoldable pub binding_call_candidates : FileIr → LocalBindingIr → SymbolRef → List Text
  binding_call_candidates file binding owner =
      let bindings = import_bindings file.imports in
      let raw = or_else binding.value_qname_hint (or_else binding.value_name []) in
      from_keys (
        truthy binding.value_qname_hint
        ++ (flat_map (lexical_candidates owner.qname file.module_qname) (truthy binding.value_name)
            ++ (rebased bindings raw ++ bound_name bindings binding.value_name)))

  -- The import-derived part of `_direct_candidates`: the set `imported`.
  unfoldable pub imported_candidates : FileIr → CallIr → List Text
  imported_candidates file call =
      let bindings = import_bindings file.imports in
      rebased bindings call.raw_callee
      ++ (if is_bare call.receiver_kind then bound_name bindings call.callee_name else [])

  -- _direct_candidates
  unfoldable pub direct_candidates : FileIr → CallIr → SymbolRef → List Text
  direct_candidates file call owner = from_keys (
      truthy call.callee_qname_hint
      ++ ((if is_bare call.receiver_kind
            then flat_map (lexical_candidates owner.qname file.module_qname)
                (truthy call.callee_name)
            else [])
          ++ imported_candidates file call))

  -- _is_import_reference
  unfoldable pub is_import_reference : FileIr → CallIr → Bool
  is_import_reference file call =
      elim (lookup (root_of call.raw_callee) (import_bindings file.imports)) [
        | none ↦ false
        | some target ↦ true
      ]

  -- _owner_type_for_call
  unfoldable pub owner_type_for_call : SymbolRef → Option Text
  owner_type_for_call owner = elim (truthy owner.parent_qname) [
    | [] ↦ none
    | parent ∷ rest ↦ if length (r.index.types parent) == 1 then some parent else none
  ]
