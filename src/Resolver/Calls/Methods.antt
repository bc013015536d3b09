-- ===== src/Resolver/Calls/Methods.antt =====
-- Methods of a type and of its ancestors, in `_Resolver` of src/codekg/resolver.py.
use my_kg_codebase.Prelude.{
  Bool, false, ◌&&◌, Option, none, some, List, [], ◌∷◌, tail, if◌then◌else◌,
}
use my_kg_codebase.Prelude.Text.{Text, codes, text_eq, starts_with}
use my_kg_codebase.Ir.{CallIr, FileIr}
use my_kg_codebase.Resolver.Refs.{SymbolRef}
use my_kg_codebase.Resolver.Mro.{Cached, ◌>>=◌, pure, mro}
use my_kg_codebase.Resolver.Calls.Resolution.{
  Status, unresolved, dynamic, mro_incomplete, exact_local, inherited_method, super_method,
  CallResolution, concluded,
}
use my_kg_codebase.Resolver.Calls.Candidates.{Resolver, methods_for_type, owner_type_for_call}
use my_kg_codebase.Resolver.Calls.Decide.{
  decide, direct_status, Initializer, no_initializer, initializer_of,
}

module _ (r : Resolver) where
  -- self._mro(type_qname)
  abbrev pub mro_of : Text → Cached (Option (List Text))
  mro_of type_qname = mro r.index r.depth [] type_qname

  -- The loop over mro[1:]: the methods of the first type that has any.
  unfoldable pub first_methods : List Text → Option Text → List SymbolRef
  first_methods [] name = []
  first_methods (type_qname ∷ types) name = elim (methods_for_type r type_qname name) [
    | [] ↦ first_methods types name
    | ref ∷ refs ↦ ref ∷ refs
  ]

  -- What the order of the receiver's type decides about an inherited method.
  abbrev pub inherited : CallIr → Text → Text → Status → Option (List Text) → CallResolution
  inherited call path owner_key status none = concluded call path (some owner_key) mro_incomplete []
  inherited call path owner_key status (some order) =
      decide call path owner_key status (first_methods (tail order) call.callee_name)

  -- A method of the type itself, or else of its ancestors in their order.
  unfoldable pub resolve_method :
      CallIr → Text → Text → Status → Status → Text → Cached CallResolution
  resolve_method call path owner_key direct other type_qname =
      elim (methods_for_type r type_qname call.callee_name) [
        | [] ↦ do order ← mro_of type_qname; pure (inherited call path owner_key other order)
        | ref ∷ refs ↦ pure (decide call path owner_key direct (ref ∷ refs))
      ]

  -- _initializer_for_type
  unfoldable pub initializer_for_type : Text → Cached Initializer
  initializer_for_type type_qname = elim (methods_for_type r type_qname (some (codes "__init__"))) [
    | [] ↦ do
      order ← mro_of type_qname
      pure (elim order [
        | none ↦ no_initializer
        | some types ↦
            initializer_of inherited_method (first_methods (tail types) (some (codes "__init__")))
      ])
    | ref ∷ refs ↦ pure (initializer_of exact_local (ref ∷ refs))
  ]

  -- _is_direct_receiver_call
  unfoldable pub is_direct_receiver_call : CallIr → Text → Bool
  is_direct_receiver_call call receiver = elim (r.parse_attribute call.raw_callee) [
    | none ↦ false
    | some (value, attr) ↦
        text_eq value receiver
        && elim call.callee_name [ none ↦ false | some name ↦ text_eq attr name ]
  ]

  -- _resolve_receiver_method with is_super=False
  unfoldable pub resolve_own_method : FileIr → CallIr → SymbolRef → Cached CallResolution
  resolve_own_method file call owner = elim (owner_type_for_call r owner) [
    | none ↦ pure (concluded call file.path (some owner.key) unresolved [])
    | some owner_type ↦
        resolve_method call file.path owner.key (direct_status call.receiver_kind) inherited_method
          owner_type
  ]

  -- _resolve_receiver_method with is_super=True: the owner's own class is passed over.
  unfoldable pub resolve_super_method : FileIr → CallIr → SymbolRef → Cached CallResolution
  resolve_super_method file call owner =
      if starts_with call.raw_callee (codes "super().")
      then elim (owner_type_for_call r owner) [
        | none ↦ pure (concluded call file.path (some owner.key) unresolved [])
        | some owner_type ↦ do
          order ← mro_of owner_type
          pure (inherited call file.path owner.key super_method order)
      ]
      else pure (concluded call file.path (some owner.key) dynamic [])
