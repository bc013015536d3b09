-- ===== src/Resolver/Calls/Total.antt =====
-- Every call site of every file gets one conclusion, in source order.
use my_kg_codebase.Prelude.{some, List, [], ◌∷◌, Bool-cases, Option-cases, List-cases, inl, inr}
use my_kg_codebase.Prelude.Text.{Text, codes, starts_with}
use my_kg_codebase.Ir.{CallIr, FileIr, ReceiverKind}
use my_kg_codebase.Resolver.Refs.{SymbolRef}
use my_kg_codebase.Resolver.Mro.{MroCache, Cached, pure}
use my_kg_codebase.Resolver.Mro.Total.{Ends, after_end}
use my_kg_codebase.Resolver.Calls.Resolution.{Status, CallResolution, concluded}
use my_kg_codebase.Resolver.Calls.Candidates.{
  Resolver, methods_for_type, owner_type_for_call, type_candidates, direct_candidates,
}
use my_kg_codebase.Resolver.Calls.Decide.{builds, keys}
use my_kg_codebase.Resolver.Calls.Methods.{
  mro_of, resolve_method, initializer_for_type, is_direct_receiver_call, resolve_own_method,
  resolve_super_method,
}
use my_kg_codebase.Resolver.Calls.{
  resolve, resolve_owned, resolve_direct_self, resolve_attribute, resolve_direct,
  resolve_constructor, resolve_callable, local_type,
}

module _ (r : Resolver) (ends : (t : Text) (c : MroCache) → Ends (mro_of r t c)) where
  resolve_method-Ends :
      (call : CallIr) (path owner : Text) (direct other : Status) (t : Text) (cache : MroCache)
      → Ends (resolve_method r call path owner direct other t cache)
  unfolding resolve_method
  resolve_method-Ends call path owner direct other t cache =
      elim (List-cases (methods_for_type r t call.callee_name)) [
        | inl e ↦
            rw (e, resolve_method) (after_end (mro_of r t cache) _ (ends t cache) (λ o c h. cc))
        | inr (ref, refs, e) ↦ rw (e, resolve_method) (λ h. cc)
      ]

  initializer_for_type-Ends : (t : Text) (cache : MroCache) → Ends (initializer_for_type r t cache)
  unfolding initializer_for_type
  initializer_for_type-Ends t cache =
      elim (List-cases (methods_for_type r t (some (codes "__init__")))) [
        | inl e ↦
            rw (e, initializer_for_type)
              (after_end (mro_of r t cache) _ (ends t cache) (λ o c h. cc))
        | inr (ref, refs, e) ↦ rw (e, initializer_for_type) (λ h. cc)
      ]

  module _ (file : FileIr) (call : CallIr) where
    resolve_own_method-Ends :
        (owner : SymbolRef) (cache : MroCache) → Ends (resolve_own_method r file call owner cache)
    unfolding resolve_own_method
    resolve_own_method-Ends owner cache = elim (Option-cases (owner_type_for_call r owner)) [
      | inl e ↦ rw (e, resolve_own_method) (λ h. cc)
      | inr (t, e) ↦
          rw (e, resolve_own_method) (resolve_method-Ends call file.path owner.key _ _ t cache)
    ]

    resolve_super_method-Ends :
        (owner : SymbolRef) (cache : MroCache) → Ends (resolve_super_method r file call owner cache)
    unfolding resolve_super_method
    resolve_super_method-Ends owner cache =
        elim (Bool-cases (starts_with call.raw_callee (codes "super()."))) [
          | inr e ↦ rw (e, resolve_super_method) (λ h. cc)
          | inl e ↦ elim (Option-cases (owner_type_for_call r owner)) [
            | inl k ↦ rw (e, k, resolve_super_method) (λ h. cc)
            | inr (t, k) ↦
                rw (e, k, resolve_super_method)
                  (after_end (mro_of r t cache) _ (ends t cache) (λ o c h. cc))
          ]
        ]

    resolve_direct-Ends :
        (owner : SymbolRef) (cache : MroCache) → Ends (resolve_direct r file call owner cache)
    unfolding resolve_direct resolve_constructor
    resolve_direct-Ends owner cache = elim (Bool-cases (builds call.receiver_kind)) [
      | inr e ↦ rw e (λ h. cc)
      | inl e ↦ rw e (by_types (type_candidates r (direct_candidates r file call owner)))
    ]
      where
        by_types :
            (refs : List SymbolRef)
            → Ends (
                (elim refs as (λ _. Cached CallResolution) [
                  | [] ↦ pure (resolve_callable r file call owner)
                  | ref ∷ rest ↦ elim rest as (λ _. Cached CallResolution) [
                    | [] ↦ resolve_constructor r file call owner ref
                    | other ∷ more ↦ pure (
                        concluded call file.path
                          (some owner.key)
                          Status.constructor_ambiguous
                          (keys (ref ∷ other ∷ more)))
                  ]
                ])
                  cache)
        by_types [] = λ h. cc
        by_types (ref ∷ []) =
            after_end (initializer_for_type r ref.qname cache) _
              (initializer_for_type-Ends ref.qname cache) (λ i c h. cc)
        by_types (ref ∷ other ∷ more) = λ h. cc

    resolve_attribute-Ends :
        (owner : SymbolRef) (cache : MroCache) → Ends (resolve_attribute r file call owner cache)
    unfolding resolve_attribute
    resolve_attribute-Ends owner cache = elim (Option-cases (local_type r file call owner)) [
      | inl e ↦ rw (e, resolve_attribute) (resolve_direct-Ends owner cache)
      | inr (t, e) ↦
          rw (e, resolve_attribute) (resolve_method-Ends call file.path owner.key _ _ t cache)
    ]

    resolve_direct_self-Ends :
        (owner : SymbolRef) (receiver : Text) (cache : MroCache)
        → Ends (resolve_direct_self r file call owner receiver cache)
    unfolding resolve_direct_self
    resolve_direct_self-Ends owner receiver cache =
        elim (Bool-cases (is_direct_receiver_call r call receiver)) [
          | inl e ↦ rw e (resolve_own_method-Ends owner cache)
          | inr e ↦ rw e (λ h. cc)
        ]

    resolve_owned-Ends :
        (owner : SymbolRef) (kind : ReceiverKind) (cache : MroCache)
        → Ends (resolve_owned r file call owner kind cache)
    unfolding resolve_owned
    resolve_owned-Ends owner ReceiverKind.self cache =
        resolve_direct_self-Ends owner (codes "self") cache
    resolve_owned-Ends owner ReceiverKind.cls cache =
        resolve_direct_self-Ends owner (codes "cls") cache
    resolve_owned-Ends owner ReceiverKind.super cache = resolve_super_method-Ends owner cache
    resolve_owned-Ends owner ReceiverKind.attribute cache = resolve_attribute-Ends owner cache
    resolve_owned-Ends owner _ cache = resolve_direct-Ends owner cache

    pub resolve-Ends : (cache : MroCache) → Ends (resolve r file call cache)
    unfolding resolve
    resolve-Ends cache = elim (List-cases (r.index.owners file.path call.owner_qname)) [
      | inl e ↦ rw (e, resolve) (λ h. cc)
      | inr (owner, rest, e) ↦ elim (List-cases rest) [
        | inl k ↦ rw (e, k, resolve) (resolve_owned-Ends owner call.receiver_kind cache)
        | inr (other, more, k) ↦ rw (e, k, resolve) (λ h. cc)
      ]
    ]
