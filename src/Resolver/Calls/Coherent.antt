-- ===== src/Resolver/Calls/Coherent.antt =====
-- Every conclusion of `_Resolver.resolve` of src/codekg/resolver.py fits together.
use my_kg_codebase.Prelude.{
  ◌≡◌, refl, Option, none, some, List, [], ◌∷◌, is_some, arith, tail, if◌then◌else◌, Bool-cases,
  Option-cases, inl, inr,
}
use my_kg_codebase.Prelude.Text.{Text, codes, contains}
use my_kg_codebase.Ir.{CallIr, FileIr, ReceiverKind}
use my_kg_codebase.Resolver.Refs.{SymbolRef}
use my_kg_codebase.Resolver.Mro.{MroCache, Cached, ◌>>=◌, pure}
use my_kg_codebase.Resolver.Calls.Resolution.{
  Status, is_exact_status, is_construction_exact_status, CallResolution, concluded,
}
use my_kg_codebase.Resolver.Calls.Candidates.{
  Resolver, methods_for_type, imported_candidates, type_candidates, direct_candidates,
  callable_candidates,
}
use my_kg_codebase.Resolver.Calls.Decide.{
  decide, keys, Initializer, no_initializer, initializer_of, builds,
}
use my_kg_codebase.Resolver.Calls.Methods.{
  mro_of, first_methods, initializer_for_type, is_direct_receiver_call,
}
use my_kg_codebase.Resolver.Calls.{
  resolve, resolve_owned, resolve_direct_self, resolve_attribute, resolve_direct,
  resolve_constructor, resolve_callable, local_type, no_candidate,
}
use my_kg_codebase.Resolver.Calls.Shape.{
  Gives, after-Gives, IsCoherent, Coherent, concluded-IsCoherent, decide-IsCoherent,
  resolve_method-Coherent, resolve_own_method-Coherent, resolve_super_method-Coherent,
}

after_with :
    {A B : Type 0} (P : A → Type 0) (Q : B → Type 0) (r : Option (A × MroCache)) (f : A → Cached B)
    → Gives P r
    → ((a : A) (c : MroCache) → P a → Gives Q (f a c))
    → Gives Q (elim r [ none ↦ none | some (a, c) ↦ f a c ])
after_with P Q none f h k = tt
after_with P Q (some (a, c)) f h k = k a c h

module _ (file : FileIr) (call : CallIr) (r : Resolver) where
  resolve_callable-IsCoherent :
      (owner : SymbolRef) → IsCoherent file call (resolve_callable r file call owner)
  unfolding resolve_callable is_exact_status is_construction_exact_status
  resolve_callable-IsCoherent owner =
      by_candidates (callable_candidates r (direct_candidates r file call owner))
    where
      by_candidates :
          (refs : List SymbolRef)
          → IsCoherent file call (elim refs [
            | [] ↦ concluded call file.path (some owner.key) (no_candidate r file call owner) []
            | ref ∷ rest ↦
                decide call file.path owner.key
                  (if contains ref.qname (imported_candidates r file call)
                    then Status.exact_import
                    else Status.exact_local)
                  (ref ∷ rest)
          ])
      by_candidates [] =
          concluded-IsCoherent file call (some owner.key) (no_candidate r file call owner) []
            (ground arith) (ground arith)
      by_candidates (ref ∷ rest) =
          decide-IsCoherent file call owner.key _ (ref ∷ rest) (ground arith) (ground arith)

  abbrev InitializerFits : Initializer → Type 0
  InitializerFits i =
      (is_some i.found ≡ is_some i.target)
      × ((k : Text) → i.target ≡ some k → i.candidates ≡ k ∷ [])

  initializer_of-Fits :
      (s : Status) (refs : List SymbolRef) → InitializerFits (initializer_of s refs)
  initializer_of-Fits s [] = (refl, λ k h. cc)
  initializer_of-Fits s (ref ∷ []) = (refl, λ k h. cc)
  initializer_of-Fits s (ref ∷ other ∷ refs) = (refl, λ k h. cc)

  initializer_for_type-Fits :
      (t : Text) (cache : MroCache) → Gives InitializerFits (initializer_for_type r t cache)
  unfolding initializer_for_type
  initializer_for_type-Fits t cache = by_methods (methods_for_type r t (some (codes "__init__")))
    where
      by_order :
          (order : Option (List Text))
          → InitializerFits (elim order [
            | none ↦ no_initializer
            | some types ↦
                initializer_of Status.inherited_method
                  (first_methods r (tail types) (some (codes "__init__")))
          ])
      by_order none = (refl, λ k h. cc)
      by_order (some types) = initializer_of-Fits Status.inherited_method _

      by_methods :
          (refs : List SymbolRef)
          → Gives InitializerFits (
              (elim refs as (λ _. Cached Initializer) [
                | [] ↦ mro_of r t >>= λ order. pure (elim order [
                  | none ↦ no_initializer
                  | some types ↦
                      initializer_of Status.inherited_method
                        (first_methods r (tail types) (some (codes "__init__")))
                ])
                | ref ∷ rest ↦ pure (initializer_of Status.exact_local (ref ∷ rest))
              ])
                cache)
      by_methods [] = after-Gives InitializerFits (mro_of r t cache) _ (λ order c. by_order order)
      by_methods (ref ∷ rest) = initializer_of-Fits Status.exact_local (ref ∷ rest)

  resolve_constructor-Coherent :
      (owner type_ref : SymbolRef) (cache : MroCache)
      → Coherent file call r (resolve_constructor r file call owner type_ref cache)
  unfolding resolve_constructor is_exact_status is_construction_exact_status
  resolve_constructor-Coherent owner type_ref cache =
      after_with InitializerFits (IsCoherent file call)
        (initializer_for_type r type_ref.qname cache) _
        (initializer_for_type-Fits type_ref.qname cache)
        (λ i c fits. record {
          about_call = refl;
          in_file = refl;
          exact = ground arith;
          single = λ k h. cc;
          built = ground arith;
          single_built = λ k h. cc;
          initialized = fits.0;
          single_initializer = fits.1;
          only_built = λ h. cc;
        })

  resolve_direct-Coherent :
      (owner : SymbolRef) (cache : MroCache)
      → Coherent file call r (resolve_direct r file call owner cache)
  unfolding resolve_direct is_exact_status is_construction_exact_status
  resolve_direct-Coherent owner cache = elim (Bool-cases (builds call.receiver_kind)) [
    | inr e ↦ rw e (resolve_callable-IsCoherent owner)
    | inl e ↦ rw e (by_types (type_candidates r (direct_candidates r file call owner)))
  ]
    where
      by_types :
          (refs : List SymbolRef)
          → Coherent file call r (
              (elim refs as (λ _. Cached CallResolution) [
                | [] ↦ pure (resolve_callable r file call owner)
                | ref ∷ rest ↦ elim rest as (λ _. Cached CallResolution) [
                  | [] ↦ resolve_constructor r file call owner ref
                  | other ∷ more ↦ pure (
                      concluded call file.path
                        (some owner.key)
                        Status.constructor_ambiguous
                        (keys (ref ∷ other ∷ more)))
                ]
              ])
                cache)
      by_types [] = resolve_callable-IsCoherent owner
      by_types (ref ∷ []) = resolve_constructor-Coherent owner ref cache
      by_types (ref ∷ other ∷ more) =
          concluded-IsCoherent file call (some owner.key) Status.constructor_ambiguous _ refl refl

  resolve_attribute-Coherent :
      (owner : SymbolRef) (cache : MroCache)
      → Coherent file call r (resolve_attribute r file call owner cache)
  unfolding resolve_attribute is_exact_status is_construction_exact_status
  resolve_attribute-Coherent owner cache = elim (Option-cases (local_type r file call owner)) [
    | inl e ↦ rw (e, resolve_attribute) (resolve_direct-Coherent owner cache)
    | inr (t, e) ↦
        rw (e, resolve_attribute)
          (resolve_method-Coherent file call r owner.key Status.local_receiver
            Status.local_receiver_inherited t cache refl refl refl refl)
  ]

  resolve_direct_self-Coherent :
      (owner : SymbolRef) (receiver : Text) (cache : MroCache)
      → Coherent file call r (resolve_direct_self r file call owner receiver cache)
  unfolding resolve_direct_self is_exact_status is_construction_exact_status
  resolve_direct_self-Coherent owner receiver cache =
      elim (Bool-cases (is_direct_receiver_call r call receiver)) [
        | inl e ↦ rw e (resolve_own_method-Coherent file call r owner cache)
        | inr e ↦ rw e (concluded-IsCoherent file call (some owner.key) Status.dynamic [] refl refl)
      ]

  resolve_owned-Coherent :
      (owner : SymbolRef) (kind : ReceiverKind) (cache : MroCache)
      → Coherent file call r (resolve_owned r file call owner kind cache)
  unfolding resolve_owned
  resolve_owned-Coherent owner ReceiverKind.self cache =
      resolve_direct_self-Coherent owner (codes "self") cache
  resolve_owned-Coherent owner ReceiverKind.cls cache =
      resolve_direct_self-Coherent owner (codes "cls") cache
  resolve_owned-Coherent owner ReceiverKind.super cache =
      resolve_super_method-Coherent file call r owner cache
  resolve_owned-Coherent owner ReceiverKind.attribute cache = resolve_attribute-Coherent owner cache
  resolve_owned-Coherent owner _ cache = resolve_direct-Coherent owner cache

  resolve-Coherent : (cache : MroCache) → Coherent file call r (resolve r file call cache)
  unfolding resolve is_exact_status is_construction_exact_status
  resolve-Coherent cache = by_owners (r.index.owners file.path call.owner_qname)
    where
      by_owners :
          (owners : List SymbolRef)
          → Coherent file call r (
              (elim owners as (λ _. Cached CallResolution) [
                | [] ↦ pure (concluded call file.path none Status.owner_unresolved [])
                | owner ∷ rest ↦ elim rest as (λ _. Cached CallResolution) [
                  | [] ↦ resolve_owned r file call owner call.receiver_kind
                  | other ∷ more ↦ pure (
                      concluded call file.path none Status.owner_ambiguous
                        (keys (owner ∷ other ∷ more)))
                ]
              ])
                cache)
      by_owners [] = concluded-IsCoherent file call none Status.owner_unresolved [] refl refl
      by_owners (owner ∷ []) = resolve_owned-Coherent owner call.receiver_kind cache
      by_owners (owner ∷ other ∷ more) =
          concluded-IsCoherent file call none Status.owner_ambiguous _ refl refl

-- Whatever the index, the cache and the call: a conclusion of `resolve` is about that call and
-- file; its status is exact exactly when it has a target, which is then the only candidate; and
-- the same holds of an exact construction with its type, and of an initializer.
pub resolve-IsCoherent :
    (r : Resolver) (file : FileIr) (call : CallIr) (cache cache' : MroCache) (res : CallResolution)
    → resolve r file call cache ≡ some (res, cache')
    → IsCoherent file call res
resolve-IsCoherent r file call cache cache' res e = rw e at (resolve-Coherent file call r cache)
