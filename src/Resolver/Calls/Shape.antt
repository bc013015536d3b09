-- ===== src/Resolver/Calls/Shape.antt =====
-- The fields of a conclusion fit together.
use my_kg_codebase.Prelude.{
  ◌≡◌, refl, true, false, Option, none, some, List, [], ◌∷◌, is_some, arith, tail, Bool-cases,
  Option-cases, inl, inr,
}
use my_kg_codebase.Prelude.Text.{Text, codes, starts_with}
use my_kg_codebase.Ir.{CallIr, FileIr}
use my_kg_codebase.Resolver.Refs.{SymbolRef}
use my_kg_codebase.Resolver.Mro.{MroCache, Cached, ◌>>=◌, pure}
use my_kg_codebase.Resolver.Calls.Resolution.{
  Status, is_exact_status, is_construction_exact_status, CallResolution, concluded, targeted,
}
use my_kg_codebase.Resolver.Calls.Candidates.{Resolver, methods_for_type, owner_type_for_call}
use my_kg_codebase.Resolver.Calls.Decide.{decide, direct_status}
use my_kg_codebase.Resolver.Calls.Methods.{
  mro_of, inherited, first_methods, resolve_method, resolve_own_method, resolve_super_method,
}

-- The value, if the computation has one, satisfies the predicate.
abbrev pub Gives : {A : Type 0} → (A → Type 0) → Option (A × MroCache) → Type 0
Gives P none = Unit
Gives P (some (a, cache)) = P a

pub after-Gives :
    {A B : Type 0} (P : B → Type 0) (r : Option (A × MroCache)) (f : A → Cached B)
    → ((a : A) (c : MroCache) → Gives P (f a c))
    → Gives P (elim r [ none ↦ none | some (a, c) ↦ f a c ])
after-Gives P none f k = tt
after-Gives P (some (a, c)) f k = k a c

-- A conclusion about this call of this file: an exact status stands exactly with a target, which
-- is then the only candidate; an exact construction exactly with a constructed type, likewise; an
-- initializer is known only for a construction, and is then its only candidate.
pub record IsCoherent (file : FileIr) (call : CallIr) (res : CallResolution) : Type 0 where
  pub about_call : res.call ≡ call
  pub in_file : res.path ≡ file.path
  pub exact : is_exact_status res.status ≡ is_some res.target_key
  pub single : (k : Text) → res.target_key ≡ some k → res.candidate_keys ≡ k ∷ []
  pub built : is_construction_exact_status res.status ≡ is_some res.construction_target_key
  pub single_built : (k : Text) → res.construction_target_key ≡ some k → res.candidate_keys ≡ k ∷ []
  pub initialized : is_some res.initializer_status ≡ is_some res.initializer_target_key
  pub single_initializer :
      (k : Text) → res.initializer_target_key ≡ some k → res.initializer_candidate_keys ≡ k ∷ []
  pub only_built : is_some res.construction_target_key ≡ false → res.initializer_target_key ≡ none

module _ (file : FileIr) (call : CallIr) where
  pub concluded-IsCoherent :
      (owner : Option Text) (s : Status) (ks : List Text)
      → is_exact_status s ≡ false
      → is_construction_exact_status s ≡ false
      → IsCoherent file call (concluded call file.path owner s ks)
  concluded-IsCoherent owner s ks e b = record {
    about_call = refl;
    in_file = refl;
    exact = e;
    single = λ k h. cc;
    built = b;
    single_built = λ k h. cc;
    initialized = refl;
    single_initializer = λ k h. cc;
    only_built = λ h. refl;
  }

  targeted-IsCoherent :
      (owner : Text) (s : Status) (key : Text)
      → is_exact_status s ≡ true
      → is_construction_exact_status s ≡ false
      → IsCoherent file call (targeted call file.path owner s key)
  targeted-IsCoherent owner s key e b = record {
    about_call = refl;
    in_file = refl;
    exact = e;
    single = λ k h. cc;
    built = b;
    single_built = λ k h. cc;
    initialized = refl;
    single_initializer = λ k h. cc;
    only_built = λ h. refl;
  }

  pub decide-IsCoherent :
      (owner : Text) (s : Status) (refs : List SymbolRef)
      → is_exact_status s ≡ true
      → is_construction_exact_status s ≡ false
      → IsCoherent file call (decide call file.path owner s refs)
  unfolding is_exact_status is_construction_exact_status
  decide-IsCoherent owner s [] e b =
      concluded-IsCoherent (some owner) Status.unresolved [] refl refl
  decide-IsCoherent owner s (ref ∷ []) e b = targeted-IsCoherent owner s ref.key e b
  decide-IsCoherent owner s (ref ∷ other ∷ refs) e b =
      concluded-IsCoherent (some owner) Status.ambiguous _ refl refl

  module _ (r : Resolver) where
    inherited-IsCoherent :
        (owner : Text) (s : Status) (order : Option (List Text))
        → is_exact_status s ≡ true
        → is_construction_exact_status s ≡ false
        → IsCoherent file call (inherited r call file.path owner s order)
    unfolding is_exact_status is_construction_exact_status
    inherited-IsCoherent owner s none e b =
        concluded-IsCoherent (some owner) Status.mro_incomplete [] refl refl
    inherited-IsCoherent owner s (some order) e b =
        decide-IsCoherent owner s (first_methods r (tail order) call.callee_name) e b

    abbrev pub Coherent : Option (CallResolution × MroCache) → Type 0
    Coherent = Gives (IsCoherent file call)

    pub resolve_method-Coherent :
        (owner : Text) (direct other : Status) (t : Text) (cache : MroCache)
        → is_exact_status direct ≡ true
        → is_construction_exact_status direct ≡ false
        → is_exact_status other ≡ true
        → is_construction_exact_status other ≡ false
        → Coherent (resolve_method r call file.path owner direct other t cache)
    unfolding resolve_method
    resolve_method-Coherent owner direct other t cache e b e' b' =
        by_methods (methods_for_type r t call.callee_name)
      where
        by_methods :
            (refs : List SymbolRef)
            → Coherent (
                (elim refs as (λ _. Cached CallResolution) [
                  | [] ↦ mro_of r t >>= λ order. pure (inherited r call file.path owner other order)
                  | ref ∷ rest ↦ pure (decide call file.path owner direct (ref ∷ rest))
                ])
                  cache)
        by_methods [] =
            after-Gives (IsCoherent file call) (mro_of r t cache) _
              (λ order c. inherited-IsCoherent owner other order e' b')
        by_methods (ref ∷ rest) = decide-IsCoherent owner direct (ref ∷ rest) e b

    pub resolve_own_method-Coherent :
        (owner : SymbolRef) (cache : MroCache)
        → Coherent (resolve_own_method r file call owner cache)
    unfolding resolve_own_method is_exact_status is_construction_exact_status
    resolve_own_method-Coherent owner cache = elim (Option-cases (owner_type_for_call r owner)) [
      | inl e ↦
          rw (e, resolve_own_method)
            (concluded-IsCoherent (some owner.key) Status.unresolved [] refl refl)
      | inr (t, e) ↦
          rw (e, resolve_own_method)
            (resolve_method-Coherent owner.key (direct_status call.receiver_kind)
              Status.inherited_method t cache (ground arith) (ground arith) refl refl)
    ]

    pub resolve_super_method-Coherent :
        (owner : SymbolRef) (cache : MroCache)
        → Coherent (resolve_super_method r file call owner cache)
    unfolding resolve_super_method is_exact_status is_construction_exact_status
    resolve_super_method-Coherent owner cache =
        elim (Bool-cases (starts_with call.raw_callee (codes "super()."))) [
          | inr e ↦
              rw (e, resolve_super_method)
                (concluded-IsCoherent (some owner.key) Status.dynamic [] refl refl)
          | inl e ↦ elim (Option-cases (owner_type_for_call r owner)) [
            | inl k ↦
                rw (e, k, resolve_super_method)
                  (concluded-IsCoherent (some owner.key) Status.unresolved [] refl refl)
            | inr (t, k) ↦
                rw (e, k, resolve_super_method)
                  (after-Gives (IsCoherent file call) (mro_of r t cache) _
                    (λ order c. inherited-IsCoherent owner.key Status.super_method order refl refl))
          ]
        ]
