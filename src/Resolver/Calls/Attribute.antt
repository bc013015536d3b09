-- ===== src/Resolver/Calls/Attribute.antt =====
-- Calls on `self`, `cls` and `super()` mean what Python's attribute lookup would find.
use my_kg_codebase.Prelude.{
  ◌≡◌, ◌≢◌, refl, sym, ap, ◌∙◌, true, ◌⊎◌, ◌++◌, All, Option, none, some, List, [], ◌∷◌, tail,
  arith, List-cases, inl, inr, subst,
}
use my_kg_codebase.Prelude.Text.{Text, codes, starts_with}
use my_kg_codebase.Ir.{CallIr, FileIr, ReceiverKind}
use my_kg_codebase.Resolver.Refs.{SymbolRef}
use my_kg_codebase.Resolver.Mro.{MroCache, Cached, ◌>>=◌, pure}
use my_kg_codebase.Resolver.Mro.Reference.{Linear, Linear-unique}
use my_kg_codebase.Resolver.Mro.Correct.{CacheIsRight, mro-Answers}
use my_kg_codebase.Resolver.Mro.Contract.{Linear-IsMro}
use my_kg_codebase.Resolver.Calls.Resolution.{Status, CallResolution}
use my_kg_codebase.Resolver.Calls.Candidates.{Resolver, methods_for_type, owner_type_for_call}
use my_kg_codebase.Resolver.Calls.Decide.{decide, keys, direct_status}
use my_kg_codebase.Resolver.Calls.Methods.{
  mro_of, inherited, first_methods, resolve_method, is_direct_receiver_call, resolve_own_method,
  resolve_super_method,
}
use my_kg_codebase.Resolver.Calls.{resolve, resolve_owned, resolve_direct_self}
use my_kg_codebase.Resolver.Calls.Shape.{Gives}

decide-keys :
    (call : CallIr) (path owner : Text) (s : Status) (refs : List SymbolRef)
    → (decide call path owner s refs).candidate_keys ≡ keys refs
decide-keys call path owner s [] = refl
decide-keys call path owner s (ref ∷ []) = refl
decide-keys call path owner s (ref ∷ other ∷ refs) = refl

after_run :
    {A B : Type 0} (P : B → Type 0) (run : Option (A × MroCache)) (f : A → Cached B)
    → ((a : A) (c : MroCache) → run ≡ some (a, c) → Gives P (f a c))
    → Gives P (elim run [ none ↦ none | some (a, c) ↦ f a c ])
after_run P none f k = tt
after_run P (some (a, c)) f k = k a c refl

module _ (r : Resolver) (t : Text) (order : List Text) (linear : Linear r.index t order) where
  -- An answer of the search is the order.
  found_order :
      (cache cache' : MroCache) (answer : Option (List Text))
      → CacheIsRight r.index cache
      → mro_of r t cache ≡ some (answer, cache')
      → answer ≡ some order
  found_order cache cache' none right e =
      absurd ((mro-Answers r.index r.depth t cache cache' none right e).0 linear.0 order linear.1)
  found_order cache cache' (some l) right e = ap some (
      Linear-unique r.index t l order
        (mro-Answers r.index r.depth t cache cache' (some l) right e).0 linear)

  -- The methods of the first type of the order that has any.
  abbrev looked_up : Option Text → List SymbolRef
  looked_up name = first_methods r order name

  own_methods :
      (name : Option Text) (ref : SymbolRef) (refs : List SymbolRef)
      → methods_for_type r t name ≡ ref ∷ refs
      → first_methods r order name ≡ ref ∷ refs
  own_methods name ref refs e =
      let m = Linear-IsMro r.index t order linear in
      rw m.headed_by_type (unfold first_methods in ground (arith, e))

  other_methods :
      (name : Option Text)
      → methods_for_type r t name ≡ []
      → first_methods r order name ≡ first_methods r (tail order) name
  other_methods name e =
      let m = Linear-IsMro r.index t order linear in
      rw m.headed_by_type (unfold first_methods in ground (arith, e))

  -- The candidates are those methods, whatever the status.
  abbrev Names : List Text → Option (CallResolution × MroCache) → Type 0
  Names ks = Gives (λ res. res.candidate_keys ≡ ks)

  resolve_method-Names :
      (call : CallIr) (path owner : Text) (direct other : Status) (cache : MroCache)
      → CacheIsRight r.index cache
      → Names
          (keys (first_methods r order call.callee_name))
          (resolve_method r call path owner direct other t cache)
  unfolding resolve_method
  resolve_method-Names call path owner direct other cache right =
      elim (List-cases (methods_for_type r t call.callee_name)) [
        | inr (ref, refs, e) ↦
            rw (e, resolve_method)
              (decide-keys call path owner direct (ref ∷ refs)
                ∙ ap keys (sym (own_methods call.callee_name ref refs e)))
        | inl e ↦
            rw (e, resolve_method)
              (after_run (λ res. res.candidate_keys ≡ keys (first_methods r order call.callee_name))
                (mro_of r t cache) _
                (λ answer c k. rw (found_order cache c answer right k) (
                  decide-keys call path owner other (first_methods r (tail order) call.callee_name)
                  ∙ ap keys (sym (other_methods call.callee_name e)))))
      ]

resolve_one_owner :
    (r : Resolver) (file : FileIr) (call : CallIr) (owner : SymbolRef) (cache : MroCache)
    → r.index.owners file.path call.owner_qname ≡ owner ∷ []
    → resolve r file call cache ≡ resolve_owned r file call owner call.receiver_kind cache
unfolding resolve
resolve_one_owner r file call owner cache own = rw (own, resolve) refl

-- The call is on `self`, in a method of the class `t`.
abbrev pub OnSelf : Resolver → FileIr → CallIr → SymbolRef → Text → Type 0
OnSelf r file call owner t =
    (r.index.owners file.path call.owner_qname ≡ owner ∷ [])
    × (call.receiver_kind ≡ ReceiverKind.self)
    × (is_direct_receiver_call r call (codes "self") ≡ true)
    × (owner_type_for_call r owner ≡ some t)

resolve_self-eq :
    (r : Resolver) (file : FileIr) (call : CallIr) (owner : SymbolRef) (t : Text) (cache : MroCache)
    → OnSelf r file call owner t
    → resolve r file call cache
      ≡ resolve_method r call file.path owner.key
          (direct_status call.receiver_kind)
          Status.inherited_method
          t
          cache
unfolding resolve_owned resolve_direct_self resolve_own_method
resolve_self-eq r file call owner t cache (own, kind, direct, typed) =
    resolve_one_owner r file call owner cache own
    ∙ ap (λ k. resolve_owned r file call owner k cache) kind
    ∙ rw (direct, typed, resolve_owned, resolve_direct_self, resolve_own_method) refl

-- A plain call on `self`, in a method of a class that has a method resolution order: the
-- candidates are the methods of that name of the first class of the order that has any, the own
-- class included. The cache may hold any right answers.
pub resolve_self-lookup :
    (r : Resolver) (file : FileIr) (call : CallIr) (owner : SymbolRef) (t : Text)
    (order : List Text) (cache cache' : MroCache) (res : CallResolution)
    → OnSelf r file call owner t
    → Linear r.index t order
    → CacheIsRight r.index cache
    → resolve r file call cache ≡ some (res, cache')
    → res.candidate_keys ≡ keys (first_methods r order call.callee_name)
resolve_self-lookup r file call owner t order cache cache' res on_self linear right e =
    subst (Names r t order linear (keys (first_methods r order call.callee_name)))
      (sym (resolve_self-eq r file call owner t cache on_self) ∙ e)
      (resolve_method-Names r t order linear call file.path owner.key
        (direct_status call.receiver_kind) Status.inherited_method cache right)

-- The call is `super().name(…)`, in a method of the class `t`.
abbrev pub OnSuper : Resolver → FileIr → CallIr → SymbolRef → Text → Type 0
OnSuper r file call owner t =
    (r.index.owners file.path call.owner_qname ≡ owner ∷ [])
    × (call.receiver_kind ≡ ReceiverKind.super)
    × (starts_with call.raw_callee (codes "super().") ≡ true)
    × (owner_type_for_call r owner ≡ some t)

resolve_super-eq :
    (r : Resolver) (file : FileIr) (call : CallIr) (owner : SymbolRef) (t : Text) (cache : MroCache)
    → OnSuper r file call owner t
    → resolve r file call cache
      ≡ (mro_of r t >>= λ order.
            pure (inherited r call file.path owner.key Status.super_method order))
          cache
unfolding resolve_owned resolve_super_method
resolve_super-eq r file call owner t cache (own, kind, starts, typed) =
    resolve_one_owner r file call owner cache own
    ∙ ap (λ k. resolve_owned r file call owner k cache) kind
    ∙ rw (starts, typed, resolve_owned, resolve_super_method) refl

-- `refs` are the methods of the first of the types that has any, or none where no type has any.
abbrev pub IsFirst : Resolver → List Text → Option Text → List SymbolRef → Type 0
IsFirst r types name refs =
    (All (λ c. methods_for_type r c name ≡ []) types × (refs ≡ []))
    ⊎ ((before : List Text) × (c : Text) × (after : List Text) × (types ≡ before ++ c ∷ after)
        × All (λ b. methods_for_type r b name ≡ []) before
        × (methods_for_type r c name ≡ refs)
        × (refs ≢ []))

-- No method is unresolved, one is the target under that status, and several are ambiguous.
abbrev pub Concludes : Status → List SymbolRef → CallResolution → Type 0
Concludes s [] res =
    (res.status ≡ Status.unresolved) × (res.candidate_keys ≡ []) × (res.target_key ≡ none)
Concludes s (ref ∷ []) res =
    (res.status ≡ s) × (res.candidate_keys ≡ ref.key ∷ []) × (res.target_key ≡ some ref.key)
Concludes s (ref ∷ other ∷ refs) res =
    (res.status ≡ Status.ambiguous)
    × (res.candidate_keys ≡ ref.key ∷ other.key ∷ keys refs)
    × (res.target_key ≡ none)

abbrev pub LooksUp : Resolver → List Text → Option Text → Status → CallResolution → Type 0
LooksUp r types name s res =
    (refs : List SymbolRef) × IsFirst r types name refs × Concludes s refs res

module _ (r : Resolver) (c : Text) (types : List Text) (name : Option Text) where
  first_methods-here :
      (ref : SymbolRef) (refs : List SymbolRef)
      → methods_for_type r c name ≡ ref ∷ refs
      → first_methods r (c ∷ types) name ≡ ref ∷ refs
  unfolding first_methods
  first_methods-here ref refs e = rw (e, first_methods) refl

  first_methods-later :
      methods_for_type r c name ≡ [] → first_methods r (c ∷ types) name ≡ first_methods r types name
  unfolding first_methods
  first_methods-later e = rw (e, first_methods) refl

  IsFirst-here :
      (ref : SymbolRef) (refs : List SymbolRef)
      → methods_for_type r c name ≡ ref ∷ refs
      → IsFirst r (c ∷ types) name (ref ∷ refs)
  IsFirst-here ref refs e = inr ([], c, types, refl, tt, e, λ empty. ground (arith, empty))

  IsFirst-later :
      (refs : List SymbolRef)
      → methods_for_type r c name ≡ []
      → IsFirst r types name refs
      → IsFirst r (c ∷ types) name refs
  IsFirst-later refs e (inl (nowhere, none_found)) = inl ((e, nowhere), none_found)
  IsFirst-later refs e (inr (before, d, after, split, nowhere, found, some_found)) =
      inr (c ∷ before, d, after, ap (λ l. c ∷ l) split, (e, nowhere), found, some_found)

first_methods-IsFirst :
    (r : Resolver) (types : List Text) (name : Option Text)
    → IsFirst r types name (first_methods r types name)
first_methods-IsFirst r [] name = inl (tt, unfold first_methods in refl)
first_methods-IsFirst r (c ∷ types) name = elim (List-cases (methods_for_type r c name)) [
  | inr (ref, refs, e) ↦
      subst (IsFirst r (c ∷ types) name) (sym (first_methods-here r c types name ref refs e))
        (IsFirst-here r c types name ref refs e)
  | inl e ↦ subst (IsFirst r (c ∷ types) name) (sym (first_methods-later r c types name e)) (
      IsFirst-later r c types name (first_methods r types name) e
        (first_methods-IsFirst r types name))
]

decide-Concludes :
    (call : CallIr) (path owner : Text) (s : Status) (refs : List SymbolRef)
    → Concludes s refs (decide call path owner s refs)
decide-Concludes call path owner s [] = (refl, refl, refl)
decide-Concludes call path owner s (ref ∷ []) = (refl, refl, refl)
decide-Concludes call path owner s (ref ∷ other ∷ refs) = (refl, refl, refl)

-- A zero-argument `super()` call, in a method of a class that has a method resolution order, where
-- the cache holds only right answers: the classes behind the own one in the order are searched for
-- the first that has methods of that name, each class before it having none. One such method is
-- the target, with status `super_method`; several are the candidates of an ambiguous conclusion;
-- and if no class has any, the call is unresolved.
pub resolve_super-lookup :
    (r : Resolver) (file : FileIr) (call : CallIr) (owner : SymbolRef) (t : Text)
    (order : List Text) (cache cache' : MroCache) (res : CallResolution)
    → OnSuper r file call owner t
    → Linear r.index t order
    → CacheIsRight r.index cache
    → resolve r file call cache ≡ some (res, cache')
    → LooksUp r (tail order) call.callee_name Status.super_method res
resolve_super-lookup r file call owner t order cache cache' res on_super linear right e =
    let goal = LooksUp r (tail order) call.callee_name Status.super_method in
    let refs = first_methods r (tail order) call.callee_name in
    subst (Gives goal) (sym (resolve_super-eq r file call owner t cache on_super) ∙ e) (
      after_run goal (mro_of r t cache) _ (λ answer c k.
        rw (found_order r t order linear cache c answer right k) (
          refs,
          first_methods-IsFirst r (tail order) call.callee_name,
          decide-Concludes call file.path owner.key Status.super_method refs,
        )))
