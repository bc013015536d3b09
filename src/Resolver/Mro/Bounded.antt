-- ===== src/Resolver/Mro/Bounded.antt =====
-- The cache stays within its limits.
use native.Mathlib.Nat.{le_trans}
use my_kg_codebase.Prelude.{
  ℕ, zero, suc, ◌≤◌, ◌≡◌, ◌||◌, Option, none, some, List, [], ◌∷◌, length, ltb, ◌==◌, arith,
  Bool-cases, Option-cases, inl, inr,
}
use my_kg_codebase.Prelude.Text.{Text, contains}
use my_kg_codebase.Prelude.Dict.{lookup}
use my_kg_codebase.Prelude.Ordered.{
  Entries, Entries-move_to_end, Entries-store_bounded, length-store_bounded-le,
  length-move_to_end-le,
}
use my_kg_codebase.Resolver.Index.{ResolverIndex}
use my_kg_codebase.Resolver.Mro.{
  MroCache, Cached, ◌>>=◌, cache_mro, cache_limit, cache_max_length, mro_length, parent_mros,
  compute_mro, mro, prepend, pure,
}

-- At most `cache_limit` entries, none of them longer than `cache_max_length`.
abbrev pub IsBounded : MroCache → Type 0
IsBounded cache =
    (length cache ≤ cache_limit) × Entries (λ k v. mro_length v ≤ cache_max_length) cache

abbrev KeepsBound : {A : Type 0} → Option (A × MroCache) → Type 0
KeepsBound none = Unit
KeepsBound (some (a, cache)) = IsBounded cache

after_bound :
    {A B : Type 0} (r : Option (A × MroCache)) (f : A → Cached B)
    → KeepsBound r
    → ((a : A) (c : MroCache) → IsBounded c → KeepsBound (f a c))
    → KeepsBound (elim r [ none ↦ none | some (a, c) ↦ f a c ])
after_bound none f h k = tt
after_bound (some (a, c)) f h k = k a c h

cache_mro-IsBounded :
    (t : Text) (value : Option (List Text)) (cache : MroCache)
    → IsBounded cache
    → IsBounded (cache_mro t value cache)
unfolding cache_mro
cache_mro-IsBounded t value cache h = elim (Bool-cases (ltb cache_max_length (mro_length value))) [
  | inl e ↦ rw e h
  | inr e ↦ rw e (
    length-store_bounded-le cache_limit t value cache h.0,
    Entries-store_bounded (λ k v. mro_length v ≤ cache_max_length) cache_limit t value cache
        (ground (arith, e)) h.1,
  )
]

parents_bound :
    (recur : Text → Cached (Option (List Text))) (p : Text) (ps : List Text)
    (found : Option (List Text)) (c : MroCache)
    → ((c' : MroCache) → IsBounded c' → KeepsBound (parent_mros recur ps c'))
    → IsBounded c
    → KeepsBound (
        (elim found as (λ _. Cached (Option (List (List Text)))) [
          | none ↦ pure none
          | some l ↦ parent_mros recur ps >>= λ rest. pure (prepend l rest)
        ])
          c)
parents_bound recur p ps none c rest k = k
parents_bound recur p ps (some l) c rest k =
    after_bound (parent_mros recur ps c) _ (rest c k) (λ others c' k'. k')

parent_mros-KeepsBound :
    (recur : Text → Cached (Option (List Text))) (ps : List Text) (cache : MroCache)
    → ((p : Text) (c : MroCache) → IsBounded c → KeepsBound (recur p c))
    → IsBounded cache
    → KeepsBound (parent_mros recur ps cache)
unfolding parent_mros
parent_mros-KeepsBound recur [] cache r h = h
parent_mros-KeepsBound recur (p ∷ ps) cache r h =
    after_bound (recur p cache) _ (r p cache h) (λ found c k.
      parents_bound recur p ps found c (λ c' k'. parent_mros-KeepsBound recur ps c' r k') k)

module _ (index : ResolverIndex) where
  compute_mro-KeepsBound :
      (recur : Text → Cached (Option (List Text))) (active : List Text) (t : Text)
      (cache : MroCache)
      → ((p : Text) (c : MroCache) → IsBounded c → KeepsBound (recur p c))
      → IsBounded cache
      → KeepsBound (compute_mro index recur active t cache)
  unfolding compute_mro
  compute_mro-KeepsBound recur active t cache r h =
      let quit : IsBounded (cache_mro t none cache) = cache_mro-IsBounded t none cache h in
      elim (Bool-cases (contains t active || (index.base_state t).incomplete)) [
        | inl a ↦ rw a quit
        | inr a ↦ elim (Bool-cases (length (index.types t) == 1)) [
          | inr d ↦ rw (a, d) quit
          | inl d ↦
              rw (a, d)
                (after_bound (parent_mros recur (index.base_state t).bases cache) _
                  (parent_mros-KeepsBound recur (index.base_state t).bases cache r h)
                  (λ mros c k. cache_mro-IsBounded t _ c k))
        ]
      ]

  mro-KeepsBound :
      (depth : ℕ) (active : List Text) (t : Text) (cache : MroCache)
      → IsBounded cache
      → KeepsBound (mro index depth active t cache)
  unfolding mro
  mro-KeepsBound zero active t cache h = tt
  mro-KeepsBound (suc depth) active t cache h = elim (Option-cases (lookup t cache)) [
    | inr (o, e) ↦
        rw (e, mro)
          (
            le_trans (length-move_to_end-le t cache) h.0,
            Entries-move_to_end (λ k v. mro_length v ≤ cache_max_length) t cache h.1,
          )
    | inl e ↦
        rw (e, mro)
          (compute_mro-KeepsBound (mro index depth (t ∷ active)) active t cache
            (λ p c k. mro-KeepsBound depth (t ∷ active) p c k) h)
  ]

  -- A call of `_mro` on a cache of at most 4096 entries of at most 256 types each leaves such a
  -- cache behind, for every index, type and depth.
  pub mro-IsBounded :
      (depth : ℕ) (active : List Text) (t : Text) (cache cache' : MroCache)
      (answer : Option (List Text))
      → IsBounded cache
      → mro index depth active t cache ≡ some (answer, cache')
      → IsBounded cache'
  mro-IsBounded depth active t cache cache' answer h e =
      rw e at (mro-KeepsBound depth active t cache h)
