-- ===== src/Resolver/Mro.antt =====
-- `_Resolver._mro` and `_cache_mro` of src/codekg/resolver.py: a type's method resolution order,
-- computed depth first, with the answers kept in a bounded cache.
pub mod Reference
pub mod Correct
pub mod Total
pub mod Bounded
pub mod Contract
use my_kg_codebase.Prelude.{
  ℕ, ◌≡◌, refl, zero, suc, Bool, true, false, ◌||◌, Option, none, some, List, [], ◌∷◌, ◌++◌, length,
  if◌then◌else◌, ltb, ◌==◌,
}
use my_kg_codebase.Prelude.Text.{Text, contains}
use my_kg_codebase.Prelude.Dict.{Dict, lookup}
use my_kg_codebase.Prelude.Ordered.{move_to_end, store_bounded}
use my_kg_codebase.Resolver.Merge.{c3_merge}
use my_kg_codebase.Resolver.Index.{ResolverIndex}

-- The cache: None where there is no order.
abbrev pub MroCache : Type 0
MroCache = Dict (Option (List Text))

unfoldable pub cache_limit : ℕ
cache_limit = 4096

unfoldable pub cache_max_length : ℕ
cache_max_length = 256

-- The length of what is cached; None takes no room.
abbrev pub mro_length : Option (List Text) → ℕ
mro_length none = 0
mro_length (some mro) = length mro

-- _cache_mro
unfoldable pub cache_mro : Text → Option (List Text) → MroCache → MroCache
cache_mro type_qname value cache =
    if ltb cache_max_length (mro_length value)
    then cache
    else store_bounded cache_limit type_qname value cache

-- A computation that reads and writes the cache. `none` says that the depth ran out.
abbrev pub Cached : Type 0 → Type 0
Cached A = MroCache → Option (A × MroCache)

infixl 5 ◌>>=◌
abbrev pub ◌>>=◌ : {A B : Type 0} → Cached A → (A → Cached B) → Cached B
◌>>=◌ m f cache = elim (m cache) [ none ↦ none | some (a, cache') ↦ f a cache' ]

pub bind_run :
    {A B : Type 0} (m : Cached A) (f : A → Cached B) (cache c : MroCache) (a : A)
    → m cache ≡ some (a, c)
    → (m >>= f) cache ≡ f a c
bind_run m f cache c a e = rw (e, ◌>>=◌) refl

abbrev pub pure : {A : Type 0} → A → Cached A
pure a cache = some (a, cache)

-- self._cache_mro(type_qname, value); return value
abbrev pub conclude : Text → Option (List Text) → Cached (Option (List Text))
conclude type_qname value cache = some (value, cache_mro type_qname value cache)

-- parent_mros.append(parent_mro), behind which the rest of the parents follow.
abbrev pub prepend : List Text → Option (List (List Text)) → Option (List (List Text))
prepend mro none = none
prepend mro (some mros) = some (mro ∷ mros)

-- The loop over the parents: None as soon as one parent has no order.
unfoldable pub parent_mros :
    (Text → Cached (Option (List Text))) → List Text → Cached (Option (List (List Text)))
parent_mros recur [] = pure (some [])
parent_mros recur (parent ∷ parents) = do
  found ← recur parent
  elim found [
    | none ↦ pure none
    | some mro ↦ do rest ← parent_mros recur parents; pure (prepend mro rest)
  ]

-- (type_qname, *merged)
abbrev pub headed : Text → Option (List Text) → Option (List Text)
headed type_qname none = none
headed type_qname (some merged) = some (type_qname ∷ merged)

-- _c3_merge([*parent_mros, parents]), where every parent has an order.
abbrev pub merged_mro : Text → List Text → Option (List (List Text)) → Option (List Text)
merged_mro type_qname parents none = none
merged_mro type_qname parents (some mros) = headed type_qname (c3_merge (mros ++ parents ∷ []))

module _ (index : ResolverIndex) where
  -- What `_mro` does on a cache miss.
  unfoldable pub compute_mro :
      (Text → Cached (Option (List Text))) → List Text → Text → Cached (Option (List Text))
  compute_mro recur active type_qname =
      let state = index.base_state type_qname in
      if contains type_qname active || state.incomplete
      then conclude type_qname none
      else if length (index.types type_qname) == 1
      then (do
        mros ← parent_mros recur state.bases
        conclude type_qname (merged_mro type_qname state.bases mros))
      else conclude type_qname none

  -- _mro(type_qname, active), to some depth of recursion.
  unfoldable pub mro : ℕ → List Text → Text → Cached (Option (List Text))
  unfolding compute_mro parent_mros
  mro zero active type_qname cache = none
  mro (suc depth) active type_qname cache = elim (lookup type_qname cache) [
    | some found ↦ some (found, move_to_end type_qname cache)
    | none ↦ compute_mro (mro depth (type_qname ∷ active)) active type_qname cache
  ]
