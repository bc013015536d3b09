-- ===== src/Prelude/Lru.antt =====
-- Python's `OrderedDict` as a bounded cache, with keys of any type: the front is dropped first.
use mathlib.Core.Path.{◌≡◌, subst}
use mathlib.Core.Bool.{Bool, true}
use mathlib.Core.List.{List, [], ◌∷◌, ◌++◌}
use mathlib.Core.Option.{Option, none, some}
use mathlib.Core.Logic.{inl, inr}
use Prim.Native.Nat.{ℕ, ◌≤◌, ◌+◌}
use native.Mathlib.Omega.{arith}
use my_kg_codebase.Prelude.Tests.{if◌then◌else◌, ltb, Bool-cases}
use my_kg_codebase.Prelude.Lists.{length, tail, length-append}

module _ {ℓ κ} {K : Type ℓ} {V : Type κ} (same : K → K → Bool) where
  -- cache.get(k)
  unfoldable pub find : K → List (K × V) → Option V
  find k [] = none
  find k ((j, v) ∷ cache) = if same j k then some v else find k cache

  -- The cache without the entries of k.
  unfoldable pub drop_key : K → List (K × V) → List (K × V)
  drop_key k [] = []
  drop_key k ((j, v) ∷ cache) =
      let rest = drop_key k cache in if same j k then rest else (j, v) ∷ rest

  -- cache[k] = v; cache.move_to_end(k)
  unfoldable pub put_last : K → V → List (K × V) → List (K × V)
  unfolding drop_key
  put_last k v cache = drop_key k cache ++ (k, v) ∷ []

module _ {ℓ κ} {K : Type ℓ} {V : Type κ} where
  -- if len(cache) > limit: cache.popitem(last=False)
  unfoldable pub trim : ℕ → List (K × V) → List (K × V)
  trim limit cache = if ltb limit (length cache) then tail cache else cache

-- Every entry satisfies the predicate.
abbrev pub HoldsFor {ℓ κ μ} : {K : Type ℓ} {V : Type κ} → (K → V → Type μ) → List (K × V) → Type μ
HoldsFor P [] = Unit
HoldsFor P ((k, v) ∷ cache) = P k v × HoldsFor P cache

module _ {ℓ κ μ} {K : Type ℓ} {V : Type κ} (same : K → K → Bool) (P : K → V → Type μ) where
  pub HoldsFor-find :
      ((j k : K) → same j k ≡ true → j ≡ k)
      → (k : K) (v : V) (cache : List (K × V)) → HoldsFor P cache
      → find same k cache ≡ some v
      → P k v
  unfolding find
  HoldsFor-find sound k v [] h e = absurd (ground (arith, e))
  HoldsFor-find sound k v ((j, w) ∷ cache) h e = elim (Bool-cases (same j k)) [
    | inl s ↦
        let found : some w ≡ some v = rw s at e in
        subst (P k) (cc found) (subst (λ x. P x w) (sound j k s) h.0)
    | inr s ↦ HoldsFor-find sound k v cache h.1 (rw s at e)
  ]

  HoldsFor-drop_key :
      (k : K) (cache : List (K × V)) → HoldsFor P cache → HoldsFor P (drop_key same k cache)
  unfolding drop_key
  HoldsFor-drop_key k [] h = tt
  HoldsFor-drop_key k ((j, v) ∷ cache) h = elim (Bool-cases (same j k)) [
    | inl e ↦ rw e (HoldsFor-drop_key k cache h.1)
    | inr e ↦ rw e (h.0, HoldsFor-drop_key k cache h.1)
  ]

  HoldsFor-snoc :
      (cache : List (K × V)) (k : K) (v : V)
      → HoldsFor P cache
      → P k v
      → HoldsFor P (cache ++ (k, v) ∷ [])
  HoldsFor-snoc [] k v h p = (p, tt)
  HoldsFor-snoc ((j, w) ∷ cache) k v h p = (h.0, HoldsFor-snoc cache k v h.1 p)

  pub HoldsFor-put_last :
      (k : K) (v : V) (cache : List (K × V))
      → HoldsFor P cache
      → P k v
      → HoldsFor P (put_last same k v cache)
  unfolding put_last
  HoldsFor-put_last k v cache h p =
      HoldsFor-snoc (drop_key same k cache) k v (HoldsFor-drop_key k cache h) p

  HoldsFor-tail : (cache : List (K × V)) → HoldsFor P cache → HoldsFor P (tail cache)
  HoldsFor-tail [] h = tt
  HoldsFor-tail ((k, v) ∷ cache) h = h.1

  pub HoldsFor-trim :
      (limit : ℕ) (cache : List (K × V)) → HoldsFor P cache → HoldsFor P (trim limit cache)
  unfolding trim
  HoldsFor-trim limit cache h = elim (Bool-cases (ltb limit (length cache))) [
    | inl e ↦ rw e (HoldsFor-tail cache h)
    | inr e ↦ rw e h
  ]

module _ {ℓ κ} {K : Type ℓ} {V : Type κ} (same : K → K → Bool) where
  length-drop_key-le :
      (k : K) (cache : List (K × V)) → length (drop_key same k cache) ≤ length cache
  unfolding drop_key
  length-drop_key-le k [] = omega arith
  length-drop_key-le k ((j, v) ∷ cache) = ground (arith, length-drop_key-le k cache)

  length-drop_key-lt :
      (k : K) (v : V) (cache : List (K × V))
      → find same k cache ≡ some v
      → length (drop_key same k cache) + 1 ≤ length cache
  unfolding drop_key find
  length-drop_key-lt k v [] e = ground (arith, e)
  length-drop_key-lt k v ((j, w) ∷ cache) e =
      ground (arith, length-drop_key-lt k v cache, length-drop_key-le k cache)

  -- Renewing an entry keeps the length.
  pub length-renewed-le :
      (k : K) (v : V) (cache : List (K × V))
      → find same k cache ≡ some v
      → length (put_last same k v cache) ≤ length cache
  unfolding put_last
  length-renewed-le k v cache e =
      omega
        (arith, length-drop_key-lt k v cache e, length-append (drop_key same k cache) ((k, v) ∷ []))

  length-tail-le : (n : ℕ) (cache : List (K × V)) → length cache ≤ n + 1 → length (tail cache) ≤ n
  length-tail-le n [] h = omega arith
  length-tail-le n (x ∷ cache) h = omega arith

  -- Storing an entry and trimming keeps the bound.
  pub length-stored-le :
      (limit : ℕ) (k : K) (v : V) (cache : List (K × V))
      → length cache ≤ limit
      → length (trim limit (put_last same k v cache)) ≤ limit
  unfolding trim put_last
  length-stored-le limit k v cache h =
      let longer : length (drop_key same k cache ++ (k, v) ∷ []) ≤ limit + 1 =
        omega (
          arith,
          length-drop_key-le k cache,
          length-append (drop_key same k cache) ((k, v) ∷ []),
        ) in
      ground (arith, longer, length-tail-le limit (drop_key same k cache ++ (k, v) ∷ []) longer)
