-- ===== src/Resolver/Mro/Correct.antt =====
-- The cached, depth-first computation answers what the reference does.
use native.Mathlib.Nat.{add_comm}
use my_kg_codebase.Prelude.{
  ℕ, zero, suc, ◌+◌, ◌≡◌, refl, true, false, Option, none, some, List, [], ◌∷◌, length, ltb, ◌==◌,
  arith, Bool-cases, Option-cases, inl, inr, ◌≢◌,
}
use my_kg_codebase.Prelude.Text.{Text, contains, text_eq, text_eq_sound, text_eq_refl}
use my_kg_codebase.Prelude.Dict.{lookup}
use my_kg_codebase.Prelude.Ordered.{
  Entries, Entries-lookup, Entries-move_to_end, Entries-store_bounded,
}
use my_kg_codebase.Resolver.Index.{ResolverIndex}
use my_kg_codebase.Resolver.Mro.{
  MroCache, Cached, ◌>>=◌, cache_mro, cache_limit, parent_mros, compute_mro, mro, merged_mro,
  prepend, conclude, pure, mro_length, cache_max_length,
}
use my_kg_codebase.Resolver.Mro.Reference.{
  linearize, Linear, is_sound, gather, gather_parts, gather_intro, gather_add, linearize_parts,
  linearize_intro, Derives, direct, further, cyclic_has_no_order, linearize_add,
}

module _ (index : ResolverIndex) where
  -- The answer is the type's order, or the type has no order.
  abbrev pub Answers : Text → Option (List Text) → Type 0
  Answers t (some l) = Linear index t l
  Answers t none = (n : ℕ) (l : List Text) → linearize index n t ≢ some l

  abbrev AnswersAll : List Text → Option (List (List Text)) → Type 0
  AnswersAll ps (some ms) = (n : ℕ) × (gather ps (linearize index n) ≡ some ms)
  AnswersAll ps none = (n : ℕ) (ms : List (List Text)) → gather ps (linearize index n) ≢ some ms

  -- Whatever the cache holds is right.
  abbrev pub CacheIsRight : MroCache → Type 0
  CacheIsRight = Entries Answers

  -- If the depth suffices, the result satisfies `Q` and the cache is still right.
  abbrev pub Ensures : {A : Type 0} → (A → Type 0) → Option (A × MroCache) → Type 0
  Ensures Q none = Unit
  Ensures Q (some (a, cache)) = Q a × CacheIsRight cache

  after :
      {A B : Type 0} (P : A → Type 0) (Q : B → Type 0) (r : Option (A × MroCache))
      (f : A → Cached B)
      → Ensures P r
      → ((a : A) (c : MroCache) → P a → CacheIsRight c → Ensures Q (f a c))
      → Ensures Q (elim r [ none ↦ none | some (a, c) ↦ f a c ])
  after P Q none f h k = tt
  after P Q (some (a, c)) f h k = k a c h.0 h.1

  conclude-Ensures :
      (t : Text) (value : Option (List Text)) (cache : MroCache)
      → Answers t value
      → CacheIsRight cache
      → Ensures (Answers t) (conclude t value cache)
  unfolding cache_mro
  conclude-Ensures t value cache a h = (
    a,
    elim (Bool-cases (ltb cache_max_length (mro_length value))) [
      | inl e ↦ rw e h
      | inr e ↦ rw e (Entries-store_bounded Answers cache_limit t value cache a h)
    ],
  )

  -- No order of the first parent, so none of all.
  gather_fails_here : (p : Text) (ps : List Text) → Answers p none → AnswersAll (p ∷ ps) none
  gather_fails_here p ps h n ms g =
      let (l, rest, e, k, same) = gather_parts (linearize index n) p ps ms g in h n l e

  prepend-Answers :
      (p : Text) (ps : List Text) (l : List Text) (rest : Option (List (List Text)))
      → Linear index p l
      → AnswersAll ps rest
      → AnswersAll (p ∷ ps) (prepend l rest)
  prepend-Answers p ps l none a h =
      λ n ms g. let (m, rest, e, k, same) = gather_parts (linearize index n) p ps ms g in h n rest k
  prepend-Answers p ps l (some rest) (n, e) (m, k) = (
    m + n,
    gather_intro (linearize index (m + n)) p ps l rest (linearize_add index m n p l e)
        (rw (add_comm m n) (gather_add index n m ps rest k)),
  )

  parents_after :
      (recur : Text → Cached (Option (List Text))) (p : Text) (ps : List Text)
      (found : Option (List Text)) (c : MroCache)
      → ((c' : MroCache) → CacheIsRight c' → Ensures (AnswersAll ps) (parent_mros recur ps c'))
      → Answers p found
      → CacheIsRight c
      → Ensures (AnswersAll (p ∷ ps)) (
          (elim found as (λ _. Cached (Option (List (List Text)))) [
            | none ↦ pure none
            | some l ↦ parent_mros recur ps >>= λ rest. pure (prepend l rest)
          ])
            c)
  parents_after recur p ps none c rest a k = (gather_fails_here p ps a, k)
  parents_after recur p ps (some l) c rest a k =
      after (AnswersAll ps) (AnswersAll (p ∷ ps)) (parent_mros recur ps c) _ (rest c k)
        (λ others c' b k'. (prepend-Answers p ps l others a b, k'))

  parent_mros-Ensures :
      (recur : Text → Cached (Option (List Text))) (ps : List Text) (cache : MroCache)
      → ((p : Text) (c : MroCache)
          → contains p ps ≡ true
          → CacheIsRight c
          → Ensures (Answers p) (recur p c))
      → CacheIsRight cache
      → Ensures (AnswersAll ps) (parent_mros recur ps cache)
  unfolding parent_mros contains
  parent_mros-Ensures recur [] cache r h = ((0, refl), h)
  parent_mros-Ensures recur (p ∷ ps) cache r h =
      after (Answers p) (AnswersAll (p ∷ ps)) (recur p cache) _
        (r p cache (ground (arith, text_eq_refl p)) h)
        (λ found c a k.
          parents_after recur p ps found c
            (λ c' k'. parent_mros-Ensures recur ps c' (λ q c'' m. r q c'' (ground (arith, m))) k') a
            k)

  answer_from :
      (t : Text) (n : ℕ) (v : Option (List Text))
      → linearize index n t ≡ v
      → ((m : ℕ) (l : List Text) → linearize index m t ≡ some l → v ≡ some l)
      → Answers t v
  answer_from t n none e only = λ m l k. absurd (ground (arith, only m l k))
  answer_from t n (some l) e only = (n, e)

  gather_unique :
      (ps : List Text) (n m : ℕ) (ms ms' : List (List Text))
      → gather ps (linearize index n) ≡ some ms
      → gather ps (linearize index m) ≡ some ms'
      → ms ≡ ms'
  gather_unique ps n m ms ms' h k =
      let a : gather ps (linearize index (m + n)) ≡ some ms = gather_add index m n ps ms h in
      let b : gather ps (linearize index (m + n)) ≡ some ms' =
        rw (add_comm m n) (gather_add index n m ps ms' k) in
      cc

  merged_mro-Answers :
      (t : Text) (mros : Option (List (List Text)))
      → is_sound index t ≡ true
      → AnswersAll (index.base_state t).bases mros
      → Answers t (merged_mro t (index.base_state t).bases mros)
  merged_mro-Answers t none s h = no_order
    where
      no_order : (n : ℕ) (l : List Text) → linearize index n t ≢ some l
      no_order zero l e = absurd (unfold linearize in ground (arith, e))
      no_order (suc n) l e = let (sound, ms, k, r) = linearize_parts index n t l e in h n ms k
  merged_mro-Answers t (some ms) s (n, h) =
      answer_from t (suc n) _ (linearize_intro index n t ms s h) only
    where
      only :
          (m : ℕ) (l : List Text)
          → linearize index m t ≡ some l
          → merged_mro t (index.base_state t).bases (some ms) ≡ some l
      only zero l e = absurd (unfold linearize in ground (arith, e))
      only (suc m) l e =
          let (sound, ms', k, r) = linearize_parts index m t l e in
          rw (gather_unique (index.base_state t).bases n m ms ms' h k) r

  unsound_has_no_order : (t : Text) → is_sound index t ≡ false → Answers t none
  unsound_has_no_order t s zero l e = absurd (unfold linearize in ground (arith, e))
  unsound_has_no_order t s (suc n) l e =
      absurd (ground (arith, s, (linearize_parts index n t l e).0))

  -- The types that are being worked on all derive from this one's descendants.
  abbrev pub ActiveAbove : List Text → Text → Type 0
  ActiveAbove active t = (a : Text) → contains a active ≡ true → Derives index a t

  ActiveAbove-base :
      (active : List Text) (t p : Text)
      → ActiveAbove active t
      → contains p (index.base_state t).bases ≡ true
      → ActiveAbove (t ∷ active) p
  unfolding contains
  ActiveAbove-base active t p above c a m = elim (Bool-cases (text_eq a t)) [
    | inl e ↦ rw (text_eq_sound a t e) (direct c)
    | inr e ↦ further (above a (ground (arith, m, e))) c
  ]

  compute_mro-Ensures :
      (recur : Text → Cached (Option (List Text))) (active : List Text) (t : Text)
      (cache : MroCache)
      → ((p : Text) (c : MroCache)
          → contains p (index.base_state t).bases ≡ true
          → CacheIsRight c
          → Ensures (Answers p) (recur p c))
      → ActiveAbove active t
      → CacheIsRight cache
      → Ensures (Answers t) (compute_mro index recur active t cache)
  unfolding compute_mro
  compute_mro-Ensures recur active t cache r above h = elim (Bool-cases (contains t active)) [
    | inl a ↦
        rw a (conclude-Ensures t none cache (λ n l. cyclic_has_no_order index n t l (above t a)) h)
    | inr a ↦ elim (Bool-cases (index.base_state t).incomplete) [
      | inl i ↦
          rw (a, i) (conclude-Ensures t none cache (unsound_has_no_order t (ground (arith, i))) h)
      | inr i ↦ elim (Bool-cases (length (index.types t) == 1)) [
        | inr d ↦
            rw (a, i, d)
              (conclude-Ensures t none cache (unsound_has_no_order t (ground (arith, i, d))) h)
        | inl d ↦
            rw (a, i, d)
              (after (AnswersAll (index.base_state t).bases) (Answers t)
                (parent_mros recur (index.base_state t).bases cache) _
                (parent_mros-Ensures recur (index.base_state t).bases cache r h)
                (λ mros c b k.
                  conclude-Ensures t (merged_mro t (index.base_state t).bases mros) c
                    (merged_mro-Answers t mros (ground (arith, i, d)) b) k))
      ]
    ]
  ]

  mro-Ensures :
      (depth : ℕ) (active : List Text) (t : Text) (cache : MroCache)
      → ActiveAbove active t
      → CacheIsRight cache
      → Ensures (Answers t) (mro index depth active t cache)
  unfolding mro
  mro-Ensures zero active t cache above h = tt
  mro-Ensures (suc depth) active t cache above h = elim (Option-cases (lookup t cache)) [
    | inr (o, e) ↦
        rw (e, mro) (Entries-lookup Answers t cache h e, Entries-move_to_end Answers t cache h)
    | inl e ↦
        rw (e, mro)
          (compute_mro-Ensures (mro index depth (t ∷ active)) active t cache
            (λ p c m. mro-Ensures depth (t ∷ active) p c (ActiveAbove-base active t p above m))
            above h)
  ]

  -- Whatever right answers the cache already holds, an answer of `_mro` is the type's order where
  -- the reference has one, None exactly where the reference has none, and the cache stays right.
  pub mro-Answers :
      (depth : ℕ) (t : Text) (cache cache' : MroCache) (answer : Option (List Text))
      → CacheIsRight cache
      → mro index depth [] t cache ≡ some (answer, cache')
      → Answers t answer × CacheIsRight cache'
  mro-Answers depth t cache cache' answer h e =
      rw e at
        (mro-Ensures depth [] t cache (λ a m. absurd (unfold contains in ground (arith, m))) h)
