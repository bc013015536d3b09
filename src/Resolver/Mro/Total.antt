-- ===== src/Resolver/Mro/Total.antt =====
-- The depth of recursion that the search for an order needs.
use my_kg_codebase.Prelude.{
  ℕ, zero, suc, ◌≤◌, ◌<◌, ◌≡◌, refl, true, false, ◌||◌, Option, none, some, List, [], ◌∷◌, length,
  if◌then◌else◌, ◌==◌, ==_iff, arith, Bool-cases, Option-cases, inl, inr, ◌≢◌,
}
use my_kg_codebase.Prelude.Text.{Text, contains, text_eq, text_eq_iff, text_eq_sound, text_eq_refl}
use my_kg_codebase.Prelude.Dict.{lookup}
use my_kg_codebase.Resolver.Index.{ResolverIndex}
use my_kg_codebase.Resolver.Mro.{
  MroCache, Cached, ◌>>=◌, parent_mros, compute_mro, mro, prepend, pure,
}

-- How many of the types are not being worked on.
remaining : List Text → List Text → ℕ
remaining [] active = 0
remaining (u ∷ us) active =
    if contains u active then remaining us active else suc (remaining us active)

remaining-nil : (us : List Text) → remaining us [] ≡ length us
unfolding remaining contains
remaining-nil [] = refl
remaining-nil (u ∷ us) = ground (arith, remaining-nil us)

remaining-le : (us active : List Text) (t : Text) → remaining us (t ∷ active) ≤ remaining us active
unfolding remaining contains
remaining-le [] active t = omega arith
remaining-le (u ∷ us) active t = ground (arith, remaining-le us active t)

remaining-lt :
    (us active : List Text) (t : Text)
    → contains t us ≡ true
    → contains t active ≡ false
    → remaining us (t ∷ active) < remaining us active
unfolding remaining contains
remaining-lt [] active t h a = ground arith
remaining-lt (u ∷ us) active t h a = elim (Bool-cases (text_eq t u)) [
  | inl e ↦ rw (← text_eq_sound t u e, a, text_eq_refl t) (omega (arith, remaining-le us active t))
  | inr e ↦ ground (
    arith,
    e,
    remaining-lt us active t,
    remaining-le us active t,
    text_eq_iff u t,
    text_eq_iff t u,
  )
]

-- The computation comes to an end within its depth.
abbrev pub Ends : {A : Type 0} → Option (A × MroCache) → Type 0
Ends r = r ≢ none

pub after_end :
    {A B : Type 0} (r : Option (A × MroCache)) (f : A → Cached B)
    → Ends r
    → ((a : A) (c : MroCache) → Ends (f a c))
    → Ends {A = B} (elim r [ none ↦ none | some (a, c) ↦ f a c ])
after_end none f h k = absurd (h refl)
after_end (some (a, c)) f h k = k a c

parents_end :
    (recur : Text → Cached (Option (List Text))) (ps : List Text) (found : Option (List Text))
    (c : MroCache)
    → ((c' : MroCache) → Ends (parent_mros recur ps c'))
    → Ends {A = Option (List (List Text))} (
        (elim found as (λ _. Cached (Option (List (List Text)))) [
          | none ↦ pure none
          | some l ↦ parent_mros recur ps >>= λ rest. pure (prepend l rest)
        ])
          c)
parents_end recur ps none c rest = λ e. cc
parents_end recur ps (some l) c rest =
    after_end (parent_mros recur ps c) _ (rest c) (λ others c' e. cc)

parent_mros-Ends :
    (recur : Text → Cached (Option (List Text))) (ps : List Text) (cache : MroCache)
    → ((p : Text) (c : MroCache) → Ends (recur p c))
    → Ends (parent_mros recur ps cache)
unfolding parent_mros
parent_mros-Ends recur [] cache r = λ e. cc
parent_mros-Ends recur (p ∷ ps) cache r =
    after_end (recur p cache) _ (r p cache)
      (λ found c. parents_end recur ps found c (λ c'. parent_mros-Ends recur ps c' r))

module _ (index : ResolverIndex) (declared : List Text) where
  -- The list holds every type that is declared once.
  abbrev pub Lists : Type 0
  Lists = (t : Text) → length (index.types t) ≡ 1 → contains t declared ≡ true

  mro-Ends :
      Lists
      → (depth : ℕ) (active : List Text) (t : Text) (cache : MroCache)
      → remaining declared active < depth
      → Ends (mro index depth active t cache)
  unfolding mro compute_mro
  mro-Ends all zero active t cache h = absurd (omega arith)
  mro-Ends all (suc depth) active t cache h = elim (Option-cases (lookup t cache)) [
    | inr (o, e) ↦ rw (e, mro) (λ d. cc)
    | inl e ↦ elim (Bool-cases (contains t active || (index.base_state t).incomplete)) [
      | inl a ↦ rw (e, a, mro) (λ d. cc)
      | inr a ↦ elim (Bool-cases (length (index.types t) == 1)) [
        | inr d ↦ rw (e, a, d, mro) (λ k. cc)
        | inl d ↦
            rw (e, a, d, mro)
              (after_end
                (parent_mros (mro index depth (t ∷ active)) (index.base_state t).bases cache) _
                (parent_mros-Ends (mro index depth (t ∷ active)) (index.base_state t).bases cache
                  (λ p c. mro-Ends all depth (t ∷ active) p c (
                    omega (
                      arith,
                      remaining-lt declared active t (all t ((==_iff _ _).0 d)) (ground (arith, a)),
                    ))))
                (λ mros c k. cc))
      ]
    ]
  ]

  -- For every type and cache, a depth of one more than the number of declared types is enough:
  -- the recursion through the bases ends, also where types derive from one another in a circle.
  pub mro_total :
      Lists → (t : Text) (cache : MroCache) → mro index (suc (length declared)) [] t cache ≢ none
  mro_total all t cache =
      mro-Ends all (suc (length declared)) [] t cache (omega (arith, remaining-nil declared))
