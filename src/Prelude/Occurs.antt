-- ===== src/Prelude/Occurs.antt =====
-- Membership in a list with its place kept, unlike the library's `Mem`.
use mathlib.Core.Path.{◌≡◌}
use mathlib.Core.Logic.{◌⊎◌, inl, inr}
use mathlib.Core.List.{List, [], ◌∷◌, ◌++◌}

module _ {A : Type 0} where
  abbrev pub Occurs : A → List A → Type 0
  Occurs x [] = ⊥
  Occurs x (y ∷ ys) = (x ≡ y) ⊎ Occurs x ys

  pub Occurs-left : (x : A) (xs ys : List A) → Occurs x xs → Occurs x (xs ++ ys)
  Occurs-left x [] ys o = absurd o
  Occurs-left x (y ∷ xs) ys (inl e) = inl e
  Occurs-left x (y ∷ xs) ys (inr o) = inr (Occurs-left x xs ys o)

  pub Occurs-right : (x : A) (xs ys : List A) → Occurs x ys → Occurs x (xs ++ ys)
  Occurs-right x [] ys o = o
  Occurs-right x (y ∷ xs) ys o = inr (Occurs-right x xs ys o)

  pub Occurs-split : (x : A) (xs ys : List A) → Occurs x (xs ++ ys) → Occurs x xs ⊎ Occurs x ys
  Occurs-split x [] ys o = inr o
  Occurs-split x (y ∷ xs) ys (inl e) = inl (inl e)
  Occurs-split x (y ∷ xs) ys (inr o) = elim (Occurs-split x xs ys o) [
    | inl p ↦ inl (inr p)
    | inr p ↦ inr p
  ]
