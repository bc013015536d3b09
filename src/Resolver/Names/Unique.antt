-- ===== src/Resolver/Names/Unique.antt =====
-- `dict.fromkeys` keeps the first occurrence of each text.
use my_kg_codebase.Prelude.{
  ◌≡◌, refl, true, false, ◌||◌, List, [], ◌∷◌, ◌++◌, arith, Bool-cases, inl, inr,
}
use my_kg_codebase.Prelude.Text.{Text, text_eq_iff, contains}
use my_kg_codebase.Resolver.Names.{from_keys, from_keys_onto}
use my_kg_codebase.Resolver.Merge.Round.{distinct}

pub contains-append :
    (x : Text) (xs ys : List Text) → contains x (xs ++ ys) ≡ (contains x xs || contains x ys)
unfolding contains
contains-append x [] ys = refl
contains-append x (y ∷ xs) ys = ground (arith, contains-append x xs ys)

distinct_snoc :
    (x : Text) (xs : List Text)
    → contains x xs ≡ false
    → distinct xs ≡ true
    → distinct (xs ++ x ∷ []) ≡ true
unfolding distinct contains
distinct_snoc x [] h d = refl
distinct_snoc x (y ∷ xs) h d =
    ground
      (arith, distinct_snoc x xs, contains-append y xs (x ∷ []), text_eq_iff x y, text_eq_iff y x)

onto-distinct :
    (seen xs : List Text) → distinct seen ≡ true → distinct (from_keys_onto seen xs) ≡ true
unfolding from_keys_onto
onto-distinct seen [] h = h
onto-distinct seen (x ∷ xs) h = elim (Bool-cases (contains x seen)) [
  | inl e ↦ rw e (onto-distinct seen xs h)
  | inr e ↦ rw e (onto-distinct (seen ++ x ∷ []) xs (distinct_snoc x seen e h))
]

contains-onto :
    (y : Text) (seen xs : List Text)
    → contains y (from_keys_onto seen xs) ≡ (contains y seen || contains y xs)
unfolding from_keys_onto
contains-onto y seen [] = unfold contains in ground arith
contains-onto y seen (x ∷ xs) = elim (Bool-cases (contains x seen)) [
  | inl e ↦ rw e (unfold contains in ground (arith, contains-onto y seen xs, text_eq_iff y x))
  | inr e ↦ rw e (
      unfold contains in
      ground (arith, contains-onto y (seen ++ x ∷ []) xs, contains-append y seen (x ∷ [])))
]

pub from_keys-distinct : (xs : List Text) → distinct (from_keys xs) ≡ true
unfolding from_keys distinct
from_keys-distinct xs = onto-distinct [] xs refl

pub contains-from_keys : (y : Text) (xs : List Text) → contains y (from_keys xs) ≡ contains y xs
unfolding from_keys contains
contains-from_keys y xs = contains-onto y [] xs
