-- ===== src/Resolver/Merge/Round.antt =====
-- The lemmas about one round of the merge.
use my_kg_codebase.Prelude.{
  ◌≤◌, ◌<◌, ◌≡◌, refl, Bool, true, false, ◌||◌, none, some, List, [], ◌∷◌, map, arith,
  if◌then◌else◌, length, tail, any, All, ◌≢◌, Bool-cases, ◌∙◌, inl, inr,
}
use my_kg_codebase.Prelude.Text.{Text, text_eq, text_eq_iff, text_eq_sound, contains}
use my_kg_codebase.Resolver.Merge.{in_tails, next_candidate, without, drop_empty, total}

-- The items of a sequence stand in the other list in the same order.
pub data Sublist : List Text → List Text → Type 0 where
  nil : {ys : List Text} → Sublist [] ys
  keep : {x : Text} {xs ys : List Text} → Sublist xs ys → Sublist (x ∷ xs) (x ∷ ys)
  skip : {y : Text} {xs ys : List Text} → Sublist xs ys → Sublist xs (y ∷ ys)

-- No item stands twice.
unfoldable pub distinct : List Text → Bool
distinct [] = true
distinct (x ∷ xs) = elim (contains x xs) [ true ↦ false | false ↦ distinct xs ]

-- The item stands in one of the sequences.
unfoldable pub somewhere : Text → List (List Text) → Bool
somewhere x pending = any (contains x) pending

pub contains-without :
    (c x : Text) (s : List Text)
    → contains x (without c s) ≡ (if text_eq x c then false else contains x s)
unfolding contains without
contains-without c x [] = ground arith
contains-without c x (y ∷ s) =
    ground (arith, contains-without c x s, text_eq_iff y c, text_eq_iff x y, text_eq_iff x c)

pub without_absent : (c : Text) (s : List Text) → contains c s ≡ false → without c s ≡ s
unfolding contains without
without_absent c [] h = refl
without_absent c (y ∷ s) h = ground (arith, without_absent c s, text_eq_iff y c, text_eq_iff c y)

pub length-without-le : (c : Text) (s : List Text) → length (without c s) ≤ length s
unfolding without
length-without-le c [] = omega arith
length-without-le c (y ∷ s) = ground (arith, length-without-le c s)

pub total-map-without-le : (c : Text) (p : List (List Text)) → total (map (without c) p) ≤ total p
unfolding total
total-map-without-le c [] = omega arith
total-map-without-le c (s ∷ p) = omega (arith, length-without-le c s, total-map-without-le c p)

or_false : (a b : Bool) → (a || b) ≡ false → (a ≡ false) × (b ≡ false)
or_false a b h = ground arith

-- The item is the first of one of the sequences.
abbrev pub starts : Text → List Text → Bool
starts c [] = false
starts c (x ∷ s) = text_eq c x

unfoldable pub leads : Text → List (List Text) → Bool
leads c p = any (starts c) p

-- What a round leaves of the pending sequences.
abbrev pub round : Text → List (List Text) → List (List Text)
round c p = drop_empty (map (without c) p)

pub next_candidate_lem :
    (c : Text) (p q : List (List Text))
    → next_candidate p q ≡ some c
    → (in_tails c p ≡ false) × (leads c q ≡ true)
unfolding next_candidate leads
next_candidate_lem c p [] h = ground arith
next_candidate_lem c p ([] ∷ q) h = next_candidate_lem c p q h
next_candidate_lem c p ((x ∷ s) ∷ q) h = ground (arith, next_candidate_lem c p q, text_eq_iff c x)

-- A head that stands in no tail is a candidate, so one is found.
pub next_candidate_total :
    (c : Text) (p q : List (List Text))
    → in_tails c p ≡ false
    → leads c q ≡ true
    → next_candidate p q ≢ none
unfolding next_candidate leads
next_candidate_total c p [] h l = ground arith
next_candidate_total c p ([] ∷ q) h l = next_candidate_total c p q h l
next_candidate_total c p ((x ∷ s) ∷ q) h l =
    ground (arith, next_candidate_total c p q h, text_eq_iff c x)

abbrev pub Filled : List (List Text) → Type 0
Filled = All (λ s. s ≢ [])

pub drop_empty-Filled : (p : List (List Text)) → Filled (drop_empty p)
unfolding drop_empty
drop_empty-Filled [] = tt
drop_empty-Filled ([] ∷ p) = drop_empty-Filled p
drop_empty-Filled ((x ∷ s) ∷ p) = (λ e. cc, drop_empty-Filled p)

pub drop_empty_id : (p : List (List Text)) → Filled p → drop_empty p ≡ p
unfolding drop_empty
drop_empty_id [] h = refl
drop_empty_id ([] ∷ p) h = absurd (h.0 refl)
drop_empty_id ((x ∷ s) ∷ p) h = cc (drop_empty_id p h.1)

pub total-drop_empty : (p : List (List Text)) → total (drop_empty p) ≡ total p
unfolding total drop_empty
total-drop_empty [] = refl
total-drop_empty ([] ∷ p) = omega (arith, total-drop_empty p)
total-drop_empty ((x ∷ s) ∷ p) = omega (arith, total-drop_empty p)

length-without-lt : (c : Text) (s : List Text) → starts c s ≡ true → length (without c s) < length s
unfolding without
length-without-lt c [] h = ground arith
length-without-lt c (x ∷ s) h =
    ground (arith, text_eq_iff c x, text_eq_iff x c, length-without-le c s)

total-map-without-lt :
    (c : Text) (p : List (List Text)) → leads c p ≡ true → total (map (without c) p) < total p
unfolding total leads
total-map-without-lt c [] h = ground arith
total-map-without-lt c (s ∷ p) h = elim (Bool-cases (starts c s)) [
  | inl e ↦ omega (arith, length-without-lt c s e, total-map-without-le c p)
  | inr e ↦ omega (arith, length-without-le c s, total-map-without-lt c p (rw e at h))
]

-- Each round shortens the pending sequences.
pub total-round-lt :
    (c : Text) (p : List (List Text)) → leads c p ≡ true → total (round c p) < total p
total-round-lt c p h =
    omega (arith, total-drop_empty (map (without c) p), total-map-without-lt c p h)

pub somewhere-drop_empty :
    (x : Text) (p : List (List Text)) → somewhere x (drop_empty p) ≡ somewhere x p
unfolding somewhere drop_empty contains
somewhere-drop_empty x [] = refl
somewhere-drop_empty x ([] ∷ p) = somewhere-drop_empty x p
somewhere-drop_empty x ((y ∷ s) ∷ p) = cc (somewhere-drop_empty x p)

somewhere-map-without :
    (x c : Text) (p : List (List Text))
    → somewhere x (map (without c) p) ≡ (if text_eq x c then false else somewhere x p)
unfolding somewhere
somewhere-map-without x c [] = ground arith
somewhere-map-without x c (s ∷ p) =
    ground (arith, contains-without c x s, somewhere-map-without x c p)

pub somewhere-round :
    (x c : Text) (p : List (List Text))
    → somewhere x (round c p) ≡ (if text_eq x c then false else somewhere x p)
somewhere-round x c p = somewhere-drop_empty x (map (without c) p) ∙ somewhere-map-without x c p

-- A sequence lies in the merged order if what the round leaves of it does, for a candidate that
-- is at most its first item.
Sublist-unround :
    (c : Text) (s r : List Text)
    → contains c (tail s) ≡ false
    → Sublist (without c s) r
    → Sublist s (c ∷ r)
unfolding without
Sublist-unround c [] r h m = nil
Sublist-unround c (x ∷ s) r h m = elim (Bool-cases (text_eq x c)) [
  | inl e ↦ rw (text_eq_sound x c e) (keep (rw (e, without_absent c s h) at m))
  | inr e ↦ skip (rw (e, without_absent c s h) at m)
]

pub All-drop_empty :
    (r : List Text) (p : List (List Text))
    → All (λ s. Sublist s r) (drop_empty p)
    → All (λ s. Sublist s r) p
unfolding drop_empty
All-drop_empty r [] h = tt
All-drop_empty r ([] ∷ p) h = (nil, All-drop_empty r p h)
All-drop_empty r ((x ∷ s) ∷ p) h = (h.0, All-drop_empty r p h.1)

All-unround :
    (c : Text) (r : List Text) (p : List (List Text))
    → in_tails c p ≡ false
    → All (λ s. Sublist s r) (map (without c) p)
    → All (λ s. Sublist s (c ∷ r)) p
unfolding in_tails
All-unround c r [] h m = tt
All-unround c r (s ∷ p) h m =
    (Sublist-unround c s r (or_false _ _ h).0 m.0, All-unround c r p (or_false _ _ h).1 m.1)

pub All-round :
    (c : Text) (r : List Text) (p : List (List Text))
    → in_tails c p ≡ false
    → All (λ s. Sublist s r) (round c p)
    → All (λ s. Sublist s (c ∷ r)) p
All-round c r p h m = All-unround c r p h (All-drop_empty r (map (without c) p) m)
