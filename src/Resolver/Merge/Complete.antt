-- ===== src/Resolver/Merge/Complete.antt =====
-- The merge finds an order wherever there is one.
use mathlib.Core.Bool.{false≢true}
use my_kg_codebase.Prelude.{
  ℕ, zero, suc, ◌≡◌, refl, sym, true, false, none, some, List, [], ◌∷◌, ◌++◌, map, arith, tail, All,
  ◌≢◌, Bool-cases, inl, inr, ◌∙◌, Option-cases,
}
use my_kg_codebase.Prelude.Text.{Text, text_eq, text_eq_refl, contains}
use my_kg_codebase.Resolver.Merge.{
  in_tails, next_candidate, without, drop_empty, total, merge_loop, c3_rounds, c3_merge,
}
use my_kg_codebase.Resolver.Merge.Round.{
  Sublist, nil, keep, skip, distinct, somewhere, leads, round, Filled, starts, next_candidate_total,
  drop_empty-Filled, somewhere-round, somewhere-drop_empty, contains-without,
}
use my_kg_codebase.Resolver.Merge.Sound.{IsMerge, c3_rounds_total}

contains-Sublist :
    (x : Text) {s r : List Text} → Sublist s r → contains x r ≡ false → contains x s ≡ false
unfolding contains
contains-Sublist x nil h = refl
contains-Sublist x (keep {x = y} m) h = ground (arith, contains-Sublist x m)
contains-Sublist x (skip {y = y} m) h = ground (arith, contains-Sublist x m)

Sublist-without : (c : Text) {s r : List Text} → Sublist s r → Sublist (without c s) (without c r)
unfolding without
Sublist-without c nil = nil
Sublist-without c (keep {x = x} m) = elim (Bool-cases (text_eq x c)) [
  | inl e ↦ rw e (Sublist-without c m)
  | inr e ↦ rw e (keep (Sublist-without c m))
]
Sublist-without c (skip {y = y} m) = elim (Bool-cases (text_eq y c)) [
  | inl e ↦ rw e (Sublist-without c m)
  | inr e ↦ rw e (skip (Sublist-without c m))
]

distinct-without : (c : Text) (r : List Text) → distinct r ≡ true → distinct (without c r) ≡ true
unfolding distinct without
distinct-without c [] h = refl
distinct-without c (x ∷ r) h = ground (arith, distinct-without c r, contains-without c x r)

All-kept :
    (r : List Text) (p : List (List Text))
    → All (λ s. Sublist s r) p
    → All (λ s. Sublist s r) (drop_empty p)
unfolding drop_empty
All-kept r [] h = tt
All-kept r ([] ∷ p) h = All-kept r p h.1
All-kept r ((x ∷ s) ∷ p) h = (h.0, All-kept r p h.1)

All-map-without :
    (c : Text) (r : List Text) (p : List (List Text))
    → All (λ s. Sublist s r) p
    → All (λ s. Sublist s (without c r)) (map (without c) p)
All-map-without c r [] h = tt
All-map-without c r (s ∷ p) h = (Sublist-without c h.0, All-map-without c r p h.1)

IsMerge-round :
    (c : Text) (p : List (List Text)) (r : List Text)
    → IsMerge p r
    → IsMerge (round c p) (without c r)
IsMerge-round c p r m = record {
  once = distinct-without c r m.once;
  ordered = All-kept (without c r) (map (without c) p) (All-map-without c r p m.ordered);
  covered = λ x. ground (arith, contains-without c x r, somewhere-round x c p, m.covered x);
}

-- The first item of an order leads each sequence that has it, and stands in no tail.
Sublist-first :
    (x : Text) (r : List Text) {s : List Text}
    → contains x r ≡ false
    → Sublist s (x ∷ r)
    → (contains x (tail s) ≡ false) × (contains x s ≡ true → starts x s ≡ true)
unfolding contains
Sublist-first x r h nil = (refl, λ e. e)
Sublist-first x r h (keep m) = (contains-Sublist x m h, λ e. text_eq_refl x)
Sublist-first x r h (skip {xs = []} m) = (refl, λ e. e)
Sublist-first x r h (skip {xs = y ∷ s} m) = ground (arith, contains-Sublist x m h)

first_leads :
    (x : Text) (r : List Text) (p : List (List Text))
    → contains x r ≡ false
    → All (λ s. Sublist s (x ∷ r)) p
    → (in_tails x p ≡ false) × (somewhere x p ≡ true → leads x p ≡ true)
unfolding in_tails somewhere leads
first_leads x r [] h m = (refl, λ e. e)
first_leads x r (s ∷ p) h m =
    let (free, lead) = Sublist-first x r h m.0 in
    let (free', lead') = first_leads x r p h m.1 in
    (
      ground (arith, free, free'),
      λ e. elim (Bool-cases (contains x s)) [
        | inl here ↦ rw (lead here) refl
        | inr gone ↦ ground (arith, lead' (rw gone at e))
      ],
    )

Filled-somewhere :
    (s : List Text) (p : List (List Text))
    → Filled (s ∷ p)
    → (x : Text) × (somewhere x (s ∷ p) ≡ true)
unfolding somewhere contains
Filled-somewhere [] p f = absurd (f.0 refl)
Filled-somewhere (x ∷ s) p f = (x, ground (arith, text_eq_refl x))

candidate_exists :
    (s : List Text) (p : List (List Text)) (r : List Text)
    → Filled (s ∷ p)
    → IsMerge (s ∷ p) r
    → next_candidate (s ∷ p) (s ∷ p) ≢ none
unfolding contains distinct
candidate_exists s p [] f m =
    let (x, e) = Filled-somewhere s p f in absurd (false≢true (m.covered x ∙ e))
candidate_exists s p (x ∷ r) f m =
    let (free, lead) = first_leads x r (s ∷ p) (ground (arith, m.once)) m.ordered in
    next_candidate_total x (s ∷ p) (s ∷ p) free
      (lead (sym (m.covered x) ∙ ground (arith, text_eq_refl x)))

loop_complete :
    (n : ℕ) (p : List (List Text)) (result r : List Text)
    → Filled p
    → IsMerge p r
    → merge_loop n p result ≢ some none
unfolding merge_loop
loop_complete n [] result r f m = λ e. cc
loop_complete zero (s ∷ p) result r f m = λ e. cc
loop_complete (suc n) (s ∷ p) result r f m = elim (Option-cases (next_candidate (s ∷ p) (s ∷ p))) [
  | inl e ↦ absurd (candidate_exists s p r f m e)
  | inr (c, e) ↦
      rw (e, merge_loop)
        (loop_complete n (round c (s ∷ p)) (result ++ c ∷ []) (without c r)
          (drop_empty-Filled (map (without c) (s ∷ p))) (IsMerge-round c (s ∷ p) r m))
]

-- If some order is a merge of the sequences, then `c3_merge` returns one: it answers none only
-- for sequences that contradict one another.
pub c3_merge_complete :
    (sequences : List (List Text)) (r : List Text) → IsMerge sequences r → c3_merge sequences ≢ none
unfolding c3_merge c3_rounds
c3_merge_complete sequences r m = elim (Option-cases (c3_rounds sequences)) [
  | inl e ↦ absurd (c3_rounds_total sequences e)
  | inr (o, e) ↦ λ h.
      loop_complete (total sequences) (drop_empty sequences) [] r (drop_empty-Filled sequences)
        (record {
          once = m.once;
          ordered = All-kept r sequences m.ordered;
          covered = λ x. m.covered x ∙ sym (somewhere-drop_empty x sequences);
        })
        (ground (arith, e, h))
]
