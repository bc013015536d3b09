-- ===== src/Resolver/Merge/Sound.antt =====
-- The merge returns an order of all items that keeps each sequence's own order, and returns none
-- only where there is no such order.
use my_kg_codebase.Prelude.{
  ℕ, zero, suc, ◌≤◌, ◌≡◌, refl, sym, subst, true, false, none, some, List, [], ◌∷◌, ◌++◌, map,
  arith, All, ◌≢◌, Bool-cases, inl, inr, ◌∙◌, append-nil, append_assoc, Option-cases,
}
use my_kg_codebase.Prelude.Text.{Text, text_eq, text_eq_iff, text_eq_sound, contains}
use my_kg_codebase.Resolver.Merge.{
  in_tails, next_candidate, without, drop_empty, total, merge_loop, c3_rounds, c3_merge,
}
use my_kg_codebase.Resolver.Merge.Round.{
  Sublist, distinct, somewhere, leads, round, Filled, next_candidate_lem, drop_empty-Filled,
  total-drop_empty, total-round-lt, somewhere-round, somewhere-drop_empty, All-round,
  All-drop_empty,
}

-- `r` holds exactly the items of the sequences, each once, and every sequence in its own order.
pub record IsMerge (p : List (List Text)) (r : List Text) : Type 0 where
  pub once : distinct r ≡ true
  pub ordered : All (λ s. Sublist s r) p
  pub covered : (x : Text) → contains x r ≡ somewhere x p

IsMerge-nil : IsMerge [] []
unfolding distinct somewhere contains
IsMerge-nil = record { once = refl; ordered = tt; covered = λ x. refl }

-- A merge of what the round leaves, behind the candidate, is a merge.
IsMerge-cons :
    (c : Text) (p : List (List Text)) (r : List Text)
    → in_tails c p ≡ false
    → somewhere c p ≡ true
    → IsMerge (round c p) r
    → IsMerge p (c ∷ r)
unfolding distinct contains
IsMerge-cons c p r free there m = record {
  once = ground (arith, m.covered c, m.once, somewhere-round c c p, text_eq_iff c c);
  ordered = All-round c r p free m.ordered;
  covered = λ x. elim (Bool-cases (text_eq x c)) [
    | inl e ↦ ground (arith, e, subst (λ y. somewhere y p ≡ true) (sym (text_eq_sound x c e)) there)
    | inr e ↦ ground (arith, e, m.covered x, somewhere-round x c p)
  ];
}

leads-somewhere : (c : Text) (p : List (List Text)) → leads c p ≡ true → somewhere c p ≡ true
unfolding leads somewhere contains
leads-somewhere c [] h = h
leads-somewhere c ([] ∷ p) h = leads-somewhere c p h
leads-somewhere c ((x ∷ s) ∷ p) h = ground (arith, leads-somewhere c p)

loop_sound :
    (n : ℕ) (p : List (List Text)) (result r : List Text)
    → merge_loop n p result ≡ some (some r)
    → (rest : List Text) × (r ≡ result ++ rest) × IsMerge p rest
unfolding merge_loop
loop_sound n [] result r h = ([], cc (append-nil result), IsMerge-nil)
loop_sound zero (s ∷ p) result r h = cc
loop_sound (suc n) (s ∷ p) result r h = elim (Option-cases (next_candidate (s ∷ p) (s ∷ p))) [
  | inl e ↦ absurd (ground (arith, e))
  | inr (c, e) ↦
      let (free, first) = next_candidate_lem c (s ∷ p) (s ∷ p) e in
      let (rest, same, m) =
        loop_sound n (round c (s ∷ p)) (result ++ c ∷ []) r (rw (e, merge_loop) at h) in
      (
        c ∷ rest,
        same ∙ append_assoc result (c ∷ []) rest,
        IsMerge-cons c (s ∷ p) rest free (leads-somewhere c (s ∷ p) first) m,
      )
]

-- With as many rounds as there are items, the loop ends by itself.
loop_ends :
    (n : ℕ) (p : List (List Text)) (result : List Text)
    → Filled p
    → total p ≤ n
    → merge_loop n p result ≢ none
unfolding merge_loop total
loop_ends n [] result f h = λ e. cc
loop_ends zero ([] ∷ p) result f h = absurd (f.0 refl)
loop_ends zero ((x ∷ s) ∷ p) result f h = absurd (omega arith)
loop_ends (suc n) (s ∷ p) result f h = elim (Option-cases (next_candidate (s ∷ p) (s ∷ p))) [
  | inl e ↦ rw (e, merge_loop) (λ d. cc)
  | inr (c, e) ↦
      let (free, first) = next_candidate_lem c (s ∷ p) (s ∷ p) e in
      rw (e, merge_loop)
        (loop_ends n (round c (s ∷ p)) (result ++ c ∷ [])
          (drop_empty-Filled (map (without c) (s ∷ p)))
          (omega (arith, total-round-lt c (s ∷ p) first)))
]

-- The rounds that `c3_merge` allows are enough.
pub c3_rounds_total : (sequences : List (List Text)) → c3_rounds sequences ≢ none
unfolding c3_rounds
c3_rounds_total sequences =
    loop_ends (total sequences) (drop_empty sequences) [] (drop_empty-Filled sequences)
      (omega (arith, total-drop_empty sequences))

-- A merge of the sequences that are not empty is one of all.
IsMerge-drop_empty : (p : List (List Text)) (r : List Text) → IsMerge (drop_empty p) r → IsMerge p r
IsMerge-drop_empty p r m = record {
  once = m.once;
  ordered = All-drop_empty r p m.ordered;
  covered = λ x. m.covered x ∙ somewhere-drop_empty x p;
}

-- If the merge returns an order, that order holds exactly the items of the given sequences, each
-- once, and has every sequence as a subsequence.
pub c3_merge-IsMerge :
    (sequences : List (List Text)) (r : List Text)
    → c3_merge sequences ≡ some r
    → IsMerge sequences r
unfolding c3_merge c3_rounds
c3_merge-IsMerge sequences r h = elim (Option-cases (c3_rounds sequences)) [
  | inl e ↦ absurd (c3_rounds_total sequences e)
  | inr (o, e) ↦
      let (rest, same, m) =
        loop_sound (total sequences) (drop_empty sequences) [] r (ground (arith, e, h)) in
      IsMerge-drop_empty sequences r (rw same m)
]
