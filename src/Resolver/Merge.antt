-- ===== src/Resolver/Merge.antt =====
-- `_c3_merge` of src/codekg/resolver.py: the merge step of Python's method resolution order.
pub mod Round
pub mod Sound
pub mod Complete
pub mod Tests
use my_kg_codebase.Prelude.{
  ℕ, zero, suc, ◌+◌, Bool, true, false, not, ◌||◌, Option, none, some, List, [], ◌∷◌, ◌++◌, map,
  if◌then◌else◌, length, tail, any, filter, is_empty,
}
use my_kg_codebase.Prelude.Text.{Text, text_eq, contains}

-- any(head in other[1:] for other in pending)
pub in_tails : Text → List (List Text) → Bool
in_tails head pending = any (λ other. contains head (tail other)) pending

-- next((sequence[0] for sequence in pending if not any(…)), None). No pending sequence is empty;
-- an empty one has no head to offer.
pub next_candidate : List (List Text) → List (List Text) → Option Text
next_candidate pending [] = none
next_candidate pending ([] ∷ rest) = next_candidate pending rest
next_candidate pending ((head ∷ s) ∷ rest) =
    let later = next_candidate pending rest in if in_tails head pending then later else some head

-- [item for item in sequence if item != candidate]
pub without : Text → List Text → List Text
without candidate [] = []
without candidate (item ∷ s) =
    let rest = without candidate s in if text_eq item candidate then rest else item ∷ rest

-- [sequence for sequence in pending if sequence]
unfoldable pub drop_empty : List (List Text) → List (List Text)
drop_empty [] = []
drop_empty ([] ∷ rest) = drop_empty rest
drop_empty ((x ∷ s) ∷ rest) = (x ∷ s) ∷ drop_empty rest

-- The `while pending` loop. The outer `none` says that the rounds ran out, which never happens
-- in `c3_merge`; `some none` is the source's `return None`.
pub merge_loop : ℕ → List (List Text) → List Text → Option (Option (List Text))
merge_loop rounds [] result = some (some result)
merge_loop zero (s ∷ pending) result = none
merge_loop (suc rounds) (s ∷ pending) result = elim (next_candidate (s ∷ pending) (s ∷ pending)) [
  | none ↦ some none
  | some candidate ↦
      merge_loop rounds (drop_empty (map (without candidate) (s ∷ pending)))
        (result ++ candidate ∷ [])
]

-- The number of items in all sequences: each round removes at least one.
pub total : List (List Text) → ℕ
total [] = 0
total (s ∷ pending) = length s + total pending

pub c3_rounds : List (List Text) → Option (Option (List Text))
unfolding drop_empty
c3_rounds sequences = merge_loop (total sequences) (drop_empty sequences) []

abbrev settled : Option (Option (List Text)) → Option (List Text)
settled none = none
settled (some r) = r

unfoldable pub c3_merge : List (List Text) → Option (List Text)
unfolding c3_rounds merge_loop total next_candidate in_tails contains without text_eq
c3_merge sequences = settled (c3_rounds sequences)
