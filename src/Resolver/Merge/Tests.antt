-- ===== src/Resolver/Merge/Tests.antt =====
-- The merge on small inputs.
use my_kg_codebase.Prelude.{◌≡◌, refl, none, some, List, [], ◌∷◌}
use my_kg_codebase.Prelude.Text.{Text, codes}
use my_kg_codebase.Resolver.Merge.{c3_merge}

abbrev diamond : List (List Text)
diamond =
    (codes "B" ∷ codes "A" ∷ codes "O" ∷ [])
    ∷ (codes "C" ∷ codes "A" ∷ codes "O" ∷ [])
    ∷ (codes "B" ∷ codes "C" ∷ [])
    ∷ []

c3_merge-diamond : c3_merge diamond ≡ some (codes "B" ∷ codes "C" ∷ codes "A" ∷ codes "O" ∷ [])
unfolding c3_merge
c3_merge-diamond = refl

abbrev crossed : List (List Text)
crossed = (codes "A" ∷ codes "B" ∷ []) ∷ (codes "B" ∷ codes "A" ∷ []) ∷ []

c3_merge-crossed : c3_merge crossed ≡ none
unfolding c3_merge
c3_merge-crossed = refl
