-- ===== src/Docs/Outline.antt =====
-- The headings above each section: the stack of _chunk_markdown_file in src/codekg/docs.py.
use my_kg_codebase.Prelude.{
  ℕ, ◌<◌, ◌≡◌, refl, sym, ap, ◌∙◌, Bool, false, ◌&&◌, inl, inr, List, [], ◌∷◌, ◌++◌, append_assoc,
  all, if◌then◌else◌, leb, ltb, arith, Bool-cases,
}
use my_kg_codebase.Prelude.Text.{Text, codes}
use my_kg_codebase.Docs.Sections.{
  Heading, Section, heading_path, pop_closed, last_line, sections_from,
}

-- The headings that stand above a later one, the nearest first, among `earlier`, the nearest
-- first: those with a lower level than it and than all the headings between, whose levels are
-- `between`.
unfoldable pub above : List ℕ → List Heading → List Heading
above between [] = []
above between (heading ∷ earlier) =
    let rest = above (heading.level ∷ between) earlier in
    if all (λ level. ltb heading.level level) between then heading ∷ rest else rest

-- The titles, each but the first behind " > ".
unfoldable pub joined_titles : List Text → Text
joined_titles [] = []
joined_titles (title ∷ []) = title
joined_titles (title ∷ next ∷ titles) = title ++ codes " > " ++ joined_titles (next ∷ titles)

-- The headings from the outermost on, where the nearest comes first in the list.
abbrev pub outermost_first : List Heading → List Text
outermost_first [] = []
outermost_first (heading ∷ headings) = outermost_first headings ++ heading.title ∷ []

-- Each section with the titles of the headings above it.
unfoldable pub outline : ℕ → List Heading → List Heading → List Section
unfolding above joined_titles
outline count earlier [] = []
outline count earlier (heading ∷ headings) =
    record {
      heading_path = joined_titles (outermost_first (heading ∷ above (heading.level ∷ []) earlier));
      start_line = heading.line_no;
      end_line = last_line count headings;
    }
    ∷ outline count (heading ∷ earlier) headings

joined_titles-snoc :
    (first : Text) (titles : List Text) (title : Text)
    → joined_titles ((first ∷ titles) ++ title ∷ [])
      ≡ joined_titles (first ∷ titles) ++ codes " > " ++ title
unfolding joined_titles
joined_titles-snoc first [] title = refl
joined_titles-snoc first (next ∷ titles) title =
    rw (joined_titles-snoc next titles title) (simp append_assoc)

-- A list of titles that ends with one is not empty.
joined_titles-last :
    (titles : List Text) (last title : Text)
    → joined_titles ((titles ++ last ∷ []) ++ title ∷ [])
      ≡ joined_titles (titles ++ last ∷ []) ++ codes " > " ++ title
joined_titles-last [] last title = joined_titles-snoc last [] title
joined_titles-last (first ∷ titles) last title =
    joined_titles-snoc first (titles ++ last ∷ []) title

heading_path-joined_titles :
    (stack : List Heading) → heading_path stack ≡ joined_titles (outermost_first stack)
unfolding heading_path joined_titles
heading_path-joined_titles [] = refl
heading_path-joined_titles (top ∷ []) = refl
heading_path-joined_titles (top ∷ next ∷ stack) =
    ap (λ path. path ++ codes " > " ++ top.title) (heading_path-joined_titles (next ∷ stack))
    ∙ sym (joined_titles-last (outermost_first stack) next.title top.title)

abbrev lower : ℕ → List ℕ → Bool
lower level levels = all (λ other. ltb level other) levels

-- Only the lowest of the levels between counts.
above-between :
    (a b : List ℕ)
    → ((level : ℕ) → lower level a ≡ lower level b)
    → (earlier : List Heading) → above a earlier ≡ above b earlier
unfolding above
above-between a b same [] = refl
above-between a b same (heading ∷ earlier) =
    let rest =
      above-between (heading.level ∷ a) (heading.level ∷ b)
        (λ level. ap (λ t. ltb level heading.level && t) (same level)) earlier in
    rw (same heading.level, rest) refl

swapped : (p q r : Bool) → (p && (q && r)) ≡ (q && (p && r))
swapped p q r = ground arith

absorbed : (x a b : ℕ) (r : Bool) → a < b → (ltb x a && (ltb x b && r)) ≡ (ltb x a && r)
absorbed x a b r h = ground (arith, h)

pop_closed-above :
    (level : ℕ) (between : List ℕ) (earlier : List Heading)
    → pop_closed level (above between earlier) ≡ above (level ∷ between) earlier
unfolding pop_closed above
pop_closed-above level between [] = refl
pop_closed-above level between (heading ∷ earlier) =
    let ih = pop_closed-above level (heading.level ∷ between) earlier in
    let exchange =
      above-between (level ∷ heading.level ∷ between) (heading.level ∷ level ∷ between)
        (λ x. swapped (ltb x level) (ltb x heading.level) (lower x between)) earlier in
    elim (Bool-cases (lower heading.level between)) [
      | inr fails ↦ ground (arith, fails, ih, exchange)
      | inl passes ↦ elim (Bool-cases (leb level heading.level)) [
        | inl closed ↦
            let fails : ltb heading.level level ≡ false = ground (arith, closed) in
            ground (arith, passes, closed, fails, ih, exchange)
        | inr stays ↦
            let under : heading.level < level = ground (arith, stays) in
            let absorb =
              above-between (heading.level ∷ level ∷ between) (heading.level ∷ between)
                (λ x. absorbed x heading.level level (lower x between) under) earlier in
            ground (arith, passes, stays, under, absorb)
      ]
    ]

-- The stack when all of `earlier` were read.
stack_of : List Heading → List Heading
stack_of [] = []
stack_of (heading ∷ earlier) = heading ∷ above (heading.level ∷ []) earlier

pop_closed-stack_of :
    (level : ℕ) (earlier : List Heading)
    → pop_closed level (stack_of earlier) ≡ above (level ∷ []) earlier
unfolding stack_of above
pop_closed-stack_of level [] = pop_closed-above level [] []
pop_closed-stack_of level (heading ∷ earlier) =
    let same : above [] (heading ∷ earlier) ≡ stack_of (heading ∷ earlier) = refl in
    ap (pop_closed level) (sym same) ∙ pop_closed-above level [] (heading ∷ earlier)

sections_from-stack_of :
    (count : ℕ) (earlier headings : List Heading)
    → sections_from count (stack_of earlier) headings ≡ outline count earlier headings
unfolding sections_from outline stack_of
sections_from-stack_of count earlier [] = refl
sections_from-stack_of count earlier (heading ∷ headings) =
    let popped = pop_closed-stack_of heading.level earlier in
    let rest = sections_from-stack_of count (heading ∷ earlier) headings in
    let path = heading_path-joined_titles (heading ∷ above (heading.level ∷ []) earlier) in
    rw (popped, path, rest) refl

-- For every file and sequence of headings: the stack gives each section the titles of its heading
-- and of the headings above it, from the outermost on, with ' > ' between them, where a heading is
-- above a later one if its level is lower than the later one's and than that of every heading
-- between the two.
pub sections_from-outline :
    (count : ℕ) (headings : List Heading)
    → sections_from count [] headings ≡ outline count [] headings
unfolding stack_of
sections_from-outline count headings = sections_from-stack_of count [] headings
