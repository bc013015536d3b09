-- ===== src/Docs/Layout.antt =====
-- The sections of a file follow one another: _chunk_markdown_file of src/codekg/docs.py.
use my_kg_codebase.Prelude.{
  ℕ, ◌+◌, ◌-◌, ◌≤◌, ◌≡◌, refl, sym, subst, inl, inr, List, [], ◌∷◌, length, arith, List-cases,
  Option-cases,
}
use my_kg_codebase.Prelude.Text.{Text}
use my_kg_codebase.Docs.Headings.{markdown_heading}
use my_kg_codebase.Docs.Sections.{
  Heading, Section, headings_from, last_line, pop_closed, sections_from, sections_of,
}

-- The headings stand on lines from `low` on, each below the last.
abbrev IsAscending : ℕ → ℕ → List Heading → Type 0
IsAscending count low [] = low ≤ count + 1
IsAscending count low (heading ∷ headings) =
    (low ≤ heading.line_no)
    × (heading.line_no ≤ count)
    × IsAscending count (heading.line_no + 1) headings

IsAscending-lower :
    (count a b : ℕ) (headings : List Heading)
    → a ≤ b
    → IsAscending count b headings
    → IsAscending count a headings
IsAscending-lower count a b [] h low = omega (arith, h, low)
IsAscending-lower count a b (heading ∷ headings) h (low, high, rest) =
    (omega (arith, h, low), high, rest)

headings_from-IsAscending :
    (index count : ℕ) (lines : List Text)
    → index + length lines ≡ count
    → IsAscending count (index + 1) (headings_from index lines)
unfolding headings_from
headings_from-IsAscending index count [] h = omega (arith, h)
headings_from-IsAscending index count (line ∷ lines) h =
    let rest = headings_from-IsAscending (index + 1) count lines (omega (arith, h)) in
    elim (Option-cases (markdown_heading line)) [
      | inl e ↦
          rw (headings_from, e)
            (IsAscending-lower count (index + 1) (index + 1 + 1) (headings_from (index + 1) lines)
              (omega arith) rest)
      | inr (heading, e) ↦ rw (headings_from, e) (omega arith, omega (arith, h), rest)
    ]

-- The sections follow one another from `start` to the end of the file.
abbrev pub AreSections : ℕ → ℕ → List Section → Type 0
AreSections count start [] = start ≡ count + 1
AreSections count start (section ∷ sections) =
    (section.start_line ≡ start)
    × (start ≤ section.end_line + 1)
    × (section.end_line ≤ count)
    × AreSections count (section.end_line + 1) sections

sections_from-AreSections :
    (count : ℕ) (stack : List Heading) (heading : Heading) (headings : List Heading)
    → IsAscending count heading.line_no (heading ∷ headings)
    → AreSections count heading.line_no (sections_from count stack (heading ∷ headings))
unfolding sections_from last_line
sections_from-AreSections count stack heading [] (low, high, rest) =
    (refl, omega (arith, high), omega arith, refl)
sections_from-AreSections count stack heading (next ∷ headings) (low, high, (below, inside, rest)) =
    let later =
      sections_from-AreSections count (heading ∷ pop_closed heading.level stack) next headings
        (omega arith, inside, rest) in
    let same : next.line_no - 1 + 1 ≡ next.line_no = omega (arith, below) in
    (
      refl,
      omega (arith, below),
      omega (arith, inside),
      subst
          (λ n.
            AreSections count n
              (sections_from count (heading ∷ pop_closed heading.level stack) (next ∷ headings)))
          (sym same) later,
    )

-- The first line that belongs to a section: that of the first heading, or the first of a file
-- without headings.
abbrev pub first_line : List Heading → ℕ
first_line [] = 1
first_line (heading ∷ headings) = heading.line_no

pub sections_of-AreSections :
    (name : Text) (lines : List Text)
    → (1 ≤ first_line (headings_from 0 lines))
      × AreSections (length lines) (first_line (headings_from 0 lines)) (sections_of name lines)
unfolding sections_of
sections_of-AreSections name lines =
    let ascending = headings_from-IsAscending 0 (length lines) lines (omega arith) in
    elim (List-cases (headings_from 0 lines)) [
      | inl e ↦ rw e (omega arith, (refl, omega arith, omega arith, refl))
      | inr (heading, headings, e) ↦
          let (low, high, rest) = subst (IsAscending (length lines) 1) e ascending in
          rw e (
            low,
            sections_from-AreSections (length lines) [] heading headings (omega arith, high, rest),
          )
    ]
