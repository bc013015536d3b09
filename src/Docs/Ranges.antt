-- ===== src/Docs/Ranges.antt =====
-- The ranges of prose and of fenced code in a section: _markdown_chunk_ranges of
-- src/codekg/docs.py.
use my_kg_codebase.Prelude.{
  ℕ, zero, suc, ◌+◌, ◌-◌, Bool, ◌||◌, Option, none, some, List, [], ◌∷◌, ◌++◌, get_elem?,
  if◌then◌else◌, leb, ltb,
}
use my_kg_codebase.Prelude.Text.{Text, codes, starts_with, lstrip}

-- _is_fence_start
unfoldable pub is_fence_start : Text → Bool
unfolding starts_with lstrip
is_fence_start line =
    starts_with (lstrip line) (codes "```") || starts_with (lstrip line) (codes "~~~")

-- _is_fence_end
unfoldable pub is_fence_end : Text → Text → Bool
unfolding starts_with lstrip
is_fence_end line fence = starts_with (lstrip line) fence

pub last? : List Text → Option Text
last? [] = none
last? (line ∷ []) = some line
last? (line ∷ next ∷ lines) = last? (next ∷ lines)

-- lines[number - 1], where none is an IndexError: line 0 would be the last one.
unfoldable pub line_at : List Text → ℕ → Option Text
unfolding last?
line_at lines zero = last? lines
line_at lines (suc index) = get_elem? lines index

-- text[:3]
abbrev pub first_three : Text → Text
first_three (a ∷ b ∷ c ∷ rest) = a ∷ b ∷ c ∷ []
first_three text = text

-- lines[line_no - 1].lstrip()[:3]
unfoldable pub fence_of : Text → Text
unfolding lstrip
fence_of line = first_three (lstrip line)

-- The inner loop over `count` candidates from `candidate` on: the first that ends the fence, or
-- the line at which the fence starts.
unfoldable pub fence_end_from : List Text → Text → ℕ → ℕ → ℕ → Option ℕ
fence_end_from lines fence line_no zero candidate = some line_no
fence_end_from lines fence line_no (suc count) candidate =
    let rest = fence_end_from lines fence line_no count (candidate + 1) in
    elim (line_at lines candidate) [
      | none ↦ none
      | some line ↦ if is_fence_end line fence then some candidate else rest
    ]

abbrev pub Range : Type 0
Range = ℕ × ℕ

-- if cursor < line_no: yield cursor, line_no - 1
unfoldable pub prose_before : ℕ → ℕ → List Range
prose_before cursor line_no = if ltb cursor line_no then (cursor, line_no - 1) ∷ [] else []

-- if cursor <= end_line: yield cursor, end_line
unfoldable pub prose_left : ℕ → ℕ → List Range
prose_left cursor end_line = if leb cursor end_line then (cursor, end_line) ∷ [] else []

abbrev pub prepended : List Range → Option (List Range) → Option (List Range)
prepended before none = none
prepended before (some ranges) = some (before ++ ranges)

-- The outer loop, with the number of rounds that it may still take; none if these run out, or for
-- an IndexError.
unfoldable pub ranges_from : List Text → ℕ → ℕ → ℕ → ℕ → Option (List Range)
ranges_from lines end_line zero cursor line_no = none
ranges_from lines end_line (suc rounds) cursor line_no =
    let next = ranges_from lines end_line rounds cursor (line_no + 1) in
    elim (leb line_no end_line) [
      | Bool.false ↦ some (prose_left cursor end_line)
      | Bool.true ↦ elim (line_at lines line_no) [
        | none ↦ none
        | some line ↦ elim (is_fence_start line) [
          | Bool.false ↦ next
          | Bool.true ↦
              elim (fence_end_from lines (fence_of line) line_no (end_line - line_no)
                (line_no + 1)) [
                  | none ↦ none
                  | some fence_end ↦
                      prepended (prose_before cursor line_no ++ (line_no, fence_end) ∷ [])
                        (ranges_from lines end_line rounds (fence_end + 1) (fence_end + 1))
                ]
        ]
      ]
    ]

-- _markdown_chunk_ranges: each round moves on by a line at least.
unfoldable pub markdown_chunk_ranges : List Text → ℕ → ℕ → Option (List Range)
markdown_chunk_ranges lines start_line end_line =
    ranges_from lines end_line (end_line + 2 - start_line) start_line start_line
