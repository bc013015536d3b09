-- ===== src/Docs/Tiling.antt =====
-- The ranges of a section tile it: _markdown_chunk_ranges of src/codekg/docs.py.
use my_kg_codebase.Prelude.{
  ℕ, zero, suc, ◌+◌, ◌-◌, ◌≤◌, ◌<◌, ◌≡◌, refl, subst, ◌∙◌, true, false, ◌⊎◌, inl, inr, some, List,
  [], ◌∷◌, ◌++◌, length, leb, ltb, arith, Bool-cases,
}
use my_kg_codebase.Prelude.Text.{Text}
use my_kg_codebase.Docs.Ranges.{
  is_fence_start, is_fence_end, line_at, fence_of, fence_end_from, Range, prose_before, prose_left,
  ranges_from, markdown_chunk_ranges,
}
use my_kg_codebase.Docs.Fences.{
  NoLine, line_at_total, NoLine-empty, NoLine-last, Found, fence_end_from_total,
}

-- The fence that a line opens ends in line b, and in none between; or b is the line itself, and no
-- line of the section ends the fence.
abbrev pub Closes : List Text → ℕ → ℕ → ℕ → Text → Type 0
Closes lines end_line a b fence =
    ((a < b)
      × (b ≤ end_line)
      × (last : Text) × (line_at lines b ≡ some last)
      × (is_fence_end last fence ≡ true)
      × NoLine lines (λ line. is_fence_end line fence) (a + 1) b)
    ⊎ ((b ≡ a) × NoLine lines (λ line. is_fence_end line fence) (a + 1) (end_line + 1))

-- The lines from a to b are prose without a fence, or one whole fenced block.
abbrev pub IsChunk : List Text → ℕ → ℕ → ℕ → Type 0
IsChunk lines end_line a b =
    NoLine lines is_fence_start a (b + 1)
    ⊎ ((line : Text) × (line_at lines a ≡ some line)
        × (is_fence_start line ≡ true)
        × Closes lines end_line a b (fence_of line))

-- The ranges follow one another from `start` to the end of the section, without a gap.
abbrev pub IsTiling : List Text → ℕ → ℕ → List Range → Type 0
IsTiling lines end_line start [] = start ≡ end_line + 1
IsTiling lines end_line start ((a, b) ∷ ranges) =
    (a ≡ start) × (a ≤ b) × IsChunk lines end_line a b × IsTiling lines end_line (b + 1) ranges

module _ (lines : List Text) (end_line : ℕ) where
  IsTiling-prose_left :
      (cursor : ℕ)
      → cursor ≤ end_line + 1
      → NoLine lines is_fence_start cursor (end_line + 1)
      → IsTiling lines end_line cursor (prose_left cursor end_line)
  unfolding prose_left
  IsTiling-prose_left cursor h plain = elim (Bool-cases (leb cursor end_line)) [
    | inl e ↦ rw e (refl, ground (arith, e), inl plain, refl)
    | inr e ↦ rw e (ground (arith, h, e))
  ]

  IsTiling-fenced :
      (cursor line_no fence_end : ℕ) (ranges : List Range)
      → cursor ≤ line_no
      → line_no ≤ fence_end
      → NoLine lines is_fence_start cursor line_no
      → IsChunk lines end_line line_no fence_end
      → IsTiling lines end_line (fence_end + 1) ranges
      → IsTiling lines end_line cursor
          ((prose_before cursor line_no ++ (line_no, fence_end) ∷ []) ++ ranges)
  unfolding prose_before
  IsTiling-fenced cursor line_no fence_end ranges h k plain chunk tiles =
      elim (Bool-cases (ltb cursor line_no)) [
        | inl e ↦
            let same : line_no ≡ line_no - 1 + 1 = ground (arith, e) in
            rw e (
              refl,
              ground (arith, e),
              inl (subst (λ n. NoLine lines is_fence_start cursor n) same plain),
              (same, k, chunk, tiles),
            )
        | inr e ↦ rw e (ground (arith, h, e), k, chunk, tiles)
      ]

  IsChunk-fenced :
      (line_no fence_end : ℕ) (line : Text)
      → line_no ≤ end_line
      → line_at lines line_no ≡ some line
      → is_fence_start line ≡ true
      → Found lines (fence_of line) line_no (end_line - line_no) (line_no + 1) fence_end
      → (line_no ≤ fence_end) × (fence_end ≤ end_line) × IsChunk lines end_line line_no fence_end
  IsChunk-fenced line_no fence_end line h found starts what = elim what [
    | inl (after, before, last, there, ends, none_between) ↦ (
      omega (arith, after),
      omega (arith, before, h),
      inr (
        line,
        found,
        starts,
        inl (omega (arith, after), omega (arith, before, h), last, there, ends, none_between),
      ),
    )
    | inr (same, none_later) ↦ (
      omega (arith, same),
      omega (arith, same, h),
      inr (
        line,
        found,
        starts,
        inr (
          same,
          subst (λ n. NoLine lines (λ later. is_fence_end later (fence_of line)) (line_no + 1) n)
              (omega (arith, h)) none_later,
        ),
      ),
    )
  ]

  ranges_from-past :
      (rounds cursor line_no : ℕ)
      → leb line_no end_line ≡ false
      → ranges_from lines end_line (suc rounds) cursor line_no ≡ some (prose_left cursor end_line)
  unfolding ranges_from
  ranges_from-past rounds cursor line_no over = rw (ranges_from, over) refl

  ranges_from-prose :
      (rounds cursor line_no : ℕ) (line : Text)
      → leb line_no end_line ≡ true
      → line_at lines line_no ≡ some line
      → is_fence_start line ≡ false
      → ranges_from lines end_line (suc rounds) cursor line_no
        ≡ ranges_from lines end_line rounds cursor (line_no + 1)
  unfolding ranges_from
  ranges_from-prose rounds cursor line_no line inside found prose =
      rw (ranges_from, inside, found, prose) refl

  ranges_from-fenced :
      (rounds cursor line_no fence_end : ℕ) (line : Text) (ranges : List Range)
      → leb line_no end_line ≡ true
      → line_at lines line_no ≡ some line
      → is_fence_start line ≡ true
      → fence_end_from lines (fence_of line) line_no (end_line - line_no) (line_no + 1)
        ≡ some fence_end
      → ranges_from lines end_line rounds (fence_end + 1) (fence_end + 1) ≡ some ranges
      → ranges_from lines end_line (suc rounds) cursor line_no
        ≡ some ((prose_before cursor line_no ++ (line_no, fence_end) ∷ []) ++ ranges)
  unfolding ranges_from
  ranges_from-fenced rounds cursor line_no fence_end line ranges inside found starts closed later =
      rw (ranges_from, inside, found, starts, closed, later) refl

  ranges_from_total :
      (rounds cursor line_no : ℕ)
      → 1 ≤ cursor
      → cursor ≤ line_no
      → line_no ≤ end_line + 1
      → end_line ≤ length lines
      → end_line + 2 ≤ rounds + line_no
      → NoLine lines is_fence_start cursor line_no
      → (ranges : List Range) × (ranges_from lines end_line rounds cursor line_no ≡ some ranges)
        × IsTiling lines end_line cursor ranges
  ranges_from_total zero cursor line_no a b c d enough plain = absurd (omega (arith, c, enough))
  ranges_from_total (suc rounds) cursor line_no a b c d enough plain =
      elim (Bool-cases (leb line_no end_line)) [
        | inr over ↦
            let past : line_no ≡ end_line + 1 = ground (arith, over, c) in
            (
              prose_left cursor end_line,
              ranges_from-past rounds cursor line_no over,
              IsTiling-prose_left cursor (omega (arith, past, b))
                  (subst (λ n. NoLine lines is_fence_start cursor n) past plain),
            )
        | inl inside ↦
            let within : line_no ≤ end_line = ground (arith, inside) in
            let (line, found) =
              line_at_total lines line_no (omega (arith, a, b)) (omega (arith, d)) in
            elim (Bool-cases (is_fence_start line)) [
              | inr prose ↦
                  let (ranges, done, tiles) =
                    ranges_from_total rounds cursor (line_no + 1) a (omega (arith, b))
                      (omega (arith, within)) d (omega (arith, enough))
                      (NoLine-last lines is_fence_start cursor line_no line found prose plain) in
                  (
                    ranges,
                    ranges_from-prose rounds cursor line_no line inside found prose ∙ done,
                    tiles,
                  )
              | inl starts ↦
                  let (e, closed, what) =
                    fence_end_from_total lines (fence_of line) line_no (end_line - line_no)
                      (line_no + 1) (omega arith) (omega (arith, within, d)) in
                  let (k, l, chunk) = IsChunk-fenced line_no e line within found starts what in
                  let (ranges, done, tiles) =
                    ranges_from_total rounds (e + 1) (e + 1) (omega arith) (omega arith)
                      (omega (arith, l)) d (omega (arith, enough, k))
                      (NoLine-empty lines is_fence_start (e + 1) (e + 1) (omega arith)) in
                  (
                    (prose_before cursor line_no ++ (line_no, e) ∷ []) ++ ranges,
                    ranges_from-fenced rounds cursor line_no e line ranges inside found starts
                        closed done,
                    IsTiling-fenced cursor line_no e ranges b k plain chunk tiles,
                  )
            ]
      ]

-- The loop ends with a tiling.
pub markdown_chunk_ranges-IsTiling :
    (lines : List Text) (start_line end_line : ℕ)
    → 1 ≤ start_line
    → start_line ≤ end_line + 1
    → end_line ≤ length lines
    → (ranges : List Range) × (markdown_chunk_ranges lines start_line end_line ≡ some ranges)
      × IsTiling lines end_line start_line ranges
unfolding markdown_chunk_ranges
markdown_chunk_ranges-IsTiling lines start_line end_line a b c =
    ranges_from_total lines end_line (end_line + 2 - start_line) start_line start_line a
      (omega arith) b c (omega arith)
      (NoLine-empty lines is_fence_start start_line start_line (omega arith))
