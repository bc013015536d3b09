-- ===== src/Docs/Fenced.antt =====
-- What opens and ends a fence, in words of its own: _markdown_chunk_ranges of src/codekg/docs.py.
use my_kg_codebase.Prelude.{
  ℕ, ◌+◌, ◌≤◌, ◌<◌, ◌≡◌, refl, sym, ap, ◌∙◌, subst, true, ◌⊎◌, inl, inr, some, List, [], ◌∷◌, ◌++◌,
  all, length, arith, Bool-cases,
}
use my_kg_codebase.Prelude.Text.{Text, codes, is_space, starts_with, lstrip}
use my_kg_codebase.Docs.Ranges.{
  is_fence_start, is_fence_end, line_at, first_three, fence_of, Range, markdown_chunk_ranges,
}
use my_kg_codebase.Docs.Fences.{NoLine}
use my_kg_codebase.Docs.Tiling.{IsChunk, IsTiling, markdown_chunk_ranges-IsTiling}
use my_kg_codebase.Docs.Written.{lstrip-spaces}

-- Behind whitespace, the line begins with the marker.
abbrev pub Marks : Text → Text → Type 0
Marks marker line =
    (spaces : Text) × (rest : Text) × (all is_space spaces ≡ true)
    × (line ≡ spaces ++ (marker ++ rest))

-- The marker is three backticks or three tildes.
abbrev pub IsMarker : Text → Type 0
IsMarker marker = (marker ≡ codes "```") ⊎ (marker ≡ codes "~~~")

-- No line from a on and before b is marked so.
abbrev pub Unmarked : List Text → Text → ℕ → ℕ → Type 0
Unmarked lines marker a b =
    (i : ℕ) → a ≤ i → i < b → (line : Text) → line_at lines i ≡ some line → ¬ Marks marker line

-- The lines from a to b are prose in which nothing opens a fence, or the whole block of one fence:
-- from the line that a marker opens to the first later one that begins with the same marker, or
-- that line alone where none does before the section ends.
abbrev pub IsBlock : List Text → ℕ → ℕ → ℕ → Type 0
IsBlock lines end_line a b =
    (Unmarked lines (codes "```") a (b + 1) × Unmarked lines (codes "~~~") a (b + 1))
    ⊎ ((marker : Text) × (line : Text) × IsMarker marker
        × (line_at lines a ≡ some line)
        × Marks marker line
        × (((a < b)
              × (b ≤ end_line)
              × (last : Text) × (line_at lines b ≡ some last)
              × Marks marker last
              × Unmarked lines marker (a + 1) b)
            ⊎ ((b ≡ a) × Unmarked lines marker (a + 1) (end_line + 1))))

-- The ranges follow one another from `start` to the end of the section, without a gap.
abbrev pub AreBlocks : List Text → ℕ → ℕ → List Range → Type 0
AreBlocks lines end_line start [] = start ≡ end_line + 1
AreBlocks lines end_line start ((a, b) ∷ ranges) =
    (a ≡ start) × (a ≤ b) × IsBlock lines end_line a b × AreBlocks lines end_line (b + 1) ranges

lstrip-split :
    (line : Text) → (spaces : Text) × (all is_space spaces ≡ true) × (line ≡ spaces ++ lstrip line)
unfolding lstrip
lstrip-split [] = ([], refl, refl)
lstrip-split (c ∷ line) = elim (Bool-cases (is_space c)) [
  | inl e ↦
      let (spaces, blank, split) = lstrip-split line in
      (c ∷ spaces, rw e blank, rw e (ap (λ l. c ∷ l) split))
  | inr e ↦ ([], refl, rw e refl)
]

starts_with-split :
    (text prefix : Text) → starts_with text prefix ≡ true → (rest : Text) × (text ≡ prefix ++ rest)
unfolding starts_with
starts_with-split text [] h = (text, refl)
starts_with-split [] (p ∷ prefix) h = absurd (ground (arith, h))
starts_with-split (c ∷ text) (p ∷ prefix) h =
    let same : c ≡ p = ground (arith, h) in
    let later : starts_with text prefix ≡ true = ground (arith, h) in
    let (rest, split) = starts_with-split text prefix later in (rest, cc (same, split))

starts_with-append : (prefix rest : Text) → starts_with (prefix ++ rest) prefix ≡ true
unfolding starts_with
starts_with-append [] rest = refl
starts_with-append (p ∷ prefix) rest = ground (arith, starts_with-append prefix rest)

Marks-starts_with :
    (marker line : Text) → starts_with (lstrip line) marker ≡ true → Marks marker line
Marks-starts_with marker line h =
    let (spaces, blank, split) = lstrip-split line in
    let (rest, text) = starts_with-split (lstrip line) marker h in
    (spaces, rest, blank, split ∙ ap (λ t. spaces ++ t) text)

-- A marker is no whitespace.
solid_marker : (marker rest : Text) → IsMarker marker → lstrip (marker ++ rest) ≡ marker ++ rest
unfolding lstrip
solid_marker marker rest (inl e) = rw e refl
solid_marker marker rest (inr e) = rw e refl

starts_with-Marks :
    (marker line : Text)
    → IsMarker marker
    → Marks marker line
    → starts_with (lstrip line) marker ≡ true
starts_with-Marks marker line m (spaces, rest, blank, split) =
    let stripped : lstrip line ≡ marker ++ rest =
      ap lstrip split ∙ lstrip-spaces spaces (marker ++ rest) blank ∙ solid_marker marker rest m in
    rw stripped (starts_with-append marker rest)

-- What opens a fence
opens :
    (line : Text)
    → is_fence_start line ≡ true
    → IsMarker (fence_of line) × Marks (fence_of line) line
unfolding is_fence_start fence_of
opens line h = elim (Bool-cases (starts_with (lstrip line) (codes "```"))) [
  | inl e ↦
      let (rest, text) = starts_with-split (lstrip line) (codes "```") e in
      let marker : first_three (lstrip line) ≡ codes "```" = rw text refl in
      (inl marker, subst (λ m. Marks m line) (sym marker) (Marks-starts_with (codes "```") line e))
  | inr e ↦
      let tildes : starts_with (lstrip line) (codes "~~~") ≡ true = rw e at h in
      let (rest, text) = starts_with-split (lstrip line) (codes "~~~") tildes in
      let marker : first_three (lstrip line) ≡ codes "~~~" = rw text refl in
      (
        inr marker,
        subst (λ m. Marks m line) (sym marker) (Marks-starts_with (codes "~~~") line tildes),
      )
]

opened : (marker line : Text) → IsMarker marker → Marks marker line → is_fence_start line ≡ true
unfolding is_fence_start
opened marker line (inl e) m =
    let there = starts_with-Marks (codes "```") line (inl refl) (subst (λ x. Marks x line) e m) in
    rw there refl
opened marker line (inr e) m =
    let there = starts_with-Marks (codes "~~~") line (inr refl) (subst (λ x. Marks x line) e m) in
    elim (Bool-cases (starts_with (lstrip line) (codes "```"))) [
      | inl f ↦ rw f refl
      | inr f ↦ rw (f, there) refl
    ]

module _ (lines : List Text) (end_line : ℕ) where
  Unmarked-prose :
      (marker : Text) (a b : ℕ)
      → IsMarker marker
      → NoLine lines is_fence_start a b
      → Unmarked lines marker a b
  Unmarked-prose marker a b m none_there i low high line found marks =
      let starts = opened marker line m marks in
      let plain = none_there i low high line found in ground (arith, starts, plain)

  Unmarked-fence :
      (marker : Text) (a b : ℕ)
      → IsMarker marker
      → NoLine lines (λ line. is_fence_end line marker) a b
      → Unmarked lines marker a b
  unfolding is_fence_end
  Unmarked-fence marker a b m none_there i low high line found marks =
      let ends = starts_with-Marks marker line m marks in
      let plain = none_there i low high line found in ground (arith, ends, plain)

  IsBlock-chunk : (a b : ℕ) → IsChunk lines end_line a b → IsBlock lines end_line a b
  unfolding is_fence_end
  IsBlock-chunk a b (inl prose) = inl (
    Unmarked-prose (codes "```") a (b + 1) (inl refl) prose,
    Unmarked-prose (codes "~~~") a (b + 1) (inr refl) prose,
  )
  IsBlock-chunk a b (inr (line, found, starts, closes)) =
      let (marker, marks) = opens line starts in
      inr (
        fence_of line,
        line,
        marker,
        found,
        marks,
        elim closes [
          | inl (later, within, last, there, ends, none_between) ↦ inl (
            later,
            within,
            last,
            there,
            Marks-starts_with (fence_of line) last ends,
            Unmarked-fence (fence_of line) (a + 1) b marker none_between,
          )
          | inr (same, none_later) ↦
              inr (same, Unmarked-fence (fence_of line) (a + 1) (end_line + 1) marker none_later)
        ],
      )

  AreBlocks-tiling :
      (start : ℕ) (ranges : List Range)
      → IsTiling lines end_line start ranges
      → AreBlocks lines end_line start ranges
  AreBlocks-tiling start [] h = h
  AreBlocks-tiling start ((a, b) ∷ ranges) (same, le, chunk, rest) =
      (same, le, IsBlock-chunk a b chunk, AreBlocks-tiling (b + 1) ranges rest)

-- For every list of lines and section in it, which starts at line 1 or later and ends at most at
-- the last line: `_markdown_chunk_ranges` ends without an IndexError. Its ranges follow one another
-- from the first line of the section to the last without a gap or an overlap. Each is prose in
-- which no line begins, behind whitespace, with three backticks or three tildes; or a fenced block:
-- from a line that begins so to the first later one that begins with the same three characters, or
-- that line alone where none does in the section.
pub markdown_chunk_ranges-AreBlocks :
    (lines : List Text) (start_line end_line : ℕ)
    → 1 ≤ start_line
    → start_line ≤ end_line + 1
    → end_line ≤ length lines
    → (ranges : List Range) × (markdown_chunk_ranges lines start_line end_line ≡ some ranges)
      × AreBlocks lines end_line start_line ranges
markdown_chunk_ranges-AreBlocks lines start_line end_line a b c =
    let (ranges, done, tiles) = markdown_chunk_ranges-IsTiling lines start_line end_line a b c in
    (ranges, done, AreBlocks-tiling lines end_line start_line ranges tiles)
