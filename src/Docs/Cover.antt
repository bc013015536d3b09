-- ===== src/Docs/Cover.antt =====
-- The chunks of a file cover it: _chunk_markdown_file of src/codekg/docs.py.
use my_kg_codebase.Prelude.{
  ℕ, ◌+◌, ◌≤◌, ◌≡◌, refl, sym, subst, ap, Bool, false, inl, inr, some, List, [], ◌∷◌, ◌++◌, length,
  is_empty, ltb, arith, Bool-cases,
}
use my_kg_codebase.Prelude.Text.{Text}
use my_kg_codebase.Docs.Ranges.{Range}
use my_kg_codebase.Docs.Fences.{NoLine}
use my_kg_codebase.Docs.Tiling.{IsTiling, markdown_chunk_ranges-IsTiling}
use my_kg_codebase.Docs.Sections.{Section, headings_from, sections_of}
use my_kg_codebase.Docs.Chunks.{
  DocChunk, range_chunk, chunk_text, split_lines, range_chunks, section_chunks, chunk_markdown_file,
}
use my_kg_codebase.Docs.Blank.{has_ink, chunk_text-blank}
use my_kg_codebase.Docs.Layout.{AreSections, first_line, sections_of-AreSections}

-- The chunks from `index` on, for the lines from `start` on: a chunk's text is that of its lines,
-- stripped, and not empty; the chunks follow one another; what lies before, between and behind
-- them is blank.
abbrev pub IsCover : List Text → ℕ → ℕ → List DocChunk → Type 0
IsCover lines index start [] = NoLine lines has_ink start (length lines + 1)
IsCover lines index start (chunk ∷ chunks) =
    (start ≤ chunk.start_line)
    × NoLine lines has_ink start chunk.start_line
    × (chunk.start_line ≤ chunk.end_line)
    × (chunk.end_line ≤ length lines)
    × (chunk.text ≡ chunk_text lines chunk.start_line chunk.end_line)
    × (is_empty chunk.text ≡ false)
    × (chunk.chunk_index ≡ index)
    × IsCover lines (index + 1) (chunk.end_line + 1) chunks

module _ (lines : List Text) where
  NoLine-join :
      (a b c : ℕ) → NoLine lines has_ink a b → NoLine lines has_ink b c → NoLine lines has_ink a c
  NoLine-join a b c first later i low high line found = elim (Bool-cases (ltb i b)) [
    | inl e ↦ first i low (ground (arith, e)) line found
    | inr e ↦ later i (ground (arith, e)) high line found
  ]

  IsCover-blank :
      (index a b : ℕ) (chunks : List DocChunk)
      → a ≤ b
      → NoLine lines has_ink a b
      → IsCover lines index b chunks
      → IsCover lines index a chunks
  IsCover-blank index a b [] h blank rest = NoLine-join a b (length lines + 1) blank rest
  IsCover-blank index a b (chunk ∷ chunks) h blank
        (low, none_between, le, high, same, full, count, rest) =
      (
        omega (arith, h, low),
        NoLine-join a b chunk.start_line blank none_between,
        le,
        high,
        same,
        full,
        count,
        rest,
      )

  IsTiling-le :
      (end_line start : ℕ) (ranges : List Range)
      → IsTiling lines end_line start ranges
      → start ≤ end_line + 1
  IsTiling-le end_line start [] h = omega (arith, h)
  IsTiling-le end_line start ((a, b) ∷ ranges) (same, le, chunk, rest) =
      omega (arith, same, le, IsTiling-le end_line (b + 1) ranges rest)

  module _ (other_word : ℕ → Bool) (path title : Text) where
    range_chunks-IsCover :
        (end_line index start : ℕ) (ranges : List Range)
        → end_line ≤ length lines
        → 1 ≤ start
        → IsTiling lines end_line start ranges
        → (chunks : List DocChunk) × (next : ℕ) × (range_chunks other_word path title lines index
              ranges
            ≡ (chunks, next))
          × ((later : List DocChunk)
              → IsCover lines next (end_line + 1) later
              → IsCover lines index start (chunks ++ later))
    unfolding range_chunks
    range_chunks-IsCover end_line index start [] high low tiles =
        ([], index, refl, λ later rest. subst (λ n. IsCover lines index n later) (sym tiles) rest)
    range_chunks-IsCover end_line index start ((a, b) ∷ ranges) high low (same, le, chunk, tiles) =
        let bound = IsTiling-le end_line (b + 1) ranges tiles in
        elim (Bool-cases (is_empty (chunk_text lines a b))) [
          | inl blank ↦
              let (chunks, next, made, covers) =
                range_chunks-IsCover end_line index (b + 1) ranges high (omega arith) tiles in
              let inkless = chunk_text-blank lines a b blank (omega (arith, low, same)) in
              (
                chunks,
                next,
                rw (range_chunks, blank) made,
                λ later rest.
                    subst (λ n. IsCover lines index n (chunks ++ later)) same
                      (IsCover-blank index a (b + 1) (chunks ++ later) (omega (arith, le)) inkless
                        (covers later rest)),
              )
          | inr full ↦
              let (chunks, next, made, covers) =
                range_chunks-IsCover end_line (index + 1) (b + 1) ranges high (omega arith) tiles in
              (
                range_chunk other_word path title lines index a b ∷ chunks,
                next,
                rw (range_chunks, full)
                    (ap (λ r. (range_chunk other_word path title lines index a b ∷ r.0, r.1)) made),
                λ later rest. (
                  omega (arith, same),
                  λ i from upto. absurd (omega (arith, from, upto, same)),
                  le,
                  omega (arith, bound, high),
                  refl,
                  full,
                  refl,
                  covers later rest,
                ),
              )
        ]

module _ (other_word : ℕ → Bool) (path : Text) (lines : List Text) where
  section_chunks-IsCover :
      (index start : ℕ) (sections : List Section)
      → 1 ≤ start
      → AreSections (length lines) start sections
      → (chunks : List DocChunk) × (section_chunks other_word path lines index sections
          ≡ some chunks)
        × IsCover lines index start chunks
  unfolding section_chunks
  section_chunks-IsCover index start [] low h =
      ([], refl, λ i from upto. absurd (omega (arith, from, upto, h)))
  section_chunks-IsCover index start (section ∷ sections) low (same, le, high, rest) =
      let (ranges, split, tiles) =
        markdown_chunk_ranges-IsTiling lines section.start_line section.end_line
          (omega (arith, low, same)) (omega (arith, le, same)) high in
      let (chunks, next, made, covers) =
        range_chunks-IsCover lines other_word path section.heading_path section.end_line index
          section.start_line ranges high (omega (arith, low, same)) tiles in
      let (later, done, covered) =
        section_chunks-IsCover next (section.end_line + 1) sections (omega arith) rest in
      (
        chunks ++ later,
        rw (section_chunks, split, made, done) refl,
        subst (λ n. IsCover lines index n (chunks ++ later)) same (covers later covered),
      )

-- For every file that could be read, `_chunk_markdown_file` ends without an IndexError. Its chunks
-- are numbered from 0 on; each holds the text of its lines, stripped, which is not empty; they
-- follow one another without an overlap; and every line that is in none of them is blank, from the
-- first heading on, or in the whole file where there is no heading.
pub chunk_markdown_file-IsCover :
    (other_word : ℕ → Bool) (path name text : Text)
    → (chunks : List DocChunk) × (chunk_markdown_file other_word path name (some text)
        ≡ some chunks)
      × IsCover (split_lines text) 0 (first_line (headings_from 0 (split_lines text))) chunks
unfolding chunk_markdown_file
chunk_markdown_file-IsCover other_word path name text =
    let lines = split_lines text in
    let (low, sections) = sections_of-AreSections name lines in
    section_chunks-IsCover other_word path lines 0 (first_line (headings_from 0 lines))
      (sections_of name lines) low sections
