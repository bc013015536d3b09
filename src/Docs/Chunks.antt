-- ===== src/Docs/Chunks.antt =====
-- Chunks of the Markdown files: DocChunk, the second half of _chunk_markdown_file and
-- resolve_markdown_descriptions of src/codekg/docs.py.
use my_kg_codebase.Prelude.{
  ℕ, ◌+◌, ◌-◌, Bool, Option, none, some, List, [], ◌∷◌, ◌++◌, take, drop, is_empty, any, ◌==◌,
  if◌then◌else◌,
}
use my_kg_codebase.Prelude.Text.{Text, strip, contains}
use my_kg_codebase.Prelude.Dict.{Dict, lookup, insert}
use my_kg_codebase.Docs.Ranges.{Range, markdown_chunk_ranges}
use my_kg_codebase.Docs.Sections.{Section, sections_of}
use my_kg_codebase.Docs.Mentions.{extract_mentions}

pub record DocChunk : Type 0 where
  pub path : Text
  pub heading_path : Text
  pub start_line : ℕ
  pub end_line : ℕ
  pub text : Text
  pub mentions : List Text
  pub chunk_index : ℕ

-- "\n".join(lines)
unfoldable pub join_lines : List Text → Text
join_lines [] = []
join_lines (line ∷ []) = line
join_lines (line ∷ next ∷ lines) = line ++ b'\n' ∷ join_lines (next ∷ lines)

-- lines[chunk_start - 1 : chunk_end], for a chunk that starts at line 1 or later
abbrev pub chunk_lines : List Text → ℕ → ℕ → List Text
chunk_lines lines chunk_start chunk_end =
    take (chunk_end - (chunk_start - 1)) (drop (chunk_start - 1) lines)

unfoldable pub chunk_text : List Text → ℕ → ℕ → Text
unfolding join_lines strip
chunk_text lines chunk_start chunk_end =
    strip (join_lines (chunk_lines lines chunk_start chunk_end))

-- str.splitlines() ends a line at these. A text read in text mode has no \r.
abbrev pub line_breaks : List ℕ
line_breaks = 10 ∷ 11 ∷ 12 ∷ 13 ∷ 28 ∷ 29 ∷ 30 ∷ 133 ∷ 8232 ∷ 8233 ∷ []

unfoldable pub is_line_break : ℕ → Bool
is_line_break c = any (λ b. b == c) line_breaks

abbrev pub onto_first : ℕ → List Text → List Text
onto_first c [] = (c ∷ []) ∷ []
onto_first c (line ∷ lines) = (c ∷ line) ∷ lines

-- text.splitlines()
unfoldable pub split_lines : Text → List Text
unfolding is_line_break
split_lines [] = []
split_lines (c ∷ text) =
    let lines = split_lines text in if is_line_break c then [] ∷ lines else onto_first c lines

module _ (other_word : ℕ → Bool) where
  -- DocChunk(...) for a range of lines
  abbrev pub range_chunk : Text → Text → List Text → ℕ → ℕ → ℕ → DocChunk
  range_chunk path title lines index chunk_start chunk_end =
      let text = chunk_text lines chunk_start chunk_end in
      record {
        path = path;
        heading_path = title;
        start_line = chunk_start;
        end_line = chunk_end;
        text = text;
        mentions = extract_mentions other_word text;
        chunk_index = index;
      }

  -- The chunks of a section's ranges, with the next chunk_index.
  unfoldable pub range_chunks : Text → Text → List Text → ℕ → List Range → List DocChunk × ℕ
  range_chunks path title lines index [] = ([], index)
  range_chunks path title lines index ((chunk_start, chunk_end) ∷ ranges) =
      elim (is_empty (chunk_text lines chunk_start chunk_end)) [
        | Bool.true ↦ range_chunks path title lines index ranges
        | Bool.false ↦
            let (later, next) = range_chunks path title lines (index + 1) ranges in
            (range_chunk path title lines index chunk_start chunk_end ∷ later, next)
      ]

  abbrev pub prepend_chunks : List DocChunk → Option (List DocChunk) → Option (List DocChunk)
  prepend_chunks chunks none = none
  prepend_chunks chunks (some later) = some (chunks ++ later)

  -- The loop over the sections; none is an IndexError.
  unfoldable pub section_chunks : Text → List Text → ℕ → List Section → Option (List DocChunk)
  unfolding range_chunks
  section_chunks path lines index [] = some []
  section_chunks path lines index (section ∷ sections) =
      elim (markdown_chunk_ranges lines section.start_line section.end_line) [
        | none ↦ none
        | some ranges ↦
            let (chunks, next) = range_chunks path section.heading_path lines index ranges in
            prepend_chunks chunks (section_chunks path lines next sections)
      ]

  -- _chunk_markdown_file, for what path.read_text() gives; none is an OSError.
  unfoldable pub chunk_markdown_file : Text → Text → Option Text → Option (List DocChunk)
  unfolding split_lines sections_of section_chunks
  chunk_markdown_file path name none = some []
  chunk_markdown_file path name (some text) =
      let lines = split_lines text in section_chunks path lines 0 (sections_of name lines)

-- descriptions.setdefault(qname, []).append(text)
unfoldable pub append_text : Text → Text → Dict (List Text) → Dict (List Text)
append_text qname text descriptions = elim (lookup qname descriptions) [
  | none ↦ insert qname (text ∷ []) descriptions
  | some texts ↦ insert qname (texts ++ text ∷ []) descriptions
]

unfoldable pub describe_chunk : List Text → Text → List Text → Dict (List Text) → Dict (List Text)
describe_chunk known text [] descriptions = descriptions
describe_chunk known text (qname ∷ mentions) descriptions =
    describe_chunk known text mentions
      (if contains qname known then append_text qname text descriptions else descriptions)

-- resolve_markdown_descriptions, over the chunks of the files
unfoldable pub resolve_markdown_descriptions :
    List DocChunk → List Text → Dict (List Text) → Dict (List Text)
resolve_markdown_descriptions [] known descriptions = descriptions
resolve_markdown_descriptions (chunk ∷ chunks) known descriptions =
    resolve_markdown_descriptions chunks known
      (describe_chunk known chunk.text chunk.mentions descriptions)
