-- ===== src/Docs/Tests.antt =====
-- A small Markdown file, and the results at it: src/codekg/docs.py.
use my_kg_codebase.Prelude.{
  ℕ, ◌≡◌, refl, Bool, true, false, none, some, List, [], ◌∷◌, ◌++◌, all, arith, if◌then◌else◌,
}
use my_kg_codebase.Prelude.Text.{Text, codes, is_space, contains, text_eq}
use my_kg_codebase.Prelude.Dict.{lookup, insert}
use my_kg_codebase.Docs.Ranges.{
  Range, markdown_chunk_ranges, ranges_from, prose_before, prose_left, fence_end_from, line_at,
  is_fence_start, is_fence_end, fence_of,
}
use my_kg_codebase.Docs.Headings.{closes, markdown_heading}
use my_kg_codebase.Docs.Sections.{Heading, headings_from, sections_from}
use my_kg_codebase.Docs.Mentions.{extract_mentions, starts_with_letter}
use my_kg_codebase.Docs.Chunks.{
  DocChunk, split_lines, chunk_markdown_file, resolve_markdown_descriptions, describe_chunk,
  append_text,
}
use my_kg_codebase.Docs.Fenced.{AreBlocks, markdown_chunk_ranges-AreBlocks}
use my_kg_codebase.Docs.Cover.{IsCover, chunk_markdown_file-IsCover}
use my_kg_codebase.Docs.Layout.{first_line}
use my_kg_codebase.Docs.Outline.{outline, sections_from-outline}
use my_kg_codebase.Docs.Written.{IsTitle, written_heading, markdown_heading-written_heading}
use my_kg_codebase.Docs.Descriptions.{added, mentioning, lookup-resolve_markdown_descriptions}

abbrev no_word : ℕ → Bool
no_word c = false

abbrev guide_lines : List Text
guide_lines =
    codes "# Use"
    ∷ codes "Call app.run first."
    ∷ codes "```"
    ∷ codes "app.run()"
    ∷ codes "```"
    ∷ codes "## More ##"
    ∷ []

abbrev with_breaks : List Text → Text
with_breaks [] = []
with_breaks (line ∷ lines) = line ++ b'\n' ∷ with_breaks lines

abbrev guide : Text
guide = with_breaks guide_lines

abbrev heading_at : ℕ → ℕ → Text → Heading
heading_at line_no level title = record { line_no = line_no; level = level; title = title }

guide_split : split_lines guide ≡ guide_lines
unfolding split_lines
guide_split = refl

guide_headings :
    headings_from 0 guide_lines ≡ heading_at 1 1 (codes "Use") ∷ heading_at 6 2 (codes "More") ∷ []
unfolding headings_from
guide_headings = refl

guide_ranges : markdown_chunk_ranges guide_lines 1 5 ≡ some ((1, 2) ∷ (3, 5) ∷ [])
unfolding markdown_chunk_ranges ranges_from prose_before prose_left fence_end_from line_at
    is_fence_start is_fence_end fence_of
guide_ranges = refl

guide_mentions :
    extract_mentions no_word (codes "a.b, app.run(x.y9) c.d app.run 1.x")
    ≡ codes "a.b" ∷ codes "app.run" ∷ codes "x.y9" ∷ codes "c.d" ∷ []
unfolding extract_mentions starts_with_letter text_eq
guide_mentions = refl

blank_heading : markdown_heading (codes "##  ") ≡ some (2, [])
unfolding markdown_heading
blank_heading = refl

deep_heading : markdown_heading (codes "####### x") ≡ none
unfolding markdown_heading
deep_heading = refl

markdown_chunk_ranges-AreBlocks_example :
    (ranges : List Range) × (markdown_chunk_ranges guide_lines 1 5 ≡ some ranges)
    × AreBlocks guide_lines 5 1 ranges
markdown_chunk_ranges-AreBlocks_example =
    markdown_chunk_ranges-AreBlocks guide_lines 1 5 (omega arith) (omega arith) (omega arith)

chunk_markdown_file-IsCover_example :
    (chunks : List DocChunk) × (chunk_markdown_file no_word
        (codes "doc/guide.md")
        (codes "guide.md")
        (some guide)
      ≡ some chunks)
    × IsCover (split_lines guide) 0 (first_line (headings_from 0 (split_lines guide))) chunks
chunk_markdown_file-IsCover_example =
    chunk_markdown_file-IsCover no_word (codes "doc/guide.md") (codes "guide.md") guide

abbrev four_headings : List Heading
four_headings =
    heading_at 1 2 (codes "a")
    ∷ heading_at 3 1 (codes "b")
    ∷ heading_at 5 3 (codes "c")
    ∷ heading_at 9 2 (codes "d")
    ∷ []

sections_from-outline_example : sections_from 12 [] four_headings ≡ outline 12 [] four_headings
sections_from-outline_example = sections_from-outline 12 four_headings

abbrev title : Text
title = codes "C# 9"

title-IsTitle : IsTitle title
unfolding is_space
title-IsTitle = record {
  begins = refl;
  body = codes "C# ";
  final = b'9';
  split = refl;
  final_solid = refl;
  final_plain = refl;
}

blanks : all is_space (b' ' ∷ 9 ∷ []) ≡ true
unfolding is_space
blanks = refl

closing_ok : closes (codes " ##") ≡ true
unfolding closes
closing_ok = refl

markdown_heading-written_heading_example :
    markdown_heading (written_heading 3 b' ' (9 ∷ []) title (codes " ##")) ≡ some (3, title)
markdown_heading-written_heading_example =
    markdown_heading-written_heading 3 b' ' (9 ∷ []) title (codes " ##") (omega arith) (omega arith)
      blanks title-IsTitle closing_ok

abbrev chunk_of : Text → List Text → DocChunk
chunk_of text mentions = record {
  path = codes "guide.md";
  heading_path = [];
  start_line = 1;
  end_line = 1;
  text = text;
  mentions = mentions;
  chunk_index = 0;
}

abbrev two_chunks : List DocChunk
two_chunks =
    chunk_of (codes "first") (codes "a.b" ∷ codes "c.d" ∷ [])
    ∷ chunk_of (codes "second") (codes "a.b" ∷ [])
    ∷ []

both_attached :
    resolve_markdown_descriptions two_chunks (codes "a.b" ∷ []) []
    ≡ (codes "a.b", codes "first" ∷ codes "second" ∷ []) ∷ []
unfolding resolve_markdown_descriptions describe_chunk append_text lookup insert contains text_eq
both_attached = refl

lookup-resolve_markdown_descriptions_example :
    lookup (codes "a.b") (resolve_markdown_descriptions two_chunks (codes "a.b" ∷ []) [])
    ≡ added none (
        if contains (codes "a.b") (codes "a.b" ∷ [])
        then mentioning (codes "a.b") two_chunks
        else [])
lookup-resolve_markdown_descriptions_example =
    lookup-resolve_markdown_descriptions (codes "a.b" ∷ []) (codes "a.b") two_chunks
