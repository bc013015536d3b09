-- ===== src/Docs/Sections.antt =====
-- The sections of a Markdown file: the first half of _chunk_markdown_file in src/codekg/docs.py.
use my_kg_codebase.Prelude.{
  ℕ, ◌+◌, ◌-◌, none, some, List, [], ◌∷◌, ◌++◌, length, if◌then◌else◌, leb, is_empty,
}
use my_kg_codebase.Prelude.Text.{Text, codes}
use my_kg_codebase.Docs.Headings.{markdown_heading}

-- (index + 1, level, title)
pub record Heading : Type 0 where
  pub line_no : ℕ
  pub level : ℕ
  pub title : Text

-- for index, _line in enumerate(lines)
unfoldable pub headings_from : ℕ → List Text → List Heading
unfolding markdown_heading
headings_from index [] = []
headings_from index (line ∷ lines) =
    let later = headings_from (index + 1) lines in
    elim (markdown_heading line) [
      | none ↦ later
      | some (level, title) ↦ record { line_no = index + 1; level = level; title = title } ∷ later
    ]

-- while stack and stack[-1][0] >= level: stack.pop(). The top of the stack comes first, and a
-- heading keeps its line there, which nothing reads.
unfoldable pub pop_closed : ℕ → List Heading → List Heading
pop_closed level [] = []
pop_closed level (top ∷ stack) =
    let below = pop_closed level stack in if leb level top.level then below else top ∷ stack

-- " > ".join(item[1] for item in stack), from the bottom of the stack to its top
unfoldable pub heading_path : List Heading → Text
heading_path [] = []
heading_path (top ∷ []) = top.title
heading_path (top ∷ next ∷ stack) = heading_path (next ∷ stack) ++ codes " > " ++ top.title

pub record Section : Type 0 where
  pub heading_path : Text
  pub start_line : ℕ
  pub end_line : ℕ

-- next_line, for the headings that follow
unfoldable pub last_line : ℕ → List Heading → ℕ
last_line count [] = count
last_line count (next ∷ headings) = next.line_no - 1

-- The loop over the headings, in a file of `count` lines.
unfoldable pub sections_from : ℕ → List Heading → List Heading → List Section
unfolding pop_closed heading_path last_line
sections_from count stack [] = []
sections_from count stack (heading ∷ headings) =
    let open_headings = heading ∷ pop_closed heading.level stack in
    record {
      heading_path = heading_path open_headings;
      start_line = heading.line_no;
      end_line = last_line count headings;
    }
    ∷ sections_from count open_headings headings

unfoldable pub sections_of : Text → List Text → List Section
unfolding headings_from sections_from
sections_of name lines =
    if is_empty (headings_from 0 lines)
    then record { heading_path = name; start_line = 1; end_line = length lines } ∷ []
    else sections_from (length lines) [] (headings_from 0 lines)
