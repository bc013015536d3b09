-- ===== src/Docs/Headings.antt =====
-- Headings in Markdown: MARKDOWN_HEADING_RE and _markdown_heading of src/codekg/docs.py.
use my_kg_codebase.Prelude.{
  ℕ, suc, Bool, false, not, ◌&&◌, Option, none, some, [], ◌∷◌, all, is_empty, length, if◌then◌else◌,
  leb, ◌==◌,
}
use my_kg_codebase.Prelude.Text.{Text, is_space, lstrip, strip}

abbrev pub is_hash : ℕ → Bool
is_hash c = c == b'#'

-- The run of # at the front, and what stands behind it.
unfoldable pub hashes : Text → ℕ
hashes [] = 0
hashes (c ∷ line) = let more = hashes line in if is_hash c then suc more else 0

unfoldable pub behind_hashes : Text → Text
behind_hashes [] = []
behind_hashes (c ∷ line) = let rest = behind_hashes line in if is_hash c then rest else c ∷ line

abbrev pub starts_with_space : Text → Bool
starts_with_space [] = false
starts_with_space (c ∷ line) = is_space c

-- \s*#*$ matches the whole text.
unfoldable pub closes : Text → Bool
unfolding lstrip
closes text = all is_hash (lstrip text)

-- (.+?)\s*#*$: the shortest text, of one character at least, behind which the rest matches.
unfoldable pub shortest : Text → Text
unfolding closes
shortest [] = []
shortest (c ∷ text) = let more = shortest text in if closes text then c ∷ [] else c ∷ more

-- ^(#{1,6})\s+(.+?)\s*#*$ and match.group(2).strip(). The group of # is the whole run, since
-- whitespace follows it. \s+ takes all the whitespace, or all but the last of it when nothing
-- follows: the title is then that one, which strip() takes away.
unfoldable pub markdown_heading : Text → Option (ℕ × Text)
unfolding hashes behind_hashes shortest strip is_space
markdown_heading line =
    let level = hashes line in
    let after = behind_hashes line in
    let rest = lstrip after in
    if not (leb 1 level && leb level 6)
    then none
    else if not (starts_with_space after)
    then none
    else if not (is_empty rest)
    then some (level, strip (shortest rest))
    else if leb 2 (length after)
    then some (level, [])
    else none
