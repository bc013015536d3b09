-- ===== src/Docs/Mentions.antt =====
-- Qualified names in a text: MENTION_RE, extract_mentions and _looks_like_symbol of
-- src/codekg/docs.py. `other_word` is the class \w of re outside ASCII.
use my_kg_codebase.Prelude.{
  ℕ, zero, suc, ◌+◌, ◌-◌, Bool, true, false, not, ◌&&◌, ◌||◌, Option, none, some, List, [], ◌∷◌,
  length, take, is_empty, if◌then◌else◌, leb, ltb, ◌==◌,
}
use my_kg_codebase.Prelude.Text.{Text, codes, contains, has_text}

-- [A-Za-z_]
unfoldable pub is_letter : ℕ → Bool
is_letter c = (leb b'A' c && leb c b'Z') || (leb b'a' c && leb c b'z') || c == b'_'

-- [A-Za-z0-9_]
unfoldable pub is_letter_or_digit : ℕ → Bool
unfolding is_letter
is_letter_or_digit c = is_letter c || (leb b'0' c && leb c b'9')

-- [A-Za-z0-9_.-]
unfoldable pub is_symbol_char : ℕ → Bool
unfolding is_letter_or_digit
is_symbol_char c = is_letter_or_digit c || c == b'.' || c == b'-'

-- [A-Za-z0-9_.-]*$, where $ is the end or stands before a last newline
unfoldable pub symbol_rest : Text → Bool
unfolding is_symbol_char
symbol_rest [] = true
symbol_rest (c ∷ value) = (c == b'\n' && is_empty value) || (is_symbol_char c && symbol_rest value)

unfoldable pub matches_symbol : Text → Bool
unfolding is_letter symbol_rest
matches_symbol [] = false
matches_symbol (c ∷ value) = is_letter c && symbol_rest value

-- _looks_like_symbol
unfoldable pub looks_like_symbol : Text → Bool
unfolding has_text matches_symbol
looks_like_symbol value =
    if ltb 120 (length value)
    then false
    else if has_text (codes " ") value && not (has_text (codes ".") value)
    then false
    else matches_symbol value

-- The run of [A-Za-z0-9_] at the front, and its length.
unfoldable pub word_length : Text → ℕ
unfolding is_letter_or_digit
word_length [] = 0
word_length (c ∷ text) = let more = word_length text in if is_letter_or_digit c then suc more else 0

-- The first of two results that is there.
abbrev pub first_of : Option ℕ → Option ℕ → Option ℕ
first_of none other = other
first_of (some n) other = some n

abbrev pub longer : ℕ → Option ℕ → Option ℕ
longer least none = none
longer least (some n) = if ltb least n then some n else none

unfoldable pub starts_with_letter : Text → Bool
unfolding is_letter
starts_with_letter [] = false
starts_with_letter (c ∷ text) = is_letter c

-- The loop of extract_mentions, with the values seen.
unfoldable pub kept_mentions : List Text → List Text → List Text
unfolding looks_like_symbol contains
kept_mentions seen [] = []
kept_mentions seen (value ∷ values) =
    let skipped = kept_mentions seen values in
    let kept = kept_mentions (value ∷ seen) values in
    if not (looks_like_symbol value) || contains value seen then skipped else value ∷ kept

module _ (other_word : ℕ → Bool) where
  -- \w
  unfoldable pub is_word : ℕ → Bool
  unfolding is_letter_or_digit
  is_word c = is_letter_or_digit c || other_word c

  -- Where (?:\.[A-Za-z_][A-Za-z0-9_]*)*\b ends at the latest, for a text that goes on inside a word,
  -- `at` characters behind the start of the match. A group takes the whole of its word, since a dot
  -- or \b follows it.
  unfoldable pub follow_words : ℕ → Text → Option ℕ
  unfolding is_word is_letter
  follow_words at [] = some at
  follow_words at (c ∷ text) =
      let later = follow_words (at + 1) text in
      let here = if is_word c then none else some at in
      if is_letter_or_digit c
      then later
      else if c == b'.' && starts_with_letter text
      then first_of later here
      else here

  -- [A-Za-z_][A-Za-z0-9_]*(?:\.[A-Za-z_][A-Za-z0-9_]*)+\b at the front of the text: the length of
  -- what it matches. There is a group at least when it goes past the first word.
  unfoldable pub mention_length : Text → Option ℕ
  unfolding follow_words is_letter word_length
  mention_length [] = none
  mention_length (c ∷ text) =
      if is_letter c then longer (word_length text + 1) (follow_words 1 text) else none

  -- MENTION_RE.finditer(text): `skip` characters belong to the last match; `after_word` says
  -- whether a \w stands before the text, so that \b does not match.
  unfoldable pub mentions_from : ℕ → Bool → Text → List Text
  unfolding mention_length is_word
  mentions_from skip after_word [] = []
  mentions_from (suc skip) after_word (c ∷ text) = mentions_from skip (is_word c) text
  mentions_from zero after_word (c ∷ text) =
      let past = mentions_from 0 (is_word c) text in
      elim (if after_word then none else mention_length (c ∷ text)) [
        | none ↦ past
        | some size ↦ take size (c ∷ text) ∷ mentions_from (size - 1) (is_word c) text
      ]

  -- extract_mentions
  unfoldable pub extract_mentions : Text → List Text
  unfolding mentions_from kept_mentions
  extract_mentions text = kept_mentions [] (mentions_from 0 false text)
