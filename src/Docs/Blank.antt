-- ===== src/Docs/Blank.antt =====
-- Chunks without text: the strip of _chunk_markdown_file in src/codekg/docs.py.
use my_kg_codebase.Prelude.{
  ℕ, zero, suc, ◌+◌, ◌-◌, ◌≤◌, ◌<◌, ◌≡◌, refl, ap, ◌∙◌, Bool, true, not, ◌&&◌, inl, inr, some, List,
  [], ◌∷◌, ◌++◌, get_elem?, take, drop, all, is_empty, if◌then◌else◌, arith, Bool-cases, List-cases,
}
use my_kg_codebase.Prelude.Text.{Text, is_space, lstrip, rstrip, strip}
use my_kg_codebase.Docs.Ranges.{line_at}
use my_kg_codebase.Docs.Fences.{NoLine}
use my_kg_codebase.Docs.Chunks.{join_lines, chunk_lines, chunk_text}

-- The line holds a character that is not whitespace.
abbrev pub has_ink : Text → Bool
has_ink line = not (all is_space line)

rstrip-blank : (text : Text) → is_empty (rstrip text) ≡ true → all is_space text ≡ true
unfolding rstrip
rstrip-blank [] h = refl
rstrip-blank (c ∷ text) h = elim (List-cases (rstrip text)) [
  | inl e ↦
      let later = rstrip-blank text (rw e refl) in
      let same : is_empty (if is_space c then [] else c ∷ []) ≡ true = rw e at h in
      ground (arith, same, later)
  | inr (d, t, e) ↦
      let same : is_empty (c ∷ d ∷ t) ≡ true = rw e at h in absurd (ground (arith, same))
]

lstrip-blank : (text : Text) → all is_space (lstrip text) ≡ true → all is_space text ≡ true
unfolding lstrip
lstrip-blank [] h = refl
lstrip-blank (c ∷ text) h = elim (Bool-cases (is_space c)) [
  | inl e ↦ rw e (lstrip-blank text (rw e at h))
  | inr e ↦ absurd (ground (arith, h, e))
]

all-append {ℓ} :
    {A : Type ℓ} (p : A → Bool) (xs ys : List A) → all p (xs ++ ys) ≡ (all p xs && all p ys)
all-append p [] ys = refl
all-append p (x ∷ xs) ys = ground (arith, all-append p xs ys)

join_lines-blank :
    (lines : List Text) (j : ℕ) (line : Text)
    → all is_space (join_lines lines) ≡ true
    → get_elem? lines j ≡ some line
    → all is_space line ≡ true
unfolding join_lines
join_lines-blank [] j line h found = absurd (ground (arith, found))
join_lines-blank (only ∷ []) zero line h found = let same : only ≡ line = cc found in rw (← same) h
join_lines-blank (only ∷ []) (suc j) line h found = absurd (ground (arith, found))
join_lines-blank (first ∷ next ∷ lines) zero line h found =
    let same : first ≡ line = cc found in
    let split = all-append is_space first (b'\n' ∷ join_lines (next ∷ lines)) in
    rw (← same) (ground (arith, h, split))
join_lines-blank (first ∷ next ∷ lines) (suc j) line h found =
    let split = all-append is_space first (b'\n' ∷ join_lines (next ∷ lines)) in
    let rest : all is_space (join_lines (next ∷ lines)) ≡ true = ground (arith, h, split) in
    join_lines-blank (next ∷ lines) j line rest found

get_elem?-drop {ℓ} :
    {A : Type ℓ} (k j : ℕ) (xs : List A) → get_elem? (drop k xs) j ≡ get_elem? xs (k + j)
get_elem?-drop zero j xs = ap (get_elem? xs) (omega arith)
get_elem?-drop (suc k) j [] = refl
get_elem?-drop (suc k) j (x ∷ xs) =
    get_elem?-drop k j xs ∙ ap (get_elem? (x ∷ xs)) {x = suc (k + j)} (omega arith)

get_elem?-take {ℓ} :
    {A : Type ℓ} (n j : ℕ) (xs : List A) → j < n → get_elem? (take n xs) j ≡ get_elem? xs j
get_elem?-take zero j xs h = absurd (omega (arith, h))
get_elem?-take (suc n) j [] h = refl
get_elem?-take (suc n) zero (x ∷ xs) h = refl
get_elem?-take (suc n) (suc j) (x ∷ xs) h = get_elem?-take n j xs (omega (arith, h))

-- A chunk without text has blank lines only.
pub chunk_text-blank :
    (lines : List Text) (a b : ℕ)
    → is_empty (chunk_text lines a b) ≡ true
    → 1 ≤ a
    → NoLine lines has_ink a (b + 1)
unfolding chunk_text strip line_at
chunk_text-blank lines a b h low zero from upto line found = absurd (omega (arith, low, from))
chunk_text-blank lines a b h low (suc i) from upto line found =
    let text = join_lines (chunk_lines lines a b) in
    let blank : all is_space text ≡ true = lstrip-blank text (rstrip-blank (lstrip text) h) in
    let j = suc i - a in
    let there : get_elem? (chunk_lines lines a b) j ≡ some line =
      get_elem?-take (b - (a - 1)) j (drop (a - 1) lines) (omega (arith, from, upto, low))
      ∙ get_elem?-drop (a - 1) j lines
      ∙ ap (get_elem? lines) {y = i} (omega (arith, from, low))
      ∙ found in
    let inkless = join_lines-blank (chunk_lines lines a b) j line blank there in ap not inkless
