-- ===== src/Lifecycle/Distinct.antt =====
-- The paths that an activation writes are different: src/codekg/graph_lifecycle.py.
use my_kg_codebase.Prelude.{
  ℕ, ◌+◌, ◌≡◌, ◌≢◌, refl, ap, ◌∙◌, Bool, false, inl, inr, [], ◌∷◌, ◌++◌, length, length-append,
  arith, Bool-cases,
}
use my_kg_codebase.Prelude.Text.{Text, codes, text_eq, text_eq_sound}
use my_kg_codebase.Lifecycle.Files.{
  FilePath, joined_parts, full_path, previous_path, temporary_path,
}

text_eq-ne : (a b : Text) → a ≢ b → text_eq a b ≡ false
text_eq-ne a b h = elim (Bool-cases (text_eq a b)) [
  | inl e ↦ absurd (h (text_eq_sound a b e))
  | inr e ↦ e
]

text_eq-length : (a b : Text) → length a ≢ length b → text_eq a b ≡ false
text_eq-length a b h = text_eq-ne a b (λ e. h (ap length e))

-- The last character, or 0
abbrev last_char : Text → ℕ
last_char [] = 0
last_char (c ∷ []) = c
last_char (c ∷ d ∷ text) = last_char (d ∷ text)

last_char-append : (xs : Text) (c : ℕ) (ys : Text) → last_char (xs ++ c ∷ ys) ≡ last_char (c ∷ ys)
last_char-append [] c ys = refl
last_char-append (x ∷ []) c ys = refl
last_char-append (x ∷ y ∷ xs) c ys = last_char-append (y ∷ xs) c ys

module _ (fails : ℕ → Bool) (random : ℕ → Text) (path : FilePath) where
  abbrev folder : Text
  folder = joined_parts path.parent

  length-full_path : length (full_path path) ≡ length folder + length path.name + 1
  length-full_path = omega (arith, length-append folder (b'/' ∷ path.name))

  length-previous_path :
      length (full_path (previous_path path)) ≡ length folder + length path.name + 10
  length-previous_path = omega (
    arith,
    length-append folder (b'/' ∷ (path.name ++ codes ".previous")),
    length-append path.name (codes ".previous"),
  )

  length-temporary_path :
      (n : ℕ)
      → length (temporary_path fails random path n)
        ≡ length folder + length path.name + length (random n) + 7
  length-temporary_path n = omega (
    arith,
    length-append folder (b'/' ∷ b'.' ∷ (path.name ++ b'.' ∷ (random n ++ codes ".tmp"))),
    length-append path.name (b'.' ∷ (random n ++ codes ".tmp")),
    length-append (random n) (codes ".tmp"),
  )

  last_char-temporary_path : (n : ℕ) → last_char (temporary_path fails random path n) ≡ b'p'
  last_char-temporary_path n =
      last_char-append folder b'/' (b'.' ∷ (path.name ++ b'.' ∷ (random n ++ codes ".tmp")))
      ∙ last_char-append (b'/' ∷ b'.' ∷ path.name) b'.' (random n ++ codes ".tmp")
      ∙ last_char-append (b'.' ∷ random n) b'.' (codes "tmp")

  last_char-previous_path : last_char (full_path (previous_path path)) ≡ b's'
  last_char-previous_path =
      last_char-append folder b'/' (path.name ++ codes ".previous")
      ∙ last_char-append (b'/' ∷ path.name) b'.' (codes "previous")

  pub path-previous_path : text_eq (full_path path) (full_path (previous_path path)) ≡ false
  path-previous_path =
      text_eq-length (full_path path) (full_path (previous_path path))
        (λ e. absurd (omega (arith, e, length-full_path, length-previous_path)))

  pub path-temporary_path :
      (n : ℕ) → text_eq (full_path path) (temporary_path fails random path n) ≡ false
  path-temporary_path n =
      text_eq-length (full_path path) (temporary_path fails random path n)
        (λ e. absurd (omega (arith, e, length-full_path, length-temporary_path n)))

  pub previous_path-temporary_path :
      (n : ℕ)
      → text_eq (full_path (previous_path path)) (temporary_path fails random path n) ≡ false
  previous_path-temporary_path n =
      text_eq-ne (full_path (previous_path path)) (temporary_path fails random path n) (λ e.
        absurd (omega (arith, ap last_char e, last_char-previous_path, last_char-temporary_path n)))

-- The active registry against the temporary file of the previous one
pub path-temporary_previous :
    (fails : ℕ → Bool) (random : ℕ → Text) (path : FilePath) (n : ℕ)
    → text_eq (full_path path) (temporary_path fails random (previous_path path) n) ≡ false
path-temporary_previous fails random path n =
    text_eq-length (full_path path) (temporary_path fails random (previous_path path) n) (λ e.
      absurd (
        omega (
          arith,
          e,
          length-full_path fails random path,
          length-temporary_path fails random (previous_path path) n,
          length-append path.name (codes ".previous"),
        )))
