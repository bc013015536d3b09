-- ===== src/Docs/Written.antt =====
-- Headings as they are written: _markdown_heading of src/codekg/docs.py reads them back.
use my_kg_codebase.Prelude.{
  ℕ, zero, suc, ◌≤◌, ◌≡◌, refl, sym, ap, ◌∙◌, subst, le→leb, true, false, inl, inr, some, [], ◌∷◌,
  ◌++◌, all, is_empty, arith, Bool-cases,
}
use my_kg_codebase.Prelude.Text.{Text, is_space, lstrip, rstrip, strip}
use my_kg_codebase.Docs.Headings.{
  is_hash, hashes, behind_hashes, starts_with_space, closes, shortest, markdown_heading,
}

-- "#" * n
abbrev pub hash_run : ℕ → Text
hash_run zero = []
hash_run (suc n) = b'#' ∷ hash_run n

-- A run of #, whitespace from `first` on, the title, and the closing sequence, which may be empty.
abbrev pub written_heading : ℕ → ℕ → Text → Text → Text → Text
written_heading level first spaces title closing =
    hash_run level ++ first ∷ (spaces ++ (title ++ closing))

-- A title that neither begins nor ends in whitespace, nor ends in #.
pub record IsTitle (title : Text) : Type 0 where
  pub begins : starts_with_space title ≡ false
  pub body : Text
  pub final : ℕ
  pub split : title ≡ body ++ final ∷ []
  pub final_solid : is_space final ≡ false
  pub final_plain : is_hash final ≡ false

space-plain : (c : ℕ) → is_space c ≡ true → is_hash c ≡ false
unfolding is_space
space-plain c h = elim (Bool-cases (is_hash c)) [
  | inl e ↦ absurd (ground (arith, h, e))
  | inr e ↦ e
]

hashes-hash_run :
    (level c : ℕ) (text : Text)
    → is_hash c ≡ false
    → (hashes (hash_run level ++ c ∷ text) ≡ level)
      × (behind_hashes (hash_run level ++ c ∷ text) ≡ c ∷ text)
unfolding hashes behind_hashes
hashes-hash_run zero c text h = (rw h refl, rw h refl)
hashes-hash_run (suc level) c text h =
    let (count, left) = hashes-hash_run level c text h in (rw count refl, left)

pub lstrip-spaces :
    (spaces text : Text) → all is_space spaces ≡ true → lstrip (spaces ++ text) ≡ lstrip text
unfolding lstrip
lstrip-spaces [] text h = refl
lstrip-spaces (c ∷ spaces) text h =
    let first : is_space c ≡ true = ground (arith, h) in
    rw first (lstrip-spaces spaces text (ground (arith, h, first)))

lstrip-solid : (text : Text) → starts_with_space text ≡ false → lstrip text ≡ text
unfolding lstrip
lstrip-solid [] h = refl
lstrip-solid (c ∷ text) h = rw h refl

module _ (d : ℕ) (solid : is_space d ≡ false) where
  starts_with_space-append :
      (body tail : Text)
      → starts_with_space (body ++ d ∷ []) ≡ starts_with_space ((body ++ d ∷ []) ++ tail)
  starts_with_space-append [] tail = refl
  starts_with_space-append (c ∷ body) tail = refl

  rstrip-solid : (body : Text) → rstrip (body ++ d ∷ []) ≡ body ++ d ∷ []
  unfolding rstrip
  rstrip-solid [] = rw solid refl
  rstrip-solid (c ∷ []) = rw (solid, rstrip) refl
  rstrip-solid (c ∷ e ∷ body) = rw (rstrip-solid (e ∷ body)) refl

  module _ (plain : is_hash d ≡ false) where
    all-plain : (body tail : Text) → all is_hash ((body ++ d ∷ []) ++ tail) ≡ false
    all-plain [] tail = rw plain refl
    all-plain (c ∷ body) tail = ground (arith, all-plain body tail)

    closes-plain : (body tail : Text) → closes ((body ++ d ∷ []) ++ tail) ≡ false
    unfolding closes lstrip
    closes-plain [] tail = rw (solid, plain) refl
    closes-plain (c ∷ body) tail = ground (arith, all-plain (c ∷ body) tail, closes-plain body tail)

    shortest-title :
        (body tail : Text)
        → closes tail ≡ true
        → shortest ((body ++ d ∷ []) ++ tail) ≡ body ++ d ∷ []
    unfolding shortest
    shortest-title [] tail h = rw h refl
    shortest-title (c ∷ body) tail h = rw (closes-plain body tail, shortest-title body tail h) refl

-- What the pattern makes of a title with its closing sequence.
abbrev IsRead : Text → Text → Type 0
IsRead title closing =
    (lstrip (title ++ closing) ≡ title ++ closing)
    × (is_empty (title ++ closing) ≡ false)
    × (shortest (title ++ closing) ≡ title)
    × (strip title ≡ title)

title-IsRead :
    (body : Text) (d : ℕ) (closing : Text)
    → is_space d ≡ false
    → is_hash d ≡ false
    → starts_with_space (body ++ d ∷ []) ≡ false
    → closes closing ≡ true
    → IsRead (body ++ d ∷ []) closing
unfolding strip
title-IsRead body d closing solid plain begins closed = (
  lstrip-solid ((body ++ d ∷ []) ++ closing)
      (sym (starts_with_space-append d solid body closing) ∙ begins),
  nonempty body d closing,
  shortest-title d solid plain body closing closed,
  ap rstrip (lstrip-solid (body ++ d ∷ []) begins) ∙ rstrip-solid d solid body,
)
  where
    nonempty : (body : Text) (d : ℕ) (tail : Text) → is_empty ((body ++ d ∷ []) ++ tail) ≡ false
    nonempty [] d tail = refl
    nonempty (c ∷ body) d tail = refl

IsTitle-IsRead :
    {title : Text} (closing : Text) → IsTitle title → closes closing ≡ true → IsRead title closing
IsTitle-IsRead {title} closing t closed =
    subst (λ text. IsRead text closing) (sym t.split)
      (title-IsRead t.body t.final closing t.final_solid t.final_plain
        (subst (λ text. starts_with_space text ≡ false) t.split t.begins) closed)

read_heading :
    (line after rest : Text) (level : ℕ)
    → 1 ≤ level
    → level ≤ 6
    → hashes line ≡ level
    → behind_hashes line ≡ after
    → starts_with_space after ≡ true
    → lstrip after ≡ rest
    → is_empty rest ≡ false
    → markdown_heading line ≡ some (level, strip (shortest rest))
unfolding markdown_heading
read_heading line after rest level low high counted left spaced stripped full =
    rw (counted, left, spaced, stripped, full, le→leb 1 level low, le→leb level 6 high) refl

-- A heading of level 1 to 6, with any whitespace behind the #, a title that neither begins nor ends
-- in whitespace nor ends in #, and behind it nothing or any text of whitespace and then #, is
-- read back as this level and this title.
pub markdown_heading-written_heading :
    (level first : ℕ) (spaces title closing : Text)
    → 1 ≤ level
    → level ≤ 6
    → all is_space (first ∷ spaces) ≡ true
    → IsTitle title
    → closes closing ≡ true
    → markdown_heading (written_heading level first spaces title closing) ≡ some (level, title)
markdown_heading-written_heading level first spaces title closing low high blank t closed =
    let space : is_space first ≡ true = ground (arith, blank) in
    let text = spaces ++ (title ++ closing) in
    let (counted, left) = hashes-hash_run level first text (space-plain first space) in
    let (solid, full, short, bare) = IsTitle-IsRead closing t closed in
    let stripped = lstrip-spaces (first ∷ spaces) (title ++ closing) blank ∙ solid in
    read_heading (written_heading level first spaces title closing) (first ∷ text)
      (title ++ closing) level low high counted left space stripped full
    ∙ ap (λ read. some (level, read)) (ap strip short ∙ bare)
