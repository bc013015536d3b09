-- ===== src/Docs/Fences.antt =====
-- Where a fenced block ends: the inner loop of _markdown_chunk_ranges in src/codekg/docs.py.
use my_kg_codebase.Prelude.{
  ℕ, zero, suc, ◌+◌, ◌≤◌, ◌<◌, ◌≡◌, refl, sym, subst, Bool, true, false, ◌⊎◌, inl, inr, some, List,
  [], ◌∷◌, length, get_elem?, ◌==◌, arith, Bool-cases,
}
use my_kg_codebase.Prelude.Text.{Text}
use my_kg_codebase.Docs.Ranges.{is_fence_end, line_at, fence_end_from}

-- No line from a on and before b passes the test.
abbrev pub NoLine : List Text → (Text → Bool) → ℕ → ℕ → Type 0
NoLine lines test a b =
    (i : ℕ) → a ≤ i → i < b → (line : Text) → line_at lines i ≡ some line → test line ≡ false

get_elem?_total :
    (lines : List Text) (n : ℕ) → n < length lines → (line : Text) × (get_elem? lines n ≡ some line)
get_elem?_total [] n h = absurd (omega (arith, h))
get_elem?_total (line ∷ lines) zero h = (line, refl)
get_elem?_total (line ∷ lines) (suc n) h = get_elem?_total lines n (omega (arith, h))

pub line_at_total :
    (lines : List Text) (n : ℕ)
    → 1 ≤ n
    → n ≤ length lines
    → (line : Text) × (line_at lines n ≡ some line)
unfolding line_at
line_at_total lines zero low high = absurd (omega (arith, low))
line_at_total lines (suc n) low high = get_elem?_total lines n (omega (arith, high))

module _ (lines : List Text) (test : Text → Bool) where
  pub NoLine-empty : (a b : ℕ) → b ≤ a → NoLine lines test a b
  NoLine-empty a b h i low high line found = absurd (omega (arith, h, low, high))

  pub NoLine-first :
      (a b : ℕ) (line : Text)
      → line_at lines a ≡ some line
      → test line ≡ false
      → NoLine lines test (a + 1) b
      → NoLine lines test a b
  NoLine-first a b line found fails later i low high other there = elim (Bool-cases (a == i)) [
    | inl e ↦
        let here : a ≡ i = ground (arith, e) in
        let same : line_at lines a ≡ some other =
          subst (λ n. line_at lines n ≡ some other) (sym here) there in
        let one : line ≡ other = cc (found, same) in rw (← one) fails
    | inr e ↦ later i (ground (arith, low, e)) high other there
  ]

  pub NoLine-last :
      (a b : ℕ) (line : Text)
      → line_at lines b ≡ some line
      → test line ≡ false
      → NoLine lines test a b
      → NoLine lines test a (b + 1)
  NoLine-last a b line found fails earlier i low high other there = elim (Bool-cases (b == i)) [
    | inl e ↦
        let here : b ≡ i = ground (arith, e) in
        let same : line_at lines b ≡ some other =
          subst (λ n. line_at lines n ≡ some other) (sym here) there in
        let one : line ≡ other = cc (found, same) in rw (← one) fails
    | inr e ↦ earlier i low (ground (arith, high, e)) other there
  ]

-- What the inner loop finds among the candidates.
abbrev pub Found : List Text → Text → ℕ → ℕ → ℕ → ℕ → Type 0
Found lines fence line_no count candidate e =
    ((candidate ≤ e)
      × (e < candidate + count)
      × (last : Text) × (line_at lines e ≡ some last)
      × (is_fence_end last fence ≡ true)
      × NoLine lines (λ line. is_fence_end line fence) candidate e)
    ⊎ ((e ≡ line_no) × NoLine lines (λ line. is_fence_end line fence) candidate (candidate + count))

pub fence_end_from_total :
    (lines : List Text) (fence : Text) (line_no count candidate : ℕ)
    → 1 ≤ candidate
    → candidate + count ≤ length lines + 1
    → (e : ℕ) × (fence_end_from lines fence line_no count candidate ≡ some e)
      × Found lines fence line_no count candidate e
unfolding fence_end_from
fence_end_from_total lines fence line_no zero candidate low high = (
  line_no,
  refl,
  inr (
    refl,
    NoLine-empty lines (λ line. is_fence_end line fence) candidate (candidate + 0) (omega arith),
  ),
)
fence_end_from_total lines fence line_no (suc count) candidate low high =
    let test = λ (line : Text). is_fence_end line fence in
    let (line, found) = line_at_total lines candidate low (omega (arith, high)) in
    elim (Bool-cases (is_fence_end line fence)) [
      | inl ends ↦ (
        candidate,
        rw (fence_end_from, found, ends) refl,
        inl (
          omega arith,
          omega arith,
          line,
          found,
          ends,
          NoLine-empty lines test candidate candidate (omega arith),
        ),
      )
      | inr goes ↦
          let (e, done, what) =
            fence_end_from_total lines fence line_no count (candidate + 1) (omega arith)
              (omega (arith, high)) in
          (
            e,
            rw (fence_end_from, found, goes) done,
            elim what [
              | inl (after, before, last, there, ends, none_between) ↦ inl (
                omega (arith, after),
                omega (arith, before),
                last,
                there,
                ends,
                NoLine-first lines test candidate e line found goes none_between,
              )
              | inr (same, none_later) ↦ inr (
                same,
                NoLine-first lines test candidate (candidate + suc count) line found goes
                    (subst (λ n. NoLine lines test (candidate + 1) n) (omega arith) none_later),
              )
            ],
          )
    ]
