-- ===== src/SourceLocations.antt =====
-- Byte positions in a file: src/codekg/source_locations.py.
mod Tests
pub mod Utf8
use my_kg_codebase.Prelude.{
  ℕ, zero, suc, ◌+◌, ◌-◌, ◌≤◌, ◌<◌, min, max, ◌≡◌, refl, sym, subst, ap, ◌∙◌, Bool, true, false,
  ◌⊎◌, inl, inr, Option, none, some, List, [], ◌∷◌, length, get_elem?, if◌then◌else◌, leb, ltb,
  ◌==◌, arith, Bool-cases, Option-cases,
}

-- Python's int, as an offset can be negative.
pub data ℤ : Type 0 where
  pos : ℕ → ℤ
  negsuc : ℕ → ℤ

-- max(x, 0)
abbrev pub at_least_zero : ℤ → ℕ
at_least_zero (pos n) = n
at_least_zero (negsuc n) = 0

-- match.end() for each newline, the first character being at `at`
unfoldable pub newline_ends : ℕ → List ℕ → List ℕ
newline_ends at [] = []
newline_ends at (byte ∷ raw) =
    let rest = newline_ends (at + 1) raw in if byte == b'\n' then (at + 1) ∷ rest else rest

pub record ByteLocations : Type 0 where
  pub size : ℕ
  pub starts : List ℕ

-- ByteLocations(raw)
unfoldable pub byte_locations : List ℕ → ByteLocations
unfolding newline_ends
byte_locations raw = record { size = length raw; starts = 0 ∷ newline_ends 0 raw }

-- bisect_right(xs, x), for numbers in order: how many come before the first that is above x.
unfoldable pub bisect_right : List ℕ → ℕ → ℕ
bisect_right [] x = 0
bisect_right (e ∷ es) x = let n = bisect_right es x in if leb e x then suc n else 0

-- position(offset): the line and the column, or none for an index out of range.
unfoldable pub position : ByteLocations → ℤ → Option (ℕ × ℕ)
position locations offset =
    let within = min (at_least_zero offset) locations.size in
    let index = bisect_right locations.starts within - 1 in
    elim (get_elem? locations.starts index) [
      | none ↦ none
      | some start ↦ some (index + 1, within - start)
    ]

-- line_start(line)
unfoldable pub line_start : ByteLocations → ℕ → Option ℕ
line_start locations line =
    get_elem? locations.starts (min (line - 1) (length locations.starts - 1))

-- The position of an offset: the offset lies that many bytes behind the start of the line, and
-- before the start of the next line, where there is one.
pub record IsPosition (locations : ByteLocations) (offset : ℕ) (line column : ℕ) : Type 0 where
  pub start : ℕ
  pub starts_at : line_start locations line ≡ some start
  pub adds_up : start + column ≡ offset
  pub before_next : (next : ℕ) → get_elem? locations.starts line ≡ some next → offset < next

get_elem?-lt : (es : List ℕ) (n e : ℕ) → get_elem? es n ≡ some e → n < length es
get_elem?-lt [] n e h = absurd (ground (arith, h))
get_elem?-lt (x ∷ es) zero e h = omega arith
get_elem?-lt (x ∷ es) (suc n) e h = omega (arith, get_elem?-lt es n e h)

-- The last entry that is not above x.
bisect_right-last :
    (es : List ℕ) (x n : ℕ)
    → bisect_right es x ≡ suc n
    → (e : ℕ) × (get_elem? es n ≡ some e) × (e ≤ x)
unfolding bisect_right
bisect_right-last [] x n h = absurd (ground (arith, h))
bisect_right-last (e ∷ es) x zero h = (e, refl, ground (arith, h))
bisect_right-last (e ∷ es) x (suc n) h =
    let (d, found, below) = bisect_right-last es x n (ground (arith, h)) in (d, found, below)

bisect_right-next : (es : List ℕ) (x e : ℕ) → get_elem? es (bisect_right es x) ≡ some e → x < e
unfolding bisect_right
bisect_right-next [] x e h = absurd (ground (arith, h))
bisect_right-next (d ∷ es) x e h = elim (Bool-cases (leb d x)) [
  | inl l ↦ bisect_right-next es x e (rw l at h)
  | inr l ↦
      let same : some d ≡ some e = rw l at h in
      let there : d ≡ e = cc same in ground (arith, l, there)
]

bisect_right-starts : (es : List ℕ) (x : ℕ) → bisect_right (0 ∷ es) x ≡ suc (bisect_right es x)
unfolding bisect_right
bisect_right-starts es x = ground arith

-- raw[:n].count(b"\n")
pub newlines_before : ℕ → List ℕ → ℕ
newlines_before zero raw = 0
newlines_before (suc n) [] = 0
newlines_before (suc n) (byte ∷ raw) =
    let rest = newlines_before n raw in if byte == b'\n' then suc rest else rest

bisect_right-behind : (raw : List ℕ) (at x : ℕ) → x ≤ at → bisect_right (newline_ends at raw) x ≡ 0
unfolding bisect_right newline_ends
bisect_right-behind [] at x h = refl
bisect_right-behind (byte ∷ raw) at x h = ground (arith, bisect_right-behind raw (at + 1) x)

bisect_right-newline_ends :
    (raw : List ℕ) (at n : ℕ) → bisect_right (newline_ends at raw) (at + n) ≡ newlines_before n raw
unfolding bisect_right newline_ends newlines_before
bisect_right-newline_ends raw at zero = bisect_right-behind raw at (at + 0) (omega arith)
bisect_right-newline_ends [] at (suc n) = refl
bisect_right-newline_ends (byte ∷ raw) at (suc n) =
    let ih : bisect_right (newline_ends (at + 1) raw) (at + suc n) ≡ newlines_before n raw =
      ap (bisect_right (newline_ends (at + 1) raw)) (omega arith)
      ∙ bisect_right-newline_ends raw (at + 1) n in
    ground (arith, ih)

line_start_index :
    (locations : ByteLocations) (index start : ℕ)
    → get_elem? locations.starts index ≡ some start
    → line_start locations (index + 1) ≡ some start
unfolding line_start
line_start_index locations index start h =
    let short = get_elem?-lt locations.starts index start h in
    let same : min (index + 1 - 1) (length locations.starts - 1) ≡ index = omega (arith, short) in
    rw same h

position_at :
    (locations : ByteLocations) (offset : ℤ) (index start : ℕ)
    → bisect_right locations.starts (min (at_least_zero offset) locations.size) ≡ suc index
    → get_elem? locations.starts index ≡ some start
    → position locations offset
      ≡ some (index + 1, min (at_least_zero offset) locations.size - start)
unfolding position
position_at locations offset index start e found =
    let lower : bisect_right locations.starts (min (at_least_zero offset) locations.size) - 1
        ≡ index =
      omega (arith, e) in
    rw (lower, found, position, lower) refl

-- For every file and offset, a negative one or one past the end included: `position` has a line
-- and a column. With the offset put inside the file, the line is one more than the number of
-- newlines before it, `line_start` of that line and the column add up to it, and it lies before
-- the start of the next line.
pub position_total :
    (raw : List ℕ) (offset : ℤ)
    → (line : ℕ) × (column : ℕ) × (position (byte_locations raw) offset ≡ some (line, column))
      × (line ≡ suc (newlines_before (min (at_least_zero offset) (length raw)) raw))
      × IsPosition (byte_locations raw) (min (at_least_zero offset) (length raw)) line column
unfolding byte_locations
position_total raw offset =
    let within = min (at_least_zero offset) (length raw) in
    let locations = byte_locations raw in
    let index = bisect_right (newline_ends 0 raw) within in
    let counted : index ≡ newlines_before within raw =
      ap (bisect_right (newline_ends 0 raw)) (omega arith)
      ∙ bisect_right-newline_ends raw 0 within in
    let first = bisect_right-starts (newline_ends 0 raw) within in
    let (start, found, below) = bisect_right-last (0 ∷ newline_ends 0 raw) within index first in
    (
      index + 1,
      within - start,
      position_at locations offset index start first found,
      omega (arith, counted),
      record {
        start = start;
        starts_at = line_start_index locations index start found;
        adds_up = omega (arith, below);
        before_next = λ next h. bisect_right-next (0 ∷ newline_ends 0 raw) within next (
            subst (λ m. get_elem? (0 ∷ newline_ends 0 raw) m ≡ some next) (omega arith ∙ sym first)
              h);
      },
    )
