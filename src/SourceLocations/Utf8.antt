-- ===== src/SourceLocations/Utf8.antt =====
-- Utf8Offsets of src/codekg/source_locations.py: from characters to bytes.
use my_kg_codebase.Prelude.{
  ℕ, zero, suc, ◌+◌, ◌-◌, ◌≤◌, min, ◌≡◌, refl, ap, ◌∙◌, true, false, inl, inr, Option, none, some,
  List, [], ◌∷◌, length, get_elem?, if◌then◌else◌, ltb, arith, Bool-cases,
}
use my_kg_codebase.SourceLocations.{ℤ, at_least_zero, bisect_right}

-- len(c.encode("utf-8"))
abbrev pub utf8_size : ℕ → ℕ
utf8_size c = if ltb c 128 then 1 else if ltb c 2048 then 2 else if ltb c 65536 then 3 else 4

pub record Utf8Offsets : Type 0 where
  pub size : ℕ
  pub positions : List ℕ
  pub extra : List ℕ

-- match.end() for each character that is not ASCII, the first character being at `at`
unfoldable pub positions_from : ℕ → List ℕ → List ℕ
positions_from at [] = []
positions_from at (c ∷ source) =
    let rest = positions_from (at + 1) source in if ltb c 128 then rest else (at + 1) ∷ rest

-- The bytes beyond one for each character, up to each of them.
unfoldable pub extra_from : ℕ → List ℕ → List ℕ
extra_from extra [] = []
extra_from extra (c ∷ source) =
    let more = extra + (utf8_size c - 1) in
    let rest = extra_from more source in
    let plain = extra_from extra source in if ltb c 128 then plain else more ∷ rest

-- Utf8Offsets(source)
unfoldable pub utf8_offsets : List ℕ → Utf8Offsets
unfolding positions_from extra_from
utf8_offsets source = record {
  size = length source;
  positions = positions_from 0 source;
  extra = extra_from 0 source;
}

-- self.extra[index] if index >= 0 else 0, for the index behind the last of so many.
unfoldable pub entry_before : ℕ → List ℕ → ℕ → Option ℕ
entry_before start es zero = some start
entry_before start es (suc n) = get_elem? es n

-- byte_offset(char_offset), or none for an index out of range
unfoldable pub byte_offset : Utf8Offsets → ℤ → Option ℕ
unfolding bisect_right entry_before
byte_offset offsets char_offset =
    let within = min (at_least_zero char_offset) offsets.size in
    elim (entry_before 0 offsets.extra (bisect_right offsets.positions within)) [
      | none ↦ none
      | some extra ↦ some (within + extra)
    ]

-- The length of the first characters in bytes.
pub encoded_length : ℕ → List ℕ → ℕ
encoded_length zero source = 0
encoded_length (suc n) [] = 0
encoded_length (suc n) (c ∷ source) = utf8_size c + encoded_length n source

entry_before-cons :
    (start more : ℕ) (es : List ℕ) (n : ℕ)
    → entry_before start (more ∷ es) (suc n) ≡ entry_before more es n
unfolding entry_before
entry_before-cons start more es zero = refl
entry_before-cons start more es (suc n) = refl

none_behind : (source : List ℕ) (at x : ℕ) → x ≤ at → bisect_right (positions_from at source) x ≡ 0
unfolding bisect_right positions_from
none_behind [] at x h = refl
none_behind (c ∷ source) at x h = ground (arith, none_behind source (at + 1) x)

positions_from-ascii :
    (at c : ℕ) (source : List ℕ)
    → ltb c 128 ≡ true
    → positions_from at (c ∷ source) ≡ positions_from (at + 1) source
unfolding positions_from
positions_from-ascii at c source e = rw (e, positions_from) refl

extra_from-ascii :
    (start c : ℕ) (source : List ℕ)
    → ltb c 128 ≡ true
    → extra_from start (c ∷ source) ≡ extra_from start source
unfolding extra_from
extra_from-ascii start c source e = rw (e, extra_from) refl

positions_from-wide :
    (at c : ℕ) (source : List ℕ)
    → ltb c 128 ≡ false
    → positions_from at (c ∷ source) ≡ (at + 1) ∷ positions_from (at + 1) source
unfolding positions_from
positions_from-wide at c source e = rw (e, positions_from) refl

extra_from-wide :
    (start c : ℕ) (source : List ℕ)
    → ltb c 128 ≡ false
    → extra_from start (c ∷ source)
      ≡ (start + (utf8_size c - 1)) ∷ extra_from (start + (utf8_size c - 1)) source
unfolding extra_from
extra_from-wide start c source e = rw (e, extra_from) refl

bisect_right-first :
    (at n : ℕ) (ps : List ℕ)
    → bisect_right ((at + 1) ∷ ps) (at + suc n) ≡ suc (bisect_right ps (at + 1 + n))
unfolding bisect_right
bisect_right-first at n ps =
    let moved : bisect_right ps (at + suc n) ≡ bisect_right ps (at + 1 + n) =
      ap (bisect_right ps) (omega arith) in
    ground (arith, moved)

entry_before-encoded :
    (source : List ℕ) (at start n : ℕ)
    → n ≤ length source
    → (extra : ℕ) × (entry_before start
          (extra_from start source)
          (bisect_right (positions_from at source) (at + n))
        ≡ some extra)
      × (n + extra ≡ start + encoded_length n source)
unfolding encoded_length
entry_before-encoded source at start zero h = (
  start,
  rw (none_behind source at (at + 0) (omega arith)) (unfold entry_before in refl),
  omega arith,
)
entry_before-encoded [] at start (suc n) h = absurd (omega arith)
entry_before-encoded (c ∷ source) at start (suc n) h = elim (Bool-cases (ltb c 128)) [
  | inl e ↦
      let (extra, found, same) = entry_before-encoded source (at + 1) start n (omega (arith, h)) in
      (
        extra,
        rw (positions_from-ascii at c source e, extra_from-ascii start c source e)
            (ap
                (λ x.
                  entry_before start (extra_from start source)
                    (bisect_right (positions_from (at + 1) source) x))
                (omega arith)
              ∙ found),
        ground (arith, e, same),
      )
  | inr e ↦
      let (extra, found, same) =
        entry_before-encoded source (at + 1) (start + (utf8_size c - 1)) n (omega (arith, h)) in
      (
        extra,
        rw
            (
              positions_from-wide at c source e,
              extra_from-wide start c source e,
              bisect_right-first at n (positions_from (at + 1) source),
            )
            (entry_before-cons start (start + (utf8_size c - 1))
                (extra_from (start + (utf8_size c - 1)) source)
                (bisect_right (positions_from (at + 1) source) (at + 1 + n))
              ∙ found),
        ground (arith, e, same),
      )
]

-- The offset that the table gives, once the entry is known.
byte_offset_at :
    (offsets : Utf8Offsets) (char_offset : ℤ) (extra : ℕ)
    → entry_before 0 offsets.extra
        (bisect_right offsets.positions (min (at_least_zero char_offset) offsets.size))
      ≡ some extra
    → byte_offset offsets char_offset ≡ some (min (at_least_zero char_offset) offsets.size + extra)
unfolding byte_offset
byte_offset_at offsets char_offset extra e = rw (e, byte_offset) refl

-- For every text and offset, a negative one or one past the end included: `byte_offset` is the
-- number of bytes that the characters before the offset take in UTF-8, with the offset put inside
-- the text.
pub byte_offset-encoded_length :
    (source : List ℕ) (char_offset : ℤ)
    → byte_offset (utf8_offsets source) char_offset
      ≡ some (encoded_length (min (at_least_zero char_offset) (length source)) source)
unfolding utf8_offsets
byte_offset-encoded_length source char_offset =
    let within = min (at_least_zero char_offset) (length source) in
    let (extra, found, same) = entry_before-encoded source 0 0 within (omega arith) in
    byte_offset_at (utf8_offsets source) char_offset extra (
      ap (λ x. entry_before 0 (extra_from 0 source) (bisect_right (positions_from 0 source) x))
        (omega arith)
      ∙ found)
    ∙ ap some (omega (arith, same))
