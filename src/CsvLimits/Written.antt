-- ===== src/CsvLimits/Written.antt =====
-- The size of a CSV field against what csv.writer writes for it: src/codekg/csv_limits.py.
use my_kg_codebase.Prelude.{
  ℕ, ◌+◌, ◌≤◌, ◌≡◌, refl, sym, subst, Bool, true, false, not, ◌||◌, ◌⊎◌, inl, inr, none, some, [],
  ◌∷◌, ◌++◌, any, if◌then◌else◌, ◌==◌, arith, Bool-cases,
}
use my_kg_codebase.Prelude.Text.{Text}
use my_kg_codebase.Prelude.Occurs.{Occurs}
use my_kg_codebase.SourceLocations.Utf8.{utf8_size}
use my_kg_codebase.CsvLimits.{
  is_surrogate, encoded_size, quotes, breaks_field, serialized_csv_field_size_bytes,
}

-- The field as csv.writer writes it with doublequote: in quotes with each quote in it doubled, or as
-- it is.
doubled : Text → Text
doubled [] = []
doubled (c ∷ value) = let rest = doubled value in if c == b'"' then b'"' ∷ b'"' ∷ rest else c ∷ rest

pub written_field : Bool → Text → Text
written_field true value = b'"' ∷ (doubled value ++ b'"' ∷ [])
written_field false value = value

-- Which fields of a row of several csv.writer puts in quotes, with QUOTE_MINIMAL, the comma as
-- delimiter and the line feed as line terminator: all that hold a quote, a comma or a line feed, and
-- no others but, as its versions differ, some that hold a carriage return.
pub record IsMinimal (quoted : Text → Bool) : Type 0 where
  pub special :
      (value : Text)
      → Occurs b'"' value ⊎ Occurs b',' value ⊎ Occurs b'\n' value
      → quoted value ≡ true
  pub plain :
      (value : Text)
      → quoted value ≡ true
      → Occurs b'"' value ⊎ Occurs b',' value ⊎ Occurs b'\n' value ⊎ Occurs b'\r' value

-- The size in bytes of a text that can be encoded
pub bytes : Text → ℕ
bytes [] = 0
bytes (c ∷ value) = utf8_size c + bytes value

abbrev IsSpecial : Text → Type 0
IsSpecial value = Occurs b'"' value ⊎ Occurs b',' value ⊎ Occurs b'\n' value ⊎ Occurs b'\r' value

-- The test that the source makes
abbrev tested : Text → Bool
tested value = not (quotes value == 0) || any breaks_field value

quotes-Occurs : (value : Text) → (quotes value ≡ 0) ⊎ Occurs b'"' value
unfolding quotes
quotes-Occurs [] = inl refl
quotes-Occurs (c ∷ value) = elim (Bool-cases (c == b'"')) [
  | inl e ↦ inr (inl (ground (arith, e)))
  | inr e ↦ elim (quotes-Occurs value) [
    | inl none_there ↦ inl (rw e none_there)
    | inr there ↦ inr (inr there)
  ]
]

Occurs-quotes : (value : Text) → Occurs b'"' value → (quotes value == 0) ≡ false
unfolding quotes
Occurs-quotes [] o = absurd o
Occurs-quotes (c ∷ value) (inl e) = ground (arith, e)
Occurs-quotes (c ∷ value) (inr o) = ground (arith, Occurs-quotes value o)

breaks-Occurs :
    (value : Text)
    → any breaks_field value ≡ true
    → Occurs b',' value ⊎ Occurs b'\n' value ⊎ Occurs b'\r' value
breaks-Occurs [] h = absurd (ground (arith, h))
breaks-Occurs (c ∷ value) h = elim (Bool-cases (c == b',')) [
  | inl e ↦ inl (inl (ground (arith, e)))
  | inr a ↦ elim (Bool-cases (c == b'\n')) [
    | inl e ↦ inr (inl (inl (ground (arith, e))))
    | inr b ↦ elim (Bool-cases (c == b'\r')) [
      | inl e ↦ inr (inr (inl (ground (arith, e))))
      | inr d ↦ elim (breaks-Occurs value (ground (arith, h, a, b, d))) [
        | inl o ↦ inl (inr o)
        | inr (inl o) ↦ inr (inl (inr o))
        | inr (inr o) ↦ inr (inr (inr o))
      ]
    ]
  ]
]

Occurs-breaks :
    (c : ℕ) (value : Text) → breaks_field c ≡ true → Occurs c value → any breaks_field value ≡ true
Occurs-breaks c [] h o = absurd o
Occurs-breaks c (d ∷ value) h (inl e) =
    let here : breaks_field d ≡ true = subst (λ x. breaks_field x ≡ true) e h in
    ground (arith, here)
Occurs-breaks c (d ∷ value) h (inr o) =
    let later = Occurs-breaks c value h o in ground (arith, later)

special-tested : (value : Text) → IsSpecial value → tested value ≡ true
special-tested value (inl o) = let some_quote = Occurs-quotes value o in ground (arith, some_quote)
special-tested value (inr (inl o)) =
    let found = Occurs-breaks b',' value refl o in ground (arith, found)
special-tested value (inr (inr (inl o))) =
    let found = Occurs-breaks b'\n' value refl o in ground (arith, found)
special-tested value (inr (inr (inr o))) =
    let found = Occurs-breaks b'\r' value refl o in ground (arith, found)

bytes-doubled : (value : Text) → bytes (doubled value ++ b'"' ∷ []) ≡ bytes value + quotes value + 1
unfolding bytes doubled quotes
bytes-doubled [] = refl
bytes-doubled (c ∷ value) = ground (arith, bytes-doubled value)

bytes-quoted : (value : Text) → bytes (written_field true value) ≡ bytes value + quotes value + 2
unfolding written_field bytes
bytes-quoted value = let size = bytes-doubled value in ground (arith, size)

-- The text cannot be encoded, or it can, and takes as many bytes as its characters.
encoded_size-bytes :
    (value : Text)
    → (((c : ℕ) × Occurs c value × (55296 ≤ c) × (c ≤ 57343)) × (encoded_size value ≡ none))
      ⊎ (encoded_size value ≡ some (bytes value))
unfolding encoded_size bytes
encoded_size-bytes [] = inr refl
encoded_size-bytes (c ∷ value) = elim (Bool-cases (is_surrogate c)) [
  | inl e ↦ inl ((c, inl refl, ground (arith, e), ground (arith, e)), rw e refl)
  | inr e ↦ elim (encoded_size-bytes value) [
    | inl ((d, there, low, high), fails) ↦ inl ((d, inr there, low, high), rw (e, fails) refl)
    | inr size ↦ inr (rw (e, size) refl)
  ]
]

serialized-bytes :
    (value : Text)
    → encoded_size value ≡ some (bytes value)
    → serialized_csv_field_size_bytes value
      ≡ some (if tested value then bytes value + quotes value + 2 else bytes value)
unfolding serialized_csv_field_size_bytes
serialized-bytes value e = rw e refl

-- The size is that of what is written, or two more for a carriage return that is written as it is.
abbrev pub IsSizeOf : Text → Bool → ℕ → Type 0
IsSizeOf value quoted size =
    (size ≡ bytes (written_field quoted value))
    ⊎ (Occurs b'\r' value × (quoted ≡ false) × (size ≡ bytes (written_field quoted value) + 2))

module _ (quoted : Text → Bool) (minimal : IsMinimal quoted) (value : Text) where
  size_unquoted :
      tested value ≡ true
      → quoted value ≡ false
      → IsSizeOf value false (bytes value + quotes value + 2)
  unfolding written_field
  size_unquoted t q =
      let never = λ (h : Occurs b'"' value ⊎ Occurs b',' value ⊎ Occurs b'\n' value).
        minimal.special value h in
      elim (quotes-Occurs value) [
        | inr o ↦ let wrong = never (inl o) in absurd (ground (arith, q, wrong))
        | inl zero_quotes ↦ elim (breaks-Occurs value (ground (arith, t, zero_quotes))) [
          | inl o ↦ let wrong = never (inr (inl o)) in absurd (ground (arith, q, wrong))
          | inr (inl o) ↦ let wrong = never (inr (inr o)) in absurd (ground (arith, q, wrong))
          | inr (inr o) ↦ inr (o, refl, omega (arith, zero_quotes))
        ]
      ]

  size_tested :
      IsSizeOf value
        (quoted value)
        (if tested value then bytes value + quotes value + 2 else bytes value)
  size_tested = elim (Bool-cases (tested value)) [
    | inl t ↦ elim (Bool-cases (quoted value)) [
      | inl q ↦ rw (t, q) (inl (sym (bytes-quoted value)))
      | inr q ↦ rw (t, q) (size_unquoted t q)
    ]
    | inr t ↦ elim (Bool-cases (quoted value)) [
      | inl q ↦
          let special = special-tested value (minimal.plain value q) in
          absurd (ground (arith, t, special))
      | inr q ↦ rw (t, q) (inl (unfold written_field in refl))
    ]
  ]

-- Whichever fields that hold a carriage return csv.writer puts in quotes, for every text: either
-- it holds a surrogate, and `serialized_csv_field_size_bytes` raises the UnicodeEncodeError; or it
-- returns the number of bytes of the field as csv.writer writes it with minimal quoting in a row
-- of several, save that it counts two bytes too many where a carriage return in the text does
-- not make csv.writer put it in quotes.
pub serialized_csv_field_size_bytes-written :
    (quoted : Text → Bool) (value : Text)
    → IsMinimal quoted
    → (((c : ℕ) × Occurs c value × (55296 ≤ c) × (c ≤ 57343))
        × (serialized_csv_field_size_bytes value ≡ none))
      ⊎ ((size : ℕ) × (serialized_csv_field_size_bytes value ≡ some size)
          × IsSizeOf value (quoted value) size)
serialized_csv_field_size_bytes-written quoted value minimal = elim (encoded_size-bytes value) [
  | inl (held, fails) ↦ inl (held, unfold serialized_csv_field_size_bytes in rw fails refl)
  | inr e ↦ inr (
    (if tested value then bytes value + quotes value + 2 else bytes value),
    serialized-bytes value e,
    size_tested quoted minimal value,
  )
]
