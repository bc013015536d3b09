-- ===== src/CsvLimits/Tests.antt =====
-- Sizes of small CSV fields: src/codekg/csv_limits.py.
use my_kg_codebase.Prelude.{
  ℕ, ◌≤◌, ◌≡◌, refl, subst, Bool, true, ◌||◌, ◌⊎◌, inl, inr, none, some, [], ◌∷◌, any, ◌==◌, arith,
  Bool-cases,
}
use my_kg_codebase.Prelude.Occurs.{Occurs}
use my_kg_codebase.Prelude.Text.{Text}
use my_kg_codebase.SourceLocations.{pos, negsuc}
use my_kg_codebase.CsvLimits.{serialized_csv_field_size_bytes, validate_csv_field_size, int}
use my_kg_codebase.CsvLimits.Written.{IsMinimal, IsSizeOf, serialized_csv_field_size_bytes-written}

-- a"b,
abbrev awkward : Text
awkward = b'a' ∷ b'"' ∷ b'b' ∷ b',' ∷ []

awkward_size : serialized_csv_field_size_bytes awkward ≡ some 7
unfolding serialized_csv_field_size_bytes
awkward_size = refl

negative_size : validate_csv_field_size (int (negsuc 0)) ≡ none
unfolding validate_csv_field_size
negative_size = refl

small_size : validate_csv_field_size (int (pos 10)) ≡ some 10
unfolding validate_csv_field_size
small_size = refl

-- A lone surrogate
abbrev lone : Text
lone = 55296 ∷ []

lone_size : serialized_csv_field_size_bytes lone ≡ none
unfolding serialized_csv_field_size_bytes
lone_size = refl

-- A writer that leaves a carriage return unquoted
abbrev plain_returns : Text → Bool
plain_returns value = any (λ c. c == b'"' || c == b',' || c == b'\n') value

plain_returns_quotes :
    (c : ℕ) (value : Text)
    → (c == b'"' || c == b',' || c == b'\n') ≡ true
    → Occurs c value
    → plain_returns value ≡ true
plain_returns_quotes c [] h o = absurd o
plain_returns_quotes c (d ∷ value) h (inl e) =
    let here = subst (λ x. (x == b'"' || x == b',' || x == b'\n') ≡ true) e h in
    ground (arith, here)
plain_returns_quotes c (d ∷ value) h (inr o) =
    let later = plain_returns_quotes c value h o in ground (arith, later)

plain_returns_only :
    (value : Text)
    → plain_returns value ≡ true
    → Occurs b'"' value ⊎ Occurs b',' value ⊎ Occurs b'\n' value ⊎ Occurs b'\r' value
plain_returns_only [] h = absurd (ground (arith, h))
plain_returns_only (c ∷ value) h = elim (Bool-cases (c == b'"')) [
  | inl e ↦ inl (inl (ground (arith, e)))
  | inr a ↦ elim (Bool-cases (c == b',')) [
    | inl e ↦ inr (inl (inl (ground (arith, e))))
    | inr b ↦ elim (Bool-cases (c == b'\n')) [
      | inl e ↦ inr (inr (inl (inl (ground (arith, e)))))
      | inr d ↦ elim (plain_returns_only value (ground (arith, h, a, b, d))) [
        | inl o ↦ inl (inr o)
        | inr (inl o) ↦ inr (inl (inr o))
        | inr (inr (inl o)) ↦ inr (inr (inl (inr o)))
        | inr (inr (inr o)) ↦ inr (inr (inr (inr o)))
      ]
    ]
  ]
]

plain_returns-IsMinimal : IsMinimal plain_returns
plain_returns-IsMinimal = record {
  special = λ value h. elim h [
    | inl o ↦ plain_returns_quotes b'"' value refl o
    | inr (inl o) ↦ plain_returns_quotes b',' value refl o
    | inr (inr o) ↦ plain_returns_quotes b'\n' value refl o
  ];
  plain = plain_returns_only;
}

serialized_csv_field_size_bytes-written_example :
    (((c : ℕ) × Occurs c awkward × (55296 ≤ c) × (c ≤ 57343))
      × (serialized_csv_field_size_bytes awkward ≡ none))
    ⊎ ((size : ℕ) × (serialized_csv_field_size_bytes awkward ≡ some size)
        × IsSizeOf awkward (plain_returns awkward) size)
serialized_csv_field_size_bytes-written_example =
    serialized_csv_field_size_bytes-written plain_returns awkward plain_returns-IsMinimal
