-- ===== src/CsvLimits.antt =====
-- Sizes of CSV fields: src/codekg/csv_limits.py.
pub mod Written
mod Tests
use my_kg_codebase.Prelude.{
  ℕ, suc, ◌+◌, ◌*◌, Bool, not, ◌&&◌, ◌||◌, Option, none, some, List, [], ◌∷◌, any, if◌then◌else◌,
  leb, ◌==◌,
}
use mathlib.Core.Option
use my_kg_codebase.Prelude.Text.{Text}
use my_kg_codebase.SourceLocations.{ℤ, pos, negsuc}
use my_kg_codebase.SourceLocations.Utf8.{utf8_size}

-- A code point that no UTF-8 text holds
abbrev pub is_surrogate : ℕ → Bool
is_surrogate c = leb 55296 c && leb c 57343

-- len(value.encode("utf-8")), with none for a UnicodeEncodeError
unfoldable pub encoded_size : Text → Option ℕ
encoded_size [] = some 0
encoded_size (c ∷ value) =
    let rest = encoded_size value in
    if is_surrogate c then none else Option.map (λ size. utf8_size c + size) rest

-- value.count('"')
unfoldable pub quotes : Text → ℕ
quotes [] = 0
quotes (c ∷ value) = let rest = quotes value in if c == b'"' then suc rest else rest

abbrev pub breaks_field : ℕ → Bool
breaks_field c = c == b',' || c == b'\r' || c == b'\n'

-- serialized_csv_field_size_bytes, with none for a UnicodeEncodeError
unfoldable pub serialized_csv_field_size_bytes : Text → Option ℕ
unfolding encoded_size quotes
serialized_csv_field_size_bytes value =
    Option.map
      (λ encoded.
        if not (quotes value == 0) || any breaks_field value
        then encoded + quotes value + 2
        else encoded)
      (encoded_size value)

unfoldable pub max_generated_csv_field_size_bytes : ℕ
max_generated_csv_field_size_bytes = 128 * 1024 * 1024 + 4 * 1024

-- What a caller can pass: an int, or a value of another type, bool included.
pub data SizeValue : Type 0 where
  int : ℤ → SizeValue
  other : SizeValue

-- validate_csv_field_size, with none for a ValueError
unfoldable pub validate_csv_field_size : SizeValue → Option ℕ
unfolding max_generated_csv_field_size_bytes
validate_csv_field_size other = none
validate_csv_field_size (int (negsuc n)) = none
validate_csv_field_size (int (pos n)) =
    if leb n max_generated_csv_field_size_bytes then some n else none
