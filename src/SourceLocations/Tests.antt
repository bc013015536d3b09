-- ===== src/SourceLocations/Tests.antt =====
-- Positions in a small file: src/codekg/source_locations.py.
use my_kg_codebase.Prelude.{ℕ, suc, min, ◌≡◌, refl, some, List, [], ◌∷◌, length}
use my_kg_codebase.SourceLocations.Utf8.{
  utf8_offsets, byte_offset, encoded_length, byte_offset-encoded_length,
}
use my_kg_codebase.SourceLocations.{
  pos, negsuc, at_least_zero, byte_locations, position, bisect_right, line_start, newlines_before,
  IsPosition, position_total,
}

-- "ab\nc\n"
abbrev two_lines : List ℕ
two_lines = b'a' ∷ b'b' ∷ b'\n' ∷ b'c' ∷ b'\n' ∷ []

position_of_c : position (byte_locations two_lines) (pos 3) ≡ some (2, 0)
unfolding position byte_locations bisect_right
position_of_c = refl

position_before_file : position (byte_locations two_lines) (negsuc 6) ≡ some (1, 0)
unfolding position byte_locations bisect_right
position_before_file = refl

line_start_past_end : line_start (byte_locations two_lines) 9 ≡ some 5
unfolding line_start byte_locations
line_start_past_end = refl

position_total_example :
    (line : ℕ) × (column : ℕ) × (position (byte_locations two_lines) (pos 4) ≡ some (line, column))
    × (line ≡ suc (newlines_before (min (at_least_zero (pos 4)) (length two_lines)) two_lines))
    × IsPosition
        (byte_locations two_lines)
        (min (at_least_zero (pos 4)) (length two_lines))
        line
        column
position_total_example = position_total two_lines (pos 4)

-- "aéb": the second character takes two bytes.
abbrev accented : List ℕ
accented = b'a' ∷ 233 ∷ b'b' ∷ []

byte_offset_of_b : byte_offset (utf8_offsets accented) (pos 2) ≡ some 3
unfolding byte_offset utf8_offsets
byte_offset_of_b = refl

byte_offset-encoded_length_example :
    byte_offset (utf8_offsets accented) (pos 2)
    ≡ some (encoded_length (min (at_least_zero (pos 2)) (length accented)) accented)
byte_offset-encoded_length_example = byte_offset-encoded_length accented (pos 2)
