-- ===== src/Protocol/Runs.antt =====
-- mysql/protocol.go: runs on small inputs.
use xxldb.Base.{ℕ, ◌+◌, ◌%◌, ◌≡◌, refl, arith, List, [], ◌∷◌, ◌++◌, length, map, ok}
use xxldb.Protocol.{
  new_packet_writer, write_packet, read_packet, write_length_encoded_int,
  write_length_encoded_string, read_length_encoded_int, uint64_to_string, count_digits, fill_digits,
}
use xxldb.Protocol.Packets.{read_packets, read_packets-write_packet}
use xxldb.Protocol.Rows.{row_field, Any, nil, string, row_data, write_row_data, any_to_string}
use xxldb.Protocol.Rows.ReadBack.{read_fields, shown_as, read_fields-write_row_data}
use xxldb.Base.Words.{le_bytes, le_value}

abbrev hello : List ℕ
hello = b'h' ∷ b'e' ∷ b'l' ∷ b'l' ∷ b'o' ∷ []

read_packets-write_packet_example :
    (out : List ℕ) × (n : ℕ) × ((write_packet new_packet_writer hello).written
      ≡ new_packet_writer.written ++ out)
    × ((write_packet new_packet_writer hello).sequence ≡ (new_packet_writer.sequence + n) % 256)
    × ((rest : List ℕ) → read_packets n (out ++ rest) ≡ ok (hello, rest))
unfolding new_packet_writer
read_packets-write_packet_example = read_packets-write_packet new_packet_writer hello (omega arith)

four_bytes : read_length_encoded_int (write_length_encoded_int 70000 ++ (9 ∷ [])) ≡ ok (70000, 4)
unfolding read_length_encoded_int write_length_encoded_int le_bytes le_value
four_bytes = refl

-- The length is 2 ^ 64 - 2.
prints : uint64_to_string 120 ≡ b'1' ∷ b'2' ∷ b'0' ∷ []
unfolding uint64_to_string count_digits fill_digits
prints = refl

abbrev no_floats : ℕ → List ℕ
no_floats f = []

abbrev two_values : List Any
two_values = nil ∷ string hello ∷ []

read_fields-write_row_data_example :
    (out : List ℕ) × (inner : List ℕ) × ((write_row_data no_floats new_packet_writer
        two_values).written
      ≡ new_packet_writer.written ++ out)
    × (read_packet (out ++ (7 ∷ [])) ≡ ok (inner, 7 ∷ []))
    × (read_fields (length two_values) inner ≡ ok (map (shown_as no_floats) two_values))
unfolding row_data row_field any_to_string write_length_encoded_string write_length_encoded_int
read_fields-write_row_data_example =
    read_fields-write_row_data no_floats new_packet_writer two_values (7 ∷ [])
      (omega arith, (omega arith, tt)) (omega arith)
