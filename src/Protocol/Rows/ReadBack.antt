-- ===== src/Protocol/Rows/ReadBack.antt =====
-- mysql/protocol.go: what a client reads back from the data of the packets.
use xxldb.Base.{
  ℕ, zero, suc, ◌+◌, ◌^◌, ◌<◌, ◌≤◌, ◌≡◌, refl, arith, false, Option, none, some, List, [], ◌∷◌,
  ◌++◌, ◌==◌, if◌then◌else◌, length, drop, All, Result, ok, ◌>>=◌, drop-append, map, get_or,
}
use xxldb.Protocol.{
  Error, PacketWriter, write_length_encoded_string, write_length_encoded_int,
  read_length_encoded_string, max_packet, read_packet,
}
use xxldb.Protocol.Packets.{read_packet-write_packet}
use xxldb.Protocol.Lengths.{read_length_encoded_string-write}
use xxldb.Protocol.Rows.{
  Any, nil, bytes, string, signed, unsigned, float, bool, other, any_to_string, row_field, row_data,
  write_row_data,
}

-- A field of a text row, and how many bytes it took: NULL is the byte 0xfb.
unfoldable pub read_field : List ℕ → Result Error (Option (List ℕ) × ℕ)
read_field bs =
    if get_or bs 0 0 == 0xfb
    then ok (none, 1)
    else (read_length_encoded_string bs >>= λ r. ok (some r.0, r.1))

unfoldable pub read_fields : ℕ → List ℕ → Result Error (List (Option (List ℕ)))
read_fields zero bs = ok []
read_fields (suc n) bs = do
  (field, size) ← read_field bs
  more ← read_fields n (drop size bs)
  ok (field ∷ more)

head_ne : (s rest : List ℕ) → (get_or (write_length_encoded_string s ++ rest) 0 0 == 0xfb) ≡ false
unfolding write_length_encoded_string write_length_encoded_int
head_ne s rest = ground arith

module _ (format_float : ℕ → List ℕ) where
  -- What a client is to see of a value.
  unfoldable pub shown_as : Any → Option (List ℕ)
  shown_as nil = none
  shown_as v = some (any_to_string format_float v)

  abbrev pub Fits : Any → Type 0
  Fits v = length (any_to_string format_float v) + 9 < 2 ^ 63

  string_field :
      (s rest : List ℕ)
      → length s + 9 < 2 ^ 63
      → read_field (write_length_encoded_string s ++ rest)
        ≡ ok (some s, length (write_length_encoded_string s))
  unfolding read_field
  string_field s rest h = rw (head_ne s rest, read_length_encoded_string-write s rest h) refl

  read_field-row_field :
      (v : Any) (rest : List ℕ)
      → Fits v
      → read_field (row_field format_float v ++ rest)
        ≡ ok (shown_as v, length (row_field format_float v))
  unfolding row_field shown_as read_field
  read_field-row_field nil rest h = refl
  read_field-row_field (bytes b) rest h = string_field (any_to_string format_float (bytes b)) rest h
  read_field-row_field (string b) rest h =
      string_field (any_to_string format_float (string b)) rest h
  read_field-row_field (signed b) rest h =
      string_field (any_to_string format_float (signed b)) rest h
  read_field-row_field (unsigned b) rest h =
      string_field (any_to_string format_float (unsigned b)) rest h
  read_field-row_field (float b) rest h = string_field (any_to_string format_float (float b)) rest h
  read_field-row_field (bool b) rest h = string_field (any_to_string format_float (bool b)) rest h
  read_field-row_field other rest h = string_field (any_to_string format_float other) rest h

  read_fields-row_data :
      (vs : List Any)
      → All Fits vs
      → read_fields (length vs) (row_data format_float vs) ≡ ok (map shown_as vs)
  unfolding row_data read_fields
  read_fields-row_data [] h = refl
  read_fields-row_data (v ∷ vs) h =
      rw
        (
          read_field-row_field v (row_data format_float vs) h.0,
          drop-append (row_field format_float v) (row_data format_float vs),
          read_fields-row_data vs h.1,
        )
        refl

  -- WriteRowData, for a row of less than 16 MB in the packet: a client that reads the packet and
  -- takes as many fields gets every value's text, and NULL only for nil, whatever the values hold.
  pub read_fields-write_row_data :
      (w : PacketWriter) (vs : List Any) (rest : List ℕ)
      → All Fits vs
      → length (row_data format_float vs) ≤ max_packet
      → (out : List ℕ) × (inner : List ℕ) × ((write_row_data format_float w vs).written
          ≡ w.written ++ out)
        × (read_packet (out ++ rest) ≡ ok (inner, rest))
        × (read_fields (length vs) inner ≡ ok (map shown_as vs))
  unfolding write_row_data
  read_fields-write_row_data w vs rest h k =
      let p = read_packet-write_packet w (row_data format_float vs) rest k in
      (p.0, row_data format_float vs, p.1, p.2, read_fields-row_data vs h)
