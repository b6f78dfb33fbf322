-- ===== src/Row/Confusion.antt =====
-- storage/page.go: columns that decodeColumn does not give back.
use xxldb.Base.{ℕ, ◌%◌, ◌≡◌, refl, arith, List, ◌++◌, length, length-append, get_or, drop, ok}
use xxldb.Base.Words.{le_bytes, le_value, u32_mod}
use xxldb.Value.DataType
use xxldb.Value.{ColumnDef, Runtime, new_blob_value, new_blob_ref_value}
use xxldb.Row.{encode_by_type, encode_column, encode_present, decode_column, prefixed, blob_data}
use xxldb.Row.Prefixed.{length-prefixed}

module _ (go : Runtime) where
  encode_column-blob : (b : List ℕ) → encode_column go (new_blob_value b) ≡ prefixed DataType.blob b
  unfolding encode_column encode_present encode_by_type blob_data
  encode_column-blob b = refl

  -- A blob whose length is 254 modulo 256 is read back as a reference to an external blob: the low
  -- byte of its length stands where the marker is looked for. The id and the size of the reference
  -- are its next bytes, and 18 bytes count as read whatever the blob's length.
  decode_column-encode_blob_254 :
      (b rest : List ℕ) (def : ColumnDef)
      → length b % 256 ≡ 0xfe
      → decode_column go (encode_column go (new_blob_value b) ++ rest) def
        ≡ ok (
          new_blob_ref_value
              (le_value 8 (drop 2 (prefixed DataType.blob b ++ rest)))
              (le_value 8 (drop 10 (prefixed DataType.blob b ++ rest))),
          18,
        )
  unfolding decode_column
  decode_column-encode_blob_254 b rest def h = rw encode_column-blob (
      ground (
        arith,
        length-append (prefixed DataType.blob b) rest,
        length-prefixed DataType.blob b,
        low_byte b rest,
      ))
    where
      low_byte :
          (b rest : List ℕ)
          → get_or (prefixed DataType.blob b ++ rest) 1 0 ≡ length b % u32_mod % 256
      low_byte b rest = unfold le_bytes in refl
