-- ===== src/Row/Column.antt =====
-- storage/page.go: decodeColumn after encodeColumn, for every column.
use xxldb.Base.{
  ℕ, ◌^◌, ◌<◌, ◌≡◌, arith, true, inl, inr, Option, none, some, List, ◌∷◌, ◌++◌, append_assoc,
  if◌then◌else◌, Bool-cases, length, length-append, ok,
}
use xxldb.Base.Words.{le_bytes, length-le_bytes, le_value-le_bytes, drop-le_bytes}
use xxldb.Value.{Value, ColumnDef, BlobRef, Runtime, is_blob, new_null_value, new_blob_ref_value}
use xxldb.Row.{encode_blob_ref, encode_present, encode_column, decode_column, col_null_marker}
use xxldb.Row.Typed.{read_by_type, FitsType, decode_column-encode_by_type}

module _ (go : Runtime) where
  -- What reading back gives for any column.
  pub read_present : Value → Option BlobRef → Value
  unfolding read_by_type
  read_present v none = read_by_type go v.type v.payload
  read_present v (some r) = new_blob_ref_value r.id r.size

  pub read_back : Value → Value
  unfolding read_present
  read_back v = if v.is_null then new_null_value else read_present v v.blob_ref

  abbrev pub FitsPresent : Value → Option BlobRef → Type 0
  FitsPresent v none = FitsType go v.type v.payload
  FitsPresent v (some r) = (is_blob v.type ≡ true) × (r.id < 2 ^ 64) × (r.size < 2 ^ 64)

  abbrev pub IsStorable : Value → Type 0
  IsStorable v = if v.is_null then Unit {0} else FitsPresent v v.blob_ref

  decode_column-encode_blob_ref :
      (t : ℕ) (r : BlobRef) (rest : List ℕ) (def : ColumnDef)
      → is_blob t ≡ true
      → r.id < 2 ^ 64
      → r.size < 2 ^ 64
      → decode_column go (encode_blob_ref t r ++ rest) def
        ≡ ok (new_blob_ref_value r.id r.size, length (encode_blob_ref t r))
  unfolding decode_column
  decode_column-encode_blob_ref t r rest def b hi hs =
      rw (append_assoc (le_bytes 8 r.id) (le_bytes 8 r.size) rest) (
        ground (
          arith,
          length-append (le_bytes 8 r.id) (le_bytes 8 r.size ++ rest),
          length-append (le_bytes 8 r.id) (le_bytes 8 r.size),
          length-append (le_bytes 8 r.size) rest,
          length-le_bytes 8 r.id,
          length-le_bytes 8 r.size,
          le_value-le_bytes 8 r.id (le_bytes 8 r.size ++ rest),
          le_value-le_bytes 8 r.size rest,
          drop-le_bytes 8 r.id (le_bytes 8 r.size ++ rest),
        ))

  decode_column-encode_present :
      (v : Value) (r : Option BlobRef) (rest : List ℕ) (def : ColumnDef)
      → FitsPresent v r
      → decode_column go (encode_present go v r ++ rest) def
        ≡ ok (read_present v r, length (encode_present go v r))
  unfolding encode_present read_present
  decode_column-encode_present v none rest def f =
      decode_column-encode_by_type go v.type v.payload rest def f
  decode_column-encode_present v (some r) rest def f =
      decode_column-encode_blob_ref v.type r rest def f.0 f.1 f.2

  decode_column-null :
      (rest : List ℕ) (def : ColumnDef)
      → decode_column go (col_null_marker ∷ rest) def ≡ ok (new_null_value, 1)
  unfolding decode_column
  decode_column-null rest def = ground arith

  -- One column, whatever follows it.
  pub decode_column-encode_column :
      (v : Value) (rest : List ℕ) (def : ColumnDef)
      → IsStorable v
      → decode_column go (encode_column go v ++ rest) def
        ≡ ok (read_back v, length (encode_column go v))
  unfolding encode_column read_back
  decode_column-encode_column v rest def f = elim (Bool-cases v.is_null) [
    | inl n ↦ rw n (decode_column-null rest def)
    | inr n ↦ simp n (decode_column-encode_present v v.blob_ref rest def (simp n at f))
  ]
