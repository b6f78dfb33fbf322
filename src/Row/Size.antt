-- ===== src/Row/Size.antt =====
-- storage/page.go: EstimateRowSize against the length of what EncodeRow writes.
use xxldb.Base.{
  ◌≤◌, ℕ, ◌%◌, ◌≡◌, refl, arith, true, ◌||◌, Option, none, some, List, [], ◌∷◌, ◌++◌, ◌==◌, length,
  length-append, All,
}
use xxldb.Base.Words.{le_bytes, length-le_bytes, u16_mod}
use xxldb.Value.DataType
use xxldb.Value.{Payload, bytes, Value, BlobRef, Runtime, is_int, is_string, is_blob, is_date_time}
use xxldb.Row.{
  int_data, float_data, string_data, blob_data, encode_by_type, encode_present, encode_column,
  encode_columns, encode_row, estimate_data, estimate_by_type, estimate_present, estimate_column,
  estimate_columns, estimate_row_size,
}
use xxldb.Row.Prefixed.{length-prefixed}

abbrev pub HoldsNoBytes : Payload → Type 0
HoldsNoBytes (bytes b) = ⊥
HoldsNoBytes d = Unit

-- A type that the switch of EstimateRowSize names, and no byte slice in a text or date column.
abbrev pub IsEstimable : Value → Type 0
IsEstimable v =
    ((is_int v.type
        || (v.type == DataType.float
            || (is_string v.type || (is_blob v.type || is_date_time v.type))))
      ≡ true)
    × ((is_string v.type || is_date_time v.type) ≡ true → HoldsNoBytes v.payload)

module _ (go : Runtime) where
  string_estimate : (d : Payload) → HoldsNoBytes d → estimate_data go d ≡ length (string_data go d)
  unfolding estimate_data string_data
  string_estimate (bytes b) h = absurd h
  string_estimate d h = refl

  blob_estimate : (d : Payload) → estimate_data go d ≡ length (blob_data go d)
  unfolding estimate_data blob_data
  blob_estimate (bytes b) = refl
  blob_estimate d = refl

  by_type_estimate :
      (v : Value)
      → IsEstimable v
      → estimate_by_type go v ≡ length (encode_by_type go v.type v.payload)
  unfolding estimate_by_type encode_by_type
  by_type_estimate v h = ground (
    arith,
    string_estimate v.payload,
    blob_estimate v.payload,
    length-prefixed v.type (string_data go v.payload),
    length-prefixed v.type (blob_data go v.payload),
    length-le_bytes 8 (int_data go v.payload),
    length-le_bytes 8 (go.u64_of_f64 (float_data go v.payload)),
  )

  ref_estimate :
      (v : Value) (r : BlobRef)
      → estimate_present go v (some r) ≡ length (encode_present go v (some r))
  unfolding estimate_present encode_present
  ref_estimate v r = omega (
    arith,
    length-append (le_bytes 8 r.id) (le_bytes 8 r.size),
    length-le_bytes 8 r.id,
    length-le_bytes 8 r.size,
  )

  present_estimate :
      (v : Value) (r : Option BlobRef)
      → IsEstimable v
      → estimate_present go v r ≡ length (encode_present go v r)
  present_estimate v none h = unfold estimate_present encode_present in by_type_estimate v h
  present_estimate v (some r) h = ref_estimate v r

  column_estimate : (v : Value) → IsEstimable v → estimate_column go v ≡ length (encode_column go v)
  unfolding estimate_column encode_column
  column_estimate v h = ground (arith, present_estimate v v.blob_ref h)

  columns_estimate :
      (row : List Value)
      → All IsEstimable row
      → estimate_columns go row ≡ length (encode_columns go row)
  unfolding estimate_columns encode_columns
  columns_estimate [] h = refl
  columns_estimate (v ∷ row) h = omega (
    arith,
    column_estimate v h.0,
    columns_estimate row h.1,
    length-append (encode_column go v) (encode_columns go row),
  )

  -- The estimate is the exact size of the encoded row, where every column has a type that the
  -- estimate names and no text or date column holds a byte slice.
  estimate_row_size-exact :
      (row_id : ℕ) (row : List Value)
      → All IsEstimable row
      → estimate_row_size go row ≡ length (encode_row go row_id row)
  unfolding estimate_row_size encode_row
  estimate_row_size-exact row_id row h = omega (
    arith,
    columns_estimate row h,
    length-append (le_bytes 8 row_id) (le_bytes 2 (length row % u16_mod) ++ encode_columns go row),
    length-append (le_bytes 2 (length row % u16_mod)) (encode_columns go row),
    length-le_bytes 8 row_id,
    length-le_bytes 2 (length row % u16_mod),
  )

pub length-encode_row :
    (go : Runtime) (row_id : ℕ) (row : List Value) → 10 ≤ length (encode_row go row_id row)
unfolding encode_row le_bytes
length-encode_row go row_id row = omega arith
