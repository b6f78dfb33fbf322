-- ===== src/Row/RoundTrip.antt =====
-- storage/page.go: what DecodeRow gives back for a row that EncodeRow wrote.
use xxldb.Base.{
  ℕ, suc, ◌+◌, ◌%◌, ◌^◌, ◌<◌, ◌≡◌, refl, sym, ap, ◌∙◌, arith, List, [], ◌∷◌, ◌++◌, append_assoc,
  map, length, length-append, All, ok,
}
use xxldb.Base.Words.{le_bytes, length-le_bytes, le_value-le_bytes, drop-le_bytes, u16_mod}
use xxldb.Value.{Value, ColumnDef, Runtime}
use xxldb.Row.{
  slice, encode_column, encode_columns, decode_columns, encode_row, decode_row, col_def_at,
}
use xxldb.Row.Prefixed.{slice-suffix}
use xxldb.Row.Column.{IsStorable, read_back, decode_column-encode_column}

module _ (go : Runtime) where
  -- `pre` is what has been read.
  decode_columns-encode_columns :
      (row : List Value) (pre rest bs : List ℕ) (defs : List ColumnDef) (i offset : ℕ)
      → bs ≡ pre ++ (encode_columns go row ++ rest)
      → offset ≡ length pre
      → All (IsStorable go) row
      → decode_columns go bs defs (length row) i offset ≡ ok (map (read_back go) row)
  unfolding decode_columns encode_columns
  decode_columns-encode_columns [] pre rest bs defs i offset e o h = refl
  decode_columns-encode_columns (v ∷ row) pre rest bs defs i offset e o (hv, hrow) = rw (
    cut,
    decode_column-encode_column go v tail (col_def_at defs i) hv,
    decode_columns-encode_columns row (pre ++ encode_column go v) rest bs defs (suc i)
        (offset + length (encode_column go v))
        (split ∙ sym (append_assoc pre (encode_column go v) tail))
        (omega (arith, o, length-append pre (encode_column go v))) hrow,
  )
    where
      tail : List ℕ
      tail = encode_columns go row ++ rest

      split : bs ≡ pre ++ (encode_column go v ++ tail)
      split = e ∙ ap (◌++◌ pre) (append_assoc (encode_column go v) (encode_columns go row) rest)

      cut : slice bs offset (length bs) ≡ ok (encode_column go v ++ tail)
      cut = rw (split, o) (slice-suffix pre (encode_column go v ++ tail))

  decode_row-fields :
      (row_id n : ℕ) (body : List ℕ) (defs : List ColumnDef) {row : List Value}
      → row_id < 2 ^ 64
      → n < 2 ^ 16
      → decode_columns go (le_bytes 8 row_id ++ (le_bytes 2 n ++ body)) defs n 0 10 ≡ ok row
      → decode_row go (le_bytes 8 row_id ++ (le_bytes 2 n ++ body)) defs ≡ ok (row_id, row)
  unfolding decode_row
  decode_row-fields row_id n body defs hi hn e = ground (
    arith,
    length-append (le_bytes 8 row_id) (le_bytes 2 n ++ body),
    length-append (le_bytes 2 n) body,
    length-le_bytes 8 row_id,
    length-le_bytes 2 n,
    drop-le_bytes 8 row_id (le_bytes 2 n ++ body),
    le_value-le_bytes 2 n body,
    le_value-le_bytes 8 row_id (le_bytes 2 n ++ body),
  )

  -- DecodeRow after EncodeRow, with any bytes behind the row and whatever the column definitions are,
  -- for a row with fewer than 2 ^ 16 columns that fit their fields, no inline blob of a length that is
  -- 254 modulo 256, and references to external blobs in BLOB and IMAGE columns only: the row's id,
  -- and for each column what `read_back` makes of it.
  pub decode_row-encode_row :
      (row_id : ℕ) (row : List Value) (rest : List ℕ) (defs : List ColumnDef)
      → row_id < 2 ^ 64
      → length row < 2 ^ 16
      → All (IsStorable go) row
      → decode_row go (encode_row go row_id row ++ rest) defs ≡ ok (row_id, map (read_back go) row)
  unfolding encode_row
  decode_row-encode_row row_id row rest defs hi hl h =
      rw
        (
          narrow,
          append_assoc (le_bytes 8 row_id) (le_bytes 2 (length row) ++ body) rest,
          append_assoc (le_bytes 2 (length row)) body rest,
        )
        (decode_row-fields row_id (length row) (body ++ rest) defs hi hl (
          decode_columns-encode_columns row (le_bytes 8 row_id ++ le_bytes 2 (length row)) rest _
            defs 0 10 (sym (append_assoc (le_bytes 8 row_id) _ _)) ten h))
    where
      body : List ℕ
      body = encode_columns go row

      narrow : length row % u16_mod ≡ length row
      narrow = omega arith

      ten : ◌≡◌ {A = ℕ} 10 (length (le_bytes 8 row_id ++ le_bytes 2 (length row)))
      ten = omega (
        arith,
        length-append (le_bytes 8 row_id) (le_bytes 2 (length row)),
        length-le_bytes 8 row_id,
        length-le_bytes 2 (length row),
      )
