-- ===== src/Row.antt =====
-- storage/page.go, "Row encoding": EncodeRow, DecodeRow and EstimateRowSize, with the encoding of a
-- single column. A byte slice is a list of numbers.
mod Prefixed
pub mod Typed
pub mod Column
pub mod RoundTrip
pub mod Safety
pub mod Size
pub mod Confusion
mod Runs
use xxldb.Base.{
  ℕ, zero, suc, ◌+◌, ◌-◌, ◌%◌, ◌^◌, Bool, true, false, ◌&&◌, ◌||◌, Option, none, some, List, [],
  ◌∷◌, ◌++◌, ltb, leb, ◌==◌, if◌then◌else◌, length, get_or, get_elem?, take, drop, Result, ok, err,
  panic, ◌>>=◌, ◌>>◌, refuse,
}
use xxldb.Base.Words.{le_bytes, le_value, u16_mod, u32_mod, u64_mod}
use xxldb.Value.DataType
use xxldb.Value.{
  Payload, nil, int64, int, int32, float64, float32, string, bytes, other, Value, ColumnDef,
  BlobRef, Runtime, is_int, is_string, is_blob, is_date_time, new_null_value, new_int_value,
  new_float_value, new_string_value, new_blob_value, new_blob_ref_value,
}

pub data Error : Type 0 where
  row_too_short : ℕ → Error
  column : ℕ → Error → Error
  empty_column int_too_short float_too_short : Error
  varchar_too_short varchar_truncated : Error
  blob_too_short blob_truncated : Error
  datetime_too_short datetime_truncated : Error

abbrev pub col_null_marker : ℕ
col_null_marker = 0xff

abbrev pub col_blob_ref_marker : ℕ
col_blob_ref_marker = 0xfe

-- `int64(d)` of an int32, on bit patterns.
abbrev pub sign_extend : ℕ → ℕ
sign_extend n = if ltb n (2 ^ 31) then n else n + (2 ^ 64 - 2 ^ 32)

module _ (go : Runtime) where
  -- The three switches on the Go type of the data, and the `%v` of all that is left.
  unfoldable pub int_data : Payload → ℕ
  int_data (int64 n) = n
  int_data (int n) = n
  int_data (int32 n) = sign_extend n
  int_data (float64 w) = go.i64_of_f64 w
  int_data _ = 0

  unfoldable pub float_data : Payload → ℕ
  float_data (float64 w) = w
  float_data (float32 w) = go.f64_of_f32 w
  float_data _ = 0

  unfoldable pub string_data : Payload → List ℕ
  string_data (string s) = s
  string_data d = go.sprint d

  unfoldable pub blob_data : Payload → List ℕ
  blob_data (bytes b) = b
  blob_data (string s) = s
  blob_data d = go.sprint d

-- [Type:1B][Len:4B][Data:N]
abbrev pub prefixed : ℕ → List ℕ → List ℕ
prefixed t s = (t % 256) ∷ (le_bytes 4 (length s % u32_mod) ++ s)

abbrev pub encode_blob_ref : ℕ → BlobRef → List ℕ
encode_blob_ref t r = (t % 256) ∷ col_blob_ref_marker ∷ (le_bytes 8 r.id ++ le_bytes 8 r.size)

module _ (go : Runtime) where
  unfoldable pub encode_by_type : ℕ → Payload → List ℕ
  unfolding int_data float_data string_data blob_data
  encode_by_type t d =
      if is_int t
      then (t % 256) ∷ le_bytes 8 (int_data go d)
      else if t == DataType.float
      then (t % 256) ∷ le_bytes 8 (go.u64_of_f64 (float_data go d))
      else if is_string t
      then prefixed t (string_data go d)
      else if is_blob t
      then prefixed t (blob_data go d)
      else if is_date_time t
      then prefixed t (string_data go d)
      else prefixed t (go.sprint d)

  unfoldable pub encode_present : Value → Option BlobRef → List ℕ
  encode_present v (some r) = encode_blob_ref v.type r
  encode_present v none = encode_by_type v.type v.payload

  unfoldable pub encode_column : Value → List ℕ
  unfolding encode_present
  encode_column v = if v.is_null then col_null_marker ∷ [] else encode_present v v.blob_ref

  unfoldable pub encode_columns : List Value → List ℕ
  encode_columns [] = []
  encode_columns (v ∷ row) = encode_column v ++ encode_columns row

  -- The capacity that EncodeRow estimates for its buffer is no part of the result.
  unfoldable pub encode_row : ℕ → List Value → List ℕ
  unfolding encode_columns
  encode_row row_id row =
      le_bytes 8 row_id ++ (le_bytes 2 (length row % u16_mod) ++ encode_columns row)

-- `data[lo:hi]`
unfoldable pub slice : List ℕ → ℕ → ℕ → Result Error (List ℕ)
slice xs lo hi = if leb lo hi && leb hi (length xs) then ok (take (hi - lo) (drop lo xs)) else panic

-- The length in bytes 1 to 4; `5 + length` is arithmetic of uint32.
abbrev pub stated_length : List ℕ → ℕ
stated_length bs = le_value 4 (drop 1 bs)

abbrev pub end_of : List ℕ → ℕ
end_of bs = (5 + stated_length bs) % u32_mod

unfoldable pub decode_prefixed :
    Error → Error → (List ℕ → Value) → List ℕ → Result Error (Value × ℕ)
unfolding slice
decode_prefixed short truncated make bs = do
  refuse (ltb (length bs) 5) short
  refuse (ltb (length bs) (5 + stated_length bs)) truncated
  content ← slice bs 5 (end_of bs)
  ok (make content, end_of bs)

-- The switch's default: the column's type is looked up there and not used.
unfoldable pub decode_other : List ℕ → Result Error (Value × ℕ)
unfolding slice
decode_other bs =
    if leb 5 (length bs) && leb (5 + stated_length bs) (length bs)
    then (do content ← slice bs 5 (end_of bs); ok (new_string_value content, end_of bs))
    else ok (new_null_value, 1)

module _ (go : Runtime) where
  unfoldable pub decode_by_type : ℕ → List ℕ → Result Error (Value × ℕ)
  decode_by_type t bs =
      if is_int t
      then (do
        refuse (ltb (length bs) 9) int_too_short
        ok (new_int_value (le_value 8 (drop 1 bs)), 9))
      else if t == DataType.float
      then (do
        refuse (ltb (length bs) 9) float_too_short
        ok (new_float_value (go.f64_of_u64 (le_value 8 (drop 1 bs))), 9))
      else if is_string t
      then decode_prefixed varchar_too_short varchar_truncated new_string_value bs
      else if is_blob t
      then decode_prefixed blob_too_short blob_truncated new_blob_value bs
      else if is_date_time t
      then decode_prefixed datetime_too_short datetime_truncated new_string_value bs
      else decode_other bs

  -- A blob reference is told by its type, 18 bytes of data and the marker in byte 1.
  abbrev pub looks_like_blob_ref : List ℕ → Bool
  looks_like_blob_ref bs =
      is_blob (get_or bs 0 0) && (leb 18 (length bs) && get_or bs 1 0 == col_blob_ref_marker)

  unfoldable pub decode_column : List ℕ → ColumnDef → Result Error (Value × ℕ)
  decode_column bs col_def = do
    refuse (ltb (length bs) 1) empty_column
    if get_or bs 0 0 == col_null_marker
        then ok (new_null_value, 1)
        else if looks_like_blob_ref bs
        then ok (new_blob_ref_value (le_value 8 (drop 2 bs)) (le_value 8 (drop 10 bs)), 18)
        else decode_by_type (get_or bs 0 0) bs

-- The index of the column goes before an error's own text.
abbrev pub in_column {ℓ} : {A : Type ℓ} → ℕ → Result Error A → Result Error A
in_column i (ok a) = ok a
in_column i (err e) = err (column i e)
in_column i panic = panic

abbrev pub col_def_at : List ColumnDef → ℕ → ColumnDef
col_def_at defs i = get_or defs i (record { name = []; type = DataType.unknown })

module _ (go : Runtime) where
  -- `left` columns are still to be read, the first of them the `i`th, at `offset`.
  unfoldable pub decode_columns : List ℕ → List ColumnDef → ℕ → ℕ → ℕ → Result Error (List Value)
  unfolding slice
  decode_columns bs defs zero i offset = ok []
  decode_columns bs defs (suc left) i offset = do
    chunk ← slice bs offset (length bs)
    (v, bytes_read) ← in_column i (decode_column go chunk (col_def_at defs i))
    row ← decode_columns bs defs left (suc i) (offset + bytes_read)
    ok (v ∷ row)

  unfoldable pub decode_row : List ℕ → List ColumnDef → Result Error (ℕ × List Value)
  unfolding decode_columns
  decode_row bs defs = do
    refuse (ltb (length bs) 10) (row_too_short (length bs))
    row ← decode_columns bs defs (le_value 2 (drop 8 bs)) 0 10
    ok (le_value 8 bs, row)

  estimate_data : Payload → ℕ
  estimate_data (string s) = length s
  estimate_data (bytes b) = length b
  estimate_data d = length (go.sprint d)

  estimate_by_type : Value → ℕ
  unfolding estimate_data
  estimate_by_type v =
      if is_int v.type || v.type == DataType.float
      then 9
      else if is_string v.type || (is_blob v.type || is_date_time v.type)
      then 5 + estimate_data v.payload
      else 10

  estimate_present : Value → Option BlobRef → ℕ
  unfolding estimate_by_type
  estimate_present v (some r) = 18
  estimate_present v none = estimate_by_type v

  pub estimate_column : Value → ℕ
  unfolding estimate_present
  estimate_column v = if v.is_null then 1 else estimate_present v v.blob_ref

  estimate_columns : List Value → ℕ
  estimate_columns [] = 0
  estimate_columns (v ∷ row) = estimate_column v + estimate_columns row

  pub estimate_row_size : List Value → ℕ
  unfolding estimate_columns
  estimate_row_size row = 10 + estimate_columns row
