-- ===== src/Row/Runs.antt =====
-- Rows at concrete inputs, and the theorems on rows at inputs that meet their hypotheses.
use xxldb.Base.{◌≡◌, ◌≢◌, refl, arith, List, [], ◌∷◌, ◌++◌, map, All, ok, err, panic}
use xxldb.Base.Words.{le_bytes, le_value}
use xxldb.Value.DataType
use xxldb.Value.{
  Value, ColumnDef, Runtime, int64, string, new_null_value, new_int_value, new_string_value,
  new_blob_ref_value,
}
use xxldb.Row.{
  row_too_short, column, varchar_truncated, int_data, float_data, string_data, encode_by_type,
  encode_present, encode_column, encode_row, decode_prefixed, decode_by_type, decode_column,
  decode_row,
}
use xxldb.Row.Typed.{FitsType}
use xxldb.Row.Column.{IsStorable, read_back}
use xxldb.Row.RoundTrip.{decode_row-encode_row}
use xxldb.Row.Safety.{decode_row-ne-panic}

abbrev pub runtime : Runtime
runtime = record {
  u64_of_f64 = λ w. w;
  i64_of_f64 = λ w. w;
  f64_of_u64 = λ w. w;
  f64_of_f32 = λ w. w;
  sprint = λ d. [];
  checksum_ieee = λ bs. 7;
}

abbrev pub def : ColumnDef
def = record { name = []; type = DataType.int }

-- A sequence number, a text, a null and a blob kept outside.
abbrev pub mixed_row : List Value
mixed_row =
    (record (new_int_value 258) { type = DataType.seq })
    ∷ new_string_value (b'h' ∷ b'i' ∷ [])
    ∷ new_null_value
    ∷ new_blob_ref_value 5 99
    ∷ []

abbrev plain_row : List Value
plain_row = new_int_value 258 ∷ new_string_value (b'h' ∷ b'i' ∷ []) ∷ []

encode_plain :
    encode_row runtime 1 plain_row
    ≡ 1 ∷ 0 ∷ 0 ∷ 0 ∷ 0 ∷ 0 ∷ 0 ∷ 0 ∷ 2 ∷ 0 ∷ 3 ∷ 2 ∷ 1 ∷ 0 ∷ 0 ∷ 0 ∷ 0 ∷ 0 ∷ 0 ∷ 6 ∷ 2 ∷ 0 ∷ 0 ∷ 0
      ∷ b'h' ∷ b'i' ∷ []
unfolding encode_row encode_column encode_present encode_by_type le_bytes
encode_plain = refl

decode_short : decode_row runtime (1 ∷ 2 ∷ []) [] ≡ err (row_too_short 2)
unfolding decode_row
decode_short = refl

decode_cut :
    decode_row runtime (1 ∷ 0 ∷ 0 ∷ 0 ∷ 0 ∷ 0 ∷ 0 ∷ 0 ∷ 1 ∷ 0 ∷ 6 ∷ 2 ∷ 0 ∷ 0 ∷ 0 ∷ b'h' ∷ []) []
    ≡ err (column 0 varchar_truncated)
unfolding decode_row decode_column decode_by_type decode_prefixed le_value
decode_cut = refl

mixed_row-IsStorable : All (IsStorable runtime) mixed_row
unfolding int_data float_data string_data
mixed_row-IsStorable = (seq_fits, (text_fits, (tt, ((refl, omega arith, omega arith), tt))))
  where
    seq_fits : FitsType runtime DataType.seq (int64 258)
    seq_fits = record {
      tag = omega arith;
      int_fits = omega arith;
      float_fits = omega arith;
      content_fits = omega arith;
      unlike_ref = λ h. cc;
    }

    text_fits : FitsType runtime DataType.varchar (string (b'h' ∷ b'i' ∷ []))
    text_fits = record {
      tag = omega arith;
      int_fits = omega arith;
      float_fits = omega arith;
      content_fits = omega arith;
      unlike_ref = λ h. cc;
    }

decode_row-encode_row_example :
    decode_row runtime (encode_row runtime 7 mixed_row ++ 1 ∷ []) (def ∷ [])
    ≡ ok (7, map (read_back runtime) mixed_row)
decode_row-encode_row_example =
    decode_row-encode_row runtime 7 mixed_row (1 ∷ []) (def ∷ []) (omega arith) (omega arith)
      mixed_row-IsStorable

decode_row-ne-panic_example : decode_row runtime (1 ∷ 2 ∷ 3 ∷ []) [] ≢ panic
decode_row-ne-panic_example = decode_row-ne-panic runtime (1 ∷ 2 ∷ 3 ∷ []) [] (omega arith)
