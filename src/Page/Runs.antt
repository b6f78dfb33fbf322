-- ===== src/Page/Runs.antt =====
-- Pages at concrete inputs, and the theorems on pages at inputs that meet their hypotheses.
use xxldb.Base.{◌+◌, ◌<◌, ◌≡◌, refl, arith, true, List, [], ◌∷◌, length, Result, ok, err, ◌>>=◌}
use xxldb.Base.Words.{le_bytes, le_value, u16_mod}
use xxldb.Value.{Value, Runtime, new_int_value}
use xxldb.Row.{
  encode_by_type, encode_present, encode_column, encode_row, decode_by_type, decode_column,
  decode_row,
}
use xxldb.Page.{
  Page, Error, new_page, invalid_previous_cell_offset, can_insert, insert_row_to_page,
  get_row_from_page, content_slice, delete_row_from_page,
}
use xxldb.Page.Cells.{Holds, new_page-Holds, insert_row_to_page-Holds}

abbrev runtime : Runtime
runtime = record {
  u64_of_f64 = λ w. w;
  i64_of_f64 = λ w. w;
  f64_of_u64 = λ w. w;
  f64_of_f32 = λ w. w;
  sprint = λ d. [];
  checksum_ieee = λ bs. 7;
}

abbrev small_row : List Value
small_row = new_int_value 5 ∷ []

abbrev three_rows : Result Error Page
three_rows = do
  (p, _) ← insert_row_to_page runtime (new_page 1 1) 1 small_row
  (q, _) ← insert_row_to_page runtime p 2 small_row
  (r, _) ← insert_row_to_page runtime q 3 small_row
  ok r

-- Three rows, and the second one is deleted: the third cannot be read any more.
read_second : (three_rows >>= λ p. get_row_from_page runtime p 1 []) ≡ ok (2, small_row)
unfolding insert_row_to_page get_row_from_page new_page encode_row decode_row encode_column
    encode_present encode_by_type le_bytes le_value decode_column decode_by_type content_slice
read_second = refl

read_third :
    (three_rows >>= λ p. delete_row_from_page p 1 >>= λ q. get_row_from_page runtime q 2 [])
    ≡ err (invalid_previous_cell_offset 0)
unfolding insert_row_to_page get_row_from_page delete_row_from_page new_page encode_row decode_row
    encode_column encode_present encode_by_type le_bytes le_value decode_column decode_by_type
    content_slice
read_third = refl

length-small : length (encode_row runtime 1 small_row) + 2 < u16_mod
unfolding encode_row encode_column encode_present encode_by_type le_bytes
length-small = omega arith

small-can_insert : can_insert (new_page 1 1) (length (encode_row runtime 1 small_row)) ≡ true
unfolding can_insert new_page encode_row encode_column encode_present encode_by_type le_bytes
small-can_insert = refl

insert_row_to_page-Holds_example :
    (q : Page) × (insert_row_to_page runtime (new_page 1 1) 1 small_row ≡ ok (q, 0))
    × Holds q (encode_row runtime 1 small_row ∷ [])
insert_row_to_page-Holds_example =
    insert_row_to_page-Holds runtime (new_page 1 1) 1 small_row length-small [] (new_page-Holds 1 1)
      small-can_insert
