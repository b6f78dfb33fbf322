-- ===== src/Row/Safety.antt =====
-- storage/page.go: DecodeRow on any bytes, well formed or not.
use xxldb.Base.{
  ℕ, zero, suc, ◌+◌, ◌-◌, ◌<◌, ◌≤◌, ◌≡◌, ◌≢◌, ◌>>=◌, arith, List, ◌∷◌, length, get_or, take, drop,
  Result, ok, err, panic, length-drop, length-take, map-ne-panic, map-ne-panic,
}
use xxldb.Base.Words.{u32_mod, le_value}
use xxldb.Value.{Value, ColumnDef, Runtime, new_string_value, new_blob_value}
use xxldb.Row.{
  Error, slice, decode_prefixed, varchar_too_short, varchar_truncated, blob_too_short,
  blob_truncated, datetime_too_short, datetime_truncated, decode_by_type, decode_column,
  decode_other, decode_columns, decode_row, in_column, col_def_at,
}

-- A decoder's answer on `bs` is an error, or a value and a number of bytes that `bs` has.
abbrev pub Reads : List ℕ → Result Error (Value × ℕ) → Type 0
Reads bs (ok (v, n)) = (1 ≤ n) × (n ≤ length bs)
Reads bs (err e) = Unit
Reads bs panic = ⊥

decode_prefixed-Reads :
    (short truncated : Error) (make : List ℕ → Value) (bs : List ℕ)
    → length bs < u32_mod
    → Reads bs (decode_prefixed short truncated make bs)
unfolding decode_prefixed
decode_prefixed-Reads short truncated make bs h = ground arith

decode_other-Reads :
    (bs : List ℕ) → 0 < length bs → length bs < u32_mod → Reads bs (decode_other bs)
unfolding decode_other
decode_other-Reads bs p h = ground arith

in_column-ne-panic :
    (chunk : List ℕ) (i : ℕ) (r : Result Error (Value × ℕ))
    (k : Value × ℕ → Result Error (List Value))
    → Reads chunk r
    → ((v : Value) (n : ℕ) → n ≤ length chunk → k (v, n) ≢ panic)
    → (in_column i r >>= k) ≢ panic
in_column-ne-panic chunk i (ok (v, n)) k h f = f v n h.1
in_column-ne-panic chunk i (err e) k h f = λ q. cc
in_column-ne-panic chunk i panic k h f = absurd h

module _ (go : Runtime) where
  decode_by_type-Reads :
      (t : ℕ) (bs : List ℕ)
      → 0 < length bs
      → length bs < u32_mod
      → Reads bs (decode_by_type go t bs)
  unfolding decode_by_type
  decode_by_type-Reads t bs p h = ground (
    arith,
    decode_prefixed-Reads varchar_too_short varchar_truncated new_string_value bs,
    decode_prefixed-Reads blob_too_short blob_truncated new_blob_value bs,
    decode_prefixed-Reads datetime_too_short datetime_truncated new_string_value bs,
    decode_other-Reads bs,
  )

  -- decodeColumn never slices out of range, and takes at least one byte and at most all of them.
  decode_column-Reads :
      (bs : List ℕ) (def : ColumnDef) → length bs < u32_mod → Reads bs (decode_column go bs def)
  unfolding decode_column
  decode_column-Reads bs def h = ground (arith, decode_by_type-Reads (get_or bs 0 0) bs)

  slice_tail :
      (bs : List ℕ) (offset : ℕ)
      → offset ≤ length bs
      → slice bs offset (length bs) ≡ ok (take (length bs - offset) (drop offset bs))
  unfolding slice
  slice_tail bs offset h = ground arith

  decode_columns-ne-panic :
      (bs : List ℕ) (defs : List ColumnDef) (left i offset : ℕ)
      → length bs < u32_mod
      → offset ≤ length bs
      → decode_columns go bs defs left i offset ≢ panic
  unfolding decode_columns
  decode_columns-ne-panic bs defs zero i offset h o = λ e. cc
  decode_columns-ne-panic bs defs (suc left) i offset h o = rw (slice_tail bs offset o) (
      in_column-ne-panic chunk i (decode_column go chunk (col_def_at defs i)) _
        (decode_column-Reads chunk (col_def_at defs i) (omega (arith, size)))
        (λ v n hn.
          map-ne-panic (decode_columns go bs defs left (suc i) (offset + n)) (λ row. v ∷ row)
            (decode_columns-ne-panic bs defs left (suc i) (offset + n) h (omega (arith, size)))))
    where
      chunk : List ℕ
      chunk = take (length bs - offset) (drop offset bs)

      size : length chunk ≡ length bs - offset
      size = omega (arith, length-take (length bs - offset) (drop offset bs), length-drop offset bs)

  -- DecodeRow answers with a row or an error on all data below 4 GB.
  pub decode_row-ne-panic :
      (bs : List ℕ) (defs : List ColumnDef) → length bs < u32_mod → decode_row go bs defs ≢ panic
  unfolding decode_row
  decode_row-ne-panic bs defs h =
      ground (arith, decode_columns-ne-panic bs defs (le_value 2 (drop 8 bs)) 0 10)
