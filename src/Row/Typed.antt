-- ===== src/Row/Typed.antt =====
-- storage/page.go: decodeColumn after encodeColumn, for the bytes of every data type.
use xxldb.Base.{
  ℕ, ◌+◌, ◌%◌, ◌^◌, ◌<◌, ◌≡◌, ◌≢◌, refl, sym, ap, ◌∙◌, arith, true, false, ◌||◌, inl, inr, List,
  ◌∷◌, ◌++◌, ◌==◌, if◌then◌else◌, Bool-cases, ==_iff, length, length-append, get_or, ok,
}
use xxldb.Base.Words.{le_bytes, length-le_bytes, le_value-le_bytes, u32_mod}
use xxldb.Value.DataType
use xxldb.Value.{
  Payload, Value, ColumnDef, Runtime, is_int, is_string, is_blob, is_date_time, new_int_value,
  new_float_value, new_string_value, new_blob_value,
}
use xxldb.Row.{
  varchar_too_short, varchar_truncated, blob_too_short, blob_truncated, datetime_too_short,
  datetime_truncated, prefixed, encode_by_type, decode_by_type, int_data, float_data, string_data,
  blob_data, decode_column,
}
use xxldb.Row.Prefixed.{decode_prefixed-prefixed, decode_other-prefixed, length-prefixed}

module _ (go : Runtime) where
  -- The bytes that follow the length of a column which is neither integer nor float.
  abbrev pub content : ℕ → Payload → List ℕ
  content t d =
      if is_string t || is_date_time t
      then string_data go d
      else if is_blob t
      then blob_data go d
      else go.sprint d

  -- What reading a column gives back: an integer type becomes INT, all text becomes VARCHAR, an
  -- image becomes a BLOB, and a float goes through uint64.
  unfoldable pub read_by_type : ℕ → Payload → Value
  read_by_type t d =
      if is_int t
      then new_int_value (int_data go d)
      else if t == DataType.float
      then new_float_value (go.f64_of_u64 (go.u64_of_f64 (float_data go d)))
      else if is_blob t
      then new_blob_value (content t d)
      else new_string_value (content t d)

  -- What a column needs to be told apart and to fit its fields.
  pub record FitsType (t : ℕ) (d : Payload) : Type 0 where
    pub tag : t < 0xff
    pub int_fits : int_data go d < 2 ^ 64
    pub float_fits : go.u64_of_f64 (float_data go d) < 2 ^ 64
    pub content_fits : 5 + length (content t d) < u32_mod
    pub unlike_ref : is_blob t ≡ true → length (content t d) % 256 ≢ 0xfe

  decode_by_type-int :
      (t x n : ℕ) (rest : List ℕ)
      → is_int t ≡ true
      → n < 2 ^ 64
      → decode_by_type go t (x ∷ (le_bytes 8 n ++ rest)) ≡ ok (new_int_value n, 9)
  unfolding decode_by_type
  decode_by_type-int t x n rest e h =
      ground
        (arith, le_value-le_bytes 8 n rest, length-append (le_bytes 8 n) rest, length-le_bytes 8 n)

  decode_by_type-float :
      (x n : ℕ) (rest : List ℕ)
      → n < 2 ^ 64
      → decode_by_type go DataType.float (x ∷ (le_bytes 8 n ++ rest))
        ≡ ok (new_float_value (go.f64_of_u64 n), 9)
  unfolding decode_by_type
  decode_by_type-float x n rest h =
      ground
        (arith, le_value-le_bytes 8 n rest, length-append (le_bytes 8 n) rest, length-le_bytes 8 n)

  abbrev IsPrefixed : ℕ → Type 0
  IsPrefixed t = (is_int t ≡ false) × ((t == DataType.float) ≡ false)

  encode_by_type-int :
      (t : ℕ) (d : Payload)
      → is_int t ≡ true
      → encode_by_type go t d ≡ (t % 256) ∷ le_bytes 8 (int_data go d)
  unfolding encode_by_type
  encode_by_type-int t d i = rw i

  encode_by_type-float :
      (d : Payload)
      → encode_by_type go DataType.float d
        ≡ DataType.float ∷ le_bytes 8 (go.u64_of_f64 (float_data go d))
  unfolding encode_by_type
  encode_by_type-float d = refl

  encode_by_type-content :
      (t : ℕ) (d : Payload) → IsPrefixed t → encode_by_type go t d ≡ prefixed t (content t d)
  unfolding encode_by_type
  encode_by_type-content t d h = ground arith

  decode_by_type-prefixed :
      (t : ℕ) (s rest : List ℕ)
      → IsPrefixed t
      → 5 + length s < u32_mod
      → decode_by_type go t (prefixed t s ++ rest)
        ≡ ok (if is_blob t then new_blob_value s else new_string_value s, 5 + length s)
  unfolding decode_by_type
  decode_by_type-prefixed t s rest h fits = ground (
    arith,
    decode_prefixed-prefixed t s rest fits varchar_too_short varchar_truncated new_string_value,
    decode_prefixed-prefixed t s rest fits blob_too_short blob_truncated new_blob_value,
    decode_prefixed-prefixed t s rest fits datetime_too_short datetime_truncated new_string_value,
    decode_other-prefixed t s rest fits,
  )

  decode_column-tagged :
      (t : ℕ) (bs : List ℕ) (def : ColumnDef)
      → t < 0xff
      → (is_blob t ≡ true → get_or bs 0 0 ≢ 0xfe)
      → decode_column go (t ∷ bs) def ≡ decode_by_type go t (t ∷ bs)
  unfolding decode_column
  decode_column-tagged t bs def h u = ground arith

  byte_tag : {t : ℕ} → t < 0xff → t % 256 ≡ t
  byte_tag h = omega arith

  decode_column-int :
      (t n : ℕ) (rest : List ℕ) (def : ColumnDef)
      → is_int t ≡ true
      → n < 2 ^ 64
      → decode_column go (t ∷ (le_bytes 8 n ++ rest)) def ≡ ok (new_int_value n, 9)
  decode_column-int t n rest def e h =
      decode_column-tagged t _ def (ground arith) (λ b. absurd (ground arith))
      ∙ decode_by_type-int t t n rest e h

  decode_column-float :
      (n : ℕ) (rest : List ℕ) (def : ColumnDef)
      → n < 2 ^ 64
      → decode_column go (DataType.float ∷ (le_bytes 8 n ++ rest)) def
        ≡ ok (new_float_value (go.f64_of_u64 n), 9)
  decode_column-float n rest def h =
      decode_column-tagged DataType.float _ def (omega arith) (λ b. cc)
      ∙ decode_by_type-float DataType.float n rest h

  decode_column-prefixed :
      (t : ℕ) (s rest : List ℕ) (def : ColumnDef)
      → IsPrefixed t
      → t < 0xff
      → 5 + length s < u32_mod
      → (is_blob t ≡ true → length s % 256 ≢ 0xfe)
      → decode_column go (prefixed t s ++ rest) def
        ≡ ok (if is_blob t then new_blob_value s else new_string_value s, length (prefixed t s))
  decode_column-prefixed t s rest def p h fits u = rw (length-prefixed t s) (
      ap (λ (x : ℕ). decode_column go (x ∷ bs) def) (byte_tag h)
      ∙ decode_column-tagged t bs def h (λ b. rw low_byte (u b))
      ∙ sym (ap (λ (x : ℕ). decode_by_type go t (x ∷ bs)) (byte_tag h))
      ∙ decode_by_type-prefixed t s rest p fits)
    where
      bs : List ℕ
      bs = (le_bytes 4 (length s % u32_mod) ++ s) ++ rest

      low_byte : get_or bs 0 0 ≡ length s % 256
      low_byte = unfold le_bytes in omega arith

  -- A column with data of its own is read back.
  pub decode_column-encode_by_type :
      (t : ℕ) (d : Payload) (rest : List ℕ) (def : ColumnDef)
      → FitsType t d
      → decode_column go (encode_by_type go t d ++ rest) def
        ≡ ok (read_by_type t d, length (encode_by_type go t d))
  unfolding read_by_type
  decode_column-encode_by_type t d rest def f = elim (Bool-cases (is_int t)) [
    | inl i ↦
        rw (encode_by_type-int t d i, byte_tag f.tag, i, length-le_bytes 8 (int_data go d))
          (decode_column-int t (int_data go d) rest def i f.int_fits)
    | inr i ↦ elim (Bool-cases (t == DataType.float)) [
      | inl x ↦
          rw
            (
              (==_iff t DataType.float).0 x,
              encode_by_type-float d,
              length-le_bytes 8 (go.u64_of_f64 (float_data go d)),
            )
            (decode_column-float (go.u64_of_f64 (float_data go d)) rest def f.float_fits)
      | inr x ↦
          rw (encode_by_type-content t d (i, x), i, x)
            (decode_column-prefixed t (content t d) rest def (i, x) f.tag f.content_fits
              f.unlike_ref)
    ]
  ]
