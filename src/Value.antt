-- ===== src/Value.antt =====
-- types/types.go: the data types and the values of a row. A DataType is Go's int, a number here;
-- a byte string is a list of bytes; an int64, an int and a float64 stand as their bit patterns.
pub mod DataType
pub mod Convert
pub mod Order
pub mod Runs
use xxldb.Base.{ℕ, Bool, true, false, ◌||◌, Option, none, some, List, ◌==◌, if◌then◌else◌}

-- `case types.TypeInt, types.TypeSeq` and the other groups of the switches on a type.
abbrev pub is_int : ℕ → Bool
is_int t = t == DataType.int || t == DataType.seq

abbrev pub is_string : ℕ → Bool
is_string t = t == DataType.varchar || (t == DataType.text || t == DataType.char)

abbrev pub is_blob : ℕ → Bool
is_blob t = t == DataType.blob || t == DataType.image

abbrev pub is_date_time : ℕ → Bool
is_date_time t = t == DataType.date || (t == DataType.time || t == DataType.datetime)

-- The interface{} in a value. `small_int` is an int8 or int16 and `unsigned` an unsigned integer, both as
-- the bit pattern of their conversion to int64; `other` is a value of any further Go type.
pub data Payload : Type 0 where
  nil : Payload
  int64 int int32 : ℕ → Payload
  float64 float32 : ℕ → Payload
  string bytes : List ℕ → Payload
  small_int unsigned : ℕ → Payload
  bool : Bool → Payload
  time : ℕ → Payload
  other : ℕ → Payload

pub record BlobRef : Type 0 where
  pub id : ℕ
  pub size : ℕ

pub record Value : Type 0 where
  pub type : ℕ
  pub payload : Payload
  pub is_null : Bool
  pub blob_ref : Option BlobRef

pub record ColumnDef : Type 0 where
  pub name : List ℕ
  pub type : ℕ

-- What the code takes from Go's run time: conversions of floats, which are bit patterns here,
-- fmt.Sprintf("%v", v), and crc32.ChecksumIEEE.
pub record Runtime : Type 0 where
  pub u64_of_f64 : ℕ → ℕ
  pub i64_of_f64 : ℕ → ℕ
  pub f64_of_u64 : ℕ → ℕ
  pub f64_of_f32 : ℕ → ℕ
  pub sprint : Payload → List ℕ
  pub checksum_ieee : List ℕ → ℕ

abbrev pub new_null_value : Value
new_null_value = record { type = DataType.null; payload = nil; is_null = true; blob_ref = none }

abbrev pub plain : ℕ → Payload → Value
plain t p = record { type = t; payload = p; is_null = false; blob_ref = none }

abbrev pub new_int_value : ℕ → Value
new_int_value n = plain DataType.int (int64 n)

abbrev pub new_float_value : ℕ → Value
new_float_value w = plain DataType.float (float64 w)

abbrev pub new_string_value : List ℕ → Value
new_string_value s = plain DataType.varchar (string s)

abbrev pub new_blob_value : List ℕ → Value
new_blob_value b = plain DataType.blob (bytes b)

abbrev pub new_blob_ref_value : ℕ → ℕ → Value
new_blob_ref_value id size = record {
  type = DataType.blob;
  payload = nil;
  is_null = false;
  blob_ref = some (record { id = id; size = size });
}

-- NewBoolValue.
abbrev pub new_bool_value : Bool → Value
new_bool_value b = new_int_value (if b then 1 else 0)
