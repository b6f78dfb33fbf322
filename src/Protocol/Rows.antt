-- ===== src/Protocol/Rows.antt =====
-- mysql/protocol.go: the packets that the server writes (anyToString, WriteOK, WriteAuthMoreData,
-- WriteEOF, WriteError, WriteResultHeader, WriteColumnDefinition, WriteRowData), by their data.
pub mod ReadBack
use xxldb.Base.{
  ℕ, zero, suc, ◌+◌, ◌*◌, ◌/◌, ◌%◌, ◌^◌, Bool, true, false, Option, none, some, List, [], ◌∷◌, ◌++◌,
  ltb, leb, ◌==◌, if◌then◌else◌, length, take,
}
use xxldb.Base.Words.{le_bytes}
use xxldb.Protocol.{
  PacketWriter, write_packet, write_length_encoded_int, write_length_encoded_string,
  uint64_to_string, int64_to_string,
}

-- An `interface{}` by its dynamic type. An integer of any width stands as 64 bits (Go's conversion
-- to int64 or uint64 is part of the constructor), a float64 as its bits.
pub data Any : Type 0 where
  nil : Any
  bytes : List ℕ → Any
  string : List ℕ → Any
  signed : ℕ → Any
  unsigned : ℕ → Any
  float : ℕ → Any
  bool : Bool → Any
  other : Any

-- strconv.FormatFloat(f, 'f', -1, 64) is a parameter.
module _ (format_float : ℕ → List ℕ) where
  pub any_to_string_generic : Any → List ℕ
  any_to_string_generic nil = []
  any_to_string_generic (bytes b) = b
  any_to_string_generic (string s) = s
  any_to_string_generic (signed n) = int64_to_string n
  any_to_string_generic (unsigned n) = uint64_to_string n
  any_to_string_generic (float f) = format_float f
  any_to_string_generic (bool true) = b'1' ∷ []
  any_to_string_generic (bool false) = b'0' ∷ []
  any_to_string_generic other = []

  unfoldable pub any_to_string : Any → List ℕ
  any_to_string nil = []
  any_to_string (bytes b) = b
  any_to_string (string s) = s
  any_to_string v = any_to_string_generic v

  -- What the loop of WriteRowData adds for a value.
  unfoldable pub row_field : Any → List ℕ
  row_field nil = 0xfb ∷ []
  row_field v = write_length_encoded_string (any_to_string v)

  unfoldable pub row_data : List Any → List ℕ
  row_data [] = []
  row_data (v ∷ vs) = row_field v ++ row_data vs

  pub write_row_data : PacketWriter → List Any → PacketWriter
  write_row_data w values = write_packet w (row_data values)

pub ok_data : ℕ → ℕ → ℕ → ℕ → List ℕ → List ℕ
ok_data affected_rows insert_id status warnings message =
    0x00
    ∷ (write_length_encoded_int affected_rows
        ++ (write_length_encoded_int insert_id
            ++ (le_bytes 2 status
                ++ (le_bytes 2 warnings
                    ++ (if length message == 0 then [] else write_length_encoded_string message)))))

pub write_ok : PacketWriter → ℕ → ℕ → ℕ → ℕ → List ℕ → PacketWriter
write_ok w affected_rows insert_id status warnings message =
    write_packet w (ok_data affected_rows insert_id status warnings message)

pub write_auth_more_data : PacketWriter → List ℕ → PacketWriter
write_auth_more_data w bs = write_packet w (0x01 ∷ bs)

-- The warnings are not written.
pub write_eof : PacketWriter → ℕ → ℕ → PacketWriter
write_eof w warnings status =
    write_packet w (0xfe ∷ 0x00 ∷ 0x00 ∷ (status % 256) ∷ (status / 256 % 256) ∷ [])

-- "HY000"
abbrev pub default_state : List ℕ
default_state = b'H' ∷ b'Y' ∷ b'0' ∷ b'0' ∷ b'0' ∷ []

pub error_data : ℕ → List ℕ → List ℕ → List ℕ
error_data code sql_state message =
    let state = if ltb (length sql_state) 5 then default_state else sql_state in
    0xff ∷ (le_bytes 2 code ++ (b'#' ∷ (take 5 state ++ message)))

pub write_error : PacketWriter → ℕ → List ℕ → List ℕ → PacketWriter
write_error w code sql_state message = write_packet w (error_data code sql_state message)

pub write_result_header : PacketWriter → ℕ → PacketWriter
write_result_header w column_count = write_packet w (write_length_encoded_int column_count)

-- The arguments of WriteColumnDefinition.
pub record Column : Type 0 where
  pub schema : List ℕ
  pub table : List ℕ
  pub org_table : List ℕ
  pub name : List ℕ
  pub org_name : List ℕ
  pub column_length : ℕ
  pub charset : ℕ
  pub column_type : ℕ
  pub decimals : ℕ
  pub flags : ℕ

pub fixed_data : Column → List ℕ
fixed_data c =
    0x0c
    ∷ (le_bytes 2 c.charset
        ++ (le_bytes 4 c.column_length
            ++ (c.column_type ∷ (le_bytes 2 c.flags ++ (c.decimals ∷ 0x00 ∷ 0x00 ∷ [])))))

-- "def" is the catalog.
pub column_data : Column → List ℕ
column_data c =
    write_length_encoded_string (b'd' ∷ b'e' ∷ b'f' ∷ [])
    ++ (write_length_encoded_string c.schema
        ++ (write_length_encoded_string c.table
            ++ (write_length_encoded_string c.org_table
                ++ (write_length_encoded_string c.name
                    ++ (write_length_encoded_string c.org_name ++ fixed_data c)))))

pub write_column_definition : PacketWriter → Column → PacketWriter
write_column_definition w c = write_packet w (column_data c)
