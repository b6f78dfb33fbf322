-- ===== src/Value/Convert.antt =====
-- types/types.go: ToString, ToInt64, ToFloat64, ToBool, ToTime, ToBytes, BlobSize, Compare and Equals.
use xxldb.Base.{
  ℕ, Bool, true, false, not, ◌||◌, Option, none, some, List, [], ◌∷◌, ◌++◌, ltb, ◌==◌,
  if◌then◌else◌, length,
}
use xxldb.Base.Text.{codes, same_bytes}
use xxldb.Protocol.{int64_to_string}
use xxldb.Row.{sign_extend}
use xxldb.Value.DataType
use xxldb.Value.{
  Payload, int64, int, int32, float64, float32, string, bytes, small_int, unsigned, bool, time,
  Value, Runtime,
}

-- What the conversions take from Go and its libraries beside Runtime: conversions to a float64 and
-- its comparison, strconv, package time, and the verbs %s and %.0f of fmt. A float64 is a bit
-- pattern, a time a number that stands for it.
pub record Library : Type 0 where
  pub go : Runtime
  pub to_lower : List ℕ → List ℕ
  pub f64_of_int : ℕ → ℕ
  pub f64_of_unsigned : ℕ → ℕ
  pub float_less : ℕ → ℕ → Bool
  pub float_same : ℕ → ℕ → Bool
  pub parse_int : List ℕ → ℕ × Bool
  pub parse_float : List ℕ → Option ℕ
  pub parse_time : List ℕ → List ℕ → Option ℕ
  pub before : ℕ → ℕ → Bool
  pub format : List ℕ → ℕ → List ℕ
  pub sprint_string : Payload → List ℕ
  pub sprint_whole : ℕ → List ℕ

-- -1, 0 and 1.
pub data Sign : Type 0 where
  less same greater : Sign

unfoldable pub opposite : Sign → Sign
opposite less = greater
opposite same = same
opposite greater = less

-- `<` of strings.
unfoldable pub bytes_less : List ℕ → List ℕ → Bool
bytes_less xs [] = false
bytes_less [] (y ∷ ys) = true
bytes_less (x ∷ xs) (y ∷ ys) =
    let rest = bytes_less xs ys in if ltb x y then true else if ltb y x then false else rest

-- The three ways out of a comparison by `<` or Before and its opposite.
unfoldable pub sign_of : (less greater : Bool) → Sign
sign_of true g = less
sign_of false true = greater
sign_of false false = same

abbrev pub time_layouts : List (List ℕ)
time_layouts =
    codes "2006-01-02 15:04:05"
    ∷ codes "2006-01-02T15:04:05"
    ∷ codes "2006-01-02 15:04:05.999"
    ∷ codes "2006-01-02T15:04:05.999"
    ∷ codes "2006-01-02"
    ∷ codes "15:04:05"
    ∷ []

-- NULL is less than any other value and the same as itself.
unfoldable pub compare_nulls : Bool → Bool → Sign → Sign
compare_nulls true true s = same
compare_nulls true false s = less
compare_nulls false true s = greater
compare_nulls false false s = s

module _ (lib : Library) where
  abbrev sprint : Payload → List ℕ
  sprint = lib.go.sprint

  unfoldable pub int_to_string : Payload → List ℕ
  int_to_string (int64 n) = int64_to_string n
  int_to_string (int n) = int64_to_string n
  int_to_string (int32 n) = int64_to_string (sign_extend n)
  int_to_string (float64 w) = int64_to_string (lib.go.i64_of_f64 w)
  int_to_string (float32 w) = int64_to_string (lib.go.i64_of_f64 (lib.go.f64_of_f32 w))
  int_to_string d = sprint d

  unfoldable pub float_to_string : Payload → List ℕ
  float_to_string (float64 w) =
      if lib.float_same w (lib.f64_of_int (lib.go.i64_of_f64 w))
      then lib.sprint_whole w
      else sprint (float64 w)
  float_to_string d = sprint d

  unfoldable pub time_to_string : List ℕ → Payload → List ℕ
  time_to_string layout (time t) = lib.format layout t
  time_to_string layout d = sprint d

  -- The verb %s.
  unfoldable pub text_to_string : Payload → List ℕ
  text_to_string (string s) = s
  text_to_string (bytes b) = b
  text_to_string d = lib.sprint_string d

  unfoldable pub blob_to_string : Payload → List ℕ
  blob_to_string (bytes b) = codes "[BLOB " ++ int64_to_string (length b) ++ codes " bytes]"
  blob_to_string d = sprint d

  unfoldable pub data_to_string : ℕ → Payload → List ℕ
  data_to_string type d =
      if type == DataType.int || type == DataType.seq
      then int_to_string d
      else if type == DataType.float
      then float_to_string d
      else if type == DataType.date
      then time_to_string (codes "2006-01-02") d
      else if type == DataType.time
      then time_to_string (codes "15:04:05") d
      else if type == DataType.datetime
      then time_to_string (codes "2006-01-02 15:04:05") d
      else if type == DataType.char || type == DataType.varchar || type == DataType.text
      then text_to_string d
      else if type == DataType.blob
      then blob_to_string d
      else if type == DataType.file
      then codes "[FILE " ++ text_to_string d ++ codes "]"
      else sprint d

  unfoldable pub to_string : Value → List ℕ
  to_string v = if v.is_null then codes "NULL" else data_to_string v.type v.payload

  -- What is returned, and whether there is no error.
  unfoldable pub payload_to_int64 : Payload → ℕ × Bool
  payload_to_int64 (int64 n) = (n, true)
  payload_to_int64 (int n) = (n, true)
  payload_to_int64 (int32 n) = ((sign_extend n), true)
  payload_to_int64 (small_int n) = (n, true)
  payload_to_int64 (unsigned n) = (n, true)
  payload_to_int64 (float32 w) = ((lib.go.i64_of_f64 (lib.go.f64_of_f32 w)), true)
  payload_to_int64 (float64 w) = ((lib.go.i64_of_f64 w), true)
  payload_to_int64 (string s) = lib.parse_int s
  payload_to_int64 (bool true) = (1, true)
  payload_to_int64 (bool false) = (0, true)
  payload_to_int64 d = (0, false)

  unfoldable pub to_int64 : Value → ℕ × Bool
  to_int64 v = if v.is_null then (0, false) else payload_to_int64 v.payload

  unfoldable pub payload_to_float64 : Payload → Option ℕ
  payload_to_float64 (int64 n) = some (lib.f64_of_int n)
  payload_to_float64 (int n) = some (lib.f64_of_int n)
  payload_to_float64 (int32 n) = some (lib.f64_of_int (sign_extend n))
  payload_to_float64 (small_int n) = some (lib.f64_of_int n)
  payload_to_float64 (unsigned n) = some (lib.f64_of_unsigned n)
  payload_to_float64 (float32 w) = some (lib.go.f64_of_f32 w)
  payload_to_float64 (float64 w) = some w
  payload_to_float64 (string s) = lib.parse_float s
  payload_to_float64 d = none

  unfoldable pub to_float64 : Value → Option ℕ
  to_float64 v = if v.is_null then none else payload_to_float64 v.payload

  unfoldable pub payload_to_bool : Payload → Bool
  payload_to_bool (bool b) = b
  payload_to_bool (int64 n) = not (n == 0)
  payload_to_bool (int n) = not (n == 0)
  payload_to_bool (int32 n) = not (n == 0)
  payload_to_bool (small_int n) = not (n == 0)
  payload_to_bool (float32 w) = not (lib.float_same (lib.go.f64_of_f32 w) 0)
  payload_to_bool (float64 w) = not (lib.float_same w 0)
  payload_to_bool (string s) =
      let word = lib.to_lower s in
      same_bytes word (codes "true") || same_bytes word (codes "1") || same_bytes word (codes "yes")
  payload_to_bool d = false

  unfoldable pub to_bool : Value → Bool
  to_bool v = if v.is_null then false else payload_to_bool v.payload

  unfoldable pub parse_first : List (List ℕ) → List ℕ → Option ℕ
  parse_first [] s = none
  parse_first (layout ∷ layouts) s = elim (lib.parse_time layout s) [
    | some t ↦ some t
    | none ↦ parse_first layouts s
  ]

  unfoldable pub payload_to_time : Payload → Option ℕ
  payload_to_time (time t) = some t
  payload_to_time (string s) = parse_first time_layouts s
  payload_to_time d = none

  unfoldable pub to_time : Value → Option ℕ
  to_time v = if v.is_null then none else payload_to_time v.payload

  unfoldable pub compare_strings : Value → Value → Sign
  compare_strings v w =
      let a = to_string v in let b = to_string w in sign_of (bytes_less a b) (bytes_less b a)

  unfoldable pub compare_times : (v w : Value) → Option ℕ → Option ℕ → Sign
  compare_times v w (some s) (some t) = sign_of (lib.before s t) (lib.before t s)
  compare_times v w s t = compare_strings v w

  unfoldable pub compare_numbers : (v w : Value) → Option ℕ → Option ℕ → Sign
  compare_numbers v w (some x) (some y) = sign_of (lib.float_less x y) (lib.float_less y x)
  compare_numbers v w x y = compare_times v w (to_time v) (to_time w)

  unfoldable pub compare : Value → Value → Sign
  compare v w =
      compare_nulls v.is_null w.is_null (compare_numbers v w (to_float64 v) (to_float64 w))

  unfoldable pub equals : Value → Value → Bool
  equals v w = elim (compare v w) [ same ↦ true | _ ↦ false ]
