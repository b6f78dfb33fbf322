-- ===== src/Prepared.antt =====
-- mysql/server.go: prepared statements and their parameters. What is executed is the query that
-- handleStmtExecute hands to the engine.
pub mod Sessions
pub mod Strings
mod Runs
use xxldb.Base.{
  ℕ, zero, suc, ◌+◌, ◌-◌, ◌*◌, ◌/◌, ◌%◌, ◌^◌, Bool, true, false, not, ◌&&◌, ◌||◌, Option, none,
  some, List, [], ◌∷◌, ◌++◌, Result, ok, err, panic, refuse, ◌>>=◌, ◌>>◌, if◌then◌else◌, ltb, leb,
  ◌==◌, length, take, drop, get_or, replicate,
}
use xxldb.Base.Text.{codes}
use xxldb.Base.Words.{le_bytes, le_value}
use xxldb.Protocol.{read_length_encoded_int, total_length, is_negative, uint64_to_string}

pub record Statement : Type 0 where
  pub query : List ℕ
  pub num_params : ℕ
  pub types : List ℕ

-- The client's statements; an entry hides the later ones with its id.
abbrev pub Statements : Type 0
Statements = List (ℕ × Statement)

unfoldable pub find_statement : ℕ → Statements → Option Statement
find_statement id [] = none
find_statement id (e ∷ es) = if e.0 == id then some e.1 else find_statement id es

unfoldable pub remove_statement : ℕ → Statements → Statements
remove_statement id [] = []
remove_statement id (e ∷ es) =
    let rest = remove_statement id es in if e.0 == id then rest else e ∷ rest

unfoldable pub count_marks : List ℕ → ℕ
count_marks [] = 0
count_marks (b ∷ bs) = let rest = count_marks bs in if b == b'?' then suc rest else rest

unfoldable pub prepare_response : ℕ → ℕ → List ℕ
prepare_response id num_params =
    0 ∷ (le_bytes 4 id ++ (0 ∷ 0 ∷ (le_bytes 2 num_params ++ (0 ∷ 0 ∷ 0 ∷ []))))

-- The id, by the counter of the server, and the statements with the new one.
unfoldable pub handle_prepare : ℕ → Statements → List ℕ → ℕ × Statements
handle_prepare counter statements query =
    let id = (counter + 1) % 2 ^ 32 in
    let n = count_marks query in
    (id, (id, record { query = query; num_params = n; types = replicate n 0 }) ∷ statements)

unfoldable pub handle_close : Statements → List ℕ → Statements
handle_close statements bytes =
    if ltb (length bytes) 4 then statements else remove_statement (le_value 4 bytes) statements

pub data ParamValue : Type 0 where
  null_param : ParamValue
  int_param : ℕ → ParamValue
  float_param : ℕ → ParamValue
  string_param : List ℕ → ParamValue

pub data ExecuteError : Type 0 where
  invalid_packet invalid_parameter_data : ExecuteError
  unknown_statement : ℕ → ExecuteError

abbrev pub var_string : ℕ
var_string = 0xfd

-- `data[n : n+int(length)]`, where the sum is not behind the end; a negative one panics.
unfoldable pub string_value : List ℕ → ℕ × ℕ → Result ExecuteError (ParamValue × ℕ)
string_value bytes (len, n) =
    let total = total_length n len in
    if not (is_negative total) && ltb (length bytes) total
    then ok (null_param, 0)
    else if is_negative total || ltb total n
    then panic
    else ok (string_param (take (total - n) (drop n bytes)), total)

-- ReadLengthEncodedInt gives (0, 0) with its error, which is not looked at.
unfoldable pub length_or_zero : {E : Type 0} → Result E (ℕ × ℕ) → ℕ × ℕ
length_or_zero (ok p) = p
length_or_zero (err e) = (0, 0)
length_or_zero panic = (0, 0)

unfoldable pub fixed_param : ℕ → (ℕ → ParamValue) → List ℕ → Result ExecuteError (ParamValue × ℕ)
fixed_param size make bytes =
    if leb size (length bytes) then ok (make (le_value size bytes), size) else ok (null_param, 0)

-- A float is made of the number that its bytes spell, and not of its bits.
unfoldable pub read_param_value : List ℕ → ℕ → Result ExecuteError (ParamValue × ℕ)
read_param_value bytes type =
    if length bytes == 0
    then ok (null_param, 0)
    else if type == 1
    then fixed_param 1 int_param bytes
    else if type == 2 || type == 0x0d
    then fixed_param 2 int_param bytes
    else if type == 3 || type == 9
    then fixed_param 4 int_param bytes
    else if type == 8
    then fixed_param 8 int_param bytes
    else if type == 4
    then fixed_param 4 float_param bytes
    else if type == 5
    then fixed_param 8 float_param bytes
    else string_value bytes (length_or_zero (read_length_encoded_int bytes))

-- The types of the parameters from `offset` on, as far as they go, and where the values begin.
unfoldable pub read_types : List ℕ → ℕ → List ℕ → List ℕ × ℕ
read_types bytes offset [] = ([], offset)
read_types bytes offset (old ∷ olds) =
    let rest = read_types bytes (offset + 2) olds in
    if ltb (length bytes) (offset + 2)
    then (old ∷ olds, offset)
    else (get_or bytes offset 0 ∷ rest.0, rest.1)

unfoldable pub bound_types : List ℕ → ℕ → Statement → List ℕ × ℕ
bound_types bytes offset s =
    if ltb offset (length bytes) && get_or bytes offset 0 == 1
    then read_types bytes (offset + 1) s.types
    else (replicate s.num_params var_string, offset)

abbrev pub null_bit : List ℕ → ℕ → Bool
null_bit bitmap i = get_or bitmap (i / 8) 0 / 2 ^ (i % 8) % 2 == 1

unfoldable pub read_values :
    List ℕ → List ℕ → ℕ → ℕ → List ℕ → Result ExecuteError (List ParamValue)
read_values bitmap bytes offset i [] = ok []
read_values bitmap bytes offset i (type ∷ types) =
    if null_bit bitmap i
    then (read_values bitmap bytes offset (suc i) types >>= λ vs. ok (null_param ∷ vs))
    else (read_param_value (drop offset bytes) type >>= λ v.
        read_values bitmap bytes (offset + v.1) (suc i) types >>= λ vs. ok (v.0 ∷ vs))

-- strings.ReplaceAll(val, "'", "''"), and strings.Replace(result, "?", replacement, 1).
unfoldable pub double_quotes : List ℕ → List ℕ
double_quotes [] = []
double_quotes (b ∷ bs) = if b == b'\'' then b ∷ b ∷ double_quotes bs else b ∷ double_quotes bs

unfoldable pub replace_first : List ℕ → List ℕ → List ℕ
replace_first replacement [] = []
replace_first replacement (b ∷ bs) =
    if b == b'?' then replacement ++ bs else b ∷ replace_first replacement bs

module _ (format_float : ℕ → List ℕ) where
  unfoldable pub replacement_of : ParamValue → List ℕ
  replacement_of null_param = codes "NULL"
  replacement_of (int_param n) = uint64_to_string n
  replacement_of (float_param f) = format_float f
  replacement_of (string_param s) = b'\'' ∷ (double_quotes s ++ b'\'' ∷ [])

  unfoldable pub replace_placeholders : List ℕ → List ParamValue → List ℕ
  replace_placeholders query [] = query
  replace_placeholders query (v ∷ vs) =
      replace_placeholders (replace_first (replacement_of v) query) vs

  unfoldable pub execute_statement :
      ℕ → Statements → List ℕ → Option Statement → Result ExecuteError (List ℕ × Statements)
  execute_statement id statements bytes none = err (unknown_statement id)
  execute_statement id statements bytes (some s) =
      let size = (s.num_params + 7) / 8 in
      let bound = bound_types bytes (9 + size) s in
      let changed : Statement = record {
        query = s.query;
        num_params = s.num_params;
        types = bound.0;
      } in
      do
        refuse (ltb (length bytes) (9 + size)) invalid_parameter_data
        values ← read_values (take size (drop 9 bytes)) bytes bound.1 0 bound.0
        ok (replace_placeholders s.query values, (id, changed) ∷ remove_statement id statements)

  unfoldable pub handle_execute : Statements → List ℕ → Result ExecuteError (List ℕ × Statements)
  handle_execute statements bytes = do
    refuse (ltb (length bytes) 9) invalid_packet
    execute_statement (le_value 4 bytes) statements bytes
        (find_statement (le_value 4 bytes) statements)
