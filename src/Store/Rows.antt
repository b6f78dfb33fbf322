-- ===== src/Store/Rows.antt =====
-- storage/storage.go and storage/delete_callback.go: InsertRow, DeleteRowsWithCallback and GetRows.
use xxldb.Base.{
  ℕ, zero, suc, ◌+◌, ◌-◌, ◌%◌, Bool, not, ◌&&◌, ◌||◌, Option, none, some, List, [], ◌∷◌, ◌++◌,
  false, ltb, ◌==◌, if◌then◌else◌, length, set, Result, ok, err, panic, ◌>>=◌,
}
use xxldb.Base.Assoc.{Map, find_key, put_key}
use xxldb.Base.Utf8.{encode_rune}
use xxldb.Base.Words.{u64_mod}
use xxldb.Executor.Evaluate.{Row, runes}
use xxldb.Parser.Syntax.{Text}
use xxldb.Value.DataType
use xxldb.Value.{Value, new_int_value, new_string_value}
use xxldb.Value.Convert.{Library, to_string}
use xxldb.Store.{
  Error, Column, TableInfo, Storage, no_table, too_long, not_null, counts_up, sequence_key, take_id,
  TableFiles, rescan, table_file,
}

unfoldable pub spaces : ℕ → List ℕ
spaces zero = []
spaces (suc n) = b' ' ∷ spaces n

-- `string(runes)`.
unfoldable pub text_of : List ℕ → Text
text_of [] = []
text_of (r ∷ rs) = encode_rune r ++ text_of rs

module _ (lib : Library) where
  abbrev pub rune_count : Value → ℕ
  rune_count v = length (runes (to_string lib v))

  unfoldable pub padded : Column → Value → Value
  padded c v =
      if c.type == DataType.char && ltb 0 c.size && not v.is_null && ltb (rune_count v) c.size
      then new_string_value (text_of (runes (to_string lib v) ++ spaces (c.size - rune_count v)))
      else v

  -- A NULL in a VARCHAR is measured as the text NULL.
  unfoldable pub check_value : Column → Value → Result Error Value
  check_value c v =
      if c.type == DataType.char && ltb 0 c.size && not v.is_null && ltb c.size (rune_count v)
      then err (too_long c.name c.size (rune_count v))
      else if c.type == DataType.varchar && ltb 0 c.size && ltb c.size (rune_count v)
      then err (too_long c.name c.size (rune_count v))
      else if not c.nullable && v.is_null && not (counts_up c)
      then err (not_null c.name)
      else ok (padded c v)

  -- Columns without a value, and values without a column, are left as they are.
  unfoldable pub check_row : List Column → Row → Result Error Row
  check_row (c ∷ cs) (v ∷ vs) = do
    checked ← check_value c v
    rest ← check_row cs vs
    ok (checked ∷ rest)
  check_row cs vs = ok vs

unfoldable pub next_number : Option ℕ → ℕ
next_number none = 1
next_number (some n) = (n + 1) % u64_mod

-- The sequences, the row, and the last number given. The write behind a row's end is a panic.
unfoldable pub number_row :
    Text → List Column → ℕ → Map ℕ × Row × ℕ → Result Error (Map ℕ × Row × ℕ)
number_row table [] i state = ok state
number_row table (c ∷ cs) i (m, row, last) =
    let n = next_number (find_key m (sequence_key table c)) in
    let counted =
      number_row table cs (suc i)
        (put_key m (sequence_key table c) n, set row i (new_int_value n), n) in
    let others = number_row table cs (suc i) (m, row, last) in
    if counts_up c then (if ltb i (length row) then counted else panic) else others

abbrev pub or_empty : {A : Type 0} → Option (List A) → List A
or_empty none = []
or_empty (some xs) = xs

abbrev pub one_row_more : Text → TableInfo → Storage → Storage
one_row_more name info s = record s {
  tables = put_key s.tables name (record info { row_count = info.row_count + 1 });
}

-- What a table file refuses has an error of its own.
unfoldable pub counted : Text → TableInfo → ℕ → Option Text → Storage → Storage × Result Error ℕ
counted name info last none s = (one_row_more name info s, ok last)
counted name info last (some why) s = (s, err (table_file why))

module _ (files : TableFiles) (lib : Library) where
  -- InsertRow has taken an id; TableFile.InsertRow takes the next one.
  unfoldable pub file_row :
      Text
      → TableInfo
      → Row
      → (id last : ℕ) → Option (List Row)
      → Storage
      → Storage × Result Error ℕ
  file_row name info row id last (some rows) s =
      counted name info last (files.refused name row s.next_id s.table_files) (
        take_id (record s {
          table_files = rescan (files.inserted name row s.next_id s.table_files) s.table_files;
        }))
  file_row name info row id last none s = (
    one_row_more name info (record s {
      row_data = put_key s.row_data name (or_empty (find_key s.row_data name) ++ (row ∷ []));
      row_ids = put_key s.row_ids name (or_empty (find_key s.row_ids name) ++ (id ∷ []));
    }),
    ok last,
  )

  unfoldable pub insert_numbered :
      Text → TableInfo → Storage → Result Error (Map ℕ × Row × ℕ) → Storage × Result Error ℕ
  insert_numbered name info s (ok (sequences, row, last)) =
      file_row name info row s.next_id last (find_key s.table_files name)
        (take_id (record s { sequences = sequences }))
  insert_numbered name info s (err e) = (s, err e)
  insert_numbered name info s panic = (s, panic)

  unfoldable pub insert_checked :
      Text → TableInfo → Storage → Result Error Row → Storage × Result Error ℕ
  insert_checked name info s (ok row) =
      insert_numbered name info s (number_row name info.columns 0 (s.sequences, row, 0))
  insert_checked name info s (err e) = (s, err e)
  insert_checked name info s panic = (s, panic)

  unfoldable pub insert_row_of : Text → Row → Storage → Option TableInfo → Storage × Result Error ℕ
  insert_row_of name row s none = (s, err (no_table name))
  insert_row_of name row s (some info) = insert_checked name info s (check_row lib info.columns row)

  -- The state also where it fails. The last number given is the result; the row id is left out.
  unfoldable pub storage_insert_row : Text → Row → Storage → Storage × Result Error ℕ
  storage_insert_row name row s = insert_row_of name row s (find_key s.tables name)

-- Whether the loop asks for the id of a row that has none: for the log in a persistent storage, and
-- for each row that stays.
unfoldable pub lacks_id : Bool → (Row → Bool) → List Row → List ℕ → Bool
lacks_id enabled condition [] ids = false
lacks_id enabled condition (r ∷ rs) (i ∷ is) = lacks_id enabled condition rs is
lacks_id enabled condition (r ∷ rs) [] =
    let rest = lacks_id enabled condition rs [] in enabled || not (condition r) || rest

-- What stays of rows and ids, and how many go, where no id is lacking that is asked for.
unfoldable pub keep_rows : (Row → Bool) → List Row → List ℕ → List Row × List ℕ × ℕ
keep_rows condition (r ∷ rs) (i ∷ is) =
    let (rows, ids, count) = keep_rows condition rs is in
    if condition r then (rows, ids, count + 1) else (r ∷ rows, i ∷ ids, count)
keep_rows condition (r ∷ rs) [] =
    let (rows, ids, count) = keep_rows condition rs [] in
    if condition r then (rows, ids, count + 1) else (r ∷ rows, ids, count)
keep_rows condition [] ids = ([], [], 0)

unfoldable pub without_rows : Text → Storage → TableInfo → List Row × List ℕ × ℕ → Storage × ℕ
without_rows name s info (kept, ids, count) = if count == 0 then (s, 0) else (
  record s {
    row_data = put_key s.row_data name kept;
    row_ids = put_key s.row_ids name ids;
    tables = put_key s.tables name (record info { row_count = info.row_count - count });
  },
  count,
)

unfoldable pub delete_from :
    Text → (Row → Bool) → Storage → TableInfo → Option (List Row) → Result Error (Storage × ℕ)
delete_from name condition s info none = ok (s, 0)
delete_from name condition s info (some rows) =
    let ids = or_empty (find_key s.row_ids name) in
    if lacks_id s.enabled condition rows ids
    then panic
    else ok (without_rows name s info (keep_rows condition rows ids))

unfoldable pub delete_of :
    Text → (Row → Bool) → Storage → Option TableInfo → Result Error (Storage × ℕ)
delete_of name condition s none = err (no_table name)
delete_of name condition s (some info) =
    delete_from name condition s info (find_key s.row_data name)

-- DeleteRowsWithCallback, the callback left out.
unfoldable pub delete_rows : Text → (Row → Bool) → Storage → Result Error (Storage × ℕ)
delete_rows name condition s = delete_of name condition s (find_key s.tables name)

unfoldable pub read_rows :
    Text → Option TableInfo → Option (List Row) → Option (List Row) → Result Error (List Row)
read_rows name none rows files = err (no_table name)
read_rows name (some info) rows (some stored) = ok stored
read_rows name (some info) rows none = ok (or_empty rows)

unfoldable pub get_rows : Text → Storage → Result Error (List Row)
get_rows name s =
    read_rows name (find_key s.tables name) (find_key s.row_data name) (find_key s.table_files name)
