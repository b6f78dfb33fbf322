-- ===== src/Store/Runs.antt =====
-- storage/storage.go: a table that is made, filled and emptied.
use xxldb.Base.{
  none, if◌then◌else◌, ap, ℕ, ◌+◌, ◌≡◌, refl, true, false, [], ◌∷◌, ◌++◌, ok, err, ◌>>=◌, arith,
}
use xxldb.Base.Assoc.{find_key, put_key}
use xxldb.Base.Text.{codes, same_bytes}
use xxldb.Executor.Evaluate.{Row}
use xxldb.Parser.Syntax.{Text}
use xxldb.Value.{new_int_value, new_null_value}
use xxldb.Value.DataType
use xxldb.Value.Runs.{library}
use xxldb.Store.{
  TableFiles, rescan, drop_table, no_table, file_exists, Column, TableInfo, Storage, new_storage,
  create_table, create_new, registered, make_rows, with_rows, take_id, reset_sequences,
  sequence_key, not_null,
}
use xxldb.Store.Rows.{
  or_empty, counted, insert_checked, insert_numbered, storage_insert_row, insert_row_of, file_row,
  check_row, check_value, padded, number_row, next_number, delete_rows, get_rows,
}
use xxldb.Store.Sound.{IsSound}
use xxldb.Store.Reached.{Reachable, starts, continues, creates, inserts, Reachable-IsSound}
use xxldb.Store.Contents.{AlikeBut, storage_insert_row-get_rows, delete_rows-get_rows}
use xxldb.Store.Update.{Changes, update_rows, change_row, process_value}
use xxldb.Store.Changed.{update_rows-get_rows, update_rows-refused}
use xxldb.Store.Lost.{create_table-dropped, unchanged_in_file}

-- Files that take every row as it is, apart from each other.
abbrev plain_files : TableFiles
plain_files = record {
  inserted = λ name row next files other.
      if same_bytes name other
      then or_empty (find_key files other) ++ (row ∷ [])
      else or_empty (find_key files other);
  refused = λ name row next files. none;
  cleared = λ name files other. or_empty (find_key files other);
}

abbrev t_name : Text
t_name = b't' ∷ []

-- `id` counts up.
abbrev id_column : Column
id_column = record {
  name = b'i' ∷ [];
  type = DataType.int;
  size = 0;
  nullable = false;
  auto_inc = true;
}

abbrev table_of : ℕ → TableInfo
table_of n = record { id = 1; columns = id_column ∷ []; row_count = n }

abbrev row_of : ℕ → Row
row_of n = new_int_value n ∷ []

abbrev made : Storage
made = record {
  enabled = false;
  tables = (t_name, table_of 0) ∷ [];
  row_data = (t_name, []) ∷ [];
  row_ids = (t_name, []) ∷ [];
  table_files = [];
  sequences = (b't' ∷ b'_' ∷ b'i' ∷ [], 0) ∷ [];
  next_id = 2;
}

abbrev filled : Storage
filled = record made {
  tables = (t_name, table_of 1) ∷ [];
  row_data = (t_name, row_of 1 ∷ []) ∷ [];
  row_ids = (t_name, 2 ∷ []) ∷ [];
  sequences = (b't' ∷ b'_' ∷ b'i' ∷ [], 1) ∷ [];
  next_id = 3;
}

made_now : create_table t_name (id_column ∷ []) (new_storage false) ≡ (made, ok tt)
unfolding create_table create_new registered make_rows with_rows take_id reset_sequences
    sequence_key codes new_storage find_key put_key same_bytes
made_now = refl

filled_now :
    storage_insert_row plain_files library t_name (new_null_value ∷ []) made ≡ (filled, ok 1)
unfolding storage_insert_row insert_row_of insert_checked insert_numbered counted rescan check_row
    check_value padded number_row next_number file_row take_id sequence_key codes find_key put_key
    same_bytes
filled_now = refl

walk : Reachable plain_files library false filled
unfolding new_storage
walk =
    continues made filled
      (continues (new_storage false) made starts
        (creates t_name (id_column ∷ []) made (omega arith) (ap (λ r. r.0) made_now)))
      (inserts t_name (new_null_value ∷ []) filled (omega arith) (ap (λ r. r.0) filled_now))

Reachable-IsSound_example : IsSound filled
Reachable-IsSound_example = Reachable-IsSound plain_files library false filled walk

abbrev made_file : Storage
made_file = record made {
  enabled = true;
  row_data = [];
  row_ids = [];
  table_files = (t_name, []) ∷ [];
}

abbrev filled_file : Storage
filled_file = record made_file {
  tables = (t_name, table_of 1) ∷ [];
  table_files = (t_name, row_of 1 ∷ []) ∷ [];
  sequences = (b't' ∷ b'_' ∷ b'i' ∷ [], 1) ∷ [];
  next_id = 4;
}

made_file_now : create_table t_name (id_column ∷ []) (new_storage true) ≡ (made_file, ok tt)
unfolding create_table create_new registered make_rows with_rows take_id reset_sequences
    sequence_key codes new_storage find_key put_key same_bytes
made_file_now = refl

filled_file_now :
    storage_insert_row plain_files library t_name (new_null_value ∷ []) made_file
    ≡ (filled_file, ok 1)
unfolding storage_insert_row insert_row_of insert_checked insert_numbered counted rescan check_row
    check_value padded number_row next_number file_row take_id sequence_key codes find_key put_key
    same_bytes
filled_file_now = refl

file_walk : Reachable plain_files library true filled_file
unfolding new_storage
file_walk =
    continues made_file filled_file
      (continues (new_storage true) made_file starts
        (creates t_name (id_column ∷ []) made_file (omega arith) (ap (λ r. r.0) made_file_now)))
      (inserts t_name (new_null_value ∷ []) filled_file (omega arith)
        (ap (λ r. r.0) filled_file_now))

unchanged_in_file_example :
    (delete_rows t_name (λ r. true) filled_file ≡ ok (filled_file, 0))
    × (update_rows library t_name (λ r. []) (λ r. true) filled_file ≡ (filled_file, ok 0))
    × (get_rows t_name filled_file ≡ ok (row_of 1 ∷ []))
unfolding find_key same_bytes
unchanged_in_file_example =
    unchanged_in_file library (λ r. []) (λ r. true) t_name filled_file (table_of 1) (row_of 1 ∷ [])
      (Reachable-IsSound plain_files library true filled_file file_walk) refl refl

-- The new value 5, and then NULL.
abbrev five : Changes
five = (0, new_int_value 5) ∷ []

abbrev no_value : Changes
no_value = (0, new_int_value 5) ∷ (0, new_null_value) ∷ []

update_rows-get_rows_example :
    let r = update_rows library t_name (λ r. five) (λ r. true) filled in
    (r.1 ≡ ok 1) × (get_rows t_name r.0 ≡ ok (row_of 5 ∷ [])) × AlikeBut t_name filled r.0
unfolding find_key same_bytes change_row process_value padded
update_rows-get_rows_example =
    update_rows-get_rows library (λ r. five) (λ r. true) t_name filled (table_of 1) (row_of 1 ∷ [])
      (Reachable-IsSound plain_files library false filled walk) refl refl ((λ e. refl), _)

update_rows-refused_example :
    let r = update_rows library t_name (λ r. no_value) (λ r. true) filled in
    (r.1 ≡ err (not_null (b'i' ∷ []))) × (get_rows t_name r.0 ≡ ok (row_of 5 ∷ []))
unfolding find_key same_bytes change_row process_value padded
update_rows-refused_example =
    update_rows-refused library (λ r. no_value) (λ r. true) t_name filled (table_of 1) [] (row_of 1)
      [] (not_null (b'i' ∷ [])) (Reachable-IsSound plain_files library false filled walk) refl refl
      _ refl refl

storage_insert_row-get_rows_example :
    let r = storage_insert_row plain_files library t_name (new_null_value ∷ []) filled in
    (r.1 ≡ ok 2)
    × (get_rows t_name r.0 ≡ (get_rows t_name filled >>= λ rows. ok (rows ++ (row_of 2 ∷ []))))
    × AlikeBut t_name filled r.0
unfolding find_key same_bytes check_row check_value padded number_row next_number sequence_key
    put_key codes
storage_insert_row-get_rows_example =
    storage_insert_row-get_rows plain_files library t_name (new_null_value ∷ [])
      (new_null_value ∷ []) (row_of 2) ((b't' ∷ b'_' ∷ b'i' ∷ [], 2) ∷ []) 2 filled (table_of 1)
      refl refl refl refl

delete_rows-get_rows_example :
    (s' : Storage) × (count : ℕ) × (delete_rows t_name (λ r. true) filled ≡ ok (s', count))
    × (get_rows t_name s' ≡ ok [])
    × (count + 0 ≡ 1)
    × AlikeBut t_name filled s'
unfolding find_key same_bytes
delete_rows-get_rows_example =
    delete_rows-get_rows (λ r. true) t_name filled (table_of 1) (row_of 1 ∷ [])
      (Reachable-IsSound plain_files library false filled walk) refl refl

create_table-dropped_example :
    (dropped : Storage) × (drop_table t_name filled_file ≡ ok dropped)
    × (get_rows t_name dropped ≡ err (no_table t_name))
    × ((create_table t_name [] dropped).1 ≡ err (file_exists t_name))
    × (get_rows t_name (create_table t_name [] dropped).0 ≡ ok (row_of 1 ∷ []))
unfolding find_key same_bytes
create_table-dropped_example =
    create_table-dropped t_name [] filled_file (table_of 1) (row_of 1 ∷ []) refl refl refl
