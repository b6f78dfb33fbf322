-- ===== src/Store/Lost.antt =====
-- storage/delete_callback.go, update_callback.go and storage.go: changes that are lost, and a NULL taken for text.
use xxldb.Base.{ℕ, ◌<◌, ◌≡◌, refl, Bool, true, false, Option, none, some, List, ok, err, lt→ltb}
use xxldb.Base.Assoc.{remove_key, find_key-remove_key_self, find_key-put_key_self, find_key}
use xxldb.Base.Utf8.{decode_rune}
use xxldb.Base.Text.{codes}
use xxldb.Executor.Evaluate.{Row, runes, runes_of}
use xxldb.Parser.Syntax.{Text}
use xxldb.Store.{
  drop_table, drop_of, drop_sequences, create_table, create_new, make_rows, registered, take_id,
  file_exists, no_table, Column, TableInfo, Storage, too_long,
}
use xxldb.Store.Rows.{
  rune_count, check_value, delete_from, delete_of, delete_rows, read_rows, get_rows,
}
use xxldb.Store.Update.{Changes, update_rows, update_of, update_from}
use xxldb.Store.Sound.{IsSoundTable, IsSound}
use xxldb.Store.Emptied.{stands}
use xxldb.Value.{Value}
use xxldb.Value.DataType
use xxldb.Value.Convert.{Library, to_string}

in_file :
    (enabled : Bool) (info : TableInfo) (rows : Option (List Row)) (ids : Option (List ℕ))
    (stored : List Row) (n : ℕ)
    → IsSoundTable enabled (some info) rows ids (some stored) n
    → rows ≡ none
in_file true info none none stored n t = refl
in_file true info none (some ids) stored n t = absurd t
in_file true info (some rows) ids stored n t = absurd t
in_file false info none ids stored n t = absurd t
in_file false info (some rows) none stored n t = absurd t
in_file false info (some rows) (some ids) stored n t = absurd t

-- In a sound state, where a table's rows stand in its table file, the DELETE and the UPDATE of the
-- executor change nothing, whatever the condition and the new values, and report 0 rows; GetRows
-- reads the rows of the file.
pub unchanged_in_file :
    (lib : Library) (f : Row → Changes) (c : Row → Bool) (name : Text) (s : Storage)
    (info : TableInfo) (stored : List Row)
    → IsSound s
    → find_key s.tables name ≡ some info
    → find_key s.table_files name ≡ some stored
    → (delete_rows name c s ≡ ok (s, 0))
      × (update_rows lib name f c s ≡ (s, ok 0))
      × (get_rows name s ≡ ok stored)
unfolding delete_rows delete_of delete_from update_rows update_of update_from get_rows read_rows
unchanged_in_file lib f c k s info stored sound h file =
    let no_rows =
      in_file s.enabled info (find_key s.row_data k) (find_key s.row_ids k) stored s.next_id
        (stands s k (some info) (some stored) h file sound) in
    (rw (h, no_rows) refl, rw (h, no_rows) refl, rw (h, file) refl)

-- In a persistent storage, a CREATE TABLE under the name of a table that was dropped fails, since the
-- file is still there. The table exists all the same, and GetRows gives the dropped rows.
pub create_table-dropped :
    (name : Text) (columns : List Column) (s : Storage) (info : TableInfo) (stored : List Row)
    → s.enabled ≡ true
    → find_key s.tables name ≡ some info
    → find_key s.table_files name ≡ some stored
    → (dropped : Storage) × (drop_table name s ≡ ok dropped)
      × (get_rows name dropped ≡ err (no_table name))
      × ((create_table name columns dropped).1 ≡ err (file_exists name))
      × (get_rows name (create_table name columns dropped).0 ≡ ok stored)
unfolding drop_table drop_of create_table create_new make_rows registered take_id get_rows read_rows
create_table-dropped k columns s info stored e h file = (
  record s {
    tables = remove_key s.tables k;
    row_data = remove_key s.row_data k;
    row_ids = remove_key s.row_ids k;
    sequences = drop_sequences k info.columns s.sequences;
  },
  rw h refl,
  rw (find_key-remove_key_self s.tables k) refl,
  rw (find_key-remove_key_self s.tables k, e, file) refl,
  rw
      (
        find_key-remove_key_self s.tables k,
        e,
        file,
        find_key-put_key_self (remove_key s.tables k) k _,
        file,
      )
      refl,
)

null_rune_count : (lib : Library) (v : Value) → v.is_null ≡ true → rune_count lib v ≡ 4
unfolding to_string codes runes runes_of decode_rune
null_rune_count lib v n = rw n refl

-- A NULL for a VARCHAR column of fewer than four characters is refused as too long, NULL or NOT NULL.
check_value-null_varchar :
    (lib : Library) (c : Column) (v : Value)
    → v.is_null ≡ true
    → c.type ≡ DataType.varchar
    → 0 < c.size
    → c.size < 4
    → check_value lib c v ≡ err (too_long c.name c.size 4)
unfolding check_value
check_value-null_varchar lib c v n t low high =
    rw (null_rune_count lib v n, n, t, lt→ltb 0 c.size low, lt→ltb c.size 4 high) refl
