-- ===== src/Store.antt =====
-- storage/storage.go, delete_callback.go and update_callback.go: the tables of a Storage, their
-- sequences, row ids and rows, in memory or in table files, in one run that begins with no table. Of
-- a table file, open since its CREATE TABLE, the state has the rows that GetRows reads in it; what
-- TableFile makes of them is a parameter (Table has its pages). Reading does not fail; the log, the
-- metadata file and the store of large blobs are left out.
pub mod Rows
pub mod Update
pub mod Sound
pub mod Emptied
pub mod Dropped
pub mod Stored
pub mod Removed
pub mod Reached
pub mod Contents
pub mod Changed
pub mod Lost
mod Runs
use xxldb.Base.{
  ℕ, zero, suc, ◌+◌, ◌-◌, ◌%◌, Bool, true, false, not, ◌&&◌, ◌||◌, Option, none, some, List, [],
  ◌∷◌, ◌++◌, ltb, ◌==◌, if◌then◌else◌, length, set, Result, ok, err, panic, ◌>>=◌,
}
use xxldb.Base.Assoc.{Map, find_key, put_key, remove_key}
use xxldb.Base.Text.{codes}
use xxldb.Base.Utf8.{encode_rune}
use xxldb.Base.Words.{u64_mod}
use xxldb.Executor.Evaluate.{Row, runes}
use xxldb.Parser.Syntax.{Text}
use xxldb.Value.DataType
use xxldb.Value.{Value, new_int_value, new_string_value}
use xxldb.Value.Convert.{Library, to_string}

pub data Error : Type 0 where
  no_table already_exists file_exists : Text → Error
  too_long : (column : Text) → (most found : ℕ) → Error
  not_null : (column : Text) → Error
  table_file : Text → Error

pub record Column : Type 0 where
  pub name : Text
  pub type : ℕ
  pub size : ℕ
  pub nullable : Bool
  pub auto_inc : Bool

pub record TableInfo : Type 0 where
  pub id : ℕ
  pub columns : List Column
  pub row_count : ℕ

pub record Storage : Type 0 where
  pub enabled : Bool
  pub tables : Map TableInfo
  pub row_data : Map (List Row)
  pub row_ids : Map (List ℕ)
  pub table_files : Map (List Row)
  pub sequences : Map ℕ
  pub next_id : ℕ

unfoldable pub new_storage : Bool → Storage
new_storage enabled = record {
  enabled = enabled;
  tables = [];
  row_data = [];
  row_ids = [];
  table_files = [];
  sequences = [];
  next_id = 1;
}

-- TableFile, as far as this file asks: what GetRows then reads of each table, for the table files
-- share a page cache, and whether the row is refused. It is told the row and the next id.
pub record TableFiles : Type 0 where
  pub inserted : Text → Row → ℕ → Map (List Row) → Text → List Row
  pub refused : Text → Row → ℕ → Map (List Row) → Option Text
  pub cleared : Text → Map (List Row) → Text → List Row

unfoldable pub rescan : (Text → List Row) → Map (List Row) → Map (List Row)
rescan scan [] = []
rescan scan (e ∷ es) = (e.0, scan e.0) ∷ rescan scan es

unfoldable pub take_id : Storage → Storage
take_id s = record s { next_id = (s.next_id + 1) % u64_mod }

abbrev pub counts_up : Column → Bool
counts_up c = c.auto_inc || c.type == DataType.seq

unfoldable pub sequence_key : Text → Column → Text
sequence_key table c = table ++ (codes "_" ++ c.name)

unfoldable pub reset_sequences : Text → List Column → Map ℕ → Map ℕ
reset_sequences table [] m = m
reset_sequences table (c ∷ cs) m =
    reset_sequences table cs (if counts_up c then put_key m (sequence_key table c) 0 else m)

unfoldable pub drop_sequences : Text → List Column → Map ℕ → Map ℕ
drop_sequences table [] m = m
drop_sequences table (c ∷ cs) m =
    drop_sequences table cs (if counts_up c then remove_key m (sequence_key table c) else m)

-- Where the new table's rows are to stand.
unfoldable pub with_rows : Bool → Text → Storage → Storage
with_rows true name s = record s { table_files = put_key s.table_files name [] }
with_rows false name s = record s {
  row_data = put_key s.row_data name [];
  row_ids = put_key s.row_ids name [];
}

unfoldable pub registered : Text → List Column → Storage → Storage
registered name columns s = take_id (record s {
  tables = put_key s.tables name (record { id = s.next_id; columns = columns; row_count = 0 });
  sequences = reset_sequences name columns s.sequences;
})

-- CreateTableFile refuses a file that is there.
unfoldable pub make_rows :
    Bool → Option (List Row) → Text → Storage → Storage × Result Error (Unit {0})
make_rows true (some rows) name s = (s, err (file_exists name))
make_rows enabled files name s = (with_rows enabled name s, ok tt)

unfoldable pub create_new :
    Text → List Column → Storage → Option TableInfo → Storage × Result Error (Unit {0})
create_new name columns s (some info) = (s, err (already_exists name))
create_new name columns s none =
    make_rows s.enabled (find_key s.table_files name) name (registered name columns s)

unfoldable pub create_table : Text → List Column → Storage → Storage × Result Error (Unit {0})
create_table name columns s = create_new name columns s (find_key s.tables name)

-- DropTable leaves the table file where it is.
unfoldable pub drop_of : Text → Storage → Option TableInfo → Result Error Storage
drop_of name s none = err (no_table name)
drop_of name s (some info) = ok (record s {
  tables = remove_key s.tables name;
  row_data = remove_key s.row_data name;
  row_ids = remove_key s.row_ids name;
  sequences = drop_sequences name info.columns s.sequences;
})

unfoldable pub drop_table : Text → Storage → Result Error Storage
drop_table name s = drop_of name s (find_key s.tables name)

module _ (files : TableFiles) where
  -- In its table file, if it has one.
  unfoldable pub empty_rows : Text → TableInfo → Option (List Row) → Storage → Storage
  empty_rows name info (some rows) s = with_rows true name (record s {
    sequences = reset_sequences name info.columns s.sequences;
    tables = put_key s.tables name (record info { row_count = 0 });
    table_files = rescan (files.cleared name s.table_files) s.table_files;
  })
  empty_rows name info none s = with_rows false name (record s {
    sequences = reset_sequences name info.columns s.sequences;
    tables = put_key s.tables name (record info { row_count = 0 });
  })

  unfoldable pub truncate_of : Text → Storage → Option TableInfo → Result Error Storage
  truncate_of name s none = err (no_table name)
  truncate_of name s (some info) = ok (empty_rows name info (find_key s.table_files name) s)

  unfoldable pub truncate_table : Text → Storage → Result Error Storage
  truncate_table name s = truncate_of name s (find_key s.tables name)
