-- ===== src/Store/Update.antt =====
-- storage/update_callback.go: UpdateRowsWithCallback, the callback left out. The new values of a row
-- come in the order in which the program's loop over their map takes them.
use xxldb.Base.{
  ℕ, ◌+◌, Bool, not, ◌&&◌, Option, none, some, List, [], ◌∷◌, ltb, ◌==◌, if◌then◌else◌, length, set,
  get_elem?, Result, ok, err, panic,
}
use xxldb.Base.Assoc.{find_key, put_key}
use xxldb.Executor.Evaluate.{Row}
use xxldb.Parser.Syntax.{Text}
use xxldb.Value.DataType
use xxldb.Value.{Value}
use xxldb.Value.Convert.{Library}
use xxldb.Store.{Error, Column, TableInfo, Storage, no_table, too_long, not_null}
use xxldb.Store.Rows.{rune_count, padded}

abbrev pub Changes : Type 0
Changes = List (ℕ × Value)

abbrev pub one_more_of : Result Error ℕ → Result Error ℕ
one_more_of (ok n) = ok (n + 1)
one_more_of (err e) = err e
one_more_of panic = panic

-- A row that is refused ends the loop; what was changed until then stays.
unfoldable pub go_on :
    Result Error (Unit {0}) → Row → List Row → List Row × Result Error ℕ → List Row × Result Error ℕ
go_on (ok u) changed rows (rest, count) = (changed ∷ rest, one_more_of count)
go_on (err e) changed rows others = (changed ∷ rows, err e)
go_on panic changed rows others = (changed ∷ rows, panic)

module _ (lib : Library) where
  -- Unlike InsertRow, without an exception for the columns that count up.
  unfoldable pub process_value : Option Column → Value → Result Error Value
  process_value none v = ok v
  process_value (some c) v =
      if c.type == DataType.char && ltb 0 c.size && not v.is_null && ltb c.size (rune_count lib v)
      then err (too_long c.name c.size (rune_count lib v))
      else if c.type == DataType.varchar && ltb 0 c.size && ltb c.size (rune_count lib v)
      then err (too_long c.name c.size (rune_count lib v))
      else if not c.nullable && v.is_null
      then err (not_null c.name)
      else ok (padded lib c v)

  -- The row as far as it was changed, and whether all was taken.
  unfoldable pub change_row : List Column → Changes → Row → Row × Result Error (Unit {0})
  change_row columns [] row = (row, ok tt)
  change_row columns ((i, v) ∷ changes) row =
      if ltb i (length row)
      then elim (process_value (get_elem? columns i) v) [
        | ok w ↦ change_row columns changes (set row i w)
        | err e ↦ (row, err e)
        | panic ↦ (row, panic)
      ]
      else change_row columns changes row

  unfoldable pub change_rows :
      List Column → (Row → Changes) → (Row → Bool) → List Row → List Row × Result Error ℕ
  change_rows columns f condition [] = ([], ok 0)
  change_rows columns f condition (r ∷ rs) =
      let (rest, count) = change_rows columns f condition rs in
      let (changed, outcome) = change_row columns (f r) r in
      if condition r then go_on outcome changed rs (rest, count) else (r ∷ rest, count)

  unfoldable pub update_from :
      Text
      → (Row → Changes)
      → (Row → Bool)
      → Storage
      → TableInfo
      → Option (List Row)
      → Storage × Result Error ℕ
  update_from name f condition s info none = (s, ok 0)
  update_from name f condition s info (some rows) =
      let (changed, count) = change_rows info.columns f condition rows in
      (record s { row_data = put_key s.row_data name changed }, count)

  unfoldable pub update_of :
      Text → (Row → Changes) → (Row → Bool) → Storage → Option TableInfo → Storage × Result Error ℕ
  update_of name f condition s none = (s, err (no_table name))
  update_of name f condition s (some info) =
      update_from name f condition s info (find_key s.row_data name)

  unfoldable pub update_rows :
      Text → (Row → Changes) → (Row → Bool) → Storage → Storage × Result Error ℕ
  update_rows name f condition s = update_of name f condition s (find_key s.tables name)
