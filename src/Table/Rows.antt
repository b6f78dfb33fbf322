-- ===== src/Table/Rows.antt =====
-- storage/tablefile.go: InsertRow.
pub mod Insertion
use xxldb.Base.{
  ℕ, zero, suc, ◌+◌, ◌-◌, ◌*◌, ◌%◌, ◌^◌, Bool, true, false, not, ◌&&◌, Option, none, some, List, [],
  ◌∷◌, ltb, leb, ◌==◌, if◌then◌else◌, length, Result, ok, err, panic,
}
use xxldb.Base.Words.{u32_mod, u64_mod}
use xxldb.Value.{Value, ColumnDef, Runtime}
use xxldb.Row.{encode_row}
use xxldb.Page.{
  Page, max_page_content, new_page, new_header, can_insert, update_checksum, to_bytes, from_bytes,
  insert_row_to_page,
}
use xxldb.Page
use xxldb.Cache.{PageCache, get, put, clear_dirty, clear}
use xxldb.Table.{
  Error, Header, TableFile, State, Method, row_too_large, and_then, ◌>>=◌, ◌>>◌, return, fail,
  in_page, header_of, set_header, read_page_no_lock, write_page, allocate_page_no_lock,
}

-- The last data page, where the row fits into it.
pub with_room : ℕ → Page → Method (Option Page)
with_room row_size p = return (if can_insert p row_size then some p else none)

pub find_target : ℕ → Method (Option Page)
find_target row_size = do
  h ← header_of
  if h.last_data_page == 0
      then return none
      else (read_page_no_lock h.last_data_page >>= with_room row_size)

pub next_row_id : Method ℕ
next_row_id s = (record s { next_id = (s.next_id + 1) % u64_mod }, ok s.next_id)

module _ (go : Runtime) where
  -- The old last page is linked where it can be read; an error is dropped.
  pub link_to : ℕ → State × Result Error Page → State × Result Error (Unit {0})
  link_to id (s, ok p) =
      ((write_page go (record p { header = record p.header { right_page = id } }) s).0, ok tt)
  link_to id (s, err e) = (s, ok tt)
  link_to id (s, panic) = (s, panic)

  pub link_last_page : ℕ → Method (Unit {0})
  link_last_page id s =
      let last = s.table.header.last_data_page in
      if last == 0 then (s, ok tt) else link_to id (read_page_no_lock last s)

  pub new_data_page : Method Page
  new_data_page = do
    (p, id) ← allocate_page_no_lock go 1
    set_header (λ h. record h {
      first_data_page = if h.first_data_page == 0 then id else h.first_data_page;
    })
    link_last_page id
    set_header (λ h. record h { last_data_page = id })
    return p

  pub target_or_new : Option Page → Method Page
  target_or_new none = new_data_page
  target_or_new (some p) = return p

  pub store_row : ℕ → List Value → Page → Method ℕ
  store_row row_id row p = do
    (q, index) ← in_page (insert_row_to_page go p row_id row)
    written ← write_page go q
    set_header (λ h. record h { row_count = (h.row_count + 1) % u64_mod })
    return row_id

  pub insert_row : List Value → Method ℕ
  insert_row row = do
    row_id ← next_row_id
    let row_size = length (encode_row go row_id row)
    if ltb (max_page_content - 100) row_size
        then fail (row_too_large row_size)
        else (find_target row_size >>= target_or_new >>= store_row row_id row)
