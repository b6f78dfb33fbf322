-- ===== src/Page.antt =====
-- storage/page.go: the 16 KB page, its header and checksum, its cell pointers, and the operations on
-- the rows of a page. The content array is a function of the offset, read and written below
-- `max_page_content` only; a slice out of range is a panic. Indices are not negative.
pub mod Bytes
pub mod Packed
pub mod Insert
pub mod Cells
pub mod Delete
mod Runs
use Prim.Native.Nat.{bit_or}
use xxldb.Base.{
  ℕ, not, zero, suc, ◌+◌, ◌-◌, ◌*◌, ◌/◌, ◌%◌, Bool, true, false, ◌&&◌, ◌||◌, List, [], ◌∷◌, ◌++◌,
  ltb, leb, ◌==◌, if◌then◌else◌, length, get_or, drop, tabulate, Result, ok, err, panic, ◌>>=◌,
  ◌>>◌, refuse,
}
use xxldb.Base.Words.{le_bytes, le_value, u16_mod}
use xxldb.Value.{Value, ColumnDef, Runtime}
use xxldb.Row
use xxldb.Row.{encode_row, decode_row}

abbrev pub page_size : ℕ
page_size = 16384

abbrev pub page_header_size : ℕ
page_header_size = 32

abbrev pub max_page_content : ℕ
max_page_content = 16352

abbrev pub page_flag_dirty : ℕ
page_flag_dirty = 4

pub record PageHeader : Type 0 where
  pub page_id : ℕ
  pub page_type : ℕ
  pub flags : ℕ
  pub version : ℕ
  pub free_space : ℕ
  pub cell_count : ℕ
  pub fragmented : ℕ
  pub reserved : ℕ
  pub right_page : ℕ
  pub checksum : ℕ

pub record Page : Type 0 where
  pub header : PageHeader
  pub open header use *
  pub content : ℕ → ℕ

pub data Error : Type 0 where
  invalid_page_size : ℕ → Error
  page_full : ℕ → ℕ → Error
  cell_out_of_range invalid_cell_offset invalid_previous_cell_offset : ℕ → Error
  invalid_cell_bounds : ℕ → ℕ → Error
  cell_already_deleted bounds_for_deletion : Error
  row : Row.Error → Error

abbrev pub new_header : ℕ → ℕ → PageHeader
new_header id type = record {
  page_id = id;
  page_type = type;
  flags = 0;
  version = 1;
  free_space = max_page_content;
  cell_count = 0;
  fragmented = 0;
  reserved = 0;
  right_page = 0;
  checksum = 0;
}

unfoldable pub new_page : ℕ → ℕ → Page
new_page id type = record { header = new_header id type; content = λ i. 0 }

-- The test and the two subtractions are of uint16.
unfoldable pub available_space : Page → ℕ
available_space p =
    let pointers = p.cell_count * 2 % u16_mod in
    if ltb p.free_space pointers
    then 0
    else if ltb (p.free_space - pointers) p.fragmented
    then 0
    else p.free_space - pointers - p.fragmented

unfoldable pub can_insert : Page → ℕ → Bool
unfolding available_space
can_insert p row_size = leb ((row_size % u16_mod + 2) % u16_mod) (available_space p)

-- p.Content[:]
pub content_bytes : Page → List ℕ
content_bytes p = tabulate max_page_content p.content

module _ (go : Runtime) where
  unfoldable pub calculate_checksum : Page → ℕ
  calculate_checksum p = go.checksum_ieee (content_bytes p)

  unfoldable pub update_checksum : Page → Page
  update_checksum p = record p { header = record p.header { checksum = calculate_checksum p } }

  pub verify_checksum : Page → Bool
  verify_checksum p = p.checksum == calculate_checksum p

-- The header's fields, with the content behind them.
pub header_bytes : PageHeader → List ℕ → List ℕ
header_bytes h body =
    le_bytes 8 h.page_id
    ++ ((h.page_type % 256)
        ∷ h.flags
        ∷ (le_bytes 2 h.version
            ++ (le_bytes 2 h.free_space
                ++ (le_bytes 2 h.cell_count
                    ++ (le_bytes 2 h.fragmented
                        ++ (le_bytes 2 h.reserved
                            ++ (le_bytes 8 h.right_page ++ (le_bytes 4 h.checksum ++ body))))))))

pub to_bytes : Page → List ℕ
to_bytes p = header_bytes p.header (content_bytes p)

pub header_of : List ℕ → PageHeader
header_of bs = record {
  page_id = le_value 8 bs;
  page_type = get_or bs 8 0;
  flags = get_or bs 9 0;
  version = le_value 2 (drop 10 bs);
  free_space = le_value 2 (drop 12 bs);
  cell_count = le_value 2 (drop 14 bs);
  fragmented = le_value 2 (drop 16 bs);
  reserved = le_value 2 (drop 18 bs);
  right_page = le_value 8 (drop 20 bs);
  checksum = le_value 4 (drop 28 bs);
}

-- Every field of the receiver is overwritten.
pub from_bytes : List ℕ → Result Error Page
from_bytes bs = do
  refuse (not (length bs == page_size)) (invalid_page_size (length bs))
  ok (record { header = header_of bs; content = λ i. get_or bs (page_header_size + i) 0 })

-- The uint16 at an offset of the content.
abbrev pub u16_at : (ℕ → ℕ) → ℕ → ℕ
u16_at c offset = c offset + 256 * c (offset + 1)

abbrev pub put_u16 : (ℕ → ℕ) → ℕ → ℕ → (ℕ → ℕ)
put_u16 c offset v i =
    if i == offset then v % 256 else if i == offset + 1 then v / 256 % 256 else c i

-- `copy(c[offset:], data)`
abbrev pub put_bytes : (ℕ → ℕ) → ℕ → List ℕ → (ℕ → ℕ)
put_bytes c offset bs i =
    if leb offset i && ltb i (offset + length bs) then get_or bs (i - offset) 0 else c i

pub get_cell_pointer : Page → ℕ → Result Error ℕ
get_cell_pointer p index =
    if leb p.cell_count index
    then ok 0
    else if ltb max_page_content (index * 2 + 2)
    then panic
    else ok (u16_at p.content (index * 2))

pub set_cell_pointer : Page → ℕ → ℕ → Result Error Page
set_cell_pointer p index offset =
    if ltb max_page_content (index * 2 + 2)
    then panic
    else ok (record p { content = put_u16 p.content (index * 2) offset })

pub add_cell_pointer : Page → ℕ → Result Error Page
unfolding set_cell_pointer
add_cell_pointer p offset = do
  q ← set_cell_pointer p p.cell_count offset
  ok (record q { header = record q.header { cell_count = (q.cell_count + 1) % u16_mod } })

-- `page.Header.Flags |= PageFlagDirty`
abbrev pub mark_dirty : PageHeader → PageHeader
mark_dirty h = record h { flags = bit_or h.flags page_flag_dirty }

-- The difference of uint16 that the row starts at.
abbrev pub cell_offset : Page → ℕ → ℕ
cell_offset p size = (p.free_space + u16_mod - size % u16_mod) % u16_mod

-- `c[offset:]` of the content.
abbrev pub slice_from : ℕ → Result Error (Unit {0})
slice_from offset = if ltb max_page_content offset then panic else ok tt

module _ (go : Runtime) where
  pub insert_row_to_page : Page → ℕ → List Value → Result Error (Page × ℕ)
  unfolding add_cell_pointer can_insert
  insert_row_to_page p row_id cells =
      let bs = encode_row go row_id cells in
      let offset = cell_offset p (length bs) in
      do
        refuse (not (can_insert p (length bs))) (page_full (available_space p) (length bs + 2))
        slice_from offset
        q ← add_cell_pointer (record p { content = put_bytes p.content offset bs }) offset
        ok (
          record q { header = mark_dirty (record q.header { free_space = offset }) },
          q.cell_count - 1,
        )

-- `page.Content[lo:hi]`, where `lo < hi` has been tested.
pub content_slice : Page → ℕ → ℕ → Result Error (List ℕ)
content_slice p lo hi =
    if ltb max_page_content hi then panic else ok (tabulate (hi - lo) (λ i. p.content (lo + i)))

pub get_cell_data : Page → ℕ → Result Error (List ℕ)
unfolding get_cell_pointer
get_cell_data p index = do
  refuse (leb p.cell_count index) (cell_out_of_range index)
  start ← get_cell_pointer p index
  refuse (start == 0 || leb max_page_content start) (invalid_cell_offset start)
  end ← (if index == 0 then ok max_page_content else get_cell_pointer p (index - 1))
  refuse (leb end start) (invalid_cell_bounds start end)
  content_slice p start end

abbrev in_row {ℓ} : {A : Type ℓ} → Result Row.Error A → Result Error A
in_row (ok a) = ok a
in_row (err e) = err (row e)
in_row panic = panic

-- The pointer before `index`, which GetRowFromPage tests too.
pub previous_pointer : Page → ℕ → Result Error ℕ
previous_pointer p index = do
  end ← get_cell_pointer p (index - 1)
  refuse (end == 0 || leb max_page_content end) (invalid_previous_cell_offset end)
  ok end

module _ (go : Runtime) where
  pub get_row_from_page : Page → ℕ → List ColumnDef → Result Error (ℕ × List Value)
  unfolding get_cell_pointer previous_pointer
  get_row_from_page p index defs = do
    refuse (leb p.cell_count index) (cell_out_of_range index)
    start ← get_cell_pointer p index
    refuse (start == 0 || leb max_page_content start) (invalid_cell_offset start)
    end ← (if index == 0 then ok max_page_content else previous_pointer p index)
    refuse (leb end start) (invalid_cell_bounds start end)
    bs ← content_slice p start end
    in_row (decode_row go bs defs)

pub delete_row_from_page : Page → ℕ → Result Error Page
unfolding get_cell_pointer set_cell_pointer
delete_row_from_page p index = do
  refuse (leb p.cell_count index) (cell_out_of_range index)
  start ← get_cell_pointer p index
  refuse (start == 0) cell_already_deleted
  end ← (if index == 0 then ok max_page_content else get_cell_pointer p (index - 1))
  refuse (leb end start) bounds_for_deletion
  q ←
      set_cell_pointer
        (record p {
          header = record p.header { fragmented = (p.fragmented + (end - start)) % u16_mod };
        })
        index 0
  ok (record q { header = mark_dirty q.header })
