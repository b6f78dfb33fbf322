-- ===== src/Table.antt =====
-- storage/tablefile.go: a table's file of pages, with the cache and the row counter that it shares
-- with the other tables of its Storage. The file is its 16 KB blocks; a block is `none` where the
-- file ends before it. Writing does not fail, also where the offset is negative as an int64 (page ids
-- of 2^49 and more, modulo 2^50), tf.cache is never nil, and locks are left out. A page
-- is a value: that the code changes a page of the cache in place, before it writes it, would show
-- only where something fails in between.
pub mod Rows
pub mod Coherence
pub mod Writing
pub mod Reading
pub mod Sharing
mod Runs
use xxldb.Base.{
  ℕ, zero, suc, ◌+◌, ◌-◌, ◌*◌, ◌%◌, ◌^◌, Bool, true, false, not, ◌&&◌, Option, none, some, List, [],
  ◌∷◌, ltb, leb, ◌==◌, if◌then◌else◌, length, Result, ok, err, panic,
}
use xxldb.Base.Words.{u32_mod, u64_mod}
use xxldb.Value.{Value, ColumnDef, Runtime}
use xxldb.Row.{encode_row}
use xxldb.Page.{
  Page, max_page_content, new_page, new_header, can_insert, update_checksum, to_bytes, from_bytes,
  insert_row_to_page,
}
use xxldb.Page
use xxldb.Cache.{PageCache, get, put, clear_dirty, clear}

pub data Error : Type 0 where
  read_failed : ℕ → Error
  row_too_large : ℕ → Error
  page : Page.Error → Error

-- The fields that the operations use. Zero stands for no page.
pub record Header : Type 0 where
  pub table_id : ℕ
  pub page_count : ℕ
  pub first_data_page : ℕ
  pub last_data_page : ℕ
  pub free_page_list : ℕ
  pub row_count : ℕ
  pub column_defs : List ColumnDef

pub record TableFile : Type 0 where
  pub blocks : ℕ → Option (List ℕ)
  pub header : Header
  pub dirty : Bool

-- One table, and what it shares.
pub record State : Type 0 where
  pub table : TableFile
  pub cache : PageCache
  pub next_id : ℕ

-- A method: the state it leaves, also where it fails.
abbrev pub Method : Type 0 → Type 0
Method A = State → State × Result Error A

pub and_then : {A B : Type 0} → State × Result Error A → (A → Method B) → State × Result Error B
and_then (s, ok a) f = f a s
and_then (s, err e) f = (s, err e)
and_then (s, panic) f = (s, panic)

infixl 5 ◌>>=◌ ◌>>◌
abbrev pub ◌>>=◌ : {A B : Type 0} → Method A → (A → Method B) → Method B
(m >>= f) s = and_then (m s) f

abbrev pub ◌>>◌ : {B : Type 0} → Method (Unit {0}) → Method B → Method B
(m >> k) s = and_then (m s) (λ _. k)

abbrev pub return : {A : Type 0} → A → Method A
return a s = (s, ok a)

abbrev pub fail : {A : Type 0} → Error → Method A
fail e s = (s, err e)

-- The result of a function on pages.
pub in_page : {A : Type 0} → Result Page.Error A → Method A
in_page (ok a) s = (s, ok a)
in_page (err e) s = (s, err (page e))
in_page panic s = (s, panic)

abbrev pub header_of : Method Header
header_of s = (s, ok s.table.header)

-- A change of the header, which is to be written later.
abbrev pub set_header : (Header → Header) → Method (Unit {0})
set_header f s =
    (record s { table = record s.table { header = f s.table.header; dirty = true } }, ok tt)

-- A page that is read is put into the cache; the error of Put is ignored.
abbrev pub keep : Page → Method Page
keep p s = (record s { cache = (put s.cache (some p)).0 }, ok p)

pub parse_block : ℕ → Option (List ℕ) → Method Page
parse_block id none = fail (read_failed id)
parse_block id (some bs) = in_page (from_bytes bs) >>= keep

-- The block at the offset `int64(pageID) * 16384`, which wraps around.
unfoldable pub block_of : ℕ → ℕ
block_of id = id % 2 ^ 50

pub read_block : ℕ → Method Page
read_block id s = parse_block id (s.table.blocks (block_of id)) s

pub cached_or : Option Page → Method Page → Method Page
cached_or none m = m
cached_or (some p) m = return p

-- cache.Get, and what follows where it finds nothing.
pub try_cache : ℕ → Method Page → Method Page
try_cache id m s = let found = get s.cache id in cached_or found.1 m (record s { cache = found.0 })

pub read_page_no_lock : ℕ → Method Page
read_page_no_lock id = try_cache id (read_block id)

-- It asks the cache twice.
pub read_page : ℕ → Method Page
read_page id = try_cache id (read_page_no_lock id)

abbrev pub set_block : ℕ → List ℕ → (ℕ → Option (List ℕ)) → (ℕ → Option (List ℕ))
set_block id bs blocks i = if i == block_of id then some bs else blocks i

module _ (go : Runtime) where
  -- The page itself gets the new checksum.
  pub write_page_to_file_no_lock : Page → Method Page
  write_page_to_file_no_lock p s =
      let q = update_checksum go p in
      (
        record s {
          table = record s.table { blocks = set_block q.page_id (to_bytes q) s.table.blocks };
        },
        ok q,
      )

  pub write_page : Page → Method Page
  write_page p = do
    q ← write_page_to_file_no_lock p
    r ← keep q
    λ s. (record s { cache = clear_dirty s.cache q.page_id }, ok q)

  pub write_page_to_file_with_cache : Page → Method Page
  write_page_to_file_with_cache p = do q ← write_page_to_file_no_lock p; keep q

  -- A page of the free list is emptied in memory only.
  pub reuse_page : ℕ → ℕ → Method (Page × ℕ)
  reuse_page type id = do
    p ← read_page_no_lock id
    set_header (λ h. record h { free_page_list = p.right_page })
    return (record p { header = new_header id type }, id)

  pub extend_file : ℕ → ℕ → Method (Page × ℕ)
  extend_file type id = do
    set_header (λ h. record h { page_count = (h.page_count + 1) % u32_mod })
    p ← write_page_to_file_with_cache (new_page id type)
    return (p, id)

  pub allocate_page_no_lock : ℕ → Method (Page × ℕ)
  allocate_page_no_lock type = do
    h ← header_of
    if h.free_page_list == 0
        then extend_file type h.page_count
        else reuse_page type h.free_page_list

-- The header is reset and the whole cache is dropped; the file is cut behind the header page.
pub clear_table : Method (Unit {0})
clear_table s = (
  record s {
    table = record {
      blocks = λ i. if i == 0 then s.table.blocks 0 else none;
      header = record s.table.header {
        page_count = 1;
        first_data_page = 0;
        last_data_page = 0;
        free_page_list = 0;
        row_count = 0;
      };
      dirty = true;
    };
    cache = clear s.cache;
  },
  ok tt,
)
