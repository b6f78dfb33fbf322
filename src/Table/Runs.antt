-- ===== src/Table/Runs.antt =====
-- storage/tablefile.go: runs on a table with one data page.
use xxldb.Base.{
  ℕ, ◌<◌, ◌≡◌, refl, sym, ap, ◌∙◌, arith, false, Bool-cases, inl, inr, none, some, List, [], ◌∷◌,
  ◌==◌, ok, if◌then◌else◌,
}
use mathlib.Core.Path.{subst}
use xxldb.Value.{Value, Runtime, new_int_value}
use xxldb.Page.{Page, new_page, update_checksum, calculate_checksum, to_bytes, from_bytes}
use xxldb.Page.Bytes.{IsHeader, SamePage, from_bytes-to_bytes}
use xxldb.Cache.{pos, mem, lookup, put}
use xxldb.Cache.Ids.{NoDup, same_id}
use xxldb.Table.{TableFile, State, read_page_no_lock, write_page}
use xxldb.Table.Coherence.{max_page_id, IsStored, IsCoherent}
use xxldb.Table.Writing.{write_page-IsCoherent}
use xxldb.Table.Sharing.{read_page_no_lock-other_table}

abbrev runtime : Runtime
runtime = record {
  u64_of_f64 = λ w. w;
  i64_of_f64 = λ w. w;
  f64_of_u64 = λ w. w;
  f64_of_f32 = λ w. w;
  sprint = λ d. [];
  checksum_ieee = λ bs. 7;
}

abbrev first_page : Page
first_page = new_page 1 1

-- Page 1 is the only data page, in the file and in the cache.
abbrev one_page : State
one_page = record {
  table = record {
    blocks = λ i. if i == 1 then some (to_bytes first_page) else none;
    header = record {
      table_id = 1;
      page_count = 2;
      first_data_page = 1;
      last_data_page = 1;
      free_page_list = 0;
      row_count = 0;
      column_defs = [];
    };
    dirty = false;
  };
  cache = record {
    max_pages = pos 4;
    pages = (1, first_page) ∷ [];
    lru = 1 ∷ [];
    dirty = [];
    hits = 0;
    misses = 0;
  };
  next_id = 5;
}

first_page-IsHeader : IsHeader first_page.header
unfolding new_page
first_page-IsHeader = omega arith

read_first : (q : Page) × (from_bytes (to_bytes first_page) ≡ ok q) × SamePage q first_page
read_first = from_bytes-to_bytes first_page first_page-IsHeader

one_page-IsCoherent : IsCoherent one_page
unfolding NoDup mem lookup new_page
one_page-IsCoherent = record {
  valid = record {
    keys_unique = (refl, tt);
    lru_unique = (refl, tt);
    dirty_unique = tt;
    same_ids = λ x. refl;
    same_size = refl;
  };
  numbered = numbers;
  cached = pages;
}
  where
    same_read :
        (bs : List ℕ) (q : Page)
        → some (to_bytes first_page) ≡ some bs
        → from_bytes bs ≡ ok q
        → q ≡ read_first.0
    same_read bs q b e = cc read_first.1

    numbers :
        (id : ℕ) (bs : List ℕ) (q : Page)
        → 0 < id
        → id < max_page_id
        → one_page.table.blocks id ≡ some bs
        → from_bytes bs ≡ ok q
        → q.page_id ≡ id
    numbers id bs q h own b e = elim (Bool-cases (id == 1)) [
      | inl k ↦
          ap (λ p. p.page_id) (same_read bs q (rw k at b) e)
          ∙ ap (λ h. h.page_id) read_first.2.same_header
          ∙ sym (same_id id 1 k)
      | inr k ↦ absurd (ground (arith, rw k at b))
    ]

    pages :
        (id : ℕ) (p : Page)
        → lookup id one_page.cache.pages ≡ some p
        → (id < max_page_id) × IsStored one_page.table.blocks id p
    pages id p h = elim (Bool-cases (id == 1)) [
      | inl k ↦ (
        ground (arith, k),
        record {
          block = to_bytes first_page;
          read = read_first.0;
          at_id = rw k refl;
          parsed = read_first.1;
          same = subst (λ x. SamePage read_first.0 x) (cc (rw k at h)) read_first.2;
        },
      )
      | inr k ↦ absurd (ground (arith, rw k at h))
    ]

second_page-IsHeader : IsHeader (update_checksum runtime (new_page 2 1)).header
unfolding new_page update_checksum calculate_checksum
second_page-IsHeader = omega arith

write_page-IsCoherent_example : IsCoherent (write_page runtime (new_page 2 1) one_page).0
unfolding new_page
write_page-IsCoherent_example =
    write_page-IsCoherent runtime one_page (new_page 2 1) one_page-IsCoherent second_page-IsHeader
      (omega arith)

-- A table that has no pages in its own file.
abbrev empty_table : TableFile
empty_table = record { blocks = λ i. none; header = one_page.table.header; dirty = false }

read_page_no_lock-other_table_example :
    (read_page_no_lock 1
      (record (write_page runtime first_page one_page).0 { table = empty_table })).1
    ≡ ok (update_checksum runtime first_page)
unfolding put mem new_page update_checksum
read_page_no_lock-other_table_example =
    read_page_no_lock-other_table runtime one_page first_page empty_table refl

abbrev small_row : List Value
small_row = new_int_value 5 ∷ []
