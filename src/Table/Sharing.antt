-- ===== src/Table/Sharing.antt =====
-- storage/tablefile.go: two tables of one Storage, which share its page cache.
use xxldb.Base.{◌≡◌, sym, ap, ◌∙◌, none, some, ok}
use xxldb.Value.{Runtime}
use xxldb.Page.{Page, update_checksum}
use xxldb.Cache.{lookup, get, put, clear_dirty}
use xxldb.Cache.Contents.{get-put, get-lookup}
use xxldb.Cache.Lookups.{clear_dirty-pages}
use xxldb.Table.{TableFile, State, write_page, read_page_no_lock}
use xxldb.Table.Coherence.{read_page_no_lock-cached}
use xxldb.Table.Writing.{write_page-state}

module _ (go : Runtime) where
  -- The cache knows a page by its number alone: what one table writes, another reads under the same
  -- number, whatever its own file holds there, where the cache took the page.
  pub read_page_no_lock-other_table :
      (s : State) (p : Page) (other : TableFile)
      → (put s.cache (some (update_checksum go p))).1 ≡ none
      → (read_page_no_lock p.page_id (record (write_page go p s).0 { table = other })).1
        ≡ ok (update_checksum go p)
  unfolding update_checksum
  read_page_no_lock-other_table s p other h =
      ap (λ r. r.1) (read_page_no_lock-cached _ p.page_id (update_checksum go p) found)
    where
      found : (get (write_page go p s).0.cache p.page_id).1 ≡ some (update_checksum go p)
      found = rw (write_page-state go s p) (
          get-lookup (clear_dirty (put s.cache (some (update_checksum go p))).0 p.page_id) p.page_id
          ∙ ap (λ l. lookup p.page_id l)
              (clear_dirty-pages (put s.cache (some (update_checksum go p))).0 p.page_id)
          ∙ sym (get-lookup (put s.cache (some (update_checksum go p))).0 p.page_id)
          ∙ get-put s.cache (update_checksum go p) h)
