-- ===== src/Cache/Runs.antt =====
-- storage/pagecache.go: runs on a cache for two pages.
use xxldb.Base.{ℕ, ◌≡◌, refl, arith, Bool, true, some, List, [], ◌∷◌}
use xxldb.Page.{Page}
use xxldb.Cache.{pos, PageCache, mem, lookup, put, mark_dirty, new_page_cache}
use xxldb.Cache.Ids.{NoDup}
use xxldb.Cache.Validity.{IsValid}
use xxldb.Cache.Steps.{new, stored, marked, IsReachable-IsValid}
use xxldb.Cache.Contents.{put-dirty_pages}

abbrev page : ℕ → Page
page id = record {
  header = record {
    page_id = id;
    page_type = 1;
    flags = 0;
    version = 1;
    free_space = 16352;
    cell_count = 0;
    fragmented = 0;
    reserved = 0;
    right_page = 0;
    checksum = 0;
  };
  content = λ i. 0;
}

-- Pages 1 and 2 are there, 2 used last; the pages of `ids` are dirty.
abbrev two_pages : List ℕ → PageCache
two_pages ids = record {
  max_pages = pos 2;
  pages = (2, page 2) ∷ (1, page 1) ∷ [];
  lru = 2 ∷ 1 ∷ [];
  dirty = ids;
  hits = 0;
  misses = 0;
}

two_pages-IsValid : (id : ℕ) → IsValid (two_pages (id ∷ []))
unfolding NoDup mem
two_pages-IsValid id = record {
  keys_unique = (refl, (refl, tt));
  lru_unique = (refl, (refl, tt));
  dirty_unique = (refl, tt);
  same_ids = λ x. refl;
  same_size = refl;
}

abbrev accepts : Page → Bool
accepts p = true

IsReachable-IsValid_example :
    IsValid (mark_dirty (put (new_page_cache (pos 2)) (some (page 1))).0 1)
IsReachable-IsValid_example =
    IsReachable-IsValid (mark_dirty (put (new_page_cache (pos 2)) (some (page 1))).0 1)
      (marked 1 (stored (some (page 1)) (new (pos 2))))

put-dirty_pages_example :
    lookup 1 (put (two_pages (1 ∷ [])) (some (page 3))).0.pages
    ≡ lookup 1 (two_pages (1 ∷ [])).pages
unfolding mem
put-dirty_pages_example =
    put-dirty_pages (two_pages (1 ∷ [])) (page 3) 1 (two_pages-IsValid 1) refl (omega arith)
