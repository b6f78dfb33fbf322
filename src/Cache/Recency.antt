-- ===== src/Cache/Recency.antt =====
-- storage/pagecache.go: the page that Put evicts, and when it fails.
use xxldb.Base.{
  ℕ, suc, ◌≤◌, ◌≡◌, refl, sym, ap, ◌∙◌, arith, true, false, none, some, ◌∷◌, leb, length,
  length-map,
}
use xxldb.Page.{Page}
use xxldb.Cache.{
  pos, cannot_evict_dirty, PageCache, mem, erase, delete, back, keys, touch, after, evict_while,
  reaches, is_full, add, put, size,
}
use xxldb.Cache.Ids.{length-erase, back-mem, keys-delete}
use xxldb.Cache.Validity.{IsValid}
use xxldb.Cache.Evict.{evict_lru-dirty, evict_lru-clean}
use xxldb.Cache.Steps.{put-absent}

is_full_at : (c : PageCache) (n : ℕ) → c.max_pages ≡ pos n → is_full c ≡ leb n (length c.pages)
unfolding is_full reaches
is_full_at c n e = rw e refl

-- A Put of an absent page into a full cache whose least recently used page is dirty fails, though
-- other pages may be clean: nothing is evicted, and the dirty page counts as used just now.
put-dirty_back :
    (c : PageCache) (page : Page) (n id : ℕ)
    → mem page.header.page_id (keys c.pages) ≡ false
    → c.max_pages ≡ pos n
    → n ≤ size c
    → back c.lru ≡ some id
    → mem id c.dirty ≡ true
    → put c (some page) ≡ (record c { lru = touch id c.lru }, some cannot_evict_dirty)
unfolding size evict_while after
put-dirty_back c page n id k e h b d = rw (put-absent c page k, full, evict_lru-dirty c id b d) refl
  where
    full : is_full c ≡ true
    full = is_full_at c n e ∙ ground arith

delete-length :
    (c : PageCache) (id : ℕ)
    → IsValid c
    → back c.lru ≡ some id
    → suc (length (delete id c.pages)) ≡ length c.pages
delete-length c id v b = omega (
  arith,
  length-map c.pages (λ p. p.0),
  length-map (delete id c.pages) (λ p. p.0),
  ap length (keys-delete id c.pages),
  length-erase id (keys c.pages) (sym (v.same_ids id) ∙ back-mem id c.lru b),
)

evict_one :
    (fuel : ℕ) (c : PageCache) (id : ℕ)
    → IsValid c
    → c.max_pages ≡ pos (length c.pages)
    → back c.lru ≡ some id
    → mem id c.dirty ≡ false
    → evict_while is_full (suc (suc fuel)) c
      ≡ (record c { pages = delete id c.pages; lru = erase id c.lru }, none)
unfolding evict_while after
evict_one fuel c id v e b d = rw (full, evict_lru-clean c id b d, room) refl
  where
    full : is_full c ≡ true
    full = is_full_at c (length c.pages) e ∙ ground arith

    room : is_full (record c { pages = delete id c.pages; lru = erase id c.lru }) ≡ false
    room = is_full_at _ (length c.pages) e ∙ ground (arith, delete-length c id v b)

two_rounds :
    (c : PageCache) (id : ℕ)
    → back c.lru ≡ some id
    → suc (length c.lru) ≡ suc (suc (length (erase id c.lru)))
two_rounds c id b = ap suc (sym (length-erase id c.lru (back-mem id c.lru b)))

-- A Put of an absent page into a valid cache that is just full evicts the least recently used page,
-- where it is clean, and no other, and puts the new page to the front.
put-clean_back :
    (c : PageCache) (page : Page) (id : ℕ)
    → IsValid c
    → mem page.header.page_id (keys c.pages) ≡ false
    → c.max_pages ≡ pos (size c)
    → back c.lru ≡ some id
    → mem id c.dirty ≡ false
    → put c (some page) ≡ (
      record c {
        pages = (page.header.page_id, page) ∷ delete id c.pages;
        lru = page.header.page_id ∷ erase id c.lru;
      },
      none,
    )
unfolding size after add
put-clean_back c page id v k e b d =
    rw (put-absent c page k, two_rounds c id b, evict_one (length (erase id c.lru)) c id v e b d)
      refl
