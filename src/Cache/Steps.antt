-- ===== src/Cache/Steps.antt =====
-- storage/pagecache.go: Put and Resize, and every state that the operations reach.
use xxldb.Base.{
  ℕ, suc, ◌≡◌, refl, arith, Bool, true, false, Bool-cases, inl, inr, Option, none, some, List, [],
  ◌∷◌, Option-cases, length,
}
use xxldb.Page.{Page}
use xxldb.Cache.{
  ℤ, PageCache, Outcome, mem, lookup, keys, replace, after, evict_while, is_full, is_over, add, put,
  get, mark_dirty, clear_dirty, remove, clear, resize, new_page_cache, flush_found, flush_dirty,
  flush_page, flush_ids, touch_page,
}
use xxldb.Cache.Ids.{lookup_missing, lookup_present}
use xxldb.Cache.Validity.{
  IsValid, new_page_cache-IsValid, touch_page-IsValid, replace-IsValid, add-IsValid,
  with_max_pages-IsValid, get-IsValid, mark_dirty-IsValid, clear_dirty-IsValid, remove-IsValid,
  clear-IsValid,
}
use xxldb.Cache.Evict.{after-cases, Keeps, evict_while-IsValid, evict_while-Keeps}

-- Put, by whether the page is there and by what the evictions answer.
pub put-present :
    (c : PageCache) (page : Page)
    → mem page.header.page_id (keys c.pages) ≡ true
    → put c (some page) ≡ (
      touch_page
          (record c { pages = replace page.header.page_id page c.pages })
          page.header.page_id,
      none,
    )
unfolding put
put-present c page h = rw h refl

abbrev pub evicted : PageCache → Outcome
evicted c = evict_while is_full (suc (length c.lru)) c

pub put-absent :
    (c : PageCache) (page : Page)
    → mem page.header.page_id (keys c.pages) ≡ false
    → put c (some page) ≡ after (evicted c) (add (evicted c).0 page, none)
unfolding put
put-absent c page h = rw h refl

-- The page is still not there after the evictions.
pub absent-evicted :
    (c : PageCache) (id : ℕ)
    → IsValid c
    → mem id (keys c.pages) ≡ false
    → mem id (keys (evicted c).0.pages) ≡ false
absent-evicted c id v h = elim (Option-cases (lookup id (evicted c).0.pages)) [
  | inl e ↦ lookup_missing id (evicted c).0.pages e
  | inr f ↦ absurd (ground (arith, h, lookup_present id f.0 c.pages (kept.no_new id f.0 f.1)))
]
  where
    kept : Keeps c (evicted c).0
    kept = evict_while-Keeps is_full (suc (length c.lru)) c v

pub put-IsValid : (c : PageCache) (page : Option Page) → IsValid c → IsValid (put c page).0
unfolding put
put-IsValid c none v = v
put-IsValid c (some page) v = elim (Bool-cases (mem page.header.page_id (keys c.pages))) [
  | inl h ↦
      rw (put-present c page h)
        (touch_page-IsValid _ page.header.page_id (replace-IsValid c page.header.page_id page v))
  | inr h ↦ elim (after-cases (evicted c) (add (evicted c).0 page, none)) [
    | inl f ↦
        rw (put-absent c page h, f.1)
          (add-IsValid (evicted c).0 page (absent-evicted c page.header.page_id v h)
            (evict_while-IsValid is_full (suc (length c.lru)) c v))
    | inr f ↦ rw (put-absent c page h, f.2) (evict_while-IsValid is_full (suc (length c.lru)) c v)
  ]
]

resize-IsValid : (c : PageCache) (n : ℤ) → IsValid c → IsValid (resize c n).0
unfolding resize
resize-IsValid c n v =
    evict_while-IsValid is_over (suc (length c.lru)) (record c { max_pages = n })
      (with_max_pages-IsValid c n v)

flush_found-IsValid :
    (write : Page → Bool) (c : PageCache) (id : ℕ) (o : Option Page)
    → IsValid c
    → IsValid (flush_found write c id o).0
unfolding flush_found
flush_found-IsValid write c id none v = clear_dirty-IsValid c id v
flush_found-IsValid write c id (some page) v = elim (Bool-cases (write page)) [
  | inl h ↦ rw h (clear_dirty-IsValid c id v)
  | inr h ↦ rw h v
]

pub flush_dirty-IsValid :
    (write : Page → Bool) (c : PageCache) (id : ℕ) → IsValid c → IsValid (flush_dirty write c id).0
unfolding flush_dirty
flush_dirty-IsValid write c id v = flush_found-IsValid write c id (lookup id c.pages) v

flush_page-IsValid :
    (write : Page → Bool) (c : PageCache) (id : ℕ) → IsValid c → IsValid (flush_page write c id).0
unfolding flush_page
flush_page-IsValid write c id v = elim (Bool-cases (mem id c.dirty)) [
  | inl h ↦ rw h (flush_dirty-IsValid write c id v)
  | inr h ↦ rw h v
]

flush_ids-IsValid :
    (write : Page → Bool) (c : PageCache) (ids : List ℕ)
    → IsValid c
    → IsValid (flush_ids write c ids).0
unfolding flush_ids
flush_ids-IsValid write c [] v = v
flush_ids-IsValid write c (id ∷ ids) v =
    elim (after-cases (flush_dirty write c id) (flush_ids write (flush_dirty write c id).0 ids)) [
      | inl f ↦ rw f.1 (
          flush_ids-IsValid write (flush_dirty write c id).0 ids (flush_dirty-IsValid write c id v))
      | inr f ↦ rw f.2 (flush_dirty-IsValid write c id v)
    ]

-- The caches that calls reach from a new one, one call after another; a call that fails counts.
pub data IsReachable : PageCache → Type 0 where
  new : (max_pages : ℤ) → IsReachable (new_page_cache max_pages)
  got : {c : PageCache} (id : ℕ) → IsReachable c → IsReachable (get c id).0
  stored : {c : PageCache} (page : Option Page) → IsReachable c → IsReachable (put c page).0
  marked : {c : PageCache} (id : ℕ) → IsReachable c → IsReachable (mark_dirty c id)
  cleaned : {c : PageCache} (id : ℕ) → IsReachable c → IsReachable (clear_dirty c id)
  removed : {c : PageCache} (id : ℕ) → IsReachable c → IsReachable (remove c id)
  cleared : {c : PageCache} → IsReachable c → IsReachable (clear c)
  resized : {c : PageCache} (max_pages : ℤ) → IsReachable c → IsReachable (resize c max_pages).0
  flushed_page :
      {c : PageCache} (write : Page → Bool) (id : ℕ)
      → IsReachable c
      → IsReachable (flush_page write c id).0
  flushed :
      {c : PageCache} (write : Page → Bool) (ids : List ℕ)
      → IsReachable c
      → IsReachable (flush_ids write c ids).0

-- In every state that calls reach, the list and the map hold the same pages, once each, and no page
-- is flagged twice.
pub IsReachable-IsValid : (c : PageCache) → IsReachable c → IsValid c
IsReachable-IsValid _ (new n) = new_page_cache-IsValid n
IsReachable-IsValid _ (got {c} id r) = get-IsValid c id (IsReachable-IsValid c r)
IsReachable-IsValid _ (stored {c} page r) = put-IsValid c page (IsReachable-IsValid c r)
IsReachable-IsValid _ (marked {c} id r) = mark_dirty-IsValid c id (IsReachable-IsValid c r)
IsReachable-IsValid _ (cleaned {c} id r) = clear_dirty-IsValid c id (IsReachable-IsValid c r)
IsReachable-IsValid _ (removed {c} id r) = remove-IsValid c id (IsReachable-IsValid c r)
IsReachable-IsValid _ (cleared {c} r) = clear-IsValid c (IsReachable-IsValid c r)
IsReachable-IsValid _ (resized {c} n r) = resize-IsValid c n (IsReachable-IsValid c r)
IsReachable-IsValid _ (flushed_page {c} write id r) =
    flush_page-IsValid write c id (IsReachable-IsValid c r)
IsReachable-IsValid _ (flushed {c} write ids r) =
    flush_ids-IsValid write c ids (IsReachable-IsValid c r)
