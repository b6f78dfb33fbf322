-- ===== src/Cache.antt =====
-- storage/pagecache.go: the LRU page cache. A map is an association list without order. lruMap says
-- where a page's element is in lruList, so the list of page ids, the front first, stands for both;
-- the page that an element also holds is never read.
pub mod Ids
pub mod Validity
pub mod Evict
pub mod Steps
pub mod Contents
pub mod Recency
pub mod Lookups
pub mod Flush
mod Runs
use xxldb.Base.{
  ℕ, zero, suc, ◌+◌, ◌%◌, ◌^◌, Bool, true, false, not, ◌||◌, Option, none, some, List, [], ◌∷◌, ltb,
  leb, ◌==◌, if◌then◌else◌, length, map,
}
use xxldb.Page.{Page}

-- An int.
pub data ℤ : Type 0 where
  pos negsuc : ℕ → ℤ

pub data Error : Type 0 where
  nil_page no_pages cannot_evict_dirty write_failed : Error

pub record PageCache : Type 0 where
  pub max_pages : ℤ
  pub pages : List (ℕ × Page)
  pub lru : List ℕ
  pub dirty : List ℕ
  pub hits : ℕ
  pub misses : ℕ

-- An operation's new state, and its error.
abbrev pub Outcome : Type 0
Outcome = PageCache × Option Error

-- Ids in a list, and the operations of container/list on an element known by its id.
unfoldable pub mem : ℕ → List ℕ → Bool
mem id [] = false
mem id (x ∷ xs) = id == x || mem id xs

unfoldable pub erase : ℕ → List ℕ → List ℕ
erase id [] = []
erase id (x ∷ xs) = let rest = erase id xs in if id == x then xs else x ∷ rest

unfoldable pub back : List ℕ → Option ℕ
back [] = none
back (x ∷ []) = some x
back (x ∷ y ∷ xs) = back (y ∷ xs)

unfoldable pub lookup : ℕ → List (ℕ × Page) → Option Page
lookup id [] = none
lookup id (p ∷ pages) = let rest = lookup id pages in if id == p.0 then some p.1 else rest

unfoldable pub delete : ℕ → List (ℕ × Page) → List (ℕ × Page)
delete id [] = []
delete id (p ∷ pages) = let rest = delete id pages in if id == p.0 then pages else p ∷ rest

-- An assignment to a key that is there.
unfoldable pub replace : ℕ → Page → List (ℕ × Page) → List (ℕ × Page)
replace id page [] = []
replace id page (p ∷ pages) =
    let rest = replace id page pages in if id == p.0 then (id, page) ∷ pages else p ∷ rest

abbrev pub keys : List (ℕ × Page) → List ℕ
keys pages = map (λ p. p.0) pages

pub new_page_cache : ℤ → PageCache
new_page_cache max_pages = record {
  max_pages = max_pages;
  pages = [];
  lru = [];
  dirty = [];
  hits = 0;
  misses = 0;
}

unfoldable pub touch : ℕ → List ℕ → List ℕ
touch id lru = if mem id lru then id ∷ erase id lru else lru

unfoldable pub touch_page : PageCache → ℕ → PageCache
touch_page c id = record c { lru = touch id c.lru }

unfoldable pub answer : PageCache → ℕ → Option Page → PageCache × Option Page
answer c id none = (record c { misses = (c.misses + 1) % 2 ^ 64 }, none)
answer c id (some page) = (touch_page (record c { hits = (c.hits + 1) % 2 ^ 64 }) id, some page)

unfoldable pub get : PageCache → ℕ → PageCache × Option Page
get c id = answer c id (lookup id c.pages)

evict_back : PageCache → Option ℕ → Outcome
evict_back c none = (c, some no_pages)
evict_back c (some id) =
    if mem id c.dirty
    then (record c { lru = touch id c.lru }, some cannot_evict_dirty)
    else (record c { pages = delete id c.pages; lru = erase id c.lru }, none)

pub evict_lru : PageCache → Outcome
evict_lru c = evict_back c (back c.lru)

-- What follows a call, where it returned no error.
pub after : Outcome → Outcome → Outcome
after (c, none) rest = rest
after (c, some e) rest = (c, some e)

-- `for over(c) { evictLRU }`, with fuel: an element leaves the list in every round.
pub evict_while : (PageCache → Bool) → ℕ → PageCache → Outcome
evict_while over zero c = (c, none)
evict_while over (suc fuel) c =
    let next = evict_lru c in
    let rest = evict_while over fuel next.0 in if over c then after next rest else (c, none)

-- `len(c.pages) >= MaxPages`, and `>`.
reaches : ℕ → ℤ → Bool
reaches n (pos limit) = leb limit n
reaches n (negsuc k) = true

exceeds : ℕ → ℤ → Bool
exceeds n (pos limit) = ltb limit n
exceeds n (negsuc k) = true

pub is_full : PageCache → Bool
is_full c = reaches (length c.pages) c.max_pages

pub is_over : PageCache → Bool
is_over c = exceeds (length c.pages) c.max_pages

abbrev pub fuel_of : PageCache → ℕ
fuel_of c = suc (length c.lru)

pub add : PageCache → Page → PageCache
add c page =
    let id = page.header.page_id in record c { pages = (id, page) ∷ c.pages; lru = id ∷ c.lru }

unfoldable pub put : PageCache → Option Page → Outcome
put c none = (c, some nil_page)
put c (some page) =
    let id = page.header.page_id in
    if mem id (keys c.pages)
    then (touch_page (record c { pages = replace id page c.pages }) id, none)
    else (let r = evict_while is_full (fuel_of c) c in after r (add r.0 page, none))

pub mark_dirty : PageCache → ℕ → PageCache
mark_dirty c id = if mem id c.dirty then c else record c { dirty = id ∷ c.dirty }

pub is_dirty : PageCache → ℕ → Bool
is_dirty c id = mem id c.dirty

pub clear_dirty : PageCache → ℕ → PageCache
clear_dirty c id = record c { dirty = erase id c.dirty }

pub remove : PageCache → ℕ → PageCache
remove c id = record c { pages = delete id c.pages; lru = erase id c.lru; dirty = erase id c.dirty }

pub clear : PageCache → PageCache
clear c = record c { pages = []; lru = []; dirty = [] }

pub size : PageCache → ℕ
size c = length c.pages

pub resize : PageCache → ℤ → Outcome
resize c max_pages = let d = record c { max_pages = max_pages } in evict_while is_over (fuel_of d) d

-- The write function by its result: true where it succeeds.
module _ (write : Page → Bool) where
  -- The page is written and its flag cleared; the flag of a page that is not there is dropped.
  pub flush_found : PageCache → ℕ → Option Page → Outcome
  flush_found c id none = (clear_dirty c id, none)
  flush_found c id (some page) =
      if write page then (clear_dirty c id, none) else (c, some write_failed)

  pub flush_dirty : PageCache → ℕ → Outcome
  flush_dirty c id = flush_found c id (lookup id c.pages)

  pub flush_page : PageCache → ℕ → Outcome
  flush_page c id = if mem id c.dirty then flush_dirty c id else (c, none)

  -- The range over the dirty map, in the order `ids`.
  pub flush_ids : PageCache → List ℕ → Outcome
  flush_ids c [] = (c, none)
  flush_ids c (id ∷ ids) =
      let next = flush_dirty c id in let rest = flush_ids next.0 ids in after next rest
