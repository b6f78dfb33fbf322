-- ===== src/Cache/Validity.antt =====
-- storage/pagecache.go: a cache is valid when its list and its map hold the same pages, once each.
use xxldb.Base.{
  ℕ, suc, ◌+◌, ◌%◌, ◌^◌, ◌≡◌, refl, sym, ap, ◌∙◌, arith, false, ◌||◌, Bool-cases, inl, inr, List,
  ◌∷◌, ◌==◌, Option-cases, length,
}
use xxldb.Page.{Page}
use xxldb.Cache.{
  ℤ, PageCache, mem, erase, lookup, delete, replace, keys, touch_page, add, answer, get, mark_dirty,
  clear_dirty, remove, clear, new_page_cache,
}
use xxldb.Cache.Ids.{
  NoDup, same_id, mem-erase_ne, mem-erase_self, NoDup-erase, length-erase, erase_absent, mem-touch,
  NoDup-touch, length-touch, keys-delete, keys-replace,
}

pub record IsValid (c : PageCache) : Type 0 where
  pub keys_unique : NoDup (keys c.pages)
  pub lru_unique : NoDup c.lru
  pub dirty_unique : NoDup c.dirty
  pub same_ids : (x : ℕ) → mem x c.lru ≡ mem x (keys c.pages)
  pub same_size : length c.lru ≡ length (keys c.pages)

pub new_page_cache-IsValid : (max_pages : ℤ) → IsValid (new_page_cache max_pages)
unfolding new_page_cache NoDup mem
new_page_cache-IsValid max_pages = record {
  keys_unique = tt;
  lru_unique = tt;
  dirty_unique = tt;
  same_ids = λ x. refl;
  same_size = refl;
}

pub touch_page-IsValid : (c : PageCache) (id : ℕ) → IsValid c → IsValid (touch_page c id)
unfolding touch_page
touch_page-IsValid c id v = record {
  keys_unique = v.keys_unique;
  lru_unique = NoDup-touch id c.lru v.lru_unique;
  dirty_unique = v.dirty_unique;
  same_ids = λ x. mem-touch x id c.lru ∙ v.same_ids x;
  same_size = length-touch id c.lru ∙ v.same_size;
}

-- A page that leaves the list and the map.
pub drop_page-IsValid :
    (c : PageCache) (id : ℕ)
    → IsValid c
    → IsValid (record c { pages = delete id c.pages; lru = erase id c.lru })
drop_page-IsValid c id v = record {
  keys_unique = rw (keys-delete id c.pages) (NoDup-erase id (keys c.pages) v.keys_unique);
  lru_unique = NoDup-erase id c.lru v.lru_unique;
  dirty_unique = v.dirty_unique;
  same_ids = λ x. rw (keys-delete id c.pages) (ids x);
  same_size = rw (keys-delete id c.pages) sizes;
}
  where
    ids : (x : ℕ) → mem x (erase id c.lru) ≡ mem x (erase id (keys c.pages))
    ids x = elim (Bool-cases (x == id)) [
      | inl e ↦ rw (same_id x id e) (
          mem-erase_self id c.lru v.lru_unique
          ∙ sym (mem-erase_self id (keys c.pages) v.keys_unique))
      | inr e ↦
          mem-erase_ne x id c.lru (λ q. ground (arith, e, q))
          ∙ v.same_ids x
          ∙ sym (mem-erase_ne x id (keys c.pages) (λ q. ground (arith, e, q)))
    ]

    sizes : length (erase id c.lru) ≡ length (erase id (keys c.pages))
    sizes = elim (Bool-cases (mem id c.lru)) [
      | inl h ↦ omega (
        arith,
        v.same_size,
        length-erase id c.lru h,
        length-erase id (keys c.pages) (sym (v.same_ids id) ∙ h),
      )
      | inr h ↦
          rw (erase_absent id c.lru h, erase_absent id (keys c.pages) (sym (v.same_ids id) ∙ h))
            v.same_size
    ]

pub replace-IsValid :
    (c : PageCache) (id : ℕ) (page : Page)
    → IsValid c
    → IsValid (record c { pages = replace id page c.pages })
replace-IsValid c id page v = record {
  keys_unique = rw (keys-replace id page c.pages) v.keys_unique;
  lru_unique = v.lru_unique;
  dirty_unique = v.dirty_unique;
  same_ids = λ x. rw (keys-replace id page c.pages) (v.same_ids x);
  same_size = rw (keys-replace id page c.pages) v.same_size;
}

pub add-IsValid :
    (c : PageCache) (page : Page)
    → mem page.header.page_id (keys c.pages) ≡ false
    → IsValid c
    → IsValid (add c page)
unfolding add NoDup mem
add-IsValid c page h v = record {
  keys_unique = (h, v.keys_unique);
  lru_unique = (v.same_ids page.header.page_id ∙ h, v.lru_unique);
  dirty_unique = v.dirty_unique;
  same_ids = λ x. ap (λ b. x == page.header.page_id || b) (v.same_ids x);
  same_size = ap suc v.same_size;
}

-- The flags and the counters are apart from the pages.
with_dirty-IsValid :
    (c : PageCache) (ids : List ℕ) → NoDup ids → IsValid c → IsValid (record c { dirty = ids })
with_dirty-IsValid c ids d v = record {
  keys_unique = v.keys_unique;
  lru_unique = v.lru_unique;
  dirty_unique = d;
  same_ids = v.same_ids;
  same_size = v.same_size;
}

pub with_max_pages-IsValid :
    (c : PageCache) (n : ℤ) → IsValid c → IsValid (record c { max_pages = n })
with_max_pages-IsValid c n v = record {
  keys_unique = v.keys_unique;
  lru_unique = v.lru_unique;
  dirty_unique = v.dirty_unique;
  same_ids = v.same_ids;
  same_size = v.same_size;
}

pub get-IsValid : (c : PageCache) (id : ℕ) → IsValid c → IsValid (get c id).0
unfolding get answer
get-IsValid c id v = elim (Option-cases (lookup id c.pages)) [
  | inl e ↦ rw e (counted c c.hits ((c.misses + 1) % 2 ^ 64) v)
  | inr f ↦ rw f.1 (touch_page-IsValid _ id (counted c ((c.hits + 1) % 2 ^ 64) c.misses v))
]
  where
    counted :
        (c : PageCache) (hits misses : ℕ)
        → IsValid c
        → IsValid (record c { hits = hits; misses = misses })
    counted c hits misses v = record {
      keys_unique = v.keys_unique;
      lru_unique = v.lru_unique;
      dirty_unique = v.dirty_unique;
      same_ids = v.same_ids;
      same_size = v.same_size;
    }

pub mark_dirty-IsValid : (c : PageCache) (id : ℕ) → IsValid c → IsValid (mark_dirty c id)
unfolding mark_dirty NoDup
mark_dirty-IsValid c id v = elim (Bool-cases (mem id c.dirty)) [
  | inl h ↦ rw h v
  | inr h ↦ rw h (with_dirty-IsValid c (id ∷ c.dirty) (h, v.dirty_unique) v)
]

pub clear_dirty-IsValid : (c : PageCache) (id : ℕ) → IsValid c → IsValid (clear_dirty c id)
unfolding clear_dirty
clear_dirty-IsValid c id v =
    with_dirty-IsValid c (erase id c.dirty) (NoDup-erase id c.dirty v.dirty_unique) v

pub remove-IsValid : (c : PageCache) (id : ℕ) → IsValid c → IsValid (remove c id)
unfolding remove
remove-IsValid c id v =
    with_dirty-IsValid _ (erase id c.dirty) (NoDup-erase id c.dirty v.dirty_unique)
      (drop_page-IsValid c id v)

pub clear-IsValid : (c : PageCache) → IsValid c → IsValid (clear c)
unfolding clear NoDup mem
clear-IsValid c v = record {
  keys_unique = tt;
  lru_unique = tt;
  dirty_unique = tt;
  same_ids = λ x. refl;
  same_size = refl;
}
