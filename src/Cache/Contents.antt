-- ===== src/Cache/Contents.antt =====
-- storage/pagecache.go: which pages are in the cache after Put, Get and Resize, and how many.
use xxldb.Base.{
  ℕ, suc, ◌<◌, ◌≤◌, ◌≡◌, ◌≢◌, refl, ap, ◌∙◌, arith, true, false, Bool-cases, inl, inr, none, some,
  Option-cases, length, length-map,
}
use xxldb.Page.{Page}
use xxldb.Cache.{
  ℤ, pos, PageCache, mem, lookup, keys, replace, evict_lru, reaches, exceeds, is_full, is_over, add,
  put, answer, get, resize, touch_page, size,
}
use xxldb.Cache.Ids.{
  length-erase, length-touch, back-mem, lookup-replace_ne, keys-replace, lookup-replace_self,
}
use xxldb.Cache.Validity.{IsValid, with_max_pages-IsValid}
use xxldb.Cache.Evict.{
  after-cases, Keeps, evict_lru-IsValid, evict_lru-keeps, evict_while-keeps, evict_while-Keeps,
  evict_while-enough,
}
use xxldb.Cache.Steps.{evicted, put-present, put-absent}

-- A page that is found is returned, and nothing leaves or changes.
pub get-lookup : (c : PageCache) (id : ℕ) → (get c id).1 ≡ lookup id c.pages
unfolding get answer
get-lookup c id = elim (Option-cases (lookup id c.pages)) [
  | inl e ↦ rw e refl
  | inr f ↦ rw f.1 refl
]

pub touch_page-pages : (c : PageCache) (id : ℕ) → (touch_page c id).pages ≡ c.pages
unfolding touch_page
touch_page-pages c id = refl

pub lookup-add_self :
    (c : PageCache) (page : Page) → lookup page.header.page_id (add c page).pages ≡ some page
unfolding add lookup
lookup-add_self c page = ground arith

pub lookup-add_ne :
    (c : PageCache) (page : Page) (x : ℕ)
    → x ≢ page.header.page_id
    → lookup x (add c page).pages ≡ lookup x c.pages
unfolding add lookup
lookup-add_ne c page x h = ground arith

-- A Put without an error makes the page the one that Get returns for its id.
pub get-put :
    (c : PageCache) (page : Page)
    → (put c (some page)).1 ≡ none
    → (get (put c (some page)).0 page.header.page_id).1 ≡ some page
get-put c page h = get-lookup (put c (some page)).0 page.header.page_id ∙ found
  where
    found : lookup page.header.page_id (put c (some page)).0.pages ≡ some page
    found = elim (Bool-cases (mem page.header.page_id (keys c.pages))) [
      | inl k ↦
          rw (put-present c page k, touch_page-pages)
            (lookup-replace_self page.header.page_id page c.pages k)
      | inr k ↦ elim (after-cases (evicted c) (add (evicted c).0 page, none)) [
        | inl f ↦ rw (put-absent c page k, f.1) (lookup-add_self (evicted c).0 page)
        | inr f ↦ absurd (ground (arith, f.1, rw (put-absent c page k, f.2) at h))
      ]
    ]

-- Put on a valid cache, with an error or without, loses and changes no dirty page but the one whose
-- id is put.
pub put-dirty_pages :
    (c : PageCache) (page : Page) (x : ℕ)
    → IsValid c
    → mem x c.dirty ≡ true
    → x ≢ page.header.page_id
    → lookup x (put c (some page)).0.pages ≡ lookup x c.pages
put-dirty_pages c page x v d ne = elim (Bool-cases (mem page.header.page_id (keys c.pages))) [
  | inl k ↦
      rw (put-present c page k, touch_page-pages)
        (lookup-replace_ne x page.header.page_id page c.pages ne)
  | inr k ↦ elim (after-cases (evicted c) (add (evicted c).0 page, none)) [
    | inl f ↦
        rw (put-absent c page k, f.1) (lookup-add_ne (evicted c).0 page x ne ∙ kept.dirty_pages x d)
    | inr f ↦ rw (put-absent c page k, f.2) (kept.dirty_pages x d)
  ]
]
  where
    kept : Keeps c (evicted c).0
    kept = evict_while-Keeps is_full (suc (length c.lru)) c v

-- The same of Resize, for every dirty page.
resize-dirty_pages :
    (c : PageCache) (n : ℤ) (x : ℕ)
    → IsValid c
    → mem x c.dirty ≡ true
    → lookup x (resize c n).0.pages ≡ lookup x c.pages
unfolding resize
resize-dirty_pages c n x v d =
    (evict_while-Keeps is_over (suc (length c.lru)) _ (with_max_pages-IsValid c n v)).dirty_pages x
      d

IsSmall : ℕ → PageCache → Type 0
IsSmall n c = IsValid c × (length c.lru ≤ n)

evict_lru-IsSmall : (n : ℕ) (c : PageCache) → IsSmall n c → IsSmall n (evict_lru c).0
unfolding IsSmall
evict_lru-IsSmall n c s = (
  evict_lru-IsValid c s.0,
  evict_lru-keeps (λ d. length d.lru ≤ n) c s.1 (λ id e. omega (arith, length-touch id c.lru, s.1))
      (λ id e h. omega (arith, length-erase id c.lru (back-mem id c.lru e), s.1)),
)

size_lru : (c : PageCache) → IsValid c → size c ≡ length c.lru
unfolding size
size_lru c v = omega (arith, v.same_size, length-map c.pages (λ p. p.0))

not_full : (c : PageCache) (n : ℕ) → c.max_pages ≡ pos n → is_full c ≡ false → length c.pages < n
unfolding is_full reaches
not_full c n e h = ground (arith, rw e at h)

not_over : (c : PageCache) (n : ℕ) → c.max_pages ≡ pos n → is_over c ≡ false → length c.pages ≤ n
unfolding is_over exceeds
not_over c n e h = ground (arith, rw e at h)

-- A valid cache within its limit stays within it, whatever page is put, with an error or without.
put-size :
    (c : PageCache) (page : Page) (n : ℕ)
    → IsValid c
    → c.max_pages ≡ pos n
    → size c ≤ n
    → size (put c (some page)).0 ≤ n
unfolding size IsSmall add touch_page
put-size c page n v e h = elim (Bool-cases (mem page.header.page_id (keys c.pages))) [
  | inl k ↦ rw (put-present c page k) (
      omega (
        arith,
        h,
        length-map c.pages (λ p. p.0),
        length-map (replace page.header.page_id page c.pages) (λ p. p.0),
        ap length (keys-replace page.header.page_id page c.pages),
      ))
  | inr k ↦ elim (after-cases (evicted c) (add (evicted c).0 page, none)) [
    | inl f ↦
        rw (put-absent c page k, f.1)
          (not_full (evicted c).0 n (kept.limit ∙ e)
            (evict_while-enough is_full (suc (length c.lru)) c (omega arith) f.0))
    | inr f ↦ rw (put-absent c page k, f.2) (omega (arith, small.1, size_lru (evicted c).0 small.0))
  ]
]
  where
    kept : Keeps c (evicted c).0
    kept = evict_while-Keeps is_full (suc (length c.lru)) c v

    small : IsSmall n (evicted c).0
    small =
        evict_while-keeps (IsSmall n) (evict_lru-IsSmall n) is_full (suc (length c.lru)) c
          (v, omega (arith, h, size_lru c v))

-- A Resize without an error brings the cache within the new limit.
resize-size :
    (c : PageCache) (n : ℕ)
    → IsValid c
    → (resize c (pos n)).1 ≡ none
    → size (resize c (pos n)).0 ≤ n
unfolding resize size
resize-size c n v h =
    not_over (resize c (pos n)).0 n kept.limit
      (evict_while-enough is_over (suc (length c.lru)) d (omega arith) h)
  where
    d : PageCache
    d = record c { max_pages = pos n }

    kept : Keeps d (resize c (pos n)).0
    kept = evict_while-Keeps is_over (suc (length c.lru)) d (with_max_pages-IsValid c (pos n) v)
