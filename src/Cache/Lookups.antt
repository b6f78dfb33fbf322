-- ===== src/Cache/Lookups.antt =====
-- storage/pagecache.go: every page that a cache holds after Put and Get.
use xxldb.Base.{ℕ, ◌≡◌, ◌≢◌, refl, sym, ◌∙◌, Bool-cases, inl, inr, ◌⊎◌, none, some, Option-cases}
use xxldb.Page.{Page}
use xxldb.Cache.{
  PageCache, mem, lookup, keys, put, add, answer, get, clear_dirty, is_full, touch_page,
}
use xxldb.Cache.Ids.{lookup-replace_ne, lookup-replace_self, lookup_absent}
use xxldb.Cache.Validity.{IsValid}
use xxldb.Cache.Evict.{after-cases, Keeps, evict_while-Keeps}
use xxldb.Cache.Steps.{evicted, put-present, put-absent, absent-evicted}
use xxldb.Cache.Contents.{lookup-add_self, lookup-add_ne, touch_page-pages}

-- The page that was put is there, or none is under its id.
pub lookup-put_self :
    (c : PageCache) (page : Page)
    → IsValid c
    → (lookup page.header.page_id (put c (some page)).0.pages ≡ some page)
      ⊎ (lookup page.header.page_id (put c (some page)).0.pages ≡ none)
lookup-put_self c page v = elim (Bool-cases (mem page.header.page_id (keys c.pages))) [
  | inl k ↦ inl (
      rw (put-present c page k, touch_page-pages)
        (lookup-replace_self page.header.page_id page c.pages k))
  | inr k ↦ elim (after-cases (evicted c) (add (evicted c).0 page, none)) [
    | inl f ↦ inl (rw (put-absent c page k, f.1) (lookup-add_self (evicted c).0 page))
    | inr f ↦ inr (
        rw (put-absent c page k, f.2)
          (lookup_absent page.header.page_id (evicted c).0.pages
            (absent-evicted c page.header.page_id v k)))
  ]
]

-- Every other page was there before.
pub lookup-put_ne :
    (c : PageCache) (page q : Page) (x : ℕ)
    → IsValid c
    → x ≢ page.header.page_id
    → lookup x (put c (some page)).0.pages ≡ some q
    → lookup x c.pages ≡ some q
lookup-put_ne c page q x v ne h = elim (Bool-cases (mem page.header.page_id (keys c.pages))) [
  | inl k ↦
      sym (lookup-replace_ne x page.header.page_id page c.pages ne)
      ∙ (rw (put-present c page k, touch_page-pages) at h)
  | inr k ↦ elim (after-cases (evicted c) (add (evicted c).0 page, none)) [
    | inl f ↦
        kept.no_new x q
          (sym (lookup-add_ne (evicted c).0 page x ne) ∙ (rw (put-absent c page k, f.1) at h))
    | inr f ↦ kept.no_new x q (rw (put-absent c page k, f.2) at h)
  ]
]
  where
    kept : Keeps c (evicted c).0
    kept = evict_while-Keeps is_full _ c v

pub get-pages : (c : PageCache) (id : ℕ) → (get c id).0.pages ≡ c.pages
unfolding get answer touch_page
get-pages c id = elim (Option-cases (lookup id c.pages)) [ inl e ↦ rw e refl | inr f ↦ rw f.1 refl ]

pub clear_dirty-pages : (c : PageCache) (id : ℕ) → (clear_dirty c id).pages ≡ c.pages
unfolding clear_dirty
clear_dirty-pages c id = refl
