-- ===== src/Cache/Evict.antt =====
-- storage/pagecache.go: evictLRU and the loops around it.
use xxldb.Base.{
  ℕ, zero, suc, ◌<◌, ◌≡◌, refl, sym, ◌∙◌, arith, Bool, true, false, Bool-cases, inl, inr, none,
  some, List, ◌==◌, Option-cases, ◌⊎◌, length,
}
use xxldb.Page.{Page}
use xxldb.Cache.{
  Error, no_pages, cannot_evict_dirty, PageCache, Outcome, mem, erase, back, lookup, delete, keys,
  touch, after, evict_back, evict_lru, evict_while,
}
use xxldb.Cache.Ids.{
  NoDup, same_id, mem-erase_self, length-erase, mem-touch, NoDup-touch, length-touch, back-mem,
  keys-delete, lookup-delete_ne, lookup_absent,
}
use xxldb.Cache.Validity.{IsValid, drop_page-IsValid}

pub after-cases :
    (r rest : Outcome)
    → ((r.1 ≡ none) × (after r rest ≡ rest)) ⊎ ((e : Error) × (r.1 ≡ some e) × (after r rest ≡ r))
unfolding after
after-cases (c, none) rest = inl (refl, refl)
after-cases (c, some e) rest = inr (e, refl, refl)

-- What evictLRU does, by the element at the back.
evict_lru-empty : (c : PageCache) → back c.lru ≡ none → evict_lru c ≡ (c, some no_pages)
unfolding evict_lru evict_back
evict_lru-empty c e = rw e refl

pub evict_lru-dirty :
    (c : PageCache) (id : ℕ)
    → back c.lru ≡ some id
    → mem id c.dirty ≡ true
    → evict_lru c ≡ (record c { lru = touch id c.lru }, some cannot_evict_dirty)
unfolding evict_lru evict_back
evict_lru-dirty c id e h = rw (e, h) refl

pub evict_lru-clean :
    (c : PageCache) (id : ℕ)
    → back c.lru ≡ some id
    → mem id c.dirty ≡ false
    → evict_lru c ≡ (record c { pages = delete id c.pages; lru = erase id c.lru }, none)
unfolding evict_lru evict_back
evict_lru-clean c id e h = rw (e, h) refl

-- A property that all three cases keep.
pub evict_lru-keeps {ℓ} :
    (P : PageCache → Type ℓ) (c : PageCache)
    → P c
    → ((id : ℕ) → back c.lru ≡ some id → P (record c { lru = touch id c.lru }))
    → ((id : ℕ)
        → back c.lru ≡ some id
        → mem id c.dirty ≡ false
        → P (record c { pages = delete id c.pages; lru = erase id c.lru }))
    → P (evict_lru c).0
evict_lru-keeps P c p moved gone = elim (Option-cases (back c.lru)) [
  | inl e ↦ rw (evict_lru-empty c e) p
  | inr f ↦ elim (Bool-cases (mem f.0 c.dirty)) [
    | inl h ↦ rw (evict_lru-dirty c f.0 f.1 h) (moved f.0 f.1)
    | inr h ↦ rw (evict_lru-clean c f.0 f.1 h) (gone f.0 f.1 h)
  ]
]

pub evict_lru-IsValid : (c : PageCache) → IsValid c → IsValid (evict_lru c).0
evict_lru-IsValid c v =
    evict_lru-keeps IsValid c v (λ id e. touch_valid c id v) (λ id e h. drop_page-IsValid c id v)
  where
    touch_valid : (c : PageCache) (id : ℕ) → IsValid c → IsValid (record c { lru = touch id c.lru })
    touch_valid c id v = record {
      keys_unique = v.keys_unique;
      lru_unique = NoDup-touch id c.lru v.lru_unique;
      dirty_unique = v.dirty_unique;
      same_ids = λ x. mem-touch x id c.lru ∙ v.same_ids x;
      same_size = length-touch id c.lru ∙ v.same_size;
    }

-- What an eviction keeps: the flags, the limit, the counters and every dirty page; and no page
-- appears or changes.
pub record Keeps (c d : PageCache) : Type 0 where
  pub flags : d.dirty ≡ c.dirty
  pub limit : d.max_pages ≡ c.max_pages
  pub dirty_pages : (x : ℕ) → mem x c.dirty ≡ true → lookup x d.pages ≡ lookup x c.pages
  pub no_new : (x : ℕ) (page : Page) → lookup x d.pages ≡ some page → lookup x c.pages ≡ some page

pub Keeps-refl : (c : PageCache) → Keeps c c
Keeps-refl c = record {
  flags = refl;
  limit = refl;
  dirty_pages = λ x h. refl;
  no_new = λ x page e. e;
}

delete_self :
    (x : ℕ) (pages : List (ℕ × Page)) → NoDup (keys pages) → lookup x (delete x pages) ≡ none
delete_self x pages d =
    lookup_absent x (delete x pages) (rw (keys-delete x pages) (mem-erase_self x (keys pages) d))

evict_lru-Keeps : (c : PageCache) → IsValid c → Keeps c (evict_lru c).0
evict_lru-Keeps c v = evict_lru-keeps (Keeps c) c (Keeps-refl c) (λ id e. moved id) gone
  where
    moved : (id : ℕ) → Keeps c (record c { lru = touch id c.lru })
    moved id = record {
      flags = refl;
      limit = refl;
      dirty_pages = λ x h. refl;
      no_new = λ x page e. e;
    }

    none_here : (id x : ℕ) → x ≡ id → lookup x (delete id c.pages) ≡ none
    none_here id x r = rw r (delete_self id c.pages v.keys_unique)

    found :
        (id x : ℕ) (page : Page)
        → lookup x (delete id c.pages) ≡ some page
        → lookup x c.pages ≡ some page
    found id x page e = elim (Bool-cases (x == id)) [
      | inl q ↦ absurd (ground (arith, e, none_here id x (same_id x id q)))
      | inr q ↦ sym (lookup-delete_ne x id c.pages (λ r. ground (arith, q, r))) ∙ e
    ]

    gone :
        (id : ℕ)
        → back c.lru ≡ some id
        → mem id c.dirty ≡ false
        → Keeps c (record c { pages = delete id c.pages; lru = erase id c.lru })
    gone id e h = record {
      flags = refl;
      limit = refl;
      dirty_pages = λ x k. lookup-delete_ne x id c.pages (λ r. other x r k);
      no_new = found id;
    }
      where
        other : (x : ℕ) → x ≡ id → mem x c.dirty ≡ true → ⊥
        other x r k = ground (arith, h, rw r at k)

-- A property that every eviction keeps is kept by the loop.
pub evict_while-keeps {ℓ} :
    (P : PageCache → Type ℓ)
    → ((c : PageCache) → P c → P (evict_lru c).0)
    → (over : PageCache → Bool) (fuel : ℕ) (c : PageCache) → P c
    → P (evict_while over fuel c).0
unfolding evict_while
evict_while-keeps P step over zero c p = p
evict_while-keeps P step over (suc fuel) c p = elim (Bool-cases (over c)) [
  | inr e ↦ rw e p
  | inl e ↦ elim (after-cases (evict_lru c) (evict_while over fuel (evict_lru c).0)) [
    | inl f ↦ rw (e, f.1) (evict_while-keeps P step over fuel (evict_lru c).0 (step c p))
    | inr f ↦ rw (e, f.2) (step c p)
  ]
]

pub evict_while-IsValid :
    (over : PageCache → Bool) (fuel : ℕ) (c : PageCache)
    → IsValid c
    → IsValid (evict_while over fuel c).0
evict_while-IsValid over fuel c v = evict_while-keeps IsValid evict_lru-IsValid over fuel c v

pub Keeps-trans : (c d e : PageCache) → Keeps c d → Keeps d e → Keeps c e
Keeps-trans c d e p q = record {
  flags = q.flags ∙ p.flags;
  limit = q.limit ∙ p.limit;
  dirty_pages = λ x h. q.dirty_pages x (rw p.flags h) ∙ p.dirty_pages x h;
  no_new = λ x page f. p.no_new x page (q.no_new x page f);
}

pub evict_while-Keeps :
    (over : PageCache → Bool) (fuel : ℕ) (c : PageCache)
    → IsValid c
    → Keeps c (evict_while over fuel c).0
evict_while-Keeps over fuel c v =
    (evict_while-keeps (λ d. IsValid d × Keeps c d) step over fuel c (v, Keeps-refl c)).1
  where
    step :
        (d : PageCache) → IsValid d × Keeps c d → IsValid (evict_lru d).0 × Keeps c (evict_lru d).0
    step d p =
        (evict_lru-IsValid d p.0, Keeps-trans c d (evict_lru d).0 p.1 (evict_lru-Keeps d p.0))

-- An eviction without an error takes the page at the back.
evict_lru-length :
    (c : PageCache) → (evict_lru c).1 ≡ none → suc (length (evict_lru c).0.lru) ≡ length c.lru
evict_lru-length c h = elim (Option-cases (back c.lru)) [
  | inl e ↦ absurd (ground (arith, h, evict_lru-empty c e))
  | inr f ↦ elim (Bool-cases (mem f.0 c.dirty)) [
    | inl k ↦ absurd (ground (arith, h, evict_lru-dirty c f.0 f.1 k))
    | inr k ↦ rw (evict_lru-clean c f.0 f.1 k) (length-erase f.0 c.lru (back-mem f.0 c.lru f.1))
  ]
]

-- The fuel is enough: a loop that reports no error has come to its end.
pub evict_while-enough :
    (over : PageCache → Bool) (fuel : ℕ) (c : PageCache)
    → length c.lru < fuel
    → (evict_while over fuel c).1 ≡ none
    → over (evict_while over fuel c).0 ≡ false
unfolding evict_while
evict_while-enough over zero c h k = absurd (omega arith)
evict_while-enough over (suc fuel) c h k = elim (Bool-cases (over c)) [
  | inr e ↦ rw e e
  | inl e ↦ elim (after-cases (evict_lru c) (evict_while over fuel (evict_lru c).0)) [
    | inl f ↦
        rw (e, f.1)
          (evict_while-enough over fuel (evict_lru c).0 (omega (arith, evict_lru-length c f.0))
            (rw (e, f.1) at k))
    | inr f ↦ absurd (ground (arith, f.1, rw (e, f.2) at k))
  ]
]
