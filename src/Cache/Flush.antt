-- ===== src/Cache/Flush.antt =====
-- storage/pagecache.go: Flush and FlushPage.
use xxldb.Base.{
  ℕ, ◌≡◌, refl, ◌∙◌, arith, Bool, true, false, Bool-cases, inl, inr, Option, none, some, List, [],
  ◌∷◌, ◌==◌, ◌⊎◌,
}
use xxldb.Page.{Page}
use xxldb.Cache.{PageCache, mem, erase, lookup, clear_dirty, flush_found, flush_dirty, flush_ids}
use xxldb.Cache.Ids.{same_id, mem-erase_ne, mem-erase_self, erase_absent}
use xxldb.Cache.Validity.{IsValid}
use xxldb.Cache.Evict.{after-cases}
use xxldb.Cache.Steps.{flush_dirty-IsValid}

module _ (write : Page → Bool) where
  -- The page was written without an error, or is not in the cache.
  unfoldable pub IsSaved : PageCache → ℕ → Type 0
  IsSaved c x =
      (lookup x c.pages ≡ none)
      ⊎ ((page : Page) × (lookup x c.pages ≡ some page) × (write page ≡ true))

  -- One page: nothing but its flag changes, and that only when it is saved.
  record Flushes (c d : PageCache) : Type 0 where
    same_pages : d.pages ≡ c.pages
    same_lru : d.lru ≡ c.lru
    saved : (x : ℕ) → mem x c.dirty ≡ true → mem x d.dirty ≡ false → IsSaved c x
    no_flag : (x : ℕ) → mem x c.dirty ≡ false → mem x d.dirty ≡ false

  Flushes-refl : (c : PageCache) → Flushes c c
  Flushes-refl c = record {
    same_pages = refl;
    same_lru = refl;
    saved = λ x h k. absurd (ground (arith, h, k));
    no_flag = λ x h. h;
  }

  cleared-Flushes : (c : PageCache) (id : ℕ) → IsSaved c id → Flushes c (clear_dirty c id)
  unfolding clear_dirty
  cleared-Flushes c id s = record {
    same_pages = refl;
    same_lru = refl;
    saved = λ x h k. at_id x h k;
    no_flag = λ x h. absent x h;
  }
    where
      at_id : (x : ℕ) → mem x c.dirty ≡ true → mem x (erase id c.dirty) ≡ false → IsSaved c x
      at_id x h k = elim (Bool-cases (x == id)) [
        | inl e ↦ rw (same_id x id e) s
        | inr e ↦
            absurd (ground (arith, h, k, mem-erase_ne x id c.dirty (λ q. ground (arith, e, q))))
      ]

      absent : (x : ℕ) → mem x c.dirty ≡ false → mem x (erase id c.dirty) ≡ false
      absent x h = elim (Bool-cases (x == id)) [
        | inl e ↦ rw (erase_absent id c.dirty (rw (same_id x id e) at h)) h
        | inr e ↦ mem-erase_ne x id c.dirty (λ q. ground (arith, e, q)) ∙ h
      ]

  flush_found-Flushes :
      (c : PageCache) (id : ℕ) (o : Option Page)
      → lookup id c.pages ≡ o
      → Flushes c (flush_found write c id o).0
  unfolding flush_found IsSaved
  flush_found-Flushes c id none e = cleared-Flushes c id (inl e)
  flush_found-Flushes c id (some page) e = elim (Bool-cases (write page)) [
    | inl w ↦ rw w (cleared-Flushes c id (inr (page, e, w)))
    | inr w ↦ rw w (Flushes-refl c)
  ]

  flush_dirty-Flushes : (c : PageCache) (id : ℕ) → Flushes c (flush_dirty write c id).0
  unfolding flush_dirty
  flush_dirty-Flushes c id = flush_found-Flushes c id (lookup id c.pages) refl

  Flushes-trans : (c d e : PageCache) → Flushes c d → Flushes d e → Flushes c e
  unfolding IsSaved
  Flushes-trans c d e p q = record {
    same_pages = q.same_pages ∙ p.same_pages;
    same_lru = q.same_lru ∙ p.same_lru;
    saved = λ x h k. elim (Bool-cases (mem x d.dirty)) [
      | inl m ↦ rw p.same_pages at q.saved x m k
      | inr m ↦ p.saved x h m
    ];
    no_flag = λ x h. q.no_flag x (p.no_flag x h);
  }

  flush_ids-Flushes : (c : PageCache) (ids : List ℕ) → Flushes c (flush_ids write c ids).0
  unfolding flush_ids
  flush_ids-Flushes c [] = Flushes-refl c
  flush_ids-Flushes c (id ∷ ids) =
      elim (after-cases (flush_dirty write c id) (flush_ids write (flush_dirty write c id).0 ids)) [
        | inl f ↦ rw f.1 (
            Flushes-trans c (flush_dirty write c id).0
              (flush_ids write (flush_dirty write c id).0 ids).0 (flush_dirty-Flushes c id)
              (flush_ids-Flushes (flush_dirty write c id).0 ids))
        | inr f ↦ rw f.2 (flush_dirty-Flushes c id)
      ]

  flush_found-done :
      (c : PageCache) (id : ℕ) (o : Option Page)
      → IsValid c
      → (flush_found write c id o).1 ≡ none
      → mem id (flush_found write c id o).0.dirty ≡ false
  unfolding flush_found clear_dirty
  flush_found-done c id none v h = mem-erase_self id c.dirty v.dirty_unique
  flush_found-done c id (some page) v h = elim (Bool-cases (write page)) [
    | inl w ↦ rw w (mem-erase_self id c.dirty v.dirty_unique)
    | inr w ↦ absurd (ground (arith, rw w at h))
  ]

  flush_dirty-done :
      (c : PageCache) (id : ℕ)
      → IsValid c
      → (flush_dirty write c id).1 ≡ none
      → mem id (flush_dirty write c id).0.dirty ≡ false
  unfolding flush_dirty
  flush_dirty-done c id v h = flush_found-done c id (lookup id c.pages) v h

  visited_clean :
      (c : PageCache) (ids : List ℕ) (x : ℕ)
      → IsValid c
      → (flush_ids write c ids).1 ≡ none
      → mem x ids ≡ true
      → mem x (flush_ids write c ids).0.dirty ≡ false
  unfolding flush_ids mem
  visited_clean c [] x v h m = absurd (ground (arith, m))
  visited_clean c (id ∷ ids) x v h m =
      elim (after-cases (flush_dirty write c id) (flush_ids write (flush_dirty write c id).0 ids)) [
        | inr f ↦ absurd (ground (arith, f.1, rw f.2 at h))
        | inl f ↦ rw f.1 (elim (Bool-cases (x == id)) [
          | inl e ↦
              (flush_ids-Flushes (flush_dirty write c id).0 ids).no_flag x
                (rw (same_id x id e) (flush_dirty-done c id v f.0))
          | inr e ↦
              visited_clean (flush_dirty write c id).0 ids x (flush_dirty-IsValid write c id v)
                (rw f.1 at h) (rw e at m)
        ])
      ]

  -- A Flush of a valid cache that meets every dirty page and reports no error leaves none dirty.
  flush_ids-clean :
      (c : PageCache) (ids : List ℕ) (x : ℕ)
      → IsValid c
      → ((y : ℕ) → mem y c.dirty ≡ true → mem y ids ≡ true)
      → (flush_ids write c ids).1 ≡ none
      → mem x (flush_ids write c ids).0.dirty ≡ false
  flush_ids-clean c ids x v all h = elim (Bool-cases (mem x c.dirty)) [
    | inl m ↦ visited_clean c ids x v h (all x m)
    | inr m ↦ (flush_ids-Flushes c ids).no_flag x m
  ]
