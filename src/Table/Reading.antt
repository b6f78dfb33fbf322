-- ===== src/Table/Reading.antt =====
-- storage/tablefile.go: readPageNoLock keeps the cache and the file in agreement.
use xxldb.Base.{
  ℕ, ◌<◌, ◌≡◌, refl, sym, ap, arith, Bool-cases, inl, inr, Option, none, some, List, ◌==◌,
  Option-cases, Result, ok, err, panic,
}
use mathlib.Core.Path.{subst}
use xxldb.Page
use xxldb.Page.{Page, from_bytes}
use xxldb.Cache.{lookup, get, put}
use xxldb.Cache.Validity.{get-IsValid}
use xxldb.Cache.Steps.{put-IsValid}
use xxldb.Cache.Ids.{same_id}
use xxldb.Cache.Lookups.{lookup-put_self, lookup-put_ne, get-pages}
use xxldb.Table.{State, and_then, keep, in_page, parse_block, read_block, read_page_no_lock}
use xxldb.Table.Coherence.{
  max_page_id, block_of-small, IsStored, IsCoherent, SamePage-refl, read_page_no_lock-cached,
  read_page_no_lock-absent,
}

-- A lookup that finds something finds it in the same pages.
got-IsCoherent :
    (s : State) (id : ℕ) → IsCoherent s → IsCoherent (record s { cache = (get s.cache id).0 })
got-IsCoherent s id c = record {
  valid = get-IsValid s.cache id c.valid;
  numbered = c.numbered;
  cached = λ x p h. c.cached x p (rw get-pages at h);
}

-- A page from the file is put into the cache.
keep-IsCoherent :
    (s : State) (id : ℕ) (bs : List ℕ) (q : Page)
    → IsCoherent s
    → 0 < id
    → id < max_page_id
    → s.table.blocks id ≡ some bs
    → from_bytes bs ≡ ok q
    → IsCoherent (keep q s).0
keep-IsCoherent s id bs q c pos own b e = record {
  valid = put-IsValid s.cache (some q) c.valid;
  numbered = c.numbered;
  cached = pages;
}
  where
    stored : (q.page_id < max_page_id) × IsStored s.table.blocks q.page_id q
    stored =
        subst (λ i. (i < max_page_id) × IsStored s.table.blocks i q)
          (sym (c.numbered id bs q pos own b e))
          (own, record { block = bs; read = q; at_id = b; parsed = e; same = SamePage-refl q })

    pages :
        (x : ℕ) (r : Page)
        → lookup x (put s.cache (some q)).0.pages ≡ some r
        → (x < max_page_id) × IsStored s.table.blocks x r
    pages x r h = elim (Bool-cases (x == q.page_id)) [
      | inr k ↦ c.cached x r (lookup-put_ne s.cache q r x c.valid (λ i. ground (arith, k, i)) h)
      | inl k ↦ elim (lookup-put_self s.cache q c.valid) [
        | inl o ↦
            subst (λ i. (i < max_page_id) × IsStored s.table.blocks i r)
              (sym (same_id x q.page_id k))
              (subst (λ p. (q.page_id < max_page_id) × IsStored s.table.blocks q.page_id p)
                (cc
                  (o, h, ap (λ i. lookup i (put s.cache (some q)).0.pages) (same_id x q.page_id k)))
                stored)
        | inr o ↦
            absurd
              (cc (o, h, ap (λ i. lookup i (put s.cache (some q)).0.pages) (same_id x q.page_id k)))
      ]
    ]

parsed-IsCoherent :
    (s : State) (id : ℕ) (bs : List ℕ) (r : Result Page.Error Page)
    → IsCoherent s
    → 0 < id
    → id < max_page_id
    → s.table.blocks id ≡ some bs
    → from_bytes bs ≡ r
    → IsCoherent (and_then (in_page r s) keep).0
unfolding in_page and_then
parsed-IsCoherent s id bs (ok q) c pos own b e = keep-IsCoherent s id bs q c pos own b e
parsed-IsCoherent s id bs (err x) c pos own b e = c
parsed-IsCoherent s id bs panic c pos own b e = c

block-IsCoherent :
    (s : State) (id : ℕ) (o : Option (List ℕ))
    → IsCoherent s
    → 0 < id
    → id < max_page_id
    → s.table.blocks id ≡ o
    → IsCoherent (parse_block id o s).0
unfolding parse_block
block-IsCoherent s id none c pos own b = c
block-IsCoherent s id (some bs) c pos own b =
    parsed-IsCoherent s id bs (from_bytes bs) c pos own b refl

read_block-IsCoherent :
    (s : State) (id : ℕ) → IsCoherent s → 0 < id → id < max_page_id → IsCoherent (read_block id s).0
unfolding read_block
read_block-IsCoherent s id c pos own =
    rw (block_of-small id own) (block-IsCoherent s id (s.table.blocks id) c pos own refl)

-- readPageNoLock of a data page of an id below 2^49, whether it fails or not, keeps the cache and the file in agreement.
read_page_no_lock-IsCoherent :
    (s : State) (id : ℕ)
    → IsCoherent s
    → 0 < id
    → id < max_page_id
    → IsCoherent (read_page_no_lock id s).0
read_page_no_lock-IsCoherent s id c pos own = elim (Option-cases (get s.cache id).1) [
  | inr f ↦ rw (read_page_no_lock-cached s id f.0 f.1) (got-IsCoherent s id c)
  | inl n ↦
      rw (read_page_no_lock-absent s id n)
        (read_block-IsCoherent _ id (got-IsCoherent s id c) pos own)
]
