-- ===== src/Table/Writing.antt =====
-- storage/tablefile.go: writePage keeps the cache and the file in agreement.
use xxldb.Base.{
  ℕ, ◌<◌, ◌≡◌, ◌≢◌, refl, sym, ap, ◌∙◌, arith, Bool-cases, inl, inr, Option, some, List, ◌==◌, ok,
}
use mathlib.Core.Path.{subst}
use xxldb.Value.{Runtime}
use xxldb.Page.{Page, update_checksum, to_bytes, from_bytes}
use xxldb.Page.Bytes.{IsHeader, from_bytes-to_bytes}
use xxldb.Cache.{lookup, put, clear_dirty}
use xxldb.Cache.Validity.{clear_dirty-IsValid}
use xxldb.Cache.Steps.{put-IsValid}
use xxldb.Cache.Ids.{same_id}
use xxldb.Cache.Lookups.{lookup-put_self, lookup-put_ne, clear_dirty-pages}
use xxldb.Table.{State, and_then, write_page_to_file_no_lock, write_page, set_block}
use xxldb.Table.Coherence.{max_page_id, block_of-small, IsStored, IsCoherent}

module _ (go : Runtime) where
  pub write_page-state :
      (s : State) (p : Page)
      → write_page go p s ≡ (
        record {
          table = record s.table {
            blocks = set_block p.page_id (to_bytes (update_checksum go p)) s.table.blocks;
          };
          cache = clear_dirty (put s.cache (some (update_checksum go p))).0 p.page_id;
          next_id = s.next_id;
        },
        ok (update_checksum go p),
      )
  unfolding write_page write_page_to_file_no_lock and_then update_checksum
  write_page-state s p = refl

  set_block_self :
      (id : ℕ) (bs : List ℕ) (blocks : ℕ → Option (List ℕ))
      → id < max_page_id
      → set_block id bs blocks id ≡ some bs
  set_block_self id bs blocks k = rw (block_of-small id k) (ground arith)

  set_block_ne :
      (id i : ℕ) (bs : List ℕ) (blocks : ℕ → Option (List ℕ))
      → id < max_page_id
      → i ≢ id
      → set_block id bs blocks i ≡ blocks i
  set_block_ne id i bs blocks k h = rw (block_of-small id k) (ground arith)

  written-IsStored :
      (blocks : ℕ → Option (List ℕ)) (p : Page)
      → IsHeader p.header
      → p.page_id < max_page_id
      → IsStored (set_block p.page_id (to_bytes p) blocks) p.page_id p
  written-IsStored blocks p f small = record {
    block = to_bytes p;
    read = (from_bytes-to_bytes p f).0;
    at_id = set_block_self p.page_id (to_bytes p) blocks small;
    parsed = (from_bytes-to_bytes p f).1;
    same = (from_bytes-to_bytes p f).2;
  }

  written_number :
      (blocks : ℕ → Option (List ℕ)) (p r : Page) (id : ℕ) (bs : List ℕ)
      → IsHeader p.header
      → p.page_id < max_page_id
      → id ≡ p.page_id
      → set_block p.page_id (to_bytes p) blocks id ≡ some bs
      → from_bytes bs ≡ ok r
      → r.page_id ≡ id
  written_number blocks p r id bs f small k b e =
      let st = written-IsStored blocks p f small in
      ap (λ x. x.page_id) (same_page st) ∙ ap (λ h. h.page_id) st.same.same_header ∙ sym k
    where
      same_page :
          (st : IsStored (set_block p.page_id (to_bytes p) blocks) p.page_id p) → r ≡ st.read
      same_page st = cc (st.at_id, st.parsed, ap (set_block p.page_id (to_bytes p) blocks) k)

  found_page :
      (blocks : ℕ → Option (List ℕ)) (p r : Page) (id : ℕ) (pages : List (ℕ × Page))
      → IsHeader p.header
      → p.page_id < max_page_id
      → id ≡ p.page_id
      → lookup p.page_id pages ≡ some p
      → lookup id pages ≡ some r
      → (id < max_page_id) × IsStored (set_block p.page_id (to_bytes p) blocks) id r
  found_page blocks p r id pages f small k o h =
      subst (λ i. (i < max_page_id) × IsStored (set_block p.page_id (to_bytes p) blocks) i r)
        (sym k)
        (
          small,
          subst (λ x. IsStored (set_block p.page_id (to_bytes p) blocks) p.page_id x) same_page
              (written-IsStored blocks p f small),
        )
    where
      same_page : p ≡ r
      same_page = cc (ap (λ i. lookup i pages) k)

  kept-IsStored :
      (blocks : ℕ → Option (List ℕ)) (p q : Page) (id : ℕ)
      → p.page_id < max_page_id
      → id ≢ p.page_id
      → IsStored blocks id q
      → IsStored (set_block p.page_id (to_bytes p) blocks) id q
  kept-IsStored blocks p q id small ne st = record {
    block = st.block;
    read = st.read;
    at_id = set_block_ne p.page_id id (to_bytes p) blocks small ne ∙ st.at_id;
    parsed = st.parsed;
    same = st.same;
  }

  -- writePage of a page whose header fields fit, and whose id is below 2^49, so that its offset fits an
  -- int64, keeps the cache and the file in agreement.
  pub write_page-IsCoherent :
      (s : State) (p : Page)
      → IsCoherent s
      → IsHeader (update_checksum go p).header
      → p.page_id < max_page_id
      → IsCoherent (write_page go p s).0
  unfolding update_checksum
  write_page-IsCoherent s p c f small = rw (write_page-state s p) (record {
    valid = clear_dirty-IsValid _ p.page_id (put-IsValid s.cache (some q) c.valid);
    numbered = numbers;
    cached = pages;
  })
    where
      q : Page
      q = update_checksum go p

      numbers :
          (id : ℕ) (bs : List ℕ) (r : Page)
          → 0 < id
          → id < max_page_id
          → set_block q.page_id (to_bytes q) s.table.blocks id ≡ some bs
          → from_bytes bs ≡ ok r
          → r.page_id ≡ id
      numbers id bs r h own b e = elim (Bool-cases (id == q.page_id)) [
        | inl k ↦ written_number s.table.blocks q r id bs f small (same_id id q.page_id k) b e
        | inr k ↦
            c.numbered id bs r h own
              (sym (
                  set_block_ne q.page_id id (to_bytes q) s.table.blocks small
                    (λ i. ground (arith, k, i)))
                ∙ b)
              e
      ]

      pages :
          (id : ℕ) (r : Page)
          → lookup id (clear_dirty (put s.cache (some q)).0 q.page_id).pages ≡ some r
          → (id < max_page_id) × IsStored (set_block q.page_id (to_bytes q) s.table.blocks) id r
      pages id r h = elim (Bool-cases (id == q.page_id)) [
        | inl k ↦ elim (lookup-put_self s.cache q c.valid) [
          | inl o ↦
              found_page s.table.blocks q r id (put s.cache (some q)).0.pages f small
                (same_id id q.page_id k) o (rw clear_dirty-pages at h)
          | inr o ↦ absurd (
              cc (
                o,
                (rw clear_dirty-pages at h),
                ap (λ i. lookup i (put s.cache (some q)).0.pages) (same_id id q.page_id k),
              ))
        ]
        | inr k ↦
            let old = c.cached id r (
              lookup-put_ne s.cache q r id c.valid (λ i. ground (arith, k, i))
                (rw clear_dirty-pages at h)) in
            (old.0, kept-IsStored s.table.blocks q r id small (λ i. ground (arith, k, i)) old.1)
      ]
