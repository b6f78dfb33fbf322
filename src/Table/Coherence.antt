-- ===== src/Table/Coherence.antt =====
-- storage/tablefile.go: what readPageNoLock returns after writePage.
use xxldb.Base.{
  ℕ, ◌<◌, ◌^◌, arith, ◌≡◌, refl, sym, ap, ◌∙◌, inl, inr, Option, none, some, List, Option-cases, ok,
}
use mathlib.Core.Path.{subst}
use xxldb.Page.{Page, to_bytes, from_bytes}
use xxldb.Page.Bytes.{IsHeader, SamePage, from_bytes-to_bytes}
use xxldb.Cache.{lookup, get}
use xxldb.Cache.Validity.{IsValid}
use xxldb.Cache.Contents.{get-lookup}
use xxldb.Table.{
  block_of, State, and_then, keep, in_page, parse_block, read_block, cached_or, try_cache,
  read_page_no_lock,
}

-- A page that the cache has is not read from the file.
pub read_page_no_lock-cached :
    (s : State) (id : ℕ) (p : Page)
    → (get s.cache id).1 ≡ some p
    → read_page_no_lock id s ≡ (record s { cache = (get s.cache id).0 }, ok p)
unfolding read_page_no_lock try_cache cached_or
read_page_no_lock-cached s id p e = rw e refl

pub read_page_no_lock-absent :
    (s : State) (id : ℕ)
    → (get s.cache id).1 ≡ none
    → read_page_no_lock id s ≡ read_block id (record s { cache = (get s.cache id).0 })
unfolding read_page_no_lock try_cache cached_or
read_page_no_lock-absent s id e = rw e refl

-- Page ids below this one have their own block, at an offset that fits an int64.
abbrev pub max_page_id : ℕ
max_page_id = 2 ^ 49

pub block_of-small : (id : ℕ) → id < max_page_id → block_of id ≡ id
unfolding block_of
block_of-small id h = omega (arith, h)

-- A block that holds a page's bytes.
read_block-to_bytes :
    (s : State) (id : ℕ) (p : Page)
    → IsHeader p.header
    → id < max_page_id
    → s.table.blocks id ≡ some (to_bytes p)
    → (q : Page) × ((read_block id s).1 ≡ ok q) × SamePage q p
unfolding read_block parse_block in_page and_then
read_block-to_bytes s id p f k e =
    let r = from_bytes-to_bytes p f in (r.0, rw (block_of-small id k, e, r.1) refl, r.2)

-- A block of the file that FromBytes reads as this page.
pub record IsStored (blocks : ℕ → Option (List ℕ)) (id : ℕ) (p : Page) : Type 0 where
  pub block : List ℕ
  pub read : Page
  pub at_id : blocks id ≡ some block
  pub parsed : from_bytes block ≡ ok read
  pub same : SamePage read p

-- The cache agrees with the file, and a data page stands in the block of its id. The ids are so small
-- that their offsets do not wrap around.
pub record IsCoherent (s : State) : Type 0 where
  pub valid : IsValid s.cache
  pub numbered :
      (id : ℕ) (bs : List ℕ) (q : Page)
      → 0 < id
      → id < max_page_id
      → s.table.blocks id ≡ some bs
      → from_bytes bs ≡ ok q
      → q.page_id ≡ id
  pub cached :
      (id : ℕ) (p : Page)
      → lookup id s.cache.pages ≡ some p
      → (id < max_page_id) × IsStored s.table.blocks id p

pub SamePage-refl : (p : Page) → SamePage p p
SamePage-refl p = record { same_header = refl; same_content = λ i h. refl }

same_block :
    (blocks : ℕ → Option (List ℕ)) (id : ℕ) (bs : List ℕ) (p q : Page)
    → (st : IsStored blocks id p) → blocks id ≡ some bs
    → from_bytes bs ≡ ok q
    → SamePage q p
same_block blocks id bs p q st b e = subst (λ r. SamePage r p) same_read st.same
  where
    same_read : st.read ≡ q
    same_read = cc (st.at_id, st.parsed)

read_block-page :
    (s : State) (id : ℕ) (bs : List ℕ) (q : Page)
    → id < max_page_id
    → s.table.blocks id ≡ some bs
    → from_bytes bs ≡ ok q
    → read_block id s ≡ keep q s
unfolding read_block parse_block in_page and_then
read_block-page s id bs q k b e = rw (block_of-small id k, b, e) refl

-- While the cache and the file agree, a page of a small id that is in the file is read, and as the file has it,
-- whatever is cached.
read_page_no_lock-agrees :
    (s : State) (id : ℕ) (bs : List ℕ) (q : Page)
    → IsCoherent s
    → id < max_page_id
    → s.table.blocks id ≡ some bs
    → from_bytes bs ≡ ok q
    → (p : Page) × ((read_page_no_lock id s).1 ≡ ok p) × SamePage q p
read_page_no_lock-agrees s id bs q c k b e = elim (Option-cases (get s.cache id).1) [
  | inr f ↦
      let st = (c.cached id f.0 (sym (get-lookup s.cache id) ∙ f.1)).1 in
      (
        f.0,
        ap (λ r. r.1) (read_page_no_lock-cached s id f.0 f.1),
        same_block s.table.blocks id bs f.0 q st b e,
      )
  | inl n ↦ (
    q,
    ap (λ r. r.1) (read_page_no_lock-absent s id n ∙ read_block-page _ id bs q k b e),
    SamePage-refl q,
  )
]
