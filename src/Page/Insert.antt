-- ===== src/Page/Insert.antt =====
-- storage/page.go: InsertRowToPage keeps a page packed, keeps its cells, and adds the new one.
use xxldb.Base.{
  ℕ, ◌+◌, ◌-◌, ◌*◌, ◌<◌, ◌≤◌, ◌≡◌, refl, sym, ap, ◌∙◌, arith, true, false, ◌⊎◌, inl, inr, List,
  length, get_or, tabulate-get_or, tabulate-same, ok, err,
}
use mathlib.Core.Path.{ap₂, subst}
use native.Mathlib.Decide.{dec_lt}
use native.Mathlib.Nat.{le_of_eq}
use xxldb.Base.Words.{u16_mod}
use xxldb.Value.{Value, ColumnDef, Runtime}
use xxldb.Row.{encode_row, decode_row}
use xxldb.Page.{
  Page, page_full, max_page_content, put_u16, put_bytes, available_space, can_insert,
  set_cell_pointer, add_cell_pointer, insert_row_to_page, cell_offset, mark_dirty, content_slice,
  get_cell_data, get_row_from_page, slice_from,
}
use xxldb.Page.Packed.{
  pointer, edge, IsSound, IsPacked, can_insert-room, u16_at-put_u16_self, u16_at-put_u16_apart,
  put_bytes-below,
}

-- The page after the insertion of a row of these bytes.
abbrev pub with_cell : Page → List ℕ → Page
with_cell p bs = record {
  header =
      mark_dirty
        (record p.header { free_space = p.free_space - length bs; cell_count = p.cell_count + 1 });
  content =
      put_u16 (put_bytes p.content (p.free_space - length bs) bs) (p.cell_count * 2)
        (p.free_space - length bs);
}

abbrev with_pointer : Page → ℕ → Page
with_pointer p offset = record {
  header = record p.header { cell_count = p.cell_count + 1 };
  content = put_u16 p.content (p.cell_count * 2) offset;
}

add_cell_pointer-with_pointer :
    (p : Page) (offset : ℕ)
    → p.cell_count * 2 + 2 ≤ max_page_content
    → add_cell_pointer p offset ≡ ok (with_pointer p offset)
unfolding add_cell_pointer set_cell_pointer
add_cell_pointer-with_pointer p offset h = ground arith

slice_from-inside : (offset : ℕ) → offset ≤ max_page_content → slice_from offset ≡ ok tt
slice_from-inside offset h = ground arith

cell_offset-sub :
    (p : Page) (size : ℕ)
    → size ≤ p.free_space
    → p.free_space < u16_mod
    → cell_offset p size ≡ p.free_space - size
cell_offset-sub p size h k = omega arith

pub pred-add : (n : ℕ) → n + 1 - 1 ≡ n
pred-add n = omega arith

-- InsertRowToPage, step by step, on a row that fits.
pub insert_row_to_page-with_cell :
    (go : Runtime) (p : Page) (row_id : ℕ) (row : List Value)
    → IsSound p
    → length (encode_row go row_id row) + 2 < u16_mod
    → can_insert p (length (encode_row go row_id row)) ≡ true
    → insert_row_to_page go p row_id row ≡ ok (with_cell p (encode_row go row_id row), p.cell_count)
unfolding insert_row_to_page
insert_row_to_page-with_cell go p row_id row s small e =
    let bs = encode_row go row_id row in
    let room = can_insert-room p (length bs) small e s in
    rw (
      e,
      cell_offset-sub p (length bs) (omega arith) (omega (arith, s.in_content)),
      slice_from-inside (p.free_space - length bs) (omega (arith, s.in_content)),
      add_cell_pointer-with_pointer
          (record p { content = put_bytes p.content (p.free_space - length bs) bs })
          (p.free_space - length bs) (omega (arith, s.in_content)),
      pred-add p.cell_count,
    )

-- A row that does not fit leaves the page alone.
insert_row_to_page-full :
    (go : Runtime) (p : Page) (row_id : ℕ) (row : List Value)
    → can_insert p (length (encode_row go row_id row)) ≡ false
    → insert_row_to_page go p row_id row
      ≡ err (page_full (available_space p) (length (encode_row go row_id row) + 2))
unfolding insert_row_to_page
insert_row_to_page-full go p row_id row e = rw e

edge-pointer : (q : Page) (n : ℕ) → q.cell_count ≡ n + 1 → edge q ≡ pointer q n
edge-pointer q n e = ground (arith, ap (λ (k : ℕ). pointer q (k - 1)) e, pred-add n)

module _ (p : Page) (bs : List ℕ) (s : IsSound p) (filled : 0 < length bs)
    (room : p.cell_count * 2 + 2 + length bs ≤ p.free_space) where
  pub pointer-with_cell_old : (j : ℕ) → j < p.cell_count → pointer (with_cell p bs) j ≡ pointer p j
  pointer-with_cell_old j h =
      u16_at-put_u16_apart (put_bytes p.content o bs) (p.cell_count * 2) o (j * 2)
        (inl (omega arith))
      ∙ ap₂ (λ (a b : ℕ). a + 256 * b) (put_bytes-below p.content o bs (j * 2) (omega arith))
          (put_bytes-below p.content o bs (j * 2 + 1) (omega arith))
    where
      o : ℕ
      o = p.free_space - length bs

  pub pointer-with_cell_new : pointer (with_cell p bs) p.cell_count ≡ p.free_space - length bs
  pointer-with_cell_new =
      u16_at-put_u16_self (put_bytes p.content (p.free_space - length bs) bs) (p.cell_count * 2)
        (p.free_space - length bs) (omega (arith, s.in_content))

  behind :
      {a b : ℕ} → a ≡ b → (b ≡ 0) ⊎ (p.free_space ≤ b) → (a ≡ 0) ⊎ (p.free_space - length bs ≤ a)
  behind e (inl z) = inl (omega arith)
  behind e (inr h) = inr (omega arith)

  with_cell-cells :
      (j : ℕ)
      → j < p.cell_count + 1
      → (pointer (with_cell p bs) j ≡ 0) ⊎ (p.free_space - length bs ≤ pointer (with_cell p bs) j)
  with_cell-cells j h = elim (dec_lt j p.cell_count) [
    | yes old ↦ behind (pointer-with_cell_old j old) (s.cells j old)
    | no new ↦ inr (
        le_of_eq (
          sym (
            subst (λ (k : ℕ). pointer (with_cell p bs) k ≡ p.free_space - length bs) (omega arith)
              pointer-with_cell_new)))
  ]

  pub with_cell-IsPacked : IsPacked (with_cell p bs)
  with_cell-IsPacked = (
    record {
      in_content = omega (arith, s.in_content);
      room = omega arith;
      used = λ _. omega (arith, s.in_content);
      cells = with_cell-cells;
    },
    edge-pointer (with_cell p bs) p.cell_count refl ∙ pointer-with_cell_new,
  )

  slice_kept :
      (lo hi : ℕ)
      → (p.free_space ≤ lo)
      → content_slice (with_cell p bs) lo hi ≡ content_slice p lo hi
  unfolding content_slice
  slice_kept lo hi h = rw (
      tabulate-same (hi - lo) (λ i. (with_cell p bs).content (lo + i)) (λ i. p.content (lo + i))
        kept)
    where
      kept : (i : ℕ) → i < hi - lo → (with_cell p bs).content (lo + i) ≡ p.content (lo + i)
      kept i _ = ground arith

  -- The cells that were there are read as before, the deleted ones included.
  pub get_cell_data-with_cell_old :
      (j : ℕ) → j < p.cell_count → get_cell_data (with_cell p bs) j ≡ get_cell_data p j
  unfolding get_cell_data
  get_cell_data-with_cell_old j h = ground (
    arith,
    pointer-with_cell_old j h,
    pointer-with_cell_old (j - 1),
    s.cells j h,
    slice_kept (pointer p j) max_page_content,
    slice_kept (pointer p j) (pointer p (j - 1)),
  )

  slice_new : content_slice (with_cell p bs) (p.free_space - length bs) p.free_space ≡ ok bs
  unfolding content_slice
  slice_new =
      rw
        (
          width,
          tabulate-get_or bs (λ i. (with_cell p bs).content (p.free_space - length bs + i)) 0
              written,
        )
        (ground (arith, s.in_content))
    where
      width : p.free_space - (p.free_space - length bs) ≡ length bs
      width = omega arith

      written :
          (i : ℕ)
          → i < length bs
          → (with_cell p bs).content (p.free_space - length bs + i) ≡ get_or bs i 0
      written i h = ground arith

  module _ (packed : edge p ≡ p.free_space) where
    -- The new cell holds the bytes of its row.
    pub get_cell_data-with_cell_new : get_cell_data (with_cell p bs) p.cell_count ≡ ok bs
    unfolding get_cell_data
    get_cell_data-with_cell_new = ground (
      arith,
      pointer-with_cell_new,
      pointer-with_cell_old (p.cell_count - 1),
      slice_new,
      s.in_content,
      s.used,
    )

    pub get_row_from_page-with_cell_new :
        (go : Runtime) (defs : List ColumnDef) (row_id : ℕ) (row : List Value)
        → decode_row go bs defs ≡ ok (row_id, row)
        → get_row_from_page go (with_cell p bs) p.cell_count defs ≡ ok (row_id, row)
    unfolding get_row_from_page
    get_row_from_page-with_cell_new go defs row_id row e = ground (
      arith,
      pointer-with_cell_new,
      pointer-with_cell_old (p.cell_count - 1),
      slice_new,
      s.in_content,
      s.used,
      e,
    )
