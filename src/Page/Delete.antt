-- ===== src/Page/Delete.antt =====
-- storage/page.go: DeleteRowFromPage, and what becomes of the other cells.
use xxldb.Base.{
  ℕ, ◌+◌, ◌-◌, ◌*◌, ◌%◌, ◌<◌, ◌≤◌, ◌≡◌, ◌≢◌, sym, ap, ◌∙◌, arith, true, ◌⊎◌, inl, if◌then◌else◌,
  ◌==◌, List, length, tabulate-same, ok, err,
}
use mathlib.Core.Path.{subst}
use xxldb.Base.Words.{u16_mod}
use xxldb.Value.{Value, ColumnDef, Runtime}
use xxldb.Row.{encode_row}
use xxldb.Page.{
  Page, invalid_cell_offset, invalid_previous_cell_offset, max_page_content, put_u16, mark_dirty,
  set_cell_pointer, get_cell_pointer, content_slice, get_cell_data, get_row_from_page,
  delete_row_from_page, insert_row_to_page, can_insert,
}
use xxldb.Page.Packed.{pointer, IsSound, can_insert-room, u16_at-put_u16_self, u16_at-put_u16_apart}
use native.Mathlib.Decide.{ℕ_discrete}
use xxldb.Row.Size.{length-encode_row}
use xxldb.Page.Insert.{
  pointer-with_cell_old, pointer-with_cell_new, pred-add, with_cell, insert_row_to_page-with_cell,
}

-- Where cell `j` ends.
abbrev pub end_pointer : Page → ℕ → ℕ
end_pointer p j = if j == 0 then max_page_content else pointer p (j - 1)

abbrev pub with_hole : Page → ℕ → Page
with_hole p j = record {
  header =
      mark_dirty (record p.header {
        fragmented = (p.fragmented + (end_pointer p j - pointer p j)) % u16_mod;
      });
  content = put_u16 p.content (j * 2) 0;
}

-- What a deletion that succeeds has tested.
pub record IsDeletable (p : Page) (j : ℕ) : Type 0 where
  pub counted : j < p.cell_count
  pub present : 0 < pointer p j
  pub bounded : pointer p j < end_pointer p j
  pub in_page : j * 2 + 2 ≤ max_page_content

delete_row_from_page-with_hole :
    (p : Page) (j : ℕ) → IsDeletable p j → delete_row_from_page p j ≡ ok (with_hole p j)
unfolding delete_row_from_page get_cell_pointer set_cell_pointer
delete_row_from_page-with_hole p j d = ground arith

delete_row_from_page-IsDeletable :
    (p q : Page) (j : ℕ) → delete_row_from_page p j ≡ ok q → IsDeletable p j
unfolding delete_row_from_page get_cell_pointer set_cell_pointer
delete_row_from_page-IsDeletable p q j e = ground arith

module _ (p q : Page) (j : ℕ) (deleted : delete_row_from_page p j ≡ ok q) (s : IsSound p) where
  found : IsDeletable p j
  found = delete_row_from_page-IsDeletable p q j deleted

  shape : q ≡ with_hole p j
  shape = cc (deleted, delete_row_from_page-with_hole p j found)

  hole : pointer q j ≡ 0
  hole = rw shape (u16_at-put_u16_self p.content (j * 2) 0 (omega arith))

  pointer_kept : (k : ℕ) → k ≢ j → pointer q k ≡ pointer p k
  pointer_kept k h = rw shape (u16_at-put_u16_apart p.content (j * 2) 0 (k * 2) (omega arith))

  count_kept : q.cell_count ≡ p.cell_count
  count_kept = rw shape

  free_kept : q.free_space ≡ p.free_space
  free_kept = rw shape

  -- What lies behind the free space is not written.
  slice_kept : (lo hi : ℕ) → p.free_space ≤ lo → content_slice q lo hi ≡ content_slice p lo hi
  unfolding content_slice
  slice_kept lo hi h =
      rw (tabulate-same (hi - lo) (λ i. q.content (lo + i)) (λ i. p.content (lo + i)) kept)
    where
      kept : (i : ℕ) → i < hi - lo → q.content (lo + i) ≡ p.content (lo + i)
      kept i _ = rw shape (ground (arith, s.room, found.counted))

  -- The page stays sound: room, order and the place of the cells.
  delete_row_from_page-IsSound : IsSound q
  delete_row_from_page-IsSound = record {
    in_content = omega (arith, free_kept, s.in_content);
    room = omega (arith, free_kept, count_kept, s.room);
    used = λ h. omega (arith, free_kept, count_kept, s.used);
    cells = cells_kept;
  }
    where
      cells_kept : (k : ℕ) → k < q.cell_count → (pointer q k ≡ 0) ⊎ (q.free_space ≤ pointer q k)
      cells_kept k h = elim (ℕ_discrete k j) [
        | yes e ↦ inl (subst (λ (x : ℕ). pointer q x ≡ 0) (sym e) hole)
        | no ne ↦ rw (free_kept, pointer_kept k ne) (s.cells k (omega (arith, count_kept)))
      ]

  -- The deleted cell is gone.
  get_cell_data-delete_self : get_cell_data q j ≡ err (invalid_cell_offset 0)
  unfolding get_cell_data
  get_cell_data-delete_self = ground (arith, hole, count_kept, found)

  -- Every cell but the deleted one and the one after it is read as before.
  get_cell_data-delete_ne : (k : ℕ) → k ≢ j → k ≢ j + 1 → get_cell_data q k ≡ get_cell_data p k
  unfolding get_cell_data
  get_cell_data-delete_ne k h h' = ground (
    arith,
    count_kept,
    pointer_kept k h,
    pointer_kept (k - 1),
    s.cells k,
    slice_kept (pointer p k) max_page_content,
    slice_kept (pointer p k) (pointer p (k - 1)),
  )

  -- The cell after the deleted one is lost with it: its end is looked up in the pointer that the
  -- deletion has cleared.
  get_row_from_page-delete_next :
      (go : Runtime) (defs : List ColumnDef) {bs : List ℕ}
      → get_cell_data p (j + 1) ≡ ok bs
      → get_row_from_page go q (j + 1) defs ≡ err (invalid_previous_cell_offset 0)
  unfolding get_row_from_page get_cell_data
  get_row_from_page-delete_next go defs e =
      ground (arith, hole, count_kept, pointer_kept (j + 1), pred-add j)

  -- A row that is inserted behind a deleted last cell cannot be read either.
  get_row_from_page-insert_after_delete :
      (go : Runtime) (row_id : ℕ) (row : List Value) (defs : List ColumnDef)
      → j + 1 ≡ p.cell_count
      → length (encode_row go row_id row) + 2 < u16_mod
      → can_insert q (length (encode_row go row_id row)) ≡ true
      → (r : Page) × (insert_row_to_page go q row_id row ≡ ok (r, p.cell_count))
        × (get_row_from_page go r p.cell_count defs ≡ err (invalid_previous_cell_offset 0))
  unfolding get_row_from_page
  get_row_from_page-insert_after_delete go row_id row defs last small e = (
    r,
    insert_row_to_page-with_cell go q row_id row sound small e ∙ ap (λ n. ok (r, n)) count_kept,
    ground (
      arith,
      start,
      end,
      hole,
      count_kept,
      sound.in_content,
      room,
      length-encode_row go row_id row,
    ),
  )
    where
      sound : IsSound q
      sound = delete_row_from_page-IsSound

      bs : List ℕ
      bs = encode_row go row_id row

      r : Page
      r = with_cell q bs

      room : q.cell_count * 2 + 2 + length bs ≤ q.free_space
      room = can_insert-room q (length bs) small e sound

      start : pointer r p.cell_count ≡ q.free_space - length bs
      start =
          rw (← count_kept)
            (pointer-with_cell_new q bs sound (omega (arith, length-encode_row go row_id row)) room)

      end : pointer r (p.cell_count - 1) ≡ pointer q j
      end =
          subst (λ (k : ℕ). pointer r k ≡ pointer q j) (omega arith)
            (pointer-with_cell_old q bs sound (omega (arith, length-encode_row go row_id row)) room
              j (omega (arith, count_kept)))
