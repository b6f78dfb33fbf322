-- ===== src/Page/Cells.antt =====
-- storage/page.go: a page as a list of cells, and insertion as an append to that list.
use xxldb.Base.{
  ℕ, zero, suc, ◌+◌, ◌*◌, ◌^◌, ◌<◌, ◌≤◌, ◌≡◌, refl, ap, ◌∙◌, arith, true, ◌⊎◌, inl, inr, List, [],
  ◌∷◌, ◌++◌, some, append-nil, length, length-append, get_elem?, map, All, ok,
}
use xxldb.Base.Words.{u16_mod}
use xxldb.Value.{Value, ColumnDef, Runtime}
use xxldb.Row.{encode_row}
use xxldb.Row.Column.{IsStorable, read_back}
use xxldb.Row.RoundTrip.{decode_row-encode_row}
use xxldb.Row.Size.{length-encode_row}
use xxldb.Page.{
  Page, new_page, can_insert, insert_row_to_page, get_cell_data, get_row_from_page,
  get_cell_pointer, content_slice, update_checksum,
}
use xxldb.Page.Packed.{IsPacked, can_insert-room, new_page-IsPacked}
use xxldb.Page.Insert.{
  with_cell, with_cell-IsPacked, insert_row_to_page-with_cell, get_cell_data-with_cell_old,
  get_cell_data-with_cell_new, get_row_from_page-with_cell_new,
}

-- The cells of a packed page, oldest first, with the bytes that GetCellData returns for each.
pub record Holds (p : Page) (cells : List (List ℕ)) : Type 0 where
  pub packed : IsPacked p
  pub counted : p.cell_count ≡ length cells
  pub each : (j : ℕ) {bs : List ℕ} → get_elem? cells j ≡ some bs → get_cell_data p j ≡ ok bs

pub new_page-Holds : (id type : ℕ) → Holds (new_page id type) []
new_page-Holds id type = record {
  packed = new_page-IsPacked id type;
  counted = unfold new_page in refl;
  each = λ j e. absurd (cc);
}

get_elem?-append :
    (cells : List (List ℕ)) (c : List ℕ) (j : ℕ) {bs : List ℕ}
    → get_elem? (cells ++ (c ∷ [])) j ≡ some bs
    → (get_elem? cells j ≡ some bs) × (j < length cells) ⊎ (j ≡ length cells) × (c ≡ bs)
get_elem?-append [] c zero e = inr (refl, cc)
get_elem?-append [] c (suc j) e = cc
get_elem?-append (d ∷ cells) c zero e = inl (e, omega arith)
get_elem?-append (d ∷ cells) c (suc j) e = elim (get_elem?-append cells c j e) [
  | inl h ↦ inl (h.0, omega (arith, h.1))
  | inr h ↦ inr (omega (arith, h.0), h.1)
]

module _ (go : Runtime) (p : Page) (row_id : ℕ) (row : List Value)
    (small : length (encode_row go row_id row) + 2 < u16_mod) where
  -- On a page whose cells are known, a row of less than 65534 bytes that can be inserted is appended:
  -- the result is its index, every older cell holds the bytes that it held, and the new one holds
  -- the row's encoding.
  pub insert_row_to_page-Holds :
      (cells : List (List ℕ))
      → Holds p cells
      → can_insert p (length (encode_row go row_id row)) ≡ true
      → (q : Page) × (insert_row_to_page go p row_id row ≡ ok (q, length cells))
        × Holds q (cells ++ (encode_row go row_id row ∷ []))
  insert_row_to_page-Holds cells h e = (
    q,
    insert_row_to_page-with_cell go p row_id row h.packed.0 small e ∙ ap (λ n. ok (q, n)) h.counted,
    record {
      packed = with_cell-IsPacked p bs h.packed.0 filled room;
      counted = omega (arith, h.counted, length-append cells (bs ∷ []));
      each = λ j g. cell j (get_elem?-append cells bs j g);
    },
  )
    where
      bs : List ℕ
      bs = encode_row go row_id row

      q : Page
      q = with_cell p bs

      filled : 0 < length bs
      filled = omega (arith, length-encode_row go row_id row)

      room : p.cell_count * 2 + 2 + length bs ≤ p.free_space
      room = can_insert-room p (length bs) small e h.packed.0

      cell :
          (j : ℕ) {c : List ℕ}
          → (get_elem? cells j ≡ some c) × (j < length cells) ⊎ (j ≡ length cells) × (bs ≡ c)
          → get_cell_data q j ≡ ok c
      cell j (inl (g, l)) =
          get_cell_data-with_cell_old p bs h.packed.0 filled room j (omega (arith, h.counted))
          ∙ h.each j g
      cell j (inr (l, b)) =
          rw (l, ← h.counted, ← b)
            (get_cell_data-with_cell_new p bs h.packed.0 filled room h.packed.1)

  -- An insertion keeps the page's number; see also `get_row_from_page-insert_row_to_page`.
  pub insert_row_to_page-reads :
      (cells : List (List ℕ)) (defs : List ColumnDef)
      → Holds p cells
      → can_insert p (length (encode_row go row_id row)) ≡ true
      → row_id < 2 ^ 64
      → length row < 2 ^ 16
      → All (IsStorable go) row
      → (q : Page) × (q.page_id ≡ p.page_id)
        × (insert_row_to_page go p row_id row ≡ ok (q, length cells))
        × (get_row_from_page go q (length cells) defs ≡ ok (row_id, map (read_back go) row))
  insert_row_to_page-reads cells defs h e hi hl st = (
    with_cell p bs,
    refl,
    insert_row_to_page-with_cell go p row_id row h.packed.0 small e
        ∙ ap (λ n. ok (with_cell p bs, n)) h.counted,
    rw (← h.counted) (
        get_row_from_page-with_cell_new p bs h.packed.0
          (omega (arith, length-encode_row go row_id row))
          (can_insert-room p (length bs) small e h.packed.0) h.packed.1 go defs row_id
          (map (read_back go) row)
          (rw append-nil at (decode_row-encode_row go row_id row [] defs hi hl st))),
  )
    where
      bs : List ℕ
      bs = encode_row go row_id row

  -- GetRowFromPage gives back the id and the columns of a row that was inserted.
  get_row_from_page-insert_row_to_page :
      (cells : List (List ℕ)) (defs : List ColumnDef)
      → Holds p cells
      → can_insert p (length (encode_row go row_id row)) ≡ true
      → row_id < 2 ^ 64
      → length row < 2 ^ 16
      → All (IsStorable go) row
      → (q : Page) × (insert_row_to_page go p row_id row ≡ ok (q, length cells))
        × (get_row_from_page go q (length cells) defs ≡ ok (row_id, map (read_back go) row))
  get_row_from_page-insert_row_to_page cells defs h e hi hl st =
      let r = insert_row_to_page-reads cells defs h e hi hl st in (r.0, r.2, r.3)

module _ (go : Runtime) where
  -- Reading does not look at the checksum.
  pub get_row_from_page-update_checksum :
      (p : Page) (index : ℕ) (defs : List ColumnDef)
      → get_row_from_page go (update_checksum go p) index defs ≡ get_row_from_page go p index defs
  unfolding get_row_from_page get_cell_pointer content_slice update_checksum
  get_row_from_page-update_checksum p index defs = refl
