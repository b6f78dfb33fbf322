-- ===== src/Page/Packed.antt =====
-- storage/page.go: the well-formed page. Cell pointers grow from the front of the content, cells
-- from its end, and the free space lies between them.
use xxldb.Base.{
  ℕ, ◌+◌, ◌-◌, ◌*◌, ◌<◌, ◌≤◌, ◌≡◌, refl, arith, true, ◌⊎◌, List, ◌==◌, if◌then◌else◌, length,
  get_or,
}
use xxldb.Base.Words.{u16_mod}
use xxldb.Page.{
  Page, max_page_content, u16_at, put_u16, put_bytes, new_page, available_space, can_insert,
}

-- The pointer of cell `j`, where the cell count allows it.
abbrev pub pointer : Page → ℕ → ℕ
pointer p j = u16_at p.content (j * 2)

-- Where the data of the next cell will end: at the newest cell, or at the end of the content.
abbrev pub edge : Page → ℕ
edge p = if p.cell_count == 0 then max_page_content else pointer p (p.cell_count - 1)

-- A cell is deleted, or lies behind the free space.
pub record IsSound (p : Page) : Type 0 where
  pub in_content : p.free_space ≤ max_page_content
  pub room : p.cell_count * 2 ≤ p.free_space
  pub used : 0 < p.cell_count → p.free_space < max_page_content
  pub cells : (j : ℕ) → j < p.cell_count → (pointer p j ≡ 0) ⊎ (p.free_space ≤ pointer p j)

-- The newest cell is there, and begins where the free space ends.
abbrev pub IsPacked : Page → Type 0
IsPacked p = IsSound p × (edge p ≡ p.free_space)

pub new_page-IsPacked : (id type : ℕ) → IsPacked (new_page id type)
unfolding new_page
new_page-IsPacked id type = (
  record {
    in_content = omega arith;
    room = omega arith;
    used = λ h. absurd (omega arith);
    cells = λ j h. absurd (omega arith);
  },
  refl,
)

-- A row that is said to fit leaves room for its pointer, whatever the fragmented space is.
pub can_insert-room :
    (p : Page) (size : ℕ)
    → size + 2 < u16_mod
    → can_insert p size ≡ true
    → IsSound p
    → p.cell_count * 2 + 2 + size ≤ p.free_space
unfolding can_insert available_space
can_insert-room p size small e s = ground arith

pub u16_at-put_u16_self : (c : ℕ → ℕ) (o v : ℕ) → v < u16_mod → u16_at (put_u16 c o v) o ≡ v
u16_at-put_u16_self c o v h = ground arith

pub u16_at-put_u16_apart :
    (c : ℕ → ℕ) (o v i : ℕ) → (i + 1 < o) ⊎ (o + 1 < i) → u16_at (put_u16 c o v) i ≡ u16_at c i
u16_at-put_u16_apart c o v i h = ground arith

pub put_bytes-below : (c : ℕ → ℕ) (o : ℕ) (bs : List ℕ) (i : ℕ) → i < o → put_bytes c o bs i ≡ c i
put_bytes-below c o bs i h = ground arith

put_bytes-above :
    (c : ℕ → ℕ) (o : ℕ) (bs : List ℕ) (i : ℕ) → o + length bs ≤ i → put_bytes c o bs i ≡ c i
put_bytes-above c o bs i h = ground arith

put_bytes-within :
    (c : ℕ → ℕ) (o : ℕ) (bs : List ℕ) (i : ℕ)
    → i < length bs
    → put_bytes c o bs (o + i) ≡ get_or bs i 0
put_bytes-within c o bs i h = ground arith
