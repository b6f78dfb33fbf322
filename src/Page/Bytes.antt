-- ===== src/Page/Bytes.antt =====
-- storage/page.go: ToBytes and FromBytes, and the checksum across them.
use xxldb.Base.{
  ℕ, ◌+◌, ◌%◌, ◌^◌, ◌<◌, ◌≡◌, sym, ap, ◌∙◌, arith, List, ◌∷◌, ◌++◌, ==_iff, true, length, get_or,
  length-tabulate, get_or-tabulate, get_or-drop, tabulate-same, ok, err, ◌≢◌,
}
use mathlib.Core.Path.{subst}
use xxldb.Base.Words.{le_bytes, le_value-le_bytes}
use xxldb.Value.{Runtime}
use xxldb.Page.{
  PageHeader, Page, invalid_page_size, max_page_content, page_size, page_header_size, content_bytes,
  calculate_checksum, update_checksum, verify_checksum, header_bytes, to_bytes, header_of,
  from_bytes,
}

-- Every field fits its bytes.
pub record IsHeader (h : PageHeader) : Type 0 where
  pub page_id_fits : h.page_id < 2 ^ 64
  pub page_type_fits : h.page_type < 256
  pub flags_fit : h.flags < 256
  pub version_fits : h.version < 2 ^ 16
  pub free_space_fits : h.free_space < 2 ^ 16
  pub cell_count_fits : h.cell_count < 2 ^ 16
  pub fragmented_fits : h.fragmented < 2 ^ 16
  pub reserved_fits : h.reserved < 2 ^ 16
  pub right_page_fits : h.right_page < 2 ^ 64
  pub checksum_fits : h.checksum < 2 ^ 32

length-header_bytes :
    (h : PageHeader) (body : List ℕ) → length (header_bytes h body) ≡ 32 + length body
unfolding header_bytes le_bytes
length-header_bytes h body = omega arith

header_of-header_bytes :
    (h : PageHeader) (body : List ℕ) → IsHeader h → header_of (header_bytes h body) ≡ h
unfolding header_of header_bytes le_bytes
header_of-header_bytes h body f = λ i. record {
  page_id = le_value-le_bytes 8 h.page_id after_id f.page_id_fits i;
  page_type = small f.page_type_fits i;
  flags = h.flags;
  version = le_value-le_bytes 2 h.version after_version f.version_fits i;
  free_space = le_value-le_bytes 2 h.free_space after_space f.free_space_fits i;
  cell_count = le_value-le_bytes 2 h.cell_count after_count f.cell_count_fits i;
  fragmented = le_value-le_bytes 2 h.fragmented after_fragmented f.fragmented_fits i;
  reserved = le_value-le_bytes 2 h.reserved after_reserved f.reserved_fits i;
  right_page = le_value-le_bytes 8 h.right_page after_right f.right_page_fits i;
  checksum = le_value-le_bytes 4 h.checksum body f.checksum_fits i;
}
  where
    after_right : List ℕ
    after_right = le_bytes 4 h.checksum ++ body

    after_reserved : List ℕ
    after_reserved = le_bytes 8 h.right_page ++ after_right

    after_fragmented : List ℕ
    after_fragmented = le_bytes 2 h.reserved ++ after_reserved

    after_count : List ℕ
    after_count = le_bytes 2 h.fragmented ++ after_fragmented

    after_space : List ℕ
    after_space = le_bytes 2 h.cell_count ++ after_count

    after_version : List ℕ
    after_version = le_bytes 2 h.free_space ++ after_space

    after_id : List ℕ
    after_id = (h.page_type % 256) ∷ h.flags ∷ (le_bytes 2 h.version ++ after_version)

    small : {n : ℕ} → n < 256 → n % 256 ≡ n
    small h = omega arith

length-content_bytes : (p : Page) → length (content_bytes p) ≡ max_page_content
unfolding content_bytes
length-content_bytes p = length-tabulate max_page_content p.content

-- What stands behind the header in the bytes of a page.
get_or-header_bytes :
    (h : PageHeader) (body : List ℕ) (i : ℕ)
    → get_or (header_bytes h body) (32 + i) 0 ≡ get_or body i 0
unfolding header_bytes le_bytes
get_or-header_bytes h body i = get_or-drop 32 (header_bytes h body) i 0

-- Two pages that agree on the header and on every byte of the content.
pub record SamePage (p q : Page) : Type 0 where
  pub same_header : p.header ≡ q.header
  pub same_content : (i : ℕ) → i < max_page_content → p.content i ≡ q.content i

-- FromBytes reads back what ToBytes wrote, for every page whose fields fit.
pub from_bytes-to_bytes :
    (p : Page) → IsHeader p.header → (q : Page) × (from_bytes (to_bytes p) ≡ ok q) × SamePage q p
unfolding from_bytes to_bytes
from_bytes-to_bytes p f = (
  q,
  accepted,
  record { same_header = header_of-header_bytes p.header (content_bytes p) f; same_content = same },
)
  where
    q : Page
    q = record {
      header = header_of (to_bytes p);
      content = λ i. get_or (to_bytes p) (page_header_size + i) 0;
    }

    accepted : from_bytes (to_bytes p) ≡ ok q
    accepted =
        ground (arith, length-header_bytes p.header (content_bytes p), length-content_bytes p)

    same : (i : ℕ) → i < max_page_content → q.content i ≡ p.content i
    same i h =
        get_or-header_bytes p.header (content_bytes p) i
        ∙ unfold content_bytes in get_or-tabulate max_page_content p.content i 0 h

-- Data of any other length is refused, and 16384 bytes are always accepted.
from_bytes-size :
    (bs : List ℕ)
    → (length bs ≡ page_size → from_bytes bs ≢ err (invalid_page_size (length bs)))
      × (length bs ≢ page_size → from_bytes bs ≡ err (invalid_page_size (length bs)))
unfolding from_bytes
from_bytes-size bs = (ground arith, ground arith)

content_bytes-same : (p q : Page) → SamePage p q → content_bytes p ≡ content_bytes q
unfolding content_bytes
content_bytes-same p q s = tabulate-same max_page_content p.content q.content s.same_content

from_bytes-SamePage :
    (p q : Page) → IsHeader p.header → from_bytes (to_bytes p) ≡ ok q → SamePage q p
from_bytes-SamePage p q f e =
    let (r, er, same) = from_bytes-to_bytes p f in subst (λ x. SamePage x p) (cc) same

module _ (go : Runtime) where
  -- A page with its checksum brought up to date, written and read back, verifies.
  verify_checksum-from_bytes :
      (p q : Page)
      → IsHeader (update_checksum go p).header
      → from_bytes (to_bytes (update_checksum go p)) ≡ ok q
      → verify_checksum go q ≡ true
  unfolding verify_checksum update_checksum calculate_checksum
  verify_checksum-from_bytes p q f e = (==_iff _ _).1 (
      ap (λ (h : PageHeader). h.checksum) same.same_header
      ∙ ap go.checksum_ieee
          (unfold content_bytes in sym (content_bytes-same q (update_checksum go p) same)))
    where
      same : SamePage q (update_checksum go p)
      same = from_bytes-SamePage (update_checksum go p) q f e
