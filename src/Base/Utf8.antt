-- ===== src/Base/Utf8.antt =====
-- Go's unicode/utf8 and unicode.IsSpace, as the lexer uses them: a rune from the front of a list of
-- bytes, with its width, and a rune as bytes.
use Prim.Native.Nat.{ℕ, zero, suc, ◌+◌, ◌*◌, ◌/◌, ◌%◌, ◌<◌, ◌≤◌}
use mathlib.Core.Path.{◌≡◌}
use mathlib.Core.Bool.{Bool, ◌&&◌, ◌||◌}
use mathlib.Core.List.{List, [], ◌∷◌}
use native.Mathlib.Omega.{arith}
use xxldb.Base.Lists.{length, get_or}
use xxldb.Base.Tests.{ltb, leb, ◌==◌, if◌then◌else◌}

abbrev pub rune_error : ℕ
rune_error = 0xfffd

abbrev between : ℕ → ℕ → ℕ → Bool
between lo hi b = leb lo b && leb b hi

abbrev is_continuation : ℕ → Bool
is_continuation b = between 0x80 0xbf b

-- The second byte that may follow the first byte of a longer rune.
second_ok : ℕ → ℕ → Bool
second_ok b0 b1 =
    if b0 == 0xe0
    then between 0xa0 0xbf b1
    else if b0 == 0xed
    then between 0x80 0x9f b1
    else if b0 == 0xf0
    then between 0x90 0xbf b1
    else if b0 == 0xf4
    then between 0x80 0x8f b1
    else is_continuation b1

-- How many bytes a rune with this first byte has; 0 for a byte that starts none.
size_of : ℕ → ℕ
size_of b0 =
    if ltb b0 0x80
    then 1
    else if between 0xc2 0xdf b0
    then 2
    else if between 0xe0 0xef b0
    then 3
    else if between 0xf0 0xf4 b0
    then 4
    else 0

long_rune : ℕ → List ℕ → ℕ × ℕ
unfolding second_ok size_of
long_rune b0 bs =
    let b1 = get_or bs 0 0 in
    let b2 = get_or bs 1 0 in
    let b3 = get_or bs 2 0 in
    if size_of b0 == 2 && is_continuation b1
    then (b0 % 0x20 * 0x40 + b1 % 0x40, 2)
    else if size_of b0 == 3 && second_ok b0 b1 && is_continuation b2
    then (b0 % 0x10 * 0x1000 + b1 % 0x40 * 0x40 + b2 % 0x40, 3)
    else if size_of b0 == 4 && second_ok b0 b1 && is_continuation b2 && is_continuation b3
    then (b0 % 8 * 0x40000 + b1 % 0x40 * 0x1000 + b2 % 0x40 * 0x40 + b3 % 0x40, 4)
    else (rune_error, 1)

-- DecodeRuneInString. A byte that is not there counts as 0, which continues no rune.
unfoldable pub decode_rune : List ℕ → ℕ × ℕ
unfolding long_rune
decode_rune [] = (rune_error, 0)
decode_rune (b ∷ bs) = if ltb b 0x80 then (b, 1) else long_rune b bs

-- WriteRune.
unfoldable pub encode_rune : ℕ → List ℕ
encode_rune r =
    if ltb r 0x80
    then r ∷ []
    else if ltb r 0x800
    then (0xc0 + r / 0x40) ∷ (0x80 + r % 0x40) ∷ []
    else if between 0xd800 0xdfff r || ltb 0x10ffff r
    then 0xef ∷ 0xbf ∷ 0xbd ∷ []
    else if ltb r 0x10000
    then (0xe0 + r / 0x1000) ∷ (0x80 + r / 0x40 % 0x40) ∷ (0x80 + r % 0x40) ∷ []
    else (0xf0 + r / 0x40000)
      ∷ (0x80 + r / 0x1000 % 0x40)
      ∷ (0x80 + r / 0x40 % 0x40)
      ∷ (0x80 + r % 0x40)
      ∷ []

-- unicode.IsSpace.
unfoldable pub is_space : ℕ → Bool
is_space r =
    between 9 13 r
    || r == 0x20
    || r == 0x85
    || r == 0xa0
    || r == 0x1680
    || between 0x2000 0x200a r
    || r == 0x2028
    || r == 0x2029
    || r == 0x202f
    || r == 0x205f
    || r == 0x3000

pub decode_rune-ascii : (b : ℕ) (bs : List ℕ) → b < 0x80 → decode_rune (b ∷ bs) ≡ (b, 1)
unfolding decode_rune
decode_rune-ascii b bs h = ground arith

length_of_byte : (bs : List ℕ) (i : ℕ) → 0x80 ≤ get_or bs i 0 → i < length bs
length_of_byte [] i h = absurd (omega arith)
length_of_byte (b ∷ bs) zero h = omega arith
length_of_byte (b ∷ bs) (suc i) h = omega (arith, length_of_byte bs i h)

-- A rune has a byte at least, and no more than there are.
pub decode_rune-width :
    (b : ℕ) (bs : List ℕ)
    → (1 ≤ (decode_rune (b ∷ bs)).1) × ((decode_rune (b ∷ bs)).1 ≤ suc (length bs))
unfolding decode_rune second_ok
decode_rune-width b bs =
    ground (arith, length_of_byte bs 0, length_of_byte bs 1, length_of_byte bs 2)
