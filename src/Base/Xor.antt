-- ===== src/Base/Xor.antt =====
-- Go's `^` on bytes, bit by bit, and on byte strings of one length.
use Prim.Native.Nat.{ℕ, zero, suc, ◌+◌, ◌*◌, ◌/◌, ◌%◌, ◌^◌, ◌<◌}
use mathlib.Core.Path.{◌≡◌, refl}
use mathlib.Core.List.{List, [], ◌∷◌}
use native.Mathlib.Omega.{arith}
use native.Mathlib.Nat.{pow-suc}
use xxldb.Base.Lists.{length, All}
use xxldb.Base.Words.{IsByte}

unfoldable pub xor_bits : ℕ → ℕ → ℕ → ℕ
xor_bits zero a b = 0
xor_bits (suc k) a b = (a + b) % 2 + 2 * xor_bits k (a / 2) (b / 2)

abbrev pub xor_byte : ℕ → ℕ → ℕ
xor_byte a b = xor_bits 8 a b

-- As long as the shorter of the two.
unfoldable pub xor_all : List ℕ → List ℕ → List ℕ
xor_all [] ys = []
xor_all (x ∷ xs) [] = []
xor_all (x ∷ xs) (y ∷ ys) = xor_byte x y ∷ xor_all xs ys

xor_bits-bound : (k a b : ℕ) → xor_bits k a b < 2 ^ k
unfolding xor_bits
xor_bits-bound zero a b = omega arith
xor_bits-bound (suc k) a b = omega (arith, xor_bits-bound k (a / 2) (b / 2), pow-suc 2 k)

-- The same mask once more gives the bits back.
xor_bits-cancel : (k a b : ℕ) → a < 2 ^ k → xor_bits k (xor_bits k a b) b ≡ a
unfolding xor_bits
xor_bits-cancel zero a b h = omega arith
xor_bits-cancel (suc k) a b h =
    let rest = xor_bits k (a / 2) (b / 2) in
    let half : ((a + b) % 2 + 2 * rest) / 2 ≡ rest = omega arith in
    rw half (omega (arith, xor_bits-cancel k (a / 2) (b / 2) (omega (arith, h, pow-suc 2 k))))

pub xor_all-length : (xs ys : List ℕ) → length xs ≡ length ys → length (xor_all xs ys) ≡ length xs
unfolding xor_all
xor_all-length [] ys h = refl
xor_all-length (x ∷ xs) [] h = absurd (omega (arith, h))
xor_all-length (x ∷ xs) (y ∷ ys) h = omega (arith, xor_all-length xs ys (omega (arith, h)))

pub xor_all-IsByte : (xs ys : List ℕ) → All IsByte (xor_all xs ys)
unfolding xor_all
xor_all-IsByte [] ys = tt
xor_all-IsByte (x ∷ xs) [] = tt
xor_all-IsByte (x ∷ xs) (y ∷ ys) = (xor_bits-bound 8 x y, xor_all-IsByte xs ys)

pub xor_all-cancel :
    (xs ys : List ℕ) → All IsByte xs → length xs ≡ length ys → xor_all (xor_all xs ys) ys ≡ xs
unfolding xor_all
xor_all-cancel [] ys p h = refl
xor_all-cancel (x ∷ xs) [] p h = absurd (omega (arith, h))
xor_all-cancel (x ∷ xs) (y ∷ ys) p h =
    rw (xor_bits-cancel 8 x y p.0, xor_all-cancel xs ys p.1 (omega (arith, h))) refl
