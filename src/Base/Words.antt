-- ===== src/Base/Words.antt =====
-- Little-endian words as Go's encoding/binary writes and reads them. A byte is a number below 256.
use Prim.Native.Nat.{ℕ, zero, suc, ◌+◌, ◌*◌, ◌/◌, ◌%◌, ◌^◌, ◌<◌}
use mathlib.Core.Path.{◌≡◌, refl}
use mathlib.Core.List.{List, [], ◌∷◌, ◌++◌}
use native.Mathlib.Omega.{arith}
use native.Mathlib.Nat.{pow-suc}
use xxldb.Base.Lists.{length, drop, All}

abbrev pub IsByte : ℕ → Type 0
IsByte b = b < 256

abbrev pub u16_mod : ℕ
u16_mod = 2 ^ 16

abbrev pub u32_mod : ℕ
u32_mod = 2 ^ 32

abbrev pub u64_mod : ℕ
u64_mod = 2 ^ 64

-- The `k` low bytes of `n`, lowest first: PutUint16, PutUint32 and PutUint64 at k = 2, 4 and 8.
unfoldable pub le_bytes : ℕ → ℕ → List ℕ
le_bytes zero n = []
le_bytes (suc k) n = (n % 256) ∷ le_bytes k (n / 256)

-- The number that the first `k` bytes spell; a byte that is not there counts as 0.
unfoldable pub le_value : ℕ → List ℕ → ℕ
le_value zero bs = 0
le_value (suc k) [] = 0
le_value (suc k) (b ∷ bs) = b + 256 * le_value k bs

pub length-le_bytes : (k n : ℕ) → length (le_bytes k n) ≡ k
unfolding le_bytes
length-le_bytes zero n = refl
length-le_bytes (suc k) n = omega (arith, length-le_bytes k (n / 256))

le_bytes-IsByte : (k n : ℕ) → All IsByte (le_bytes k n)
unfolding le_bytes
le_bytes-IsByte zero n = tt
le_bytes-IsByte (suc k) n = (omega arith, le_bytes-IsByte k (n / 256))

pub le_value-le_bytes :
    (k n : ℕ) (rest : List ℕ) → n < 256 ^ k → le_value k (le_bytes k n ++ rest) ≡ n
unfolding le_bytes le_value
le_value-le_bytes zero n rest h = omega arith
le_value-le_bytes (suc k) n rest h =
    omega (arith, le_value-le_bytes k (n / 256) rest (omega (arith, pow-suc 256 k)))

pub drop-le_bytes : (k n : ℕ) (rest : List ℕ) → drop k (le_bytes k n ++ rest) ≡ rest
unfolding le_bytes
drop-le_bytes zero n rest = refl
drop-le_bytes (suc k) n rest = drop-le_bytes k (n / 256) rest
