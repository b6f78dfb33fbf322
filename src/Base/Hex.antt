-- ===== src/Base/Hex.antt =====
-- Go's encoding/hex: EncodeToString and DecodeString.
use Prim.Native.Nat.{ℕ, ◌+◌, ◌-◌, ◌*◌, ◌/◌, ◌%◌, ◌<◌}
use mathlib.Core.Path.{◌≡◌, refl}
use mathlib.Core.Bool.{◌&&◌}
use mathlib.Core.Option.{Option, none, some}
use mathlib.Core.List.{List, [], ◌∷◌}
use native.Mathlib.Omega.{arith}
use xxldb.Base.Lists.{All}
use xxldb.Base.Tests.{ltb, leb, if◌then◌else◌}
use xxldb.Base.Words.{IsByte}

unfoldable pub hex_digit : ℕ → ℕ
hex_digit d = if ltb d 10 then b'0' + d else b'a' + (d - 10)

unfoldable pub from_hex_digit : ℕ → Option ℕ
from_hex_digit c =
    if leb b'0' c && leb c b'9'
    then some (c - b'0')
    else if leb b'a' c && leb c b'f'
    then some (c - b'a' + 10)
    else if leb b'A' c && leb c b'F'
    then some (c - b'A' + 10)
    else none

unfoldable pub hex_encode : List ℕ → List ℕ
hex_encode [] = []
hex_encode (b ∷ bs) = hex_digit (b / 16) ∷ hex_digit (b % 16) ∷ hex_encode bs

unfoldable pub join_digits : Option ℕ → Option ℕ → Option (List ℕ) → Option (List ℕ)
join_digits (some h) (some l) (some bs) = some ((h * 16 + l) ∷ bs)
join_digits _ _ _ = none

-- `none` is an error: an odd length, or a character that is no digit.
unfoldable pub hex_decode : List ℕ → Option (List ℕ)
hex_decode [] = some []
hex_decode (c ∷ []) = none
hex_decode (c ∷ d ∷ cs) = join_digits (from_hex_digit c) (from_hex_digit d) (hex_decode cs)

from_hex_digit-hex_digit : (d : ℕ) → d < 16 → from_hex_digit (hex_digit d) ≡ some d
unfolding from_hex_digit hex_digit
from_hex_digit-hex_digit d h = ground arith

pub hex_decode-hex_encode : (bs : List ℕ) → All IsByte bs → hex_decode (hex_encode bs) ≡ some bs
unfolding hex_decode hex_encode join_digits
hex_decode-hex_encode [] p = refl
hex_decode-hex_encode (b ∷ bs) p =
    let parts : b / 16 * 16 + b % 16 ≡ b = omega arith in
    rw
      (
        from_hex_digit-hex_digit (b / 16) (omega (arith, p.0)),
        from_hex_digit-hex_digit (b % 16) (omega arith),
        hex_decode-hex_encode bs p.1,
        parts,
      )
      refl
