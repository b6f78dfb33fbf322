-- ===== src/Base/Text.antt =====
-- A text literal as the list of its bytes (the literals are ASCII), and equality of byte strings.
use Prim.Native.Char.{code}
use Prim.Native.Nat.{ℕ, ◌-◌}
use Prim.Native.String.{String}
use mathlib.Core.Path.{◌≡◌, refl}
use mathlib.Core.Bool.{Bool, true, false, ◌&&◌, ◌||◌}
use mathlib.Core.List.{List, [], ◌∷◌, map}
use native.Mathlib.Omega.{arith}
use xxldb.Base.Tests.{leb, ◌==◌, if◌then◌else◌}

unfoldable pub codes : String → List ℕ
codes String.[] = []
codes (String.◌∷◌ c s) = code c ∷ codes s

unfoldable pub same_bytes : List ℕ → List ℕ → Bool
same_bytes [] [] = true
same_bytes [] (y ∷ ys) = false
same_bytes (x ∷ xs) [] = false
same_bytes (x ∷ xs) (y ∷ ys) = x == y && same_bytes xs ys

unfoldable pub is_one_of : List ℕ → List (List ℕ) → Bool
is_one_of xs [] = false
is_one_of xs (ys ∷ yss) = same_bytes xs ys || is_one_of xs yss

-- strings.ToUpper on ASCII text.
abbrev upper_byte : ℕ → ℕ
upper_byte b = if leb b'a' b && leb b b'z' then b - 32 else b

unfoldable pub to_upper : List ℕ → List ℕ
to_upper xs = map upper_byte xs

pub same_bytes_refl : (xs : List ℕ) → same_bytes xs xs ≡ true
unfolding same_bytes
same_bytes_refl [] = refl
same_bytes_refl (x ∷ xs) = ground (arith, same_bytes_refl xs)

pub same_bytes→eq : (xs ys : List ℕ) → same_bytes xs ys ≡ true → xs ≡ ys
unfolding same_bytes
same_bytes→eq [] [] h = refl
same_bytes→eq [] (y ∷ ys) h = ground arith
same_bytes→eq (x ∷ xs) [] h = ground arith
same_bytes→eq (x ∷ xs) (y ∷ ys) h = ground (arith, same_bytes→eq xs ys)
