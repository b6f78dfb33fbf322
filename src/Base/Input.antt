-- ===== src/Base/Input.antt =====
-- io.ReadFull on a source that is a list of bytes.
use Prim.Native.Nat.{ℕ}
use mathlib.Core.Path.{◌≡◌}
use mathlib.Core.List.{List, ◌++◌}
use native.Mathlib.Omega.{arith}
use xxldb.Base.Lists.{length, length-append, take, drop, take-append, drop-append}
use xxldb.Base.Results.{Result, ok, err}
use xxldb.Base.Tests.{leb, ◌==◌, if◌then◌else◌}

-- The first `n` bytes and the rest, with the errors io.EOF (there is no byte) and
-- io.ErrUnexpectedEOF (there are some).
module _ {E : Type 0} (eof unexpected_eof : E) where
  unfoldable pub read_full : ℕ → List ℕ → Result E (List ℕ × List ℕ)
  read_full n src =
      if leb n (length src)
      then ok (take n src, drop n src)
      else if length src == 0
      then err eof
      else err unexpected_eof

  pub read_full-append : (xs ys : List ℕ) → read_full (length xs) (xs ++ ys) ≡ ok (xs, ys)
  unfolding read_full
  read_full-append xs ys =
      rw (take-append xs ys, drop-append xs ys) (ground (arith, length-append xs ys))

  pub read_full_exact :
      (n : ℕ) (xs ys : List ℕ) → n ≡ length xs → read_full n (xs ++ ys) ≡ ok (xs, ys)
  read_full_exact n xs ys e = rw e (read_full-append xs ys)
