-- ===== src/Protocol/Lengths.antt =====
-- mysql/protocol.go: length-encoded integers and strings, written and read.
use xxldb.Base.{
  ℕ, zero, suc, ◌+◌, ◌-◌, ◌%◌, ◌^◌, ◌<◌, ◌≤◌, ◌≡◌, refl, ◌∙◌, arith, inl, inr, false, Bool-cases,
  List, [], ◌∷◌, ◌++◌, ltb, leb, length, length-append, length-take, get_or, take, drop,
  take-append, drop-append, append_assoc, ok, err, panic,
}
use xxldb.Base.Words.{le_bytes, le_value, length-le_bytes, le_value-le_bytes}
use xxldb.Protocol.{
  eof, write_length_encoded_int, write_length_encoded_string, read_length_encoded_int,
  read_length_encoded_string, total_length, is_negative,
}

-- Every uint64 is read back, with the number of bytes that it took, whatever follows.
read_length_encoded_int-write :
    (n : ℕ) (rest : List ℕ)
    → n < 2 ^ 64
    → read_length_encoded_int (write_length_encoded_int n ++ rest)
      ≡ ok (n, length (write_length_encoded_int n))
unfolding read_length_encoded_int write_length_encoded_int
read_length_encoded_int-write n rest h = ground (
  arith,
  length-append (le_bytes 2 n) rest,
  length-append (le_bytes 3 n) rest,
  length-append (le_bytes 8 n) rest,
  length-le_bytes 2 n,
  length-le_bytes 3 n,
  length-le_bytes 8 n,
  le_value-le_bytes 2 n rest,
  le_value-le_bytes 3 n rest,
  le_value-le_bytes 8 n rest,
)

-- 1, 3, 4 or 9 bytes.
write_length_encoded_int-length :
    (n : ℕ) → (1 ≤ length (write_length_encoded_int n)) × (length (write_length_encoded_int n) ≤ 9)
unfolding write_length_encoded_int
write_length_encoded_int-length n =
    ground (arith, length-le_bytes 2 n, length-le_bytes 3 n, length-le_bytes 8 n)

get_or-take : (k : ℕ) (bs : List ℕ) → 0 < k → get_or (take k bs) 0 0 ≡ get_or bs 0 0
get_or-take zero bs h = absurd (omega arith)
get_or-take (suc k) [] h = refl
get_or-take (suc k) (b ∷ bs) h = refl

-- The form with `k` bytes behind a marker, cut short.
cut_form :
    (marker k n i : ℕ)
    → ((bs : List ℕ)
        → get_or bs 0 0 ≡ marker
        → 0 < length bs
        → length bs < suc k
        → read_length_encoded_int bs ≡ err eof)
    → i < suc k
    → read_length_encoded_int (take i (marker ∷ le_bytes k n)) ≡ err eof
unfolding read_length_encoded_int
cut_form marker k n zero f h = refl
cut_form marker k n (suc i) f h =
    f (marker ∷ take i (le_bytes k n)) refl (omega arith)
      (omega (arith, length-take i (le_bytes k n), length-le_bytes k n))

cut_2 :
    (bs : List ℕ)
    → get_or bs 0 0 ≡ 0xfc
    → 0 < length bs
    → length bs < 3
    → read_length_encoded_int bs ≡ err eof
unfolding read_length_encoded_int
cut_2 bs h p k = ground arith

cut_3 :
    (bs : List ℕ)
    → get_or bs 0 0 ≡ 0xfd
    → 0 < length bs
    → length bs < 4
    → read_length_encoded_int bs ≡ err eof
unfolding read_length_encoded_int
cut_3 bs h p k = ground arith

cut_8 :
    (bs : List ℕ)
    → get_or bs 0 0 ≡ 0xfe
    → 0 < length bs
    → length bs < 9
    → read_length_encoded_int bs ≡ err eof
unfolding read_length_encoded_int
cut_8 bs h p k = ground arith

cut_1 : (b i : ℕ) → i < 1 → read_length_encoded_int (take i (b ∷ [])) ≡ err eof
unfolding read_length_encoded_int
cut_1 b zero h = refl
cut_1 b (suc i) h = absurd (omega arith)

-- Every proper prefix of an encoding is refused.
read_length_encoded_int-truncated :
    (n k : ℕ)
    → k < length (write_length_encoded_int n)
    → read_length_encoded_int (take k (write_length_encoded_int n)) ≡ err eof
unfolding write_length_encoded_int
read_length_encoded_int-truncated n k h = elim (Bool-cases (leb n 250)) [
  | inl e ↦ rw e (cut_1 (n % 256) k (ground (arith, e)))
  | inr e ↦ elim (Bool-cases (leb n 0xffff)) [
    | inl f ↦ rw (e, f) (cut_form 0xfc 2 n k cut_2 (ground (arith, length-le_bytes 2 n)))
    | inr f ↦ elim (Bool-cases (leb n 0xffffff)) [
      | inl g ↦ rw (e, f, g) (cut_form 0xfd 3 n k cut_3 (ground (arith, length-le_bytes 3 n)))
      | inr g ↦ rw (e, f, g) (cut_form 0xfe 8 n k cut_8 (ground (arith, length-le_bytes 8 n)))
    ]
  ]
]

read_length_encoded_string-in_range :
    (bs : List ℕ) (len n : ℕ)
    → read_length_encoded_int bs ≡ ok (len, n)
    → n + len < 2 ^ 63
    → n + len ≤ length bs
    → read_length_encoded_string bs ≡ ok (take len (drop n bs), n + len)
unfolding read_length_encoded_string
read_length_encoded_string-in_range bs len n e h k =
    rw (e, same, positive, enough, forward, difference) refl
  where
    same : total_length n len ≡ n + len
    same = omega arith

    positive : is_negative (n + len) ≡ false
    positive = ground arith

    enough : ltb (length bs) (n + len) ≡ false
    enough = ground arith

    forward : ltb (n + len) n ≡ false
    forward = ground arith

    difference : n + len - n ≡ len
    difference = omega arith

-- A string is read back, with the number of bytes that it took, whatever follows.
pub read_length_encoded_string-write :
    (s rest : List ℕ)
    → length s + 9 < 2 ^ 63
    → read_length_encoded_string (write_length_encoded_string s ++ rest)
      ≡ ok (s, length (write_length_encoded_string s))
unfolding write_length_encoded_string
read_length_encoded_string-write s rest h =
    rw (append_assoc head s rest, length-append head s)
      (read_length_encoded_string-in_range (head ++ (s ++ rest)) (length s) (length head)
          (read_length_encoded_int-write (length s) (s ++ rest) (omega arith)) (omega (arith, size))
          (omega (arith, length-append head (s ++ rest), length-append s rest))
        ∙ rw (drop-append head (s ++ rest), take-append s rest) refl)
  where
    head : List ℕ
    head = write_length_encoded_int (length s)

    size : length head ≤ 9
    size = (write_length_encoded_int-length (length s)).1

-- A length of 2 ^ 63 - 9 or more, in the nine-byte form, makes the reader slice out of range: the
-- sum is negative in an int, and passes the test against the data that is there.
read_length_encoded_string-panic :
    (bs : List ℕ)
    → 9 ≤ length bs
    → length bs < 2 ^ 63
    → get_or bs 0 0 ≡ 0xfe
    → 2 ^ 63 ≤ le_value 8 (drop 1 bs) + 9
    → le_value 8 (drop 1 bs) < 2 ^ 64
    → read_length_encoded_string bs ≡ panic
unfolding read_length_encoded_string read_length_encoded_int
read_length_encoded_string-panic bs h hl f v w = ground arith
