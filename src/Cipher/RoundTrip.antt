-- ===== src/Cipher/RoundTrip.antt =====
-- storage/crypto/crypto.go: DecryptData after EncryptData.
use xxldb.Base.{
  ℕ, zero, suc, ◌+◌, ◌%◌, ◌<◌, ◌≡◌, refl, sym, ap, arith, true, some, List, [], ◌∷◌, ◌++◌, length,
  length-append, get_or, drop, drop-append, All, ok, err,
}
use xxldb.Base.Words.{IsByte}
use xxldb.Cipher.{
  invalid_magic, code_or_default, add_len, enc_index, map_from, encrypt_byte, decrypt_byte,
  encrypt_from, decrypt_from, encrypt_bytes, encrypt_data, has_prefix, decrypt_bytes, decrypt_data,
  is_encrypted, Encryptor, encrypt, decrypt,
}

get_or-IsByte : (bs : List ℕ) (i : ℕ) → All IsByte bs → get_or bs i 0 < 256
get_or-IsByte [] i h = omega arith
get_or-IsByte (b ∷ bs) zero h = h.0
get_or-IsByte (b ∷ bs) (suc i) h = get_or-IsByte bs i h.1

decrypt_byte-encrypt_byte :
    (code : List ℕ) (idx i b : ℕ)
    → All IsByte code
    → idx < 256
    → b < 256
    → decrypt_byte code idx i (encrypt_byte code idx i b) ≡ b
unfolding decrypt_byte encrypt_byte
decrypt_byte-encrypt_byte code idx i b hc hi hb =
    omega (arith, get_or-IsByte code (i % length code) hc)

decrypt_from-encrypt_from :
    (code : List ℕ) (idx i : ℕ) (bs : List ℕ)
    → All IsByte code
    → idx < 256
    → All IsByte bs
    → decrypt_from code idx i (encrypt_from code idx i bs) ≡ bs
unfolding map_from
decrypt_from-encrypt_from code idx i [] hc hi h = refl
decrypt_from-encrypt_from code idx i (b ∷ bs) hc hi h = rw (
  decrypt_byte-encrypt_byte code idx i b hc hi h.0,
  decrypt_from-encrypt_from code idx (i + 1) bs hc hi h.1,
)

get_or-append : (xs ys : List ℕ) (i : ℕ) → i < length xs → get_or (xs ++ ys) i 0 ≡ get_or xs i 0
get_or-append [] ys i h = absurd (omega arith)
get_or-append (x ∷ xs) ys zero h = refl
get_or-append (x ∷ xs) ys (suc i) h = get_or-append xs ys i (omega arith)

drop_exact : (n : ℕ) (xs ys : List ℕ) → n ≡ length xs → drop n (xs ++ ys) ≡ ys
drop_exact n xs ys e = rw e (drop-append xs ys)

-- What rand.Read is asked for: one byte for each place after the magic.
pub record IsRandom (code random : List ℕ) : Type 0 where
  pub filled : length random ≡ add_len (code_or_default code)
  pub random_bytes : All IsByte random

code_or_default-IsByte : (code : List ℕ) → All IsByte code → All IsByte (code_or_default code)
unfolding code_or_default
code_or_default-IsByte [] h = omega arith
code_or_default-IsByte (c ∷ code) h = h

enc_index-lt : (code : List ℕ) → enc_index code < add_len code
enc_index-lt code = omega arith

decrypt_bytes-encrypt_bytes :
    (random code src : List ℕ)
    → length random ≡ add_len code
    → All IsByte random
    → All IsByte code
    → All IsByte src
    → decrypt_bytes (encrypt_bytes random code src) code ≡ ok (some src)
unfolding decrypt_bytes encrypt_bytes
decrypt_bytes-encrypt_bytes random code src hl hr hc hs =
    rw
      (
        pick,
        cut,
        decrypt_from-encrypt_from code idx 0 src hc (get_or-IsByte random (enc_index code) hr) hs,
      )
      (ground (arith, length-append random (encrypt_from code idx 0 src)))
  where
    idx : ℕ
    idx = get_or random (enc_index code) 0

    pick : get_or (random ++ encrypt_from code idx 0 src) (enc_index code) 0 ≡ idx
    pick = get_or-append random _ (enc_index code) (omega (arith, hl, enc_index-lt code))

    cut : drop (add_len code) (random ++ encrypt_from code idx 0 src) ≡ encrypt_from code idx 0 src
    cut = drop_exact (add_len code) random (encrypt_from code idx 0 src) (sym hl)

-- Data that is not empty is decrypted to itself, whatever bytes the random source gave, with the
-- same password (the default one for an empty password).
pub decrypt_data-encrypt_data :
    (random code : List ℕ) (b : ℕ) (bs : List ℕ)
    → IsRandom code random
    → All IsByte code
    → All IsByte (b ∷ bs)
    → decrypt_data (encrypt_data random (some (b ∷ bs)) code) code ≡ ok (some (b ∷ bs))
unfolding decrypt_data encrypt_data
decrypt_data-encrypt_data random code b bs r hc h =
    decrypt_bytes-encrypt_bytes random (code_or_default code) (b ∷ bs) r.filled r.random_bytes
      (code_or_default-IsByte code hc) h

-- The empty slice is encrypted to itself, and what is encrypted so is refused.
decrypt_data-encrypt_empty :
    (random code : List ℕ)
    → (encrypt_data random (some []) code ≡ some [])
      × (decrypt_data (encrypt_data random (some []) code) code ≡ err invalid_magic)
unfolding decrypt_data encrypt_data decrypt_bytes has_prefix
decrypt_data-encrypt_empty random code = (refl, refl)

length-map_from : (f : ℕ → ℕ → ℕ) (i : ℕ) (bs : List ℕ) → length (map_from f i bs) ≡ length bs
unfolding map_from
length-map_from f i [] = refl
length-map_from f i (b ∷ bs) = ap suc (length-map_from f (i + 1) bs)

-- Encrypted data bears the magic, and is longer by it and the random bytes: 10 to 14 bytes.
encrypt_data-is_encrypted :
    (random code : List ℕ) (b : ℕ) (bs : List ℕ)
    → IsRandom code random
    → (out : List ℕ) × (encrypt_data random (some (b ∷ bs)) code ≡ some out)
      × (is_encrypted out ≡ true)
      × (length out ≡ 8 + add_len (code_or_default code) + length (b ∷ bs))
unfolding encrypt_data is_encrypted encrypt_bytes has_prefix
encrypt_data-is_encrypted random code b bs r = (
  _,
  refl,
  refl,
  omega (
    arith,
    r.filled,
    length-append random tail,
    length-map_from (encrypt_byte key idx) 0 (b ∷ bs),
  ),
)
  where
    key : List ℕ
    key = code_or_default code

    idx : ℕ
    idx = get_or random (enc_index key) 0

    tail : List ℕ
    tail = encrypt_from key idx 0 (b ∷ bs)

-- An Encryptor decrypts what it encrypted.
pub decrypt-encrypt :
    (random : List ℕ) (e : Encryptor) (b : ℕ) (bs : List ℕ)
    → IsRandom e.code random
    → All IsByte e.code
    → All IsByte (b ∷ bs)
    → decrypt e (encrypt random e (some (b ∷ bs))) ≡ ok (some (b ∷ bs))
unfolding decrypt encrypt
decrypt-encrypt random e b bs r hc h = decrypt_data-encrypt_data random e.code b bs r hc h

pub length-encrypt :
    (random : List ℕ) (e : Encryptor) (b : ℕ) (bs : List ℕ)
    → IsRandom e.code random
    → (out : List ℕ) × (encrypt random e (some (b ∷ bs)) ≡ some out)
      × (length out ≡ 8 + add_len (code_or_default e.code) + length (b ∷ bs))
unfolding encrypt
length-encrypt random e b bs r =
    let t = encrypt_data-is_encrypted random e.code b bs r in (t.0, t.1, t.3)
