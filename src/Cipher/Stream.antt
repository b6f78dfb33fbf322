-- ===== src/Cipher/Stream.antt =====
-- storage/crypto/crypto.go: EncryptStream and DecryptStream against the functions on whole slices.
use xxldb.Base.{
  ℕ, suc, ◌+◌, ◌≤◌, ◌≡◌, refl, ap, ◌∙◌, ◌↔◌, arith, true, some, List, [], ◌∷◌, ◌++◌, length, get_or,
  drop, ok,
}
use mathlib.Core.List.{flatten}
use native.Mathlib.Nat.{add-zero}
use xxldb.Cipher.{
  magic, code_or_default, add_len, enc_index, map_from, map_chunks, encrypt_byte, decrypt_byte,
  encrypt_bytes, encrypt_data, decrypt_data, decrypt_bytes, encrypt_stream, decrypt_stream,
  has_prefix, header_len,
}

later : (i n : ℕ) → i + 1 + n ≡ i + suc n
later i n = omega arith

map_from-append :
    (f : ℕ → ℕ → ℕ) (i : ℕ) (xs ys : List ℕ)
    → map_from f i (xs ++ ys) ≡ map_from f i xs ++ map_from f (i + length xs) ys
unfolding map_from
map_from-append f i [] ys = rw add-zero
map_from-append f i (x ∷ xs) ys = rw (map_from-append f (i + 1) xs ys, later i (length xs))

-- Reading in pieces makes no difference.
map_chunks-flatten :
    (f : ℕ → ℕ → ℕ) (i : ℕ) (chunks : List (List ℕ))
    → map_chunks f i chunks ≡ map_from f i (flatten chunks)
unfolding map_chunks flatten map_from
map_chunks-flatten f i [] = refl
map_chunks-flatten f i (c ∷ chunks) =
    rw (map_from-append f i c (flatten chunks), map_chunks-flatten f (i + length c) chunks)

has_prefix-length : (bs p : List ℕ) → has_prefix bs p ≡ true → length p ≤ length bs
unfolding has_prefix
has_prefix-length bs [] h = omega arith
has_prefix-length [] (c ∷ p) h = cc
has_prefix-length (b ∷ bs) (c ∷ p) h = ground (arith, has_prefix-length bs p)

-- However the reader cuts its data, EncryptStream writes what EncryptData returns for the whole
-- (which must not be empty: for no data the stream still writes its header).
encrypt_stream-encrypt_data :
    (random code : List ℕ) (chunks : List (List ℕ)) (b : ℕ) (bs : List ℕ)
    → flatten chunks ≡ b ∷ bs
    → encrypt_data random (some (b ∷ bs)) code ≡ some (encrypt_stream random chunks code)
unfolding encrypt_data encrypt_stream encrypt_bytes
encrypt_stream-encrypt_data random code chunks b bs e =
    rw (map_chunks-flatten (encrypt_byte key (get_or random (enc_index key) 0)) 0 chunks, e)
  where
    key : List ℕ
    key = code_or_default code

-- However the reader cuts its data, DecryptStream succeeds exactly where DecryptData does, with
-- the same bytes.
decrypt_stream-decrypt_data :
    (cut : List ℕ → List (List ℕ)) (src code out : List ℕ)
    → ((bs : List ℕ) → flatten (cut bs) ≡ bs)
    → (decrypt_stream cut src code ≡ ok out) ↔ (decrypt_data (some src) code ≡ ok (some out))
unfolding decrypt_stream decrypt_data decrypt_bytes
decrypt_stream-decrypt_data cut src code out whole = (
  λ e. ground (arith, has_prefix-length src magic, same),
  λ e. ground (arith, has_prefix-length src magic, same),
)
  where
    key : List ℕ
    key = code_or_default code

    rest : List ℕ
    rest = drop (add_len key) (drop header_len src)

    f : ℕ → ℕ → ℕ
    f = decrypt_byte key (get_or (drop header_len src) (enc_index key) 0)

    same : map_chunks f 0 (cut rest) ≡ map_from f 0 rest
    same = map_chunks-flatten f 0 (cut rest) ∙ ap (map_from f 0) (whole rest)
