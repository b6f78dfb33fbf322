-- ===== src/Cipher.antt =====
-- storage/crypto/crypto.go: the TXDEF cipher on byte slices and on streams. A slice is `none` where
-- Go has nil. The random bytes are an argument, and so is the way a reader cuts its data into reads.
pub mod RoundTrip
pub mod Stream
mod Runs
use xxldb.Base.{
  ℕ, zero, suc, ◌+◌, ◌-◌, ◌%◌, ◌^◌, Bool, true, false, not, ◌&&◌, Option, none, some, List, [], ◌∷◌,
  ◌++◌, ltb, leb, ◌==◌, if◌then◌else◌, length, get_or, take, drop, Result, ok, err, ◌>>=◌, ◌>>◌,
  refuse,
}
use xxldb.Base.Words.{u32_mod}

pub data Error : Type 0 where
  invalid_magic decryption_failed unexpected_eof too_short_for_header : Error

abbrev pub Slice : Type 0
Slice = Option (List ℕ)

-- "//TXDEF#"
abbrev pub magic : List ℕ
magic = b'/' ∷ b'/' ∷ b'T' ∷ b'X' ∷ b'D' ∷ b'E' ∷ b'F' ∷ b'#' ∷ []

abbrev pub header_len : ℕ
header_len = 8

-- "xxldb"
abbrev pub default_code : List ℕ
default_code = b'x' ∷ b'x' ∷ b'l' ∷ b'd' ∷ b'b' ∷ []

unfoldable pub code_or_default : List ℕ → List ℕ
code_or_default [] = default_code
code_or_default (c ∷ code) = c ∷ code

pub sum_from : ℕ → List ℕ → ℕ
sum_from sum [] = sum
sum_from sum (b ∷ bs) = sum_from ((sum + b) % u32_mod) bs

unfoldable pub sum_bytes : List ℕ → ℕ
unfolding sum_from
sum_bytes bs = sum_from 0 bs

abbrev pub add_len : List ℕ → ℕ
add_len code = sum_bytes code % 5 + 2

abbrev pub enc_index : List ℕ → ℕ
enc_index code = sum_bytes code % add_len code

-- Sums and differences of bytes.
abbrev add8 : ℕ → ℕ → ℕ
add8 a b = (a + b) % 256

abbrev sub8 : ℕ → ℕ → ℕ
sub8 a b = (a + 256 - b) % 256

abbrev pub code_byte : List ℕ → ℕ → ℕ
code_byte code i = get_or code (i % length code) 0

-- The loops over a slice: byte `b` at position `i` becomes `f i b`.
pub map_from : (ℕ → ℕ → ℕ) → ℕ → List ℕ → List ℕ
map_from f i [] = []
map_from f i (b ∷ bs) = f i b ∷ map_from f (i + 1) bs

-- `idx` is the chosen random byte.
pub encrypt_byte : List ℕ → ℕ → ℕ → ℕ → ℕ
encrypt_byte code idx i b = add8 (add8 (add8 b (code_byte code i)) ((i + 1) % 256)) idx

pub decrypt_byte : List ℕ → ℕ → ℕ → ℕ → ℕ
decrypt_byte code idx i b = sub8 (sub8 (sub8 b (code_byte code i)) ((i + 1) % 256)) idx

abbrev pub encrypt_from : List ℕ → ℕ → ℕ → List ℕ → List ℕ
encrypt_from code idx = map_from (encrypt_byte code idx)

abbrev pub decrypt_from : List ℕ → ℕ → ℕ → List ℕ → List ℕ
decrypt_from code idx = map_from (decrypt_byte code idx)

-- `random` is what rand.Read puts into the `add_len` bytes after the magic.
encrypt_bytes : List ℕ → List ℕ → List ℕ → List ℕ
unfolding map_from encrypt_byte sum_bytes
encrypt_bytes random code src =
    magic ++ (random ++ encrypt_from code (get_or random (enc_index code) 0) 0 src)

pub encrypt_data : List ℕ → Slice → List ℕ → Slice
unfolding encrypt_bytes code_or_default
encrypt_data random none code = none
encrypt_data random (some []) code = some []
encrypt_data random (some (b ∷ bs)) code =
    some (encrypt_bytes random (code_or_default code) (b ∷ bs))

pub has_prefix : List ℕ → List ℕ → Bool
has_prefix bs [] = true
has_prefix [] (p ∷ prefix) = false
has_prefix (b ∷ bs) (p ∷ prefix) = b == p && has_prefix bs prefix

decrypt_bytes : List ℕ → List ℕ → Result Error Slice
unfolding map_from decrypt_byte has_prefix sum_bytes
decrypt_bytes src code =
    let body = drop header_len src in
    do
      refuse (not (has_prefix src magic)) invalid_magic
      refuse (ltb (length body) (add_len code)) decryption_failed
      ok (some (decrypt_from code (get_or body (enc_index code) 0) 0 (drop (add_len code) body)))

pub decrypt_data : Slice → List ℕ → Result Error Slice
unfolding decrypt_bytes code_or_default
decrypt_data none code = ok none
decrypt_data (some src) code = decrypt_bytes src (code_or_default code)

pub is_encrypted : List ℕ → Bool
unfolding has_prefix
is_encrypted bs = has_prefix bs magic

pub read_header : List ℕ → Result Error (List ℕ)
read_header bs =
    if ltb (length bs) header_len then err too_short_for_header else ok (take header_len bs)

-- One buffer after another, with the position carried along.
pub map_chunks : (ℕ → ℕ → ℕ) → ℕ → List (List ℕ) → List ℕ
map_chunks f i [] = []
map_chunks f i (c ∷ chunks) = map_from f i c ++ map_chunks f (i + length c) chunks

-- The bytes that EncryptStream writes for what the reader returns, read by read. The readers and
-- the writers here do not fail.
pub encrypt_stream : List ℕ → List (List ℕ) → List ℕ → List ℕ
unfolding map_chunks code_or_default sum_bytes
encrypt_stream random chunks code =
    let key = code_or_default code in
    magic ++ (random ++ map_chunks (encrypt_byte key (get_or random (enc_index key) 0)) 0 chunks)

-- The reader gives the header and the random bytes by ReadFull, and `cut` says what its later reads
-- return of the bytes that are left.
pub decrypt_stream : (List ℕ → List (List ℕ)) → List ℕ → List ℕ → Result Error (List ℕ)
unfolding map_chunks code_or_default sum_bytes has_prefix
decrypt_stream cut src code =
    let key = code_or_default code in
    let body = drop header_len src in
    do
      refuse (ltb (length src) header_len) unexpected_eof
      refuse (not (has_prefix src magic)) invalid_magic
      refuse (ltb (length body) (add_len key)) unexpected_eof
      ok (
          map_chunks (decrypt_byte key (get_or body (enc_index key) 0)) 0
            (cut (drop (add_len key) body)))

pub record Encryptor : Type 0 where
  pub code : List ℕ
  pub code_len : ℕ
  pub add_length : ℕ
  pub index : ℕ

-- The salt is ignored.
pub new_encryptor : List ℕ → List ℕ → Encryptor
unfolding code_or_default sum_bytes
new_encryptor password salt =
    let key = code_or_default password in
    record { code = key; code_len = length key; add_length = add_len key; index = enc_index key }

unfoldable pub encrypt : List ℕ → Encryptor → Slice → Slice
unfolding encrypt_data
encrypt random e plaintext = encrypt_data random plaintext e.code

pub decrypt : Encryptor → Slice → Result Error Slice
unfolding decrypt_data
decrypt e ciphertext = decrypt_data ciphertext e.code
