-- ===== src/Cipher/Runs.antt =====
-- The cipher at concrete inputs, and its theorems at inputs that meet their hypotheses.
use xxldb.Base.{ℕ, ◌≡◌, refl, arith, some, List, [], ◌∷◌, ok, err}
use mathlib.Core.List.{flatten}
use xxldb.Cipher.{decryption_failed, code_or_default, sum_bytes, encrypt_data, decrypt_data}
use xxldb.Cipher.RoundTrip.{IsRandom, decrypt_data-encrypt_data}

-- With the default password: three random bytes, of which the first is used.
encrypt_hi :
    encrypt_data (1 ∷ 2 ∷ 3 ∷ []) (some (b'h' ∷ b'i' ∷ [])) []
    ≡ some (47 ∷ 47 ∷ 84 ∷ 88 ∷ 68 ∷ 69 ∷ 70 ∷ 35 ∷ 1 ∷ 2 ∷ 3 ∷ 226 ∷ 228 ∷ [])
unfolding encrypt_data
encrypt_hi = refl

decrypt_short :
    decrypt_data (some (47 ∷ 47 ∷ 84 ∷ 88 ∷ 68 ∷ 69 ∷ 70 ∷ 35 ∷ 1 ∷ 2 ∷ [])) []
    ≡ err decryption_failed
unfolding decrypt_data
decrypt_short = refl

three-IsRandom : IsRandom [] (1 ∷ 2 ∷ 3 ∷ [])
unfolding code_or_default sum_bytes
three-IsRandom = omega arith

decrypt_data-encrypt_data_example :
    decrypt_data (encrypt_data (1 ∷ 2 ∷ 3 ∷ []) (some (7 ∷ 255 ∷ [])) []) []
    ≡ ok (some (7 ∷ 255 ∷ []))
decrypt_data-encrypt_data_example =
    decrypt_data-encrypt_data (1 ∷ 2 ∷ 3 ∷ []) [] 7 (255 ∷ []) three-IsRandom tt (omega arith)

-- One byte a read.
abbrev singly : List ℕ → List (List ℕ)
singly [] = []
singly (b ∷ bs) = (b ∷ []) ∷ singly bs

singly_whole : (bs : List ℕ) → flatten (singly bs) ≡ bs
unfolding flatten
singly_whole [] = refl
singly_whole (b ∷ bs) = rw (singly_whole bs)
