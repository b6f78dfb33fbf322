-- ===== src/Wal/Entry.antt =====
-- storage/wal.go: one record of the log, written and read.
use xxldb.Base.{
  ℕ, suc, ◌<◌, ◌≡◌, ◌≢◌, refl, sym, ◌∙◌, arith, true, false, Option, none, some, List, [], ◌∷◌,
  ◌++◌, ◌==◌, length, length-append, drop, All, ok,
}
use xxldb.Base.Input.{read_full, read_full-append, read_full_exact}
use xxldb.Base.Words.{
  IsByte, le_bytes, le_value, length-le_bytes, le_value-le_bytes, drop-le_bytes, u32_mod,
}
use xxldb.Value.{Runtime}
use xxldb.Cipher.{Encryptor}
use xxldb.Cipher.RoundTrip.{IsRandom, decrypt-encrypt, length-encrypt}
use xxldb.Wal.{
  WalRecord, bytes_of, seal, unseal, unsealed, eof, unexpected_eof, entry_bytes, opened,
  read_records,
}

-- What the encryption of a record needs: random bytes, bytes for the key, and data.
unfoldable pub IsSealable : List ℕ → Option Encryptor → List ℕ → Type 0
IsSealable random none bs = Unit {0}
IsSealable random (some e) bs =
    IsRandom e.code random × All IsByte e.code × All IsByte bs × (0 < length bs)

pub unseal-seal :
    (random : List ℕ) (e : Option Encryptor) (bs : List ℕ)
    → IsSealable random e bs
    → unseal e (seal random e bs) ≡ some bs
unfolding IsSealable seal unseal unsealed bytes_of
unseal-seal random none bs h = refl
unseal-seal random (some e) [] h = absurd (omega (arith, h.3))
unseal-seal random (some e) (b ∷ bs) h =
    let l = length-encrypt random e b bs h.0 in
    rw (l.1, rw l.1 at (decrypt-encrypt random e b bs h.0 h.1 h.2)) refl

module _ (go : Runtime) where
  pub header_bytes : ℕ → List ℕ → List ℕ
  header_bytes lsn bs =
      le_bytes 8 lsn ++ (le_bytes 4 (length bs) ++ le_bytes 4 (go.checksum_ieee bs))

  entry-split :
      (lsn : ℕ) (bs rest : List ℕ)
      → entry_bytes go lsn bs ++ rest ≡ header_bytes lsn bs ++ (bs ++ rest)
  unfolding entry_bytes header_bytes le_bytes
  entry-split lsn bs rest = refl

  pub length-header_bytes : (lsn : ℕ) (bs : List ℕ) → length (header_bytes lsn bs) ≡ 16
  unfolding header_bytes
  length-header_bytes lsn bs = omega (
    arith,
    length-append (le_bytes 8 lsn) (le_bytes 4 (length bs) ++ le_bytes 4 (go.checksum_ieee bs)),
    length-append (le_bytes 4 (length bs)) (le_bytes 4 (go.checksum_ieee bs)),
    length-le_bytes 8 lsn,
    length-le_bytes 4 (length bs),
    length-le_bytes 4 (go.checksum_ieee bs),
  )

  header-length :
      (lsn : ℕ) (bs : List ℕ)
      → length bs < u32_mod
      → le_value 4 (drop 8 (header_bytes lsn bs)) ≡ length bs
  unfolding header_bytes
  header-length lsn bs h =
      rw (drop-le_bytes 8 lsn (le_bytes 4 (length bs) ++ le_bytes 4 (go.checksum_ieee bs)))
        (le_value-le_bytes 4 (length bs) (le_bytes 4 (go.checksum_ieee bs)) h)

  header-checksum :
      (lsn : ℕ) (bs : List ℕ)
      → go.checksum_ieee bs < u32_mod
      → le_value 4 (drop 12 (header_bytes lsn bs)) ≡ go.checksum_ieee bs
  unfolding header_bytes le_bytes le_value
  header-checksum lsn bs h = omega arith

  module _ {Json : Type 0} (unmarshal : List ℕ → Option (WalRecord Json)) where
    -- Input that starts with a header and the data it speaks of.
    read_records-header :
        (fuel : ℕ) (e : Option Encryptor) (src header bs rest : List ℕ)
        → 0 < length src
        → read_full eof unexpected_eof 16 src ≡ ok (header, bs ++ rest)
        → le_value 4 (drop 8 header) ≡ length bs
        → le_value 4 (drop 12 header) ≡ go.checksum_ieee bs
        → read_records go unmarshal (suc fuel) e src
          ≡ opened unmarshal (unseal e bs) (read_records go unmarshal fuel e rest)
    unfolding read_records
    read_records-header fuel e [] header bs rest p h l k = absurd (omega arith)
    read_records-header fuel e (b ∷ src) header bs rest p h l k =
        rw (h, l, read_full-append eof unexpected_eof bs rest, k, same) refl
      where
        same : (go.checksum_ieee bs == go.checksum_ieee bs) ≡ true
        same = ground arith

    -- A whole record in front of other bytes.
    pub read_records-entry :
        (fuel lsn : ℕ) (e : Option Encryptor) (bs rest : List ℕ)
        → length bs < u32_mod
        → go.checksum_ieee bs < u32_mod
        → read_records go unmarshal (suc fuel) e (entry_bytes go lsn bs ++ rest)
          ≡ opened unmarshal (unseal e bs) (read_records go unmarshal fuel e rest)
    read_records-entry fuel lsn e bs rest h k = rw (entry-split lsn bs rest) (
        read_records-header fuel e (header_bytes lsn bs ++ (bs ++ rest)) (header_bytes lsn bs) bs
          rest
          (omega
            (arith, length-append (header_bytes lsn bs) (bs ++ rest), length-header_bytes lsn bs))
          (read_full_exact eof unexpected_eof 16 (header_bytes lsn bs) (bs ++ rest)
            (sym (length-header_bytes lsn bs)))
          (header-length lsn bs h) (header-checksum lsn bs k))

    mismatch :
        (fuel : ℕ) (e : Option Encryptor) (src header bs rest : List ℕ)
        → 0 < length src
        → read_full eof unexpected_eof 16 src ≡ ok (header, bs ++ rest)
        → le_value 4 (drop 8 header) ≡ length bs
        → go.checksum_ieee bs ≢ le_value 4 (drop 12 header)
        → read_records go unmarshal (suc fuel) e src ≡ ok []
    unfolding read_records
    mismatch fuel e [] header bs rest p h l k = absurd (omega arith)
    mismatch fuel e (b ∷ src) header bs rest p h l k =
        rw (h, l, read_full-append eof unexpected_eof bs rest, differ) refl
      where
        differ : (go.checksum_ieee bs == le_value 4 (drop 12 header)) ≡ false
        differ = ground (arith, k)

    -- A header with data of the right length and another checksum.
    pub read_records-mismatch :
        (fuel lsn : ℕ) (e : Option Encryptor) (bs cs rest : List ℕ)
        → length bs < u32_mod
        → go.checksum_ieee bs < u32_mod
        → length cs ≡ length bs
        → go.checksum_ieee cs ≢ go.checksum_ieee bs
        → read_records go unmarshal (suc fuel) e (header_bytes lsn bs ++ (cs ++ rest)) ≡ ok []
    read_records-mismatch fuel lsn e bs cs rest h k same ne =
        mismatch fuel e (header_bytes lsn bs ++ (cs ++ rest)) (header_bytes lsn bs) cs rest
          (omega
            (arith, length-append (header_bytes lsn bs) (cs ++ rest), length-header_bytes lsn bs))
          (read_full_exact eof unexpected_eof 16 (header_bytes lsn bs) (cs ++ rest)
            (sym (length-header_bytes lsn bs)))
          (header-length lsn bs h ∙ sym same) (λ q. ne (q ∙ header-checksum lsn bs k))
