-- ===== src/Wal/Torn.antt =====
-- storage/wal.go: ReadAll on a log whose end is damaged.
use xxldb.Base.{
  ℕ, zero, suc, ◌<◌, ◌≡◌, ◌≢◌, ap, ◌∙◌, arith, Option, some, List, [], ◌∷◌, ◌++◌, length,
  append-nil, ok, err,
}
use xxldb.Base.Input.{read_full}
use xxldb.Base.Words.{u32_mod}
use xxldb.Value.{Runtime}
use xxldb.Cipher.{Encryptor}
use xxldb.Wal.{unexpected_eof, WalRecord, read_records, read_file}
use xxldb.Wal.Entry.{header_bytes, read_records-mismatch}
use xxldb.Wal.Replay.{IsLog, before, before-ok, before-err, read_file-behind}

module _ (go : Runtime) {Json : Type 0} (unmarshal : List ℕ → Option (WalRecord Json)) where
  part_of_header :
      (left : ℕ) (e : Option Encryptor) (tail : List ℕ)
      → 0 < left
      → 0 < length tail
      → length tail < 16
      → read_records go unmarshal left e tail ≡ err unexpected_eof
  unfolding read_records read_full
  part_of_header zero e tail h p s = absurd (omega arith)
  part_of_header (suc left) e [] h p s = absurd (omega arith)
  part_of_header (suc left) e (b ∷ tail) h p s = ground arith

  -- Where the last record was cut within its header, ReadAll fails and gives none of the whole
  -- records before it.
  read_file-torn :
      (e : Option Encryptor) (file tail : List ℕ) (rs : List (WalRecord Json))
      → IsLog go unmarshal e file rs
      → 0 < length tail
      → length tail < 16
      → read_file go unmarshal e (some (file ++ tail)) ≡ err unexpected_eof
  read_file-torn e file tail rs l p s =
      let t = read_file-behind go unmarshal e file tail rs l in
      t.2
      ∙ ap (before go unmarshal rs) (part_of_header t.0 e tail (omega (arith, t.1)) p s)
      ∙ before-err go unmarshal rs unexpected_eof

  corrupt_part :
      (left lsn : ℕ) (e : Option Encryptor) (bs cs rest : List ℕ)
      → 0 < left
      → length bs < u32_mod
      → go.checksum_ieee bs < u32_mod
      → length cs ≡ length bs
      → go.checksum_ieee cs ≢ go.checksum_ieee bs
      → read_records go unmarshal left e (header_bytes go lsn bs ++ (cs ++ rest)) ≡ ok []
  corrupt_part zero lsn e bs cs rest p h k same ne = absurd (omega arith)
  corrupt_part (suc left) lsn e bs cs rest p h k same ne =
      read_records-mismatch go unmarshal left lsn e bs cs rest h k same ne

  -- Where a record's data was changed under another checksum, ReadAll returns the whole records
  -- before it and nothing of what is behind it, without an error.
  read_file-corrupt :
      (e : Option Encryptor) (file : List ℕ) (rs : List (WalRecord Json)) (lsn : ℕ)
      (bs cs rest : List ℕ)
      → IsLog go unmarshal e file rs
      → length bs < u32_mod
      → go.checksum_ieee bs < u32_mod
      → length cs ≡ length bs
      → go.checksum_ieee cs ≢ go.checksum_ieee bs
      → read_file go unmarshal e (some (file ++ (header_bytes go lsn bs ++ (cs ++ rest)))) ≡ ok rs
  read_file-corrupt e file rs lsn bs cs rest l h k same ne =
      let t = read_file-behind go unmarshal e file (header_bytes go lsn bs ++ (cs ++ rest)) rs l in
      t.2
      ∙ ap (before go unmarshal rs)
          (corrupt_part t.0 lsn e bs cs rest (omega (arith, t.1)) h k same ne)
      ∙ before-ok go unmarshal rs []
      ∙ ap ok (append-nil rs)
