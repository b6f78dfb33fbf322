-- ===== src/Wal/Replay.antt =====
-- storage/wal.go: ReadAll on a log of whole records, and what writeWAL adds to it.
use xxldb.Base.{
  ℕ, zero, suc, ◌<◌, ◌≤◌, ◌≡◌, refl, sym, ap, ◌∙◌, arith, true, Option, some, List, [], ◌∷◌, ◌++◌,
  length, length-append, append_assoc, append-nil, Result, ok, err, ◌>>=◌,
}
use xxldb.Base.Words.{u32_mod, le_bytes}
use xxldb.Value.{Runtime}
use xxldb.Cipher.{Encryptor}
use xxldb.Wal.{
  Error, WalRecord, Log, seal, unseal, entry_bytes, append_entry, stamped, write_to, write_wal,
  unmarshaled, opened, read_records, read_file, read_all,
}
use xxldb.Wal.Entry.{IsSealable, unseal-seal, read_records-entry}

module _ (go : Runtime) {Json : Type 0} (unmarshal : List ℕ → Option (WalRecord Json)) where
  -- Bytes that can be read back as this record.
  pub record IsEntry (e : Option Encryptor) (bs : List ℕ) (r : WalRecord Json) : Type 0 where
    pub plain : List ℕ
    pub short : length bs < u32_mod
    pub sum_fits : go.checksum_ieee bs < u32_mod
    pub unsealed_data : unseal e bs ≡ some plain
    pub parsed : unmarshal plain ≡ some r

  -- The bytes of a log, and its records.
  pub data IsLog (e : Option Encryptor) : List ℕ → List (WalRecord Json) → Type 0 where
    empty : IsLog e [] []
    entry :
        (lsn : ℕ) (bs : List ℕ) (r : WalRecord Json) {file : List ℕ} {rs : List (WalRecord Json)}
        → IsEntry e bs r
        → IsLog e file rs
        → IsLog e (entry_bytes go lsn bs ++ file) (r ∷ rs)

  pub IsLog-append :
      (e : Option Encryptor) (lsn : ℕ) (bs : List ℕ) (r : WalRecord Json) {file : List ℕ}
      {rs : List (WalRecord Json)}
      → IsEntry e bs r
      → IsLog e file rs
      → IsLog e (file ++ entry_bytes go lsn bs) (rs ++ (r ∷ []))
  IsLog-append e lsn bs r i empty =
      rw (← append-nil (entry_bytes go lsn bs)) (entry lsn bs r i empty)
  IsLog-append e lsn bs r i (entry n cs q {file} {rs} j l) =
      rw (append_assoc (entry_bytes go n cs) file (entry_bytes go lsn bs))
        (entry n cs q j (IsLog-append e lsn bs r i l))

  pub before :
      List (WalRecord Json)
      → Result Error (List (WalRecord Json))
      → Result Error (List (WalRecord Json))
  before [] rest = rest
  before (r ∷ rs) rest = before rs rest >>= λ more. ok (r ∷ more)

  length-entry_bytes : (lsn : ℕ) (bs : List ℕ) → 16 ≤ length (entry_bytes go lsn bs)
  unfolding entry_bytes le_bytes
  length-entry_bytes lsn bs = omega arith

  -- The records of a log are read one by one, and then what is behind it.
  read_records-IsLog :
      (e : Option Encryptor) (fuel : ℕ) (tail : List ℕ) {file : List ℕ} {rs : List (WalRecord Json)}
      → IsLog e file rs
      → length (file ++ tail) < fuel
      → (left : ℕ) × (length tail < left)
        × (read_records go unmarshal fuel e (file ++ tail)
            ≡ before rs (read_records go unmarshal left e tail))
  unfolding before opened unmarshaled
  read_records-IsLog e fuel tail empty h = (fuel, h, refl)
  read_records-IsLog e zero tail (entry lsn bs r {file} {rs} i l) h = absurd (omega arith)
  read_records-IsLog e (suc fuel) tail (entry lsn bs r {file} {rs} i l) h =
      let step = read_records-IsLog e fuel tail l (
        omega (
          arith,
          length-append (entry_bytes go lsn bs) (file ++ tail),
          length-entry_bytes lsn bs,
          ap length (append_assoc (entry_bytes go lsn bs) file tail),
        )) in
      (
        step.0,
        step.1,
        rw
            (
              append_assoc (entry_bytes go lsn bs) file tail,
              read_records-entry go unmarshal fuel lsn e bs (file ++ tail) i.short i.sum_fits,
              i.unsealed_data,
              i.parsed,
              step.2,
            )
            refl,
      )

  pub before-ok : (rs more : List (WalRecord Json)) → before rs (ok more) ≡ ok (rs ++ more)
  unfolding before
  before-ok [] more = refl
  before-ok (r ∷ rs) more = rw (before-ok rs more) refl

  pub before-err : (rs : List (WalRecord Json)) (x : Error) → before rs (err x) ≡ err x
  unfolding before
  before-err [] x = refl
  before-err (r ∷ rs) x = rw (before-err rs x) refl

  nothing_left :
      (left : ℕ) (e : Option Encryptor) → 0 < left → read_records go unmarshal left e [] ≡ ok []
  unfolding read_records
  nothing_left zero e h = absurd (omega arith)
  nothing_left (suc left) e h = refl

  -- A log of whole records, and bytes behind it.
  pub read_file-behind :
      (e : Option Encryptor) (file tail : List ℕ) (rs : List (WalRecord Json))
      → IsLog e file rs
      → (left : ℕ) × (length tail < left)
        × (read_file go unmarshal e (some (file ++ tail))
            ≡ before rs (read_records go unmarshal left e tail))
  unfolding read_file
  read_file-behind e file tail rs l =
      read_records-IsLog e (suc (length (file ++ tail))) tail l (omega arith)

  read_file-IsLog :
      (e : Option Encryptor) (file : List ℕ) (rs : List (WalRecord Json))
      → IsLog e file rs
      → read_file go unmarshal e (some file) ≡ ok rs
  read_file-IsLog e file rs l =
      let t = read_file-behind e file [] rs l in
      ap (λ f. read_file go unmarshal e (some f)) (sym (append-nil file))
      ∙ t.2
      ∙ ap (before rs) (nothing_left t.0 e (omega (arith, t.1)))
      ∙ before-ok rs []
      ∙ ap ok (append-nil rs)

  module _ (marshal : WalRecord Json → List ℕ) where
    -- What is asked of a record that is written.
    pub record IsWritable (random : List ℕ) (e : Option Encryptor) (r : WalRecord Json)
        : Type 0 where
      pub sealable : IsSealable random e (marshal r)
      pub short : length (seal random e (marshal r)) < u32_mod
      pub sum_fits : go.checksum_ieee (seal random e (marshal r)) < u32_mod
      pub parsed : unmarshal (marshal r) ≡ some r

    IsWritable-IsEntry :
        (random : List ℕ) (e : Option Encryptor) (r : WalRecord Json)
        → IsWritable random e r
        → IsEntry e (seal random e (marshal r)) r
    IsWritable-IsEntry random e r w = record {
      plain = marshal r;
      short = w.short;
      sum_fits = w.sum_fits;
      unsealed_data = unseal-seal random e (marshal r) w.sealable;
      parsed = w.parsed;
    }

    -- writeWAL of a record that can be encrypted, fits and is parsed back from its JSON, to an enabled
    -- log of whole records: it leaves a log of whole records, with the stamped record as the last,
    -- and ReadAll returns them all, with encryption or without.
    pub read_all-write_wal :
        (now : ℕ) (random : List ℕ) (w : Log) (file : List ℕ) (r : WalRecord Json)
        (rs : List (WalRecord Json))
        → w.enabled ≡ true
        → w.file ≡ some file
        → IsLog w.encryptor file rs
        → IsWritable random w.encryptor (stamped go marshal w now r)
        → (out : List ℕ) × ((write_wal go marshal now random w r).file ≡ some out)
          × IsLog w.encryptor out (rs ++ (stamped go marshal w now r ∷ []))
          × (read_all go unmarshal (write_wal go marshal now random w r)
              ≡ ok (rs ++ (stamped go marshal w now r ∷ [])))
    unfolding write_wal write_to append_entry read_all
    read_all-write_wal now random w file r rs on f l c =
        (out, rw (on, f) refl, grown, rw (on, f) (read_file-IsLog w.encryptor out _ grown))
      where
        s : WalRecord Json
        s = stamped go marshal w now r

        out : List ℕ
        out = file ++ entry_bytes go s.lsn (seal random w.encryptor (marshal s))

        grown : IsLog w.encryptor out (rs ++ (s ∷ []))
        grown =
            IsLog-append w.encryptor s.lsn (seal random w.encryptor (marshal s)) s
              (IsWritable-IsEntry random w.encryptor s c) l
