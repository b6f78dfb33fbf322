-- ===== src/Wal/Runs.antt =====
-- storage/wal.go: runs on a log of records that hold a number.
use xxldb.Base.{ℕ, ◌%◌, ◌≡◌, refl, arith, true, Option, some, List, [], ◌∷◌, ok}
use xxldb.Value.{Runtime}
use xxldb.Cipher.{Encryptor, default_code, encrypt, code_or_default, sum_bytes}
use xxldb.Wal.{WalRecord, Log, bytes_of, seal, write_wal, read_all}
use xxldb.Wal.Entry.{IsSealable}
use xxldb.Wal.Replay.{IsWritable, IsLog, empty, read_all-write_wal}

abbrev first_byte : List ℕ → ℕ
first_byte [] = 0
first_byte (b ∷ bs) = b

abbrev runtime : Runtime
runtime = record {
  u64_of_f64 = λ w. w;
  i64_of_f64 = λ w. w;
  f64_of_u64 = λ w. w;
  f64_of_f32 = λ w. w;
  sprint = λ d. [];
  checksum_ieee = λ bs. first_byte bs % 256;
}

-- A record by its number, written as one byte.
abbrev numbered : ℕ → WalRecord ℕ
numbered n = record {
  lsn = 1;
  txn_id = 0;
  type = 1;
  table_id = 1;
  row_id = 1;
  timestamp = 99;
  content = n;
  old_content = 0;
}

abbrev marshal : WalRecord ℕ → List ℕ
marshal r = r.content ∷ []

abbrev unmarshal : List ℕ → Option (WalRecord ℕ)
unmarshal bs = some (numbered (first_byte bs))

-- Encryption with the password "xxldb".
abbrev key : Encryptor
key = record { code = default_code; code_len = 5; add_length = 3; index = 0 }

abbrev empty_log : Log
empty_log = record { enabled = true; file = some []; sequence = 0; encryptor = some key }

abbrev random : List ℕ
random = 1 ∷ 2 ∷ 3 ∷ []

seven-IsWritable : IsWritable runtime unmarshal marshal random (some key) (numbered 7)
unfolding IsSealable seal bytes_of encrypt code_or_default sum_bytes
seven-IsWritable = record {
  sealable =
      (record { filled = refl; random_bytes = omega arith }, omega arith, omega arith, omega arith);
  short = omega arith;
  sum_fits = omega arith;
  parsed = refl;
}

read_all-write_wal_example :
    (out : List ℕ) × ((write_wal runtime marshal 99 random empty_log (numbered 7)).file ≡ some out)
    × IsLog runtime unmarshal (some key) out (numbered 7 ∷ [])
    × (read_all runtime unmarshal (write_wal runtime marshal 99 random empty_log (numbered 7))
        ≡ ok (numbered 7 ∷ []))
read_all-write_wal_example =
    read_all-write_wal runtime unmarshal marshal 99 random empty_log [] (numbered 7) [] refl refl
      empty seven-IsWritable
