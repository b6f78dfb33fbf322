-- ===== src/Wal.antt =====
-- storage/wal.go: the write-ahead log as the bytes of its file, writeWAL and ReadAll. Writing does
-- not fail. The values that a record carries, their JSON, the clock and the random bytes are
-- parameters.
pub mod Entry
pub mod Replay
pub mod Torn
mod Runs
use xxldb.Base.{
  ℕ, zero, suc, ◌+◌, ◌%◌, ◌^◌, Bool, true, false, not, Option, none, some, List, [], ◌∷◌, ◌++◌, ltb,
  leb, ◌==◌, if◌then◌else◌, length, take, drop, Result, ok, err, panic, ◌>>=◌,
}
use xxldb.Base.Input.{read_full}
use xxldb.Base.Words.{le_bytes, le_value, u32_mod, u64_mod}
use xxldb.Value.{Runtime}
use xxldb.Cipher
use xxldb.Cipher.{Slice, Encryptor, encrypt, decrypt}

pub data Error : Type 0 where
  eof unexpected_eof unmarshal_failed : Error

pub record WalRecord (Json : Type 0) : Type 0 where
  pub lsn : ℕ
  pub txn_id : ℕ
  pub type : ℕ
  pub table_id : ℕ
  pub row_id : ℕ
  pub timestamp : ℕ
  pub content : Json
  pub old_content : Json

-- The log of a Storage: the file (`none` is nil), the last sequence number and the encryption.
pub record Log : Type 0 where
  pub enabled : Bool
  pub file : Option (List ℕ)
  pub sequence : ℕ
  pub encryptor : Option Encryptor

pub bytes_of : Slice → List ℕ
bytes_of none = []
bytes_of (some bs) = bs

pub seal : List ℕ → Option Encryptor → List ℕ → List ℕ
seal random none bs = bs
seal random (some e) bs = bytes_of (encrypt random e (some bs))

unsealed : Result Cipher.Error Slice → Option (List ℕ)
unsealed (ok out) = some (bytes_of out)
unsealed (err e) = none
unsealed panic = none

pub unseal : Option Encryptor → List ℕ → Option (List ℕ)
unseal none bs = some bs
unseal (some e) bs = unsealed (decrypt e (some bs))

module _ {Json : Type 0} (unmarshal : List ℕ → Option (WalRecord Json)) where
  pub unmarshaled :
      Option (WalRecord Json)
      → Result Error (List (WalRecord Json))
      → Result Error (List (WalRecord Json))
  unmarshaled none rest = err unmarshal_failed
  unmarshaled (some r) rest = rest >>= λ rs. ok (r ∷ rs)

  -- Data that cannot be decrypted ends the log like a wrong checksum.
  pub opened :
      Option (List ℕ) → Result Error (List (WalRecord Json)) → Result Error (List (WalRecord Json))
  opened none rest = ok []
  opened (some bs) rest = unmarshaled (unmarshal bs) rest

module _ (go : Runtime) where
  -- The header and the data of a record.
  pub entry_bytes : ℕ → List ℕ → List ℕ
  entry_bytes lsn bs =
      le_bytes 8 lsn ++ (le_bytes 4 (length bs) ++ (le_bytes 4 (go.checksum_ieee bs) ++ bs))

  module _ {Json : Type 0} (marshal : WalRecord Json → List ℕ) where
    append_entry : List ℕ → Log → WalRecord Json → List ℕ → Log
    append_entry random w r file = record w {
      file = some (file ++ entry_bytes r.lsn (seal random w.encryptor (marshal r)));
    }

    -- The number and the time are put into the record.
    abbrev pub stamped : Log → ℕ → WalRecord Json → WalRecord Json
    stamped w now r = record r { lsn = (w.sequence + 1) % u64_mod; timestamp = now }

    pub write_to : ℕ → List ℕ → Log → WalRecord Json → Option (List ℕ) → Log
    write_to now random w r none = w
    write_to now random w r (some file) =
        append_entry random (record w { sequence = (w.sequence + 1) % u64_mod }) (stamped w now r)
          file

    pub write_wal : ℕ → List ℕ → Log → WalRecord Json → Log
    write_wal now random w r = if w.enabled then write_to now random w r w.file else w

  module _ {Json : Type 0} (unmarshal : List ℕ → Option (WalRecord Json)) where
    -- The loop of ReadAll, with fuel: a record takes 16 bytes at least.
    pub read_records : ℕ → Option Encryptor → List ℕ → Result Error (List (WalRecord Json))
    read_records zero e src = ok []
    read_records (suc fuel) e [] = ok []
    read_records (suc fuel) e (b ∷ src) = do
      (header, rest) ← read_full eof unexpected_eof 16 (b ∷ src)
      (bs, behind) ← read_full eof unexpected_eof (le_value 4 (drop 8 header)) rest
      let more = read_records fuel e behind
      if go.checksum_ieee bs == le_value 4 (drop 12 header)
          then opened unmarshal (unseal e bs) more
          else ok []

    pub read_file : Option Encryptor → Option (List ℕ) → Result Error (List (WalRecord Json))
    read_file e none = ok []
    read_file e (some src) = read_records (suc (length src)) e src

    pub read_all : Log → Result Error (List (WalRecord Json))
    read_all w = if w.enabled then read_file w.encryptor w.file else ok []
