-- ===== src/Store/Dropped.antt =====
-- storage/storage.go: a table that is dropped or truncated leaves a sound Storage sound.
use mathlib.Core.Path.{subst}
use xxldb.Base.{ℕ, ◌≡◌, refl, Bool, true, false, Option, none, some, List, arith}
use xxldb.Base.Assoc.{find_key, put_key, find_key-remove_key_self, find_key-remove_key_ne}
use xxldb.Executor.Evaluate.{Row}
use xxldb.Parser.Syntax.{Text}
use xxldb.Store.{
  reset_sequences, TableFiles, rescan, TableInfo, Storage, with_rows, drop_of, empty_rows,
  truncate_of,
}
use xxldb.Store.Sound.{IsSoundTable, IsSound, Sounds-change, Sounds-rescan, Holds}
use xxldb.Store.Emptied.{emptied, stands}

gone :
    (enabled : Bool) (info : Option TableInfo) (rows : Option (List Row)) (ids : Option (List ℕ))
    (files : Option (List Row)) (n : ℕ)
    → IsSoundTable enabled info rows ids files n
    → IsSoundTable enabled none none none files n
gone false (some info) (some rows) (some ids) none n t = _
gone true (some info) none none (some rows) n t = _
gone false none none none none n t = _
gone true none none none files n t = _
gone enabled info rows ids files n t = absurd t

pub drop_of-IsSound :
    (name : Text) (s : Storage) (found : Option TableInfo)
    → IsSound s
    → Holds IsSound (drop_of name s found)
unfolding drop_of
drop_of-IsSound k s none sound = _
drop_of-IsSound k s (some info) sound =
    Sounds-change s.enabled k s.tables _ s.row_data _ s.row_ids _ s.table_files _ s.next_id _ sound
      (omega arith) (λ l x. find_key-remove_key_ne s.tables k l x)
      (λ l x. find_key-remove_key_ne s.row_data k l x)
      (λ l x. find_key-remove_key_ne s.row_ids k l x) (λ l x. refl)
      (rw
        (
          find_key-remove_key_self s.tables k,
          find_key-remove_key_self s.row_data k,
          find_key-remove_key_self s.row_ids k,
        )
        (gone s.enabled _ _ _ _ s.next_id (sound k)))

in_file-enabled :
    (enabled : Bool) (info : TableInfo) (rows : Option (List Row)) (ids : Option (List ℕ))
    (stored : List Row) (n : ℕ)
    → IsSoundTable enabled (some info) rows ids (some stored) n
    → enabled ≡ true
in_file-enabled true info rows ids stored n t = refl
in_file-enabled false info none ids stored n t = absurd t
in_file-enabled false info (some rows) none stored n t = absurd t
in_file-enabled false info (some rows) (some ids) stored n t = absurd t

in_memory-disabled :
    (enabled : Bool) (info : TableInfo) (rows : Option (List Row)) (ids : Option (List ℕ)) (n : ℕ)
    → IsSoundTable enabled (some info) rows ids none n
    → enabled ≡ false
in_memory-disabled false info rows ids n t = refl
in_memory-disabled true info none none n t = absurd t
in_memory-disabled true info none (some ids) n t = absurd t
in_memory-disabled true info (some rows) ids n t = absurd t

module _ (files : TableFiles) where
  empty_rows-IsSound :
      (name : Text) (s : Storage) (info : TableInfo) (stored : Option (List Row))
      → find_key s.tables name ≡ some info
      → find_key s.table_files name ≡ stored
      → IsSound s
      → IsSound (empty_rows files name info stored s)
  unfolding empty_rows
  empty_rows-IsSound k s info (some stored) h f sound =
      subst
        (λ x. IsSound (
          with_rows x k (record s {
            sequences = reset_sequences k info.columns s.sequences;
            tables = put_key s.tables k (record info { row_count = 0 });
            table_files = rescan (files.cleared k s.table_files) s.table_files;
          })))
        (in_file-enabled s.enabled info _ _ stored s.next_id
          (stands s k (some info) (some stored) h f sound))
        (emptied s.enabled k _ s.tables s.row_data s.row_ids _ _ s.next_id s.next_id refl
          (omega arith)
          (Sounds-rescan s.enabled s.tables s.row_data s.row_ids s.table_files s.next_id
            (files.cleared k s.table_files) sound))
  empty_rows-IsSound k s info none h f sound =
      subst
        (λ x. IsSound (
          with_rows x k (record s {
            sequences = reset_sequences k info.columns s.sequences;
            tables = put_key s.tables k (record info { row_count = 0 });
          })))
        (in_memory-disabled s.enabled info _ _ s.next_id (stands s k (some info) none h f sound))
        (emptied s.enabled k _ s.tables s.row_data s.row_ids s.table_files _ s.next_id s.next_id
          refl (omega arith) sound)

  pub truncate_of-IsSound :
      (name : Text) (s : Storage) (found : Option TableInfo)
      → find_key s.tables name ≡ found
      → IsSound s
      → Holds IsSound (truncate_of files name s found)
  unfolding truncate_of
  truncate_of-IsSound k s none h sound = _
  truncate_of-IsSound k s (some info) h sound =
      empty_rows-IsSound k s info (find_key s.table_files k) h refl sound
