-- ===== src/Store/Stored.antt =====
-- storage/storage.go: a row that is put into a table leaves a sound Storage sound, and so does one
-- that is refused.
use xxldb.Base.{
  ℕ, suc, ◌+◌, ◌<◌, ◌≤◌, ◌≡◌, refl, ap, ◌∙◌, Bool, true, false, Option, none, some, List, [], ◌∷◌,
  ◌++◌, arith, Result, ok, err, panic, length-append,
}
use xxldb.Base.Assoc.{Map, find_key, find_key-put_key_self, find_key-put_key_ne}
use xxldb.Base.Words.{u64_mod}
use xxldb.Executor.Evaluate.{Row}
use xxldb.Parser.Syntax.{Text}
use xxldb.Store.{TableFiles, rescan, Error, TableInfo, Storage, take_id}
use xxldb.Store.Rows.{
  one_row_more, counted, insert_numbered, insert_checked, file_row, insert_row_of, or_empty,
  check_row, number_row,
}
use xxldb.Store.Emptied.{next_id-suc, stands}
use xxldb.Store.Sound.{
  Between-append, IsSoundTable, IsSoundTable-widen, Sounds-rescan, find_key-rescan, option_map,
  IsSound, Sounds-change,
}
use xxldb.Value.Convert.{Library}

-- One row more.
one_more :
    (enabled : Bool) (info info' : TableInfo) (row : Row) (rows : Option (List Row))
    (ids : Option (List ℕ)) (n m : ℕ)
    → info'.row_count ≡ info.row_count + 1
    → n + 1 ≤ m
    → IsSoundTable enabled (some info) rows ids none n
    → IsSoundTable enabled
        (some info')
        (some (or_empty rows ++ (row ∷ [])))
        (some (or_empty ids ++ (n ∷ [])))
        none
        m
one_more false info info' row (some rows) (some ids) n m h k t =
    IsSoundTable-widen false (some info') (some (rows ++ (row ∷ []))) (some (ids ++ (n ∷ []))) none
      (suc n) m (omega (arith, k))
      (
        omega (arith, h, t.0, length-append rows (row ∷ [])),
        omega (arith, t.1, length-append rows (row ∷ []), length-append ids (n ∷ [])),
        Between-append 0 ids n t.2,
      )
one_more false info info' row none ids n m h k t = absurd t
one_more false info info' row (some rows) none n m h k t = absurd t
one_more true info info' row none none n m h k t = absurd t
one_more true info info' row none (some ids) n m h k t = absurd t
one_more true info info' row (some rows) ids n m h k t = absurd t

counted_in_file :
    (enabled : Bool) (info info' : TableInfo) (rows : Option (List Row)) (ids : Option (List ℕ))
    (stored : List Row) (n : ℕ)
    → IsSoundTable enabled (some info) rows ids (some stored) n
    → IsSoundTable enabled (some info') rows ids (some stored) n
counted_in_file true info info' none none stored n t = _
counted_in_file true info info' none (some ids) stored n t = absurd t
counted_in_file true info info' (some rows) ids stored n t = absurd t
counted_in_file false info info' none ids stored n t = absurd t
counted_in_file false info info' (some rows) none stored n t = absurd t
counted_in_file false info info' (some rows) (some ids) stored n t = absurd t

one_row_more-IsSound :
    (name : Text) (info : TableInfo) (s : Storage) (stored : List Row)
    → find_key s.tables name ≡ some info
    → find_key s.table_files name ≡ some stored
    → IsSound s
    → IsSound (one_row_more name info s)
one_row_more-IsSound k info s stored h f sound =
    Sounds-change s.enabled k s.tables _ s.row_data _ s.row_ids _ s.table_files _ s.next_id _ sound
      (omega arith) (λ l x. find_key-put_key_ne s.tables k l _ x) (λ l x. refl) (λ l x. refl)
      (λ l x. refl)
      (rw (find_key-put_key_self s.tables k _, f)
        (counted_in_file s.enabled info _ _ _ stored s.next_id
          (stands s k (some info) (some stored) h f sound)))

counted-IsSound :
    (name : Text) (info : TableInfo) (last : ℕ) (refused : Option Text) (s : Storage)
    (stored : List Row)
    → find_key s.tables name ≡ some info
    → find_key s.table_files name ≡ some stored
    → IsSound s
    → IsSound (counted name info last refused s).0
unfolding counted
counted-IsSound k info last none s stored h f sound = one_row_more-IsSound k info s stored h f sound
counted-IsSound k info last (some why) s stored h f sound = sound

-- Sequences, ids that go on and a new scan of the files.
rescanned-IsSound :
    (s : Storage) (sequences : Map ℕ) (next : ℕ) (scan : Text → List Row)
    → s.next_id ≤ next
    → IsSound s
    → IsSound (record s {
      sequences = sequences;
      next_id = next;
      table_files = rescan scan s.table_files;
    })
rescanned-IsSound s q next scan le sound k =
    IsSoundTable-widen s.enabled _ _ _ _ s.next_id next le
      (Sounds-rescan s.enabled s.tables s.row_data s.row_ids s.table_files s.next_id scan sound k)

module _ (files : TableFiles) (lib : Library) where
  file_row-IsSound :
      (name : Text) (info : TableInfo) (row : Row) (last : ℕ) (s : Storage) (sequences : Map ℕ)
      (stored : Option (List Row))
      → find_key s.tables name ≡ some info
      → find_key s.table_files name ≡ stored
      → s.next_id + 2 < u64_mod
      → IsSound s
      → IsSound
          (file_row files lib name info row s.next_id last stored
            (take_id (record s { sequences = sequences }))).0
  unfolding file_row take_id
  file_row-IsSound k info row last s q (some stored) h f le sound =
      counted-IsSound k info last _ _ _ h (find_key-rescan _ s.table_files k ∙ ap (option_map _) f)
        (rescanned-IsSound s q _ _ (omega (arith, le)) sound)
  file_row-IsSound k info row last s q none h f le sound =
      Sounds-change s.enabled k s.tables _ s.row_data _ s.row_ids _ s.table_files _ s.next_id _
        sound (next_id-suc s.next_id (omega (arith, le)))
        (λ l x. find_key-put_key_ne s.tables k l _ x)
        (λ l x. find_key-put_key_ne s.row_data k l _ x)
        (λ l x. find_key-put_key_ne s.row_ids k l _ x) (λ l x. refl)
        (rw
          (
            find_key-put_key_self s.tables k _,
            find_key-put_key_self s.row_data k _,
            find_key-put_key_self s.row_ids k _,
            f,
          )
          (one_more s.enabled info _ row _ _ s.next_id _ refl (omega (arith, le))
            (stands s k (some info) none h f sound)))

  insert_numbered-IsSound :
      (name : Text) (info : TableInfo) (s : Storage) (numbered : Result Error (Map ℕ × Row × ℕ))
      → find_key s.tables name ≡ some info
      → s.next_id + 2 < u64_mod
      → IsSound s
      → IsSound (insert_numbered files lib name info s numbered).0
  unfolding insert_numbered
  insert_numbered-IsSound k info s (ok (q, row, last)) h le sound =
      file_row-IsSound k info row last s q (find_key s.table_files k) h refl le sound
  insert_numbered-IsSound k info s (err e) h le sound = sound
  insert_numbered-IsSound k info s panic h le sound = sound

  insert_checked-IsSound :
      (name : Text) (info : TableInfo) (s : Storage) (checked : Result Error Row)
      → find_key s.tables name ≡ some info
      → s.next_id + 2 < u64_mod
      → IsSound s
      → IsSound (insert_checked files lib name info s checked).0
  unfolding insert_checked
  insert_checked-IsSound k info s (ok row) h le sound =
      insert_numbered-IsSound k info s (number_row k info.columns 0 (s.sequences, row, 0)) h le
        sound
  insert_checked-IsSound k info s (err e) h le sound = sound
  insert_checked-IsSound k info s panic h le sound = sound

  pub insert_row_of-IsSound :
      (name : Text) (row : Row) (s : Storage) (found : Option TableInfo)
      → find_key s.tables name ≡ found
      → s.next_id + 2 < u64_mod
      → IsSound s
      → IsSound (insert_row_of files lib name row s found).0
  unfolding insert_row_of
  insert_row_of-IsSound k row s none h le sound = sound
  insert_row_of-IsSound k row s (some info) h le sound =
      insert_checked-IsSound k info s (check_row lib info.columns row) h le sound
