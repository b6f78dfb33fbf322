-- ===== src/Store/Emptied.antt =====
-- storage/storage.go: a table that is made leaves a sound Storage sound, also where that fails.
use mathlib.Core.Path.{subst}
use xxldb.Base.{
  ℕ, ◌+◌, ◌%◌, ◌<◌, ◌≤◌, ◌≡◌, refl, Bool, true, false, Option, none, some, List, [], arith,
}
use xxldb.Base.Assoc.{Map, find_key, put_key, find_key-put_key_self, find_key-put_key_ne}
use xxldb.Base.Words.{u64_mod}
use xxldb.Executor.Evaluate.{Row}
use xxldb.Parser.Syntax.{Text}
use xxldb.Store.{Column, TableInfo, Storage, take_id, with_rows, create_new, make_rows, registered}
use xxldb.Store.Sound.{IsSoundTable, Sounds, IsSound, Sounds-change}

pub next_id-suc : (n : ℕ) → n + 1 < u64_mod → n ≤ (n + 1) % u64_mod
next_id-suc n h = omega (arith, h)

files_none :
    (info : Option TableInfo) (rows : Option (List Row)) (ids : Option (List ℕ))
    (files : Option (List Row)) (n : ℕ)
    → IsSoundTable false info rows ids files n
    → files ≡ none
files_none (some info) (some rows) (some ids) none n t = refl
files_none none none none none n t = refl
files_none info rows ids files n t = absurd t

memory_none :
    (info : Option TableInfo) (rows : Option (List Row)) (ids : Option (List ℕ))
    (files : Option (List Row)) (n : ℕ)
    → IsSoundTable true info rows ids files n
    → (rows ≡ none) × (ids ≡ none)
memory_none (some info) none none (some rows) n t = (refl, refl)
memory_none none none none files n t = (refl, refl)
memory_none info rows ids files n t = absurd t

-- A table without rows, new or not.
pub emptied :
    (enabled : Bool) (name : Text) (info : TableInfo) (tables : Map TableInfo)
    (rows : Map (List Row)) (ids : Map (List ℕ)) (files : Map (List Row)) (sequences : Map ℕ)
    (next next' : ℕ)
    → info.row_count ≡ 0
    → next ≤ next'
    → Sounds enabled tables rows ids files next
    → IsSound (
        with_rows enabled name (record {
          enabled = enabled;
          tables = put_key tables name info;
          row_data = rows;
          row_ids = ids;
          table_files = files;
          sequences = sequences;
          next_id = next';
        }))
unfolding with_rows
emptied false k info ts rs is fs q n m h le sound =
    Sounds-change false k ts (put_key ts k info) rs (put_key rs k []) is (put_key is k []) fs fs n m
      sound le (λ l x. find_key-put_key_ne ts k l info x) (λ l x. find_key-put_key_ne rs k l [] x)
      (λ l x. find_key-put_key_ne is k l [] x) (λ l x. refl)
      (rw
        (
          find_key-put_key_self ts k info,
          find_key-put_key_self rs k [],
          find_key-put_key_self is k [],
          files_none (find_key ts k) (find_key rs k) (find_key is k) (find_key fs k) n (sound k),
        )
        (h, refl, omega arith))
emptied true k info ts rs is fs q n m h le sound =
    Sounds-change true k ts (put_key ts k info) rs rs is is fs (put_key fs k []) n m sound le
      (λ l x. find_key-put_key_ne ts k l info x) (λ l x. refl) (λ l x. refl)
      (λ l x. find_key-put_key_ne fs k l [] x)
      (let none_here =
          memory_none (find_key ts k) (find_key rs k) (find_key is k) (find_key fs k) n (sound k) in
        rw
          (find_key-put_key_self ts k info, find_key-put_key_self fs k [], none_here.0, none_here.1)
          _)

registered_with :
    (name : Text) (columns : List Column) (s : Storage)
    → s.next_id + 1 < u64_mod
    → IsSound s
    → IsSound (with_rows s.enabled name (registered name columns s))
unfolding registered take_id
registered_with k columns s le sound =
    emptied s.enabled k _ s.tables s.row_data s.row_ids s.table_files _ s.next_id _ refl
      (next_id-suc s.next_id le) sound

known :
    (s : Storage) (k : Text) (found : Option TableInfo)
    → find_key s.tables k ≡ found
    → IsSound s
    → IsSoundTable s.enabled found
        (find_key s.row_data k)
        (find_key s.row_ids k)
        (find_key s.table_files k)
        s.next_id
known s k found h sound =
    subst
      (λ x.
        IsSoundTable s.enabled x (find_key s.row_data k) (find_key s.row_ids k)
          (find_key s.table_files k) s.next_id)
      h (sound k)

pub stands :
    (s : Storage) (k : Text) (found : Option TableInfo) (files : Option (List Row))
    → find_key s.tables k ≡ found
    → find_key s.table_files k ≡ files
    → IsSound s
    → IsSoundTable s.enabled found (find_key s.row_data k) (find_key s.row_ids k) files s.next_id
stands s k found files h f sound =
    subst
      (λ x. IsSoundTable s.enabled found (find_key s.row_data k) (find_key s.row_ids k) x s.next_id)
      f (known s k found h sound)

filed :
    (enabled : Bool) (info : TableInfo) (found : Option TableInfo) (rows : Option (List Row))
    (ids : Option (List ℕ)) (stored : List Row) (n m : ℕ)
    → enabled ≡ true
    → IsSoundTable enabled found rows ids (some stored) n
    → IsSoundTable enabled (some info) rows ids (some stored) m
filed true info (some found) none none stored n m h t = _
filed true info none none none stored n m h t = _
filed true info none none (some ids) stored n m h t = absurd t
filed true info (some found) none (some ids) stored n m h t = absurd t
filed true info none (some rows) ids stored n m h t = absurd t
filed true info (some found) (some rows) ids stored n m h t = absurd t
filed false info found rows ids stored n m h t = absurd (cc h)

registered_file :
    (name : Text) (columns : List Column) (s : Storage) (stored : List Row)
    → s.enabled ≡ true
    → find_key s.table_files name ≡ some stored
    → s.next_id + 1 < u64_mod
    → IsSound s
    → IsSound (registered name columns s)
unfolding registered take_id
registered_file k columns s stored h f le sound =
    Sounds-change s.enabled k s.tables _ s.row_data _ s.row_ids _ s.table_files _ s.next_id _ sound
      (next_id-suc s.next_id le) (λ l x. find_key-put_key_ne s.tables k l _ x) (λ l x. refl)
      (λ l x. refl) (λ l x. refl)
      (rw (find_key-put_key_self s.tables k _, f)
        (filed s.enabled _ (find_key s.tables k) (find_key s.row_data k) (find_key s.row_ids k)
          stored s.next_id _ h (stands s k (find_key s.tables k) (some stored) refl f sound)))

make_rows-IsSound :
    (enabled : Bool) (name : Text) (columns : List Column) (s : Storage) (files : Option (List Row))
    → s.enabled ≡ enabled
    → find_key s.table_files name ≡ files
    → s.next_id + 1 < u64_mod
    → IsSound s
    → IsSound (make_rows enabled files name (registered name columns s)).0
unfolding make_rows
make_rows-IsSound true k columns s (some rows) h f le sound =
    registered_file k columns s rows h f le sound
make_rows-IsSound true k columns s none h f le sound =
    subst (λ x. IsSound (with_rows x k (registered k columns s))) h
      (registered_with k columns s le sound)
make_rows-IsSound false k columns s files h f le sound =
    subst (λ x. IsSound (with_rows x k (registered k columns s))) h
      (registered_with k columns s le sound)

-- CREATE TABLE leaves a sound state, also where it fails.
pub create_new-IsSound :
    (name : Text) (columns : List Column) (s : Storage) (found : Option TableInfo)
    → s.next_id + 1 < u64_mod
    → IsSound s
    → IsSound (create_new name columns s found).0
unfolding create_new
create_new-IsSound k columns s (some info) le sound = sound
create_new-IsSound k columns s none le sound =
    make_rows-IsSound s.enabled k columns s (find_key s.table_files k) refl refl le sound
