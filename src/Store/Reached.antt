-- ===== src/Store/Reached.antt =====
-- storage/storage.go: the states that a Storage reaches, and that each is sound.
use mathlib.Core.Path.{subst}
use xxldb.Base.{ℕ, ◌+◌, ◌<◌, ◌≡◌, refl, Bool, true, false, List, ok}
use xxldb.Base.Assoc.{find_key}
use xxldb.Base.Words.{u64_mod}
use xxldb.Executor.Evaluate.{Row}
use xxldb.Parser.Syntax.{Text}
use xxldb.Store.{TableFiles, Column, Storage, new_storage, create_table, drop_table, truncate_table}
use xxldb.Store.Rows.{storage_insert_row, delete_rows}
use xxldb.Store.Emptied.{create_new-IsSound}
use xxldb.Store.Dropped.{drop_of-IsSound, truncate_of-IsSound}
use xxldb.Store.Stored.{insert_row_of-IsSound}
use xxldb.Store.Removed.{SoundAnd, delete_of-IsSound}
use xxldb.Store.Update.{Changes, update_rows}
use xxldb.Store.Changed.{update_of-IsSound}
use xxldb.Store.Sound.{IsSound, Holds}
use xxldb.Value.Convert.{Library}

module _ (files : TableFiles) (lib : Library) where
  -- What CREATE TABLE, INSERT and UPDATE leave also where they fail. Ids are 64 bits wide, and have not
  -- run out.
  pub data Step (s : Storage) : Storage → Type 0 where
    creates :
        (name : Text) (columns : List Column) (s' : Storage)
        → s.next_id + 1 < u64_mod
        → (create_table name columns s).0 ≡ s'
        → Step s s'
    drops : (name : Text) (s' : Storage) → drop_table name s ≡ ok s' → Step s s'
    truncates : (name : Text) (s' : Storage) → truncate_table files name s ≡ ok s' → Step s s'
    inserts :
        (name : Text) (row : Row) (s' : Storage)
        → s.next_id + 2 < u64_mod
        → (storage_insert_row files lib name row s).0 ≡ s'
        → Step s s'
    deletes :
        (name : Text) (condition : Row → Bool) (s' : Storage) (count : ℕ)
        → delete_rows name condition s ≡ ok (s', count)
        → Step s s'
    updates :
        (name : Text) (f : Row → Changes) (condition : Row → Bool) (s' : Storage)
        → (update_rows lib name f condition s).0 ≡ s'
        → Step s s'

  pub data Reachable (enabled : Bool) : Storage → Type 0 where
    starts : Reachable enabled (new_storage enabled)
    continues : (s s' : Storage) → Reachable enabled s → Step s s' → Reachable enabled s'

  Step-IsSound : (s s' : Storage) → Step s s' → IsSound s → IsSound s'
  unfolding create_table drop_table truncate_table storage_insert_row delete_rows update_rows
  Step-IsSound s _ (creates name columns s' le e) sound =
      subst IsSound e (create_new-IsSound name columns s (find_key s.tables name) le sound)
  Step-IsSound s _ (drops name s' e) sound =
      subst (Holds IsSound) e (drop_of-IsSound name s (find_key s.tables name) sound)
  Step-IsSound s _ (truncates name s' e) sound =
      subst (Holds IsSound) e (truncate_of-IsSound files name s (find_key s.tables name) refl sound)
  Step-IsSound s _ (inserts name row s' le e) sound =
      subst IsSound e
        (insert_row_of-IsSound files lib name row s (find_key s.tables name) refl le sound)
  Step-IsSound s _ (deletes name c s' count e) sound =
      subst (Holds SoundAnd) e (delete_of-IsSound c name s (find_key s.tables name) refl sound)
  Step-IsSound s _ (updates name f c s' e) sound =
      subst IsSound e (update_of-IsSound lib f c name s (find_key s.tables name) refl sound)

  -- In every state that the operations reach before the 64-bit ids run out, a CREATE TABLE, an INSERT
  -- and an UPDATE also where they fail, and whatever the table files make of their rows: without
  -- persistence a table has as many ids as rows, the ids increase and are below the next one, the
  -- count kept of its rows is right, and there is no table file; with it each table has a table file,
  -- and neither rows nor ids in memory.
  pub Reachable-IsSound : (enabled : Bool) (s : Storage) → Reachable enabled s → IsSound s
  unfolding new_storage find_key
  Reachable-IsSound true s starts = λ name. _
  Reachable-IsSound false s starts = λ name. _
  Reachable-IsSound enabled _ (continues b s r step) =
      Step-IsSound b s step (Reachable-IsSound enabled b r)
