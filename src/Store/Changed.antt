-- ===== src/Store/Changed.antt =====
-- storage/update_callback.go: what UpdateRowsWithCallback leaves in a table, also where it fails.
use mathlib.Core.Path.{subst}
use xxldb.Base.{
  ℕ, suc, ◌+◌, ◌≡◌, refl, Bool, true, false, Option, none, some, List, [], ◌∷◌, ◌++◌, length, arith,
  Bool-cases, inl, inr, Result, ok, err, panic, if◌then◌else◌, map, All,
}
use xxldb.Base.Assoc.{find_key, find_key-put_key_self, find_key-put_key_ne}
use xxldb.Executor.Evaluate.{Row}
use xxldb.Parser.Syntax.{Text}
use xxldb.Store.{Error, Column, TableInfo, Storage}
use xxldb.Store.Contents.{AlikeBut, found_in}
use xxldb.Store.Rows.{read_rows, get_rows}
use xxldb.Store.Update.{
  Changes, change_row, change_rows, go_on, update_from, update_of, update_rows, one_more_of,
}
use xxldb.Store.Sound.{IsSound, IsSoundTable, Sounds-change}
use xxldb.Store.Emptied.{stands}
use xxldb.Value.Convert.{Library}

go_on-length :
    (outcome : Result Error (Unit {0})) (changed : Row) (rows : List Row)
    (others : List Row × Result Error ℕ)
    → length others.0 ≡ length rows
    → length (go_on outcome changed rows others).0 ≡ suc (length rows)
unfolding go_on
go_on-length (ok u) r rs others h = omega (arith, h)
go_on-length (err e) r rs others h = refl
go_on-length panic r rs others h = refl

-- How many rows a condition holds of.
abbrev pub count_of : (Row → Bool) → List Row → ℕ
count_of c [] = 0
count_of c (r ∷ rs) = let rest = count_of c rs in if c r then rest + 1 else rest

module _ (lib : Library) (columns : List Column) (f : Row → Changes) (c : Row → Bool) where
  abbrev pub changed : Row → Row
  changed r = if c r then (change_row lib columns (f r) r).0 else r

  -- A row that the condition does not hold of, or whose new values its columns take.
  abbrev pub IsTaken : Row → Type 0
  IsTaken r = c r ≡ true → (change_row lib columns (f r) r).1 ≡ ok tt

  change_rows-length : (rows : List Row) → length (change_rows lib columns f c rows).0 ≡ length rows
  unfolding change_rows
  change_rows-length [] = refl
  change_rows-length (r ∷ rs) =
      let rest = change_rows-length rs in
      elim (Bool-cases (c r)) [
        | inl e ↦ rw e (go_on-length (change_row lib columns (f r) r).1 _ rs _ rest)
        | inr e ↦ rw e (omega (arith, rest))
      ]

  taken_one :
      (r : Row) (rs : List Row)
      → IsTaken r
      → let rest = change_rows lib columns f c rs in
        change_rows lib columns f c (r ∷ rs)
        ≡ (changed r ∷ rest.0, if c r then one_more_of rest.1 else rest.1)
  unfolding change_rows go_on
  taken_one r rs t = elim (Bool-cases (c r)) [ inl e ↦ rw (e, t e) refl | inr e ↦ rw e refl ]

  change_rows-taken :
      (rows : List Row)
      → All IsTaken rows
      → change_rows lib columns f c rows ≡ (map changed rows, ok (count_of c rows))
  unfolding change_rows
  change_rows-taken [] t = refl
  change_rows-taken (r ∷ rs) t =
      rw (taken_one r rs t.0, change_rows-taken rs t.1)
        (elim (Bool-cases (c r)) [ inl e ↦ rw e refl | inr e ↦ rw e refl ])

  change_rows-refused :
      (before : List Row) (r : Row) (rs : List Row) (e : Error)
      → All IsTaken before
      → c r ≡ true
      → (change_row lib columns (f r) r).1 ≡ err e
      → change_rows lib columns f c (before ++ (r ∷ rs))
        ≡ (map changed before ++ (changed r ∷ rs), err e)
  unfolding change_rows go_on
  change_rows-refused [] r rs e t h refused = rw (h, refused) refl
  change_rows-refused (b ∷ bs) r rs e t h refused =
      rw (taken_one b (bs ++ (r ∷ rs)) t.0, change_rows-refused bs r rs e t.1 h refused)
        (elim (Bool-cases (c b)) [ inl x ↦ rw x refl | inr x ↦ rw x refl ])

module _ (lib : Library) (f : Row → Changes) (c : Row → Bool) where
  updated_from :
      (name : Text) (s : Storage) (info : TableInfo) (rows : List Row)
      → find_key s.tables name ≡ some info
      → find_key s.row_data name ≡ some rows
      → IsSound s
      → let r = update_rows lib name f c s in
        let after = change_rows lib info.columns f c rows in
        (r.1 ≡ after.1) × (get_rows name r.0 ≡ ok after.0) × AlikeBut name s r.0
  unfolding update_rows update_of update_from get_rows read_rows
  updated_from k s info rows h d sound =
      let here = found_in s k info rows h d sound in
      rw (h, d)
        (
          refl,
          rw (h, find_key-put_key_self s.row_data k _, here.0) refl,
          λ l x. rw (find_key-put_key_ne s.row_data k l _ x) refl,
        )

  -- In a sound state, an UPDATE of a table in memory, each of whose matching rows takes its new
  -- values, changes these rows and no others, keeps their order, counts them, and leaves the other
  -- tables' rows as they were.
  pub update_rows-get_rows :
      (name : Text) (s : Storage) (info : TableInfo) (rows : List Row)
      → IsSound s
      → find_key s.tables name ≡ some info
      → find_key s.row_data name ≡ some rows
      → All (IsTaken lib info.columns f c) rows
      → let r = update_rows lib name f c s in
        (r.1 ≡ ok (count_of c rows))
        × (get_rows name r.0 ≡ ok (map (changed lib info.columns f c) rows))
        × AlikeBut name s r.0
  update_rows-get_rows k s info rows sound h d t =
      let there = updated_from k s info rows h d sound in
      let after = change_rows-taken lib info.columns f c rows t in
      (rw after at there.0, rw after at there.1, there.2)

  -- In a sound state, an UPDATE of a table in memory that one of its rows refuses fails, and keeps
  -- what it changed in the rows before that one, and in that one.
  pub update_rows-refused :
      (name : Text) (s : Storage) (info : TableInfo) (before : List Row) (r : Row) (rs : List Row)
      (e : Error)
      → IsSound s
      → find_key s.tables name ≡ some info
      → find_key s.row_data name ≡ some (before ++ (r ∷ rs))
      → All (IsTaken lib info.columns f c) before
      → c r ≡ true
      → (change_row lib info.columns (f r) r).1 ≡ err e
      → let s' = update_rows lib name f c s in
        (s'.1 ≡ err e)
        × (get_rows name s'.0
            ≡ ok (
                map (changed lib info.columns f c) before ++ (changed lib info.columns f c r ∷ rs)))
  update_rows-refused k s info before r rs e sound h d t m refused =
      let there = updated_from k s info (before ++ (r ∷ rs)) h d sound in
      let after = change_rows-refused lib info.columns f c before r rs e t m refused in
      (rw after at there.0, rw after at there.1)

as_long :
    (enabled : Bool) (info : TableInfo) (rows rows' : List Row) (ids : Option (List ℕ))
    (files : Option (List Row)) (n : ℕ)
    → length rows' ≡ length rows
    → IsSoundTable enabled (some info) (some rows) ids files n
    → IsSoundTable enabled (some info) (some rows') ids files n
as_long false info rows rows' (some ids) none n h t =
    (omega (arith, h, t.0), omega (arith, h, t.1), t.2)
as_long enabled info rows rows' ids files n h t = absurd t

module _ (lib : Library) (f : Row → Changes) (c : Row → Bool) where
  update_from-IsSound :
      (name : Text) (s : Storage) (info : TableInfo) (found : Option (List Row))
      → find_key s.tables name ≡ some info
      → find_key s.row_data name ≡ found
      → IsSound s
      → IsSound (update_from lib name f c s info found).0
  unfolding update_from
  update_from-IsSound k s info none h d sound = sound
  update_from-IsSound k s info (some rows) h d sound =
      Sounds-change s.enabled k s.tables s.tables s.row_data _ s.row_ids _ s.table_files _ s.next_id
        _ sound (omega arith) (λ l x. refl) (λ l x. find_key-put_key_ne s.row_data k l _ x)
        (λ l x. refl) (λ l x. refl)
        (rw (h, find_key-put_key_self s.row_data k _)
          (as_long s.enabled info rows _ (find_key s.row_ids k) (find_key s.table_files k) s.next_id
            (change_rows-length lib info.columns f c rows)
            (subst
              (λ x.
                IsSoundTable s.enabled (some info) x (find_key s.row_ids k)
                  (find_key s.table_files k) s.next_id)
              d (stands s k (some info) (find_key s.table_files k) h refl sound))))

  pub update_of-IsSound :
      (name : Text) (s : Storage) (found : Option TableInfo)
      → find_key s.tables name ≡ found
      → IsSound s
      → IsSound (update_of lib name f c s found).0
  unfolding update_of
  update_of-IsSound k s none h sound = sound
  update_of-IsSound k s (some info) h sound =
      update_from-IsSound k s info (find_key s.row_data k) h refl sound
