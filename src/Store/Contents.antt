-- ===== src/Store/Contents.antt =====
-- storage/storage.go and storage/delete_callback.go: what GetRows reads after InsertRow and after
-- DeleteRowsWithCallback, and a NULL in a VARCHAR.
use mathlib.Core.Path.{subst}
use xxldb.Base.{
  ℕ, ◌+◌, ◌≡◌, refl, Bool, false, Option, none, some, List, [], ◌∷◌, ◌++◌, length, arith,
  Bool-cases, inl, inr, ok, ◌==◌, if◌then◌else◌, ◌>>=◌,
}
use xxldb.Base.Assoc.{Map, find_key, find_key-put_key_self, find_key-put_key_ne}
use xxldb.Base.Text.{same_bytes}
use xxldb.Executor.Evaluate.{Row}
use xxldb.Parser.Syntax.{Text}
use xxldb.Store.{TableFiles, TableInfo, Storage, take_id}
use xxldb.Store.Rows.{
  insert_checked, insert_numbered, lacks_id, without_rows, check_row, number_row, or_empty,
  file_row, insert_row_of, storage_insert_row, keep_rows, delete_from, delete_of, delete_rows,
  read_rows, get_rows,
}
use xxldb.Store.Sound.{IsSoundTable, IsSound}
use xxldb.Store.Emptied.{stands}
use xxldb.Value.Convert.{Library}

abbrev pub AlikeBut : Text → Storage → Storage → Type 0
AlikeBut name s s' =
    (other : Text) → same_bytes name other ≡ false → get_rows other s' ≡ get_rows other s

module _ (files : TableFiles) (lib : Library) where
  -- INSERT on a table without a table file, whose columns take the row, and which are numbered,
  -- succeeds: the numbered row stands behind those that were there, its last number is reported, and
  -- no other table's rows change.
  pub storage_insert_row-get_rows :
      (name : Text) (row checked stored : Row) (sequences : Map ℕ) (last : ℕ) (s : Storage)
      (info : TableInfo)
      → find_key s.tables name ≡ some info
      → find_key s.table_files name ≡ none
      → check_row lib info.columns row ≡ ok checked
      → number_row name info.columns 0 (s.sequences, checked, 0) ≡ ok (sequences, stored, last)
      → let r = storage_insert_row files lib name row s in
        (r.1 ≡ ok last)
        × (get_rows name r.0 ≡ (get_rows name s >>= λ rows. ok (rows ++ (stored ∷ []))))
        × AlikeBut name s r.0
  unfolding storage_insert_row insert_row_of insert_checked insert_numbered file_row take_id
      get_rows read_rows
  storage_insert_row-get_rows k row checked stored q last s info h f c n =
      rw (h, c, n, f)
        (
          refl,
          rw (find_key-put_key_self s.tables k _, find_key-put_key_self s.row_data k _, f) refl,
          λ l x.
              rw (find_key-put_key_ne s.tables k l _ x, find_key-put_key_ne s.row_data k l _ x)
                refl,
        )

-- The rows that a condition does not hold of.
abbrev pub without : (Row → Bool) → List Row → List Row
without c [] = []
without c (r ∷ rs) = let rest = without c rs in if c r then rest else r ∷ rest

without-keep_rows :
    (c : Row → Bool) (rows : List Row) (ids : List ℕ)
    → length ids ≡ length rows
    → let r = keep_rows c rows ids in
      (r.0 ≡ without c rows) × (r.2 + length (without c rows) ≡ length rows)
unfolding keep_rows
without-keep_rows c [] [] h = (refl, refl)
without-keep_rows c [] (i ∷ is) h = absurd (omega (arith, h))
without-keep_rows c (r ∷ rs) [] h = absurd (omega (arith, h))
without-keep_rows c (r ∷ rs) (i ∷ is) h =
    let rest = without-keep_rows c rs is (omega (arith, h)) in
    elim (Bool-cases (c r)) [
      | inl e ↦ rw e (rest.0, omega (arith, rest.1))
      | inr e ↦ rw e (rw rest.0 refl, omega (arith, rest.1))
    ]

without-none :
    (c : Row → Bool) (rows : List Row) (ids : List ℕ)
    → length ids ≡ length rows
    → (keep_rows c rows ids).2 ≡ 0
    → without c rows ≡ rows
unfolding keep_rows
without-none c [] ids h z = refl
without-none c (r ∷ rs) [] h z = absurd (omega (arith, h))
without-none c (r ∷ rs) (i ∷ is) h z = elim (Bool-cases (c r)) [
  | inl e ↦ absurd (omega (arith, rw e at z))
  | inr e ↦ rw e (rw (without-none c rs is (omega (arith, h)) (rw e at z)) refl)
]

in_memory :
    (enabled : Bool) (info : TableInfo) (rows : List Row) (ids : Option (List ℕ))
    (files : Option (List Row)) (n : ℕ)
    → IsSoundTable enabled (some info) (some rows) ids files n
    → (files ≡ none) × (length (or_empty ids) ≡ length rows)
in_memory false info rows (some ids) none n t = (refl, t.1)
in_memory enabled info rows ids files n t = absurd t

lacks_id-none :
    (enabled : Bool) (c : Row → Bool) (rows : List Row) (ids : List ℕ)
    → length ids ≡ length rows
    → lacks_id enabled c rows ids ≡ false
unfolding lacks_id
lacks_id-none e c [] ids h = refl
lacks_id-none e c (r ∷ rs) [] h = absurd (omega (arith, h))
lacks_id-none e c (r ∷ rs) (i ∷ is) h = lacks_id-none e c rs is (omega (arith, h))

without_rows-get_rows :
    (c : Row → Bool) (name : Text) (s : Storage) (info : TableInfo) (rows : List Row)
    → find_key s.tables name ≡ some info
    → find_key s.row_data name ≡ some rows
    → find_key s.table_files name ≡ none
    → length (or_empty (find_key s.row_ids name)) ≡ length rows
    → let r = without_rows name s info (keep_rows c rows (or_empty (find_key s.row_ids name))) in
      (get_rows name r.0 ≡ ok (without c rows))
      × (r.1 + length (without c rows) ≡ length rows)
      × AlikeBut name s r.0
unfolding without_rows get_rows read_rows
without_rows-get_rows c k s info rows h d f same =
    let ids = or_empty (find_key s.row_ids k) in
    let w = without-keep_rows c rows ids same in
    elim (Bool-cases ((keep_rows c rows ids).2 == 0)) [
      | inl e ↦
          let all = without-none c rows ids same (ground (arith, e)) in
          rw (e, all, h, d, f) (refl, omega arith, λ l x. refl)
      | inr e ↦ rw e (
        rw (find_key-put_key_self s.tables k _, find_key-put_key_self s.row_data k _, f, w.0) refl,
        w.1,
        λ l x.
            rw (find_key-put_key_ne s.tables k l _ x, find_key-put_key_ne s.row_data k l _ x) refl,
      )
    ]

pub found_in :
    (s : Storage) (k : Text) (info : TableInfo) (rows : List Row)
    → find_key s.tables k ≡ some info
    → find_key s.row_data k ≡ some rows
    → IsSound s
    → (find_key s.table_files k ≡ none) × (length (or_empty (find_key s.row_ids k)) ≡ length rows)
found_in s k info rows h d sound = in_memory s.enabled info rows _ _ s.next_id (
    subst
      (λ x.
        IsSoundTable s.enabled (some info) x (find_key s.row_ids k) (find_key s.table_files k)
          s.next_id)
      d (stands s k (some info) (find_key s.table_files k) h refl sound))

-- In a sound state, DELETE on a table in memory succeeds and leaves the rows that the condition does
-- not hold of, in their order; the count is that of the others, and no other table's rows change.
pub delete_rows-get_rows :
    (c : Row → Bool) (name : Text) (s : Storage) (info : TableInfo) (rows : List Row)
    → IsSound s
    → find_key s.tables name ≡ some info
    → find_key s.row_data name ≡ some rows
    → (s' : Storage) × (count : ℕ) × (delete_rows name c s ≡ ok (s', count))
      × (get_rows name s' ≡ ok (without c rows))
      × (count + length (without c rows) ≡ length rows)
      × AlikeBut name s s'
unfolding delete_rows delete_of delete_from
delete_rows-get_rows c k s info rows sound h d =
    let (f, same) = found_in s k info rows h d sound in
    let there = without_rows-get_rows c k s info rows h d f same in
    let ids = or_empty (find_key s.row_ids k) in
    let r = without_rows k s info (keep_rows c rows ids) in
    (r.0, r.1, rw (h, d, lacks_id-none s.enabled c rows ids same) refl, there.0, there.1, there.2)
