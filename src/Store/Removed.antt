-- ===== src/Store/Removed.antt =====
-- storage/delete_callback.go: rows that are deleted leave a sound Storage sound.
use mathlib.Core.Path.{subst}
use xxldb.Base.{
  ℕ, suc, ◌+◌, ◌-◌, ◌≡◌, refl, Bool, false, Option, none, some, List, [], ◌∷◌, length, arith,
  Bool-cases, inl, inr, ◌==◌,
}
use xxldb.Base.Assoc.{find_key, put_key, find_key-put_key_self, find_key-put_key_ne}
use xxldb.Executor.Evaluate.{Row}
use xxldb.Parser.Syntax.{Text}
use xxldb.Store.{TableInfo, Storage}
use xxldb.Store.Rows.{without_rows, lacks_id, keep_rows, delete_from, delete_of, or_empty}
use xxldb.Store.Emptied.{stands}
use xxldb.Store.Sound.{Between, Between-widen, IsSoundTable, IsSound, Sounds-change, Holds}

abbrev pub SoundAnd : Storage × ℕ → Type 0
SoundAnd r = IsSound r.0

kept :
    (condition : Row → Bool) (rows : List Row) (ids : List ℕ) (low high : ℕ)
    → length ids ≡ length rows
    → Between low ids high
    → let r = keep_rows condition rows ids in
      (r.2 + length r.0 ≡ length rows) × (length r.1 ≡ length r.0) × Between low r.1 high
unfolding keep_rows
kept c [] [] low high h b = (refl, refl, b)
kept c [] (i ∷ is) low high h b = absurd (omega (arith, h))
kept c (r ∷ rs) [] low high h b = absurd (omega (arith, h))
kept c (r ∷ rs) (i ∷ is) low high h b =
    let q = kept c rs is (suc i) high (omega (arith, h)) b.1 in
    elim (Bool-cases (c r)) [
      | inl e ↦ rw e (
        omega (arith, q.0),
        q.1,
        Between-widen (suc i) low _ high high (omega (arith, b.0)) (omega arith) q.2,
      )
      | inr e ↦ rw e (omega (arith, q.0), omega (arith, q.1), (b.0, q.2))
    ]

kept_here :
    (condition : Row → Bool) (enabled : Bool) (info info' : TableInfo) (rows : List Row)
    (ids : Option (List ℕ)) (files : Option (List Row)) (n : ℕ)
    → let r = keep_rows condition rows (or_empty ids) in
      info'.row_count ≡ info.row_count - r.2
      → IsSoundTable enabled (some info) (some rows) ids files n
      → IsSoundTable enabled (some info') (some r.0) (some r.1) files n
kept_here c false info info' rows (some ids) none n h t =
    let q = kept c rows ids 0 n t.1 t.2 in (omega (arith, h, t.0, q.0), q.1, q.2)
kept_here c enabled info info' rows ids files n h t = absurd t

removed-IsSound :
    (condition : Row → Bool) (name : Text) (info : TableInfo) (rows : List Row) (s : Storage)
    → find_key s.tables name ≡ some info
    → find_key s.row_data name ≡ some rows
    → IsSound s
    → let r = keep_rows condition rows (or_empty (find_key s.row_ids name)) in
      IsSound (record s {
        row_data = put_key s.row_data name r.0;
        row_ids = put_key s.row_ids name r.1;
        tables = put_key s.tables name (record info { row_count = info.row_count - r.2 });
      })
removed-IsSound c k info rows s h e sound =
    Sounds-change s.enabled k s.tables _ s.row_data _ s.row_ids _ s.table_files _ s.next_id _ sound
      (omega arith) (λ l x. find_key-put_key_ne s.tables k l _ x)
      (λ l x. find_key-put_key_ne s.row_data k l _ x) (λ l x. find_key-put_key_ne s.row_ids k l _ x)
      (λ l x. refl)
      (rw
        (
          find_key-put_key_self s.tables k _,
          find_key-put_key_self s.row_data k _,
          find_key-put_key_self s.row_ids k _,
        )
        (kept_here c s.enabled info _ rows (find_key s.row_ids k) (find_key s.table_files k)
          s.next_id refl
          (subst
            (λ x.
              IsSoundTable s.enabled (some info) x (find_key s.row_ids k) (find_key s.table_files k)
                s.next_id)
            e (stands s k (some info) (find_key s.table_files k) h refl sound))))

without_rows-IsSound :
    (condition : Row → Bool) (name : Text) (info : TableInfo) (rows : List Row) (s : Storage)
    → find_key s.tables name ≡ some info
    → find_key s.row_data name ≡ some rows
    → IsSound s
    → IsSound
        (without_rows name s info (keep_rows condition rows (or_empty (find_key s.row_ids name)))).0
unfolding without_rows
without_rows-IsSound c k info rows s h e sound =
    elim (Bool-cases ((keep_rows c rows (or_empty (find_key s.row_ids k))).2 == 0)) [
      | inl none_gone ↦ rw none_gone sound
      | inr some_gone ↦ rw some_gone (removed-IsSound c k info rows s h e sound)
    ]

delete_from-IsSound :
    (condition : Row → Bool) (name : Text) (info : TableInfo) (s : Storage)
    (found : Option (List Row))
    → find_key s.tables name ≡ some info
    → find_key s.row_data name ≡ found
    → IsSound s
    → Holds SoundAnd (delete_from name condition s info found)
unfolding delete_from
delete_from-IsSound c k info s none h e sound = sound
delete_from-IsSound c k info s (some rows) h e sound =
    elim (Bool-cases (lacks_id s.enabled c rows (or_empty (find_key s.row_ids k)))) [
      | inl lacks ↦ rw lacks _
      | inr has ↦ rw has (without_rows-IsSound c k info rows s h e sound)
    ]

pub delete_of-IsSound :
    (condition : Row → Bool) (name : Text) (s : Storage) (found : Option TableInfo)
    → find_key s.tables name ≡ found
    → IsSound s
    → Holds SoundAnd (delete_of name condition s found)
unfolding delete_of
delete_of-IsSound c k s none h sound = _
delete_of-IsSound c k s (some info) h sound =
    delete_from-IsSound c k info s (find_key s.row_data k) h refl sound
