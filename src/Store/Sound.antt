-- ===== src/Store/Sound.antt =====
-- storage/storage.go: in every state that the operations reach, rows, row ids and counts agree.
use mathlib.Core.Path.{subst}
use xxldb.Base.{
  refl, ℕ, suc, ◌≤◌, ◌≡◌, Bool, true, false, Option, none, some, List, [], ◌∷◌, ◌++◌, length, arith,
  Bool-cases, inl, inr, Result, ok,
}
use xxldb.Base.Assoc.{Map, find_key}
use xxldb.Base.Text.{same_bytes, same_bytes→eq}
use xxldb.Executor.Evaluate.{Row}
use xxldb.Parser.Syntax.{Text}
use xxldb.Store.{rescan, Error, TableInfo, Storage}

-- Increasing ids from `low` on, below `high`.
abbrev pub Between : ℕ → List ℕ → ℕ → Type 0
Between low [] high = low ≤ high
Between low (i ∷ is) high = (low ≤ i) × Between (suc i) is high

pub Between-widen :
    (low low' : ℕ) (is : List ℕ) (high high' : ℕ)
    → low' ≤ low
    → high ≤ high'
    → Between low is high
    → Between low' is high'
Between-widen low low' [] high high' h k b = omega (arith, h, k, b)
Between-widen low low' (i ∷ is) high high' h k b =
    (omega (arith, h, b.0), Between-widen (suc i) (suc i) is high high' (omega arith) k b.1)

pub Between-append :
    (low : ℕ) (is : List ℕ) (high : ℕ)
    → Between low is high
    → Between low (is ++ (high ∷ [])) (suc high)
Between-append low [] high b = (b, omega arith)
Between-append low (i ∷ is) high b = (b.0, Between-append (suc i) is high b.1)

-- In memory a table has an id below the next one for each row, and the count is that of the rows;
-- otherwise a table file has its rows, and the memory has none.
abbrev pub IsSoundTable :
    Bool → Option TableInfo → Option (List Row) → Option (List ℕ) → Option (List Row) → ℕ → Type 0
IsSoundTable false (some info) (some rows) (some ids) none next =
    (info.row_count ≡ length rows) × (length ids ≡ length rows) × Between 0 ids next
IsSoundTable true (some info) none none (some rows) next = Unit
IsSoundTable false none none none none next = Unit
IsSoundTable true none none none files next = Unit
IsSoundTable enabled info rows ids files next = ⊥

abbrev pub Sounds :
    Bool → Map TableInfo → Map (List Row) → Map (List ℕ) → Map (List Row) → ℕ → Type 0
Sounds enabled tables rows ids files next =
    (name : Text)
    → IsSoundTable enabled (find_key tables name) (find_key rows name) (find_key ids name)
        (find_key files name) next

abbrev pub IsSound : Storage → Type 0
IsSound s = Sounds s.enabled s.tables s.row_data s.row_ids s.table_files s.next_id

pub IsSoundTable-widen :
    (enabled : Bool) (info : Option TableInfo) (rows : Option (List Row)) (ids : Option (List ℕ))
    (files : Option (List Row)) (next next' : ℕ)
    → next ≤ next'
    → IsSoundTable enabled info rows ids files next
    → IsSoundTable enabled info rows ids files next'
IsSoundTable-widen false (some info) (some rows) (some ids) none n m h t =
    (t.0, t.1, Between-widen 0 0 ids n m (omega arith) h t.2)
IsSoundTable-widen true (some info) none none (some rows) n m h t = t
IsSoundTable-widen false none none none none n m h t = _
IsSoundTable-widen true none none none files n m h t = _
IsSoundTable-widen enabled info rows ids files n m h t = absurd t

abbrev pub option_map : (List Row → List Row) → Option (List Row) → Option (List Row)
option_map f none = none
option_map f (some rows) = some (f rows)

pub find_key-rescan :
    (scan : Text → List Row) (m : Map (List Row)) (k : Text)
    → find_key (rescan scan m) k ≡ option_map (λ rows. scan k) (find_key m k)
unfolding find_key rescan
find_key-rescan scan [] k = refl
find_key-rescan scan (e ∷ es) k = elim (Bool-cases (same_bytes e.0 k)) [
  | inl same ↦ rw (same, same_bytes→eq e.0 k same) refl
  | inr other ↦ rw (other, find_key-rescan scan es k) refl
]

IsSoundTable-map :
    (enabled : Bool) (info : Option TableInfo) (rows : Option (List Row)) (ids : Option (List ℕ))
    (files : Option (List Row)) (next : ℕ) (f : List Row → List Row)
    → IsSoundTable enabled info rows ids files next
    → IsSoundTable enabled info rows ids (option_map f files) next
IsSoundTable-map false (some info) (some rows) (some ids) none n f t = t
IsSoundTable-map true (some info) none none (some rows) n f t = _
IsSoundTable-map false none none none none n f t = _
IsSoundTable-map true none none none files n f t = _
IsSoundTable-map enabled info rows ids files n f t = absurd t

-- A scan of the files may find other rows in each, but no other files.
pub Sounds-rescan :
    (enabled : Bool) (tables : Map TableInfo) (rows : Map (List Row)) (ids : Map (List ℕ))
    (files : Map (List Row)) (next : ℕ) (scan : Text → List Row)
    → Sounds enabled tables rows ids files next
    → Sounds enabled tables rows ids (rescan scan files) next
Sounds-rescan e ts rs is fs n scan sound k = rw (find_key-rescan scan fs k) (
    IsSoundTable-map e (find_key ts k) (find_key rs k) (find_key is k) (find_key fs k) n
      (λ rows. scan k) (sound k))

-- Two maps alike but for one key.
abbrev pub Alike : {A : Type 0} → Text → Map A → Map A → Type 0
Alike k m m' = (l : Text) → same_bytes k l ≡ false → find_key m' l ≡ find_key m l

-- What is done to one table leaves the others sound.
pub Sounds-change :
    (enabled : Bool) (k : Text) (tables tables' : Map TableInfo) (rows rows' : Map (List Row))
    (ids ids' : Map (List ℕ)) (files files' : Map (List Row)) (next next' : ℕ)
    → Sounds enabled tables rows ids files next
    → next ≤ next'
    → Alike k tables tables'
    → Alike k rows rows'
    → Alike k ids ids'
    → Alike k files files'
    → IsSoundTable enabled
        (find_key tables' k)
        (find_key rows' k)
        (find_key ids' k)
        (find_key files' k)
        next'
    → Sounds enabled tables' rows' ids' files' next'
Sounds-change e k ts ts' rs rs' is is' fs fs' n n' sound le t r i f here l =
    elim (Bool-cases (same_bytes k l)) [
      | inl same ↦
          subst
            (λ x.
              IsSoundTable e (find_key ts' x) (find_key rs' x) (find_key is' x) (find_key fs' x) n')
            (same_bytes→eq k l same) here
      | inr other ↦
          rw (t l other, r l other, i l other, f l other)
            (IsSoundTable-widen e (find_key ts l) (find_key rs l) (find_key is l) (find_key fs l) n
              n' le (sound l))
    ]

abbrev pub Holds : {A : Type 0} → (A → Type 0) → Result Error A → Type 0
Holds P (ok a) = P a
Holds P r = Unit
