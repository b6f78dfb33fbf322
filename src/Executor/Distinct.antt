-- ===== src/Executor/Distinct.antt =====
-- executor/executor.go: what DISTINCT, and LIMIT with OFFSET, leave of the rows.
use xxldb.Base.{
  ◌≡◌, refl, Bool, true, false, ◌||◌, List, [], ◌∷◌, if◌then◌else◌, map, arith, All, Bool-cases,
  inl, inr,
}
use mathlib.Core.Path.{subst}
use xxldb.Base.Text.{same_bytes_refl, same_bytes, is_one_of}
use xxldb.Executor.Rows.{ResultRow, row_key, distinct_from, distinct_rows}
use xxldb.Parser.Syntax.{Text}
use xxldb.Value.Convert.{Library}

same_bytes_comm : (xs ys : Text) → same_bytes xs ys ≡ same_bytes ys xs
unfolding same_bytes
same_bytes_comm [] [] = refl
same_bytes_comm [] (y ∷ ys) = refl
same_bytes_comm (x ∷ xs) [] = refl
same_bytes_comm (x ∷ xs) (y ∷ ys) = ground (arith, same_bytes_comm xs ys)

abbrev pub NoRepeats : List Text → Type 0
NoRepeats [] = Unit
NoRepeats (k ∷ ks) = (is_one_of k ks ≡ false) × NoRepeats ks

or_false : (b c : Bool) → b || c ≡ false → (b ≡ false) × (c ≡ false)
or_false true c e = absurd (cc e)
or_false false c e = (refl, e)

-- What none of the keys is, is none of the keys.
is_one_of-none :
    (k : Text) (seen ks : List Text)
    → All (λ l. is_one_of l (k ∷ seen) ≡ false) ks
    → (is_one_of k ks ≡ false) × All (λ l. is_one_of l seen ≡ false) ks
unfolding is_one_of
is_one_of-none k seen [] h = (refl, _)
is_one_of-none k seen (l ∷ ks) h =
    let (differs, fresh) = or_false (same_bytes l k) (is_one_of l seen) h.0 in
    let (rest, others) = is_one_of-none k seen ks h.1 in
    (rw (same_bytes_comm k l) (rw differs rest), (fresh, others))

moved :
    (k key : Text) (seen ks : List Text)
    → is_one_of k (key ∷ seen) || is_one_of k ks ≡ true
    → is_one_of k seen || is_one_of k (key ∷ ks) ≡ true
unfolding is_one_of
moved k key seen ks h = ground (arith, h)

All-imp :
    {P Q : ResultRow → Type 0}
    → ((r : ResultRow) → P r → Q r)
    → (rows : List ResultRow) → All P rows
    → All Q rows
All-imp f [] h = _
All-imp f (r ∷ rs) h = (f r h.0, All-imp f rs h.1)

if_true {ℓ} : {A : Type ℓ} {b : Bool} → b ≡ true → (x y : A) → x ≡ (if b then x else y)
if_true e x y = rw e refl

if_false {ℓ} : {A : Type ℓ} {b : Bool} → b ≡ false → (x y : A) → y ≡ (if b then x else y)
if_false e x y = rw e refl

first_key : (k : Text) (ks : List Text) → is_one_of k (k ∷ ks) ≡ true
unfolding is_one_of
first_key k ks = rw (same_bytes_refl k) refl

module _ (lib : Library) where
  abbrev pub keys : List ResultRow → List Text
  keys rows = map (λ r. row_key lib r.values) rows

  distinct_from-fresh :
      (seen : List Text) (rows : List ResultRow)
      → All (λ k. is_one_of k seen ≡ false) (keys (distinct_from lib seen rows))
        × NoRepeats (keys (distinct_from lib seen rows))
  unfolding distinct_from
  distinct_from-fresh seen [] = (_, _)
  distinct_from-fresh seen (r ∷ rs) = elim (Bool-cases (is_one_of (row_key lib r.values) seen)) [
    | inl m ↦ rw m (distinct_from-fresh seen rs)
    | inr m ↦
        let key = row_key lib r.values in
        let (fresh, single) = distinct_from-fresh (key ∷ seen) rs in
        let (new, others) = is_one_of-none key seen _ fresh in rw m ((m, others), (new, single))
  ]

  -- Every row's key was seen before or is there.
  abbrev Kept : List Text → List ResultRow → List ResultRow → Type 0
  Kept seen out = All (λ r.
      is_one_of (row_key lib r.values) seen || is_one_of (row_key lib r.values) (keys out) ≡ true)

  distinct_from-Kept :
      (seen : List Text) (rows : List ResultRow) → Kept seen (distinct_from lib seen rows) rows
  unfolding distinct_from
  distinct_from-Kept seen [] = _
  distinct_from-Kept seen (r ∷ rs) =
      let key = row_key lib r.values in
      let again = distinct_from lib seen rs in
      let new = r ∷ distinct_from lib (key ∷ seen) rs in
      elim (Bool-cases (is_one_of key seen)) [
        | inl m ↦
            subst (λ out. Kept seen out (r ∷ rs)) (if_true m again new)
              (rw m refl, distinct_from-Kept seen rs)
        | inr m ↦
            subst (λ out. Kept seen out (r ∷ rs)) (if_false m again new)
              (
                rw m (first_key key _),
                All-imp (λ s. moved (row_key lib s.values) key seen _) rs
                    (distinct_from-Kept (key ∷ seen) rs),
              )
      ]

  -- DISTINCT leaves a row for each key, and no key twice.
  pub distinct_rows-keys :
      (rows : List ResultRow)
      → NoRepeats (keys (distinct_rows lib rows))
        × All (λ r. is_one_of (row_key lib r.values) (keys (distinct_rows lib rows)) ≡ true) rows
  unfolding distinct_rows is_one_of
  distinct_rows-keys rows = ((distinct_from-fresh [] rows).1, distinct_from-Kept [] rows)
