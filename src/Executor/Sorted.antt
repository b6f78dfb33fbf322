-- ===== src/Executor/Sorted.antt =====
-- executor/executor.go, sortRows: what ORDER BY and LIMIT give.
use xxldb.Base.{
  ◌≡◌, refl, Bool, true, false, not, List, [], ◌∷◌, ◌++◌, Bool-cases, inl, inr, append-nil,
}
use xxldb.Executor.Evaluate.{ColumnIndex, Engine}
use xxldb.Executor.Rows.{
  ResultRow, reverse_onto, swaps, order_value, should_swap, sink_row, sink_rows, sort_rows,
}
use xxldb.Parser.Syntax.{Text, Orders, no_order, next_order}
use xxldb.Value.Convert.{Sign, less, same, greater, opposite, compare}
use xxldb.Value.Order.{IsAsymmetric, compare-swap}
use mathlib.Core.List.{Perm, perm_middle}
use mathlib.Core.List.Perm

not-true : (b : Bool) → not b ≡ true → b ≡ false
not-true true e = absurd (cc e)
not-true false e = refl

swaps-opposite :
    (direction : Text) (s : Sign) (b c : Bool)
    → (b ≡ true → c ≡ false)
    → swaps direction s b ≡ true
    → swaps direction (opposite s) c ≡ false
unfolding swaps opposite
swaps-opposite direction same b c h e = h e
swaps-opposite direction less b c h e = rw e refl
swaps-opposite direction greater b c h e = simp (not-true _ e)

should_swap-asymm :
    (engine : Engine) (index : ColumnIndex) (os : Orders)
    → IsAsymmetric engine.lib.float_less
    → IsAsymmetric engine.lib.before
    → (r s : ResultRow) → should_swap engine index os r s ≡ true
    → should_swap engine index os s r ≡ false
unfolding should_swap
should_swap-asymm engine index no_order f t r s e = refl
should_swap-asymm engine index (next_order d direction os) f t r s e =
    rw (compare-swap engine.lib f t (order_value engine index d r) (order_value engine index d s)) (
      swaps-opposite direction
        (compare engine.lib (order_value engine index d r) (order_value engine index d s)) _ _
        (should_swap-asymm engine index os f t r s) e)

-- Every row and the next.
abbrev LinksTo : (ResultRow → ResultRow → Type 0) → ResultRow → List ResultRow → Type 0
LinksTo R a [] = Unit
LinksTo R a (b ∷ rs) = R a b

abbrev pub Linked : (ResultRow → ResultRow → Type 0) → List ResultRow → Type 0
Linked R [] = Unit
Linked R (a ∷ rs) = LinksTo R a rs × Linked R rs

module _ (R : ResultRow → ResultRow → Type 0) where
  abbrev LinksFrom : List ResultRow → List ResultRow → Type 0
  LinksFrom [] done = Unit
  LinksFrom (r ∷ rs) done = LinksTo R r done

  reverse_onto-Linked :
      (rs done : List ResultRow)
      → Linked (λ a b. R b a) rs
      → Linked R done
      → LinksFrom rs done
      → Linked R (reverse_onto rs done)
  unfolding reverse_onto
  reverse_onto-Linked [] done h k j = k
  reverse_onto-Linked (r ∷ []) done h k j = (j, k)
  reverse_onto-Linked (r ∷ s ∷ rs) done h k j =
      reverse_onto-Linked (s ∷ rs) (r ∷ done) h.1 (j, k) h.0

module _ (engine : Engine) (index : ColumnIndex) (os : Orders) where
  sink_row-Perm :
      (x : ResultRow) (rs : List ResultRow) → Perm (sink_row engine index os x rs) (x ∷ rs)
  unfolding sink_row
  sink_row-Perm x [] = Perm.rfl
  sink_row-Perm x (r ∷ rs) = elim (Bool-cases (should_swap engine index os r x)) [
    | inl m ↦ rw m (Perm.trans (Perm.cons r (sink_row-Perm x rs)) (Perm.swap x r rs))
    | inr m ↦ rw m Perm.rfl
  ]

  sink_rows-Perm :
      (xs done : List ResultRow) → Perm (sink_rows engine index os xs done) (xs ++ done)
  unfolding sink_rows
  sink_rows-Perm [] done = Perm.rfl
  sink_rows-Perm (x ∷ xs) done =
      Perm.trans (sink_rows-Perm xs (sink_row engine index os x done))
        (Perm.trans (Perm.append_left xs (sink_row-Perm x done)) (perm_middle xs done))

module _ (engine : Engine) (index : ColumnIndex) (os : Orders)
    (floats : IsAsymmetric engine.lib.float_less) (times : IsAsymmetric engine.lib.before) where
  abbrev Before : ResultRow → ResultRow → Type 0
  Before r s = should_swap engine index os r s ≡ false

  abbrev Behind : ResultRow → ResultRow → Type 0
  Behind r s = Before s r

  sink_row-LinksTo :
      (x r : ResultRow) (rs : List ResultRow)
      → Behind r x
      → LinksTo Behind r rs
      → LinksTo Behind r (sink_row engine index os x rs)
  unfolding sink_row
  sink_row-LinksTo x r [] h k = h
  sink_row-LinksTo x r (s ∷ rs) h k = elim (Bool-cases (should_swap engine index os s x)) [
    | inl m ↦ rw m k
    | inr m ↦ rw m h
  ]

  sink_row-Linked :
      (x : ResultRow) (rs : List ResultRow)
      → Linked Behind rs
      → Linked Behind (sink_row engine index os x rs)
  unfolding sink_row
  sink_row-Linked x [] h = (_, _)
  sink_row-Linked x (r ∷ rs) h = elim (Bool-cases (should_swap engine index os r x)) [
    | inl m ↦
        let behind = should_swap-asymm engine index os floats times r x m in
        rw m (sink_row-LinksTo x r rs behind h.0, sink_row-Linked x rs h.1)
    | inr m ↦ rw m (m, h)
  ]

  sink_rows-Linked :
      (xs done : List ResultRow)
      → Linked Behind done
      → Linked Behind (sink_rows engine index os xs done)
  unfolding sink_rows
  sink_rows-Linked [] done h = h
  sink_rows-Linked (x ∷ xs) done h = sink_rows-Linked xs _ (sink_row-Linked x done h)

reverse_onto-Perm : (rs done : List ResultRow) → Perm (reverse_onto rs done) (rs ++ done)
unfolding reverse_onto
reverse_onto-Perm [] done = Perm.rfl
reverse_onto-Perm (r ∷ rs) done = Perm.trans (reverse_onto-Perm rs (r ∷ done)) (perm_middle rs done)

links_to_end : (R : ResultRow → ResultRow → Type 0) (rs : List ResultRow) → LinksFrom R rs []
links_to_end R [] = _
links_to_end R (r ∷ rs) = _

-- Where no float and no time is both before and behind another: ORDER BY rearranges the rows, so that of
-- no row and the next one the code would say that they are the wrong way round. Nothing is asked of the
-- values: Compare need not be transitive.
pub sort_rows-Linked :
    (engine : Engine) (index : ColumnIndex) (os : Orders)
    → IsAsymmetric engine.lib.float_less
    → IsAsymmetric engine.lib.before
    → (rows : List ResultRow)
    → Perm (sort_rows engine index os rows) rows
      × Linked (λ r s. should_swap engine index os r s ≡ false) (sort_rows engine index os rows)
unfolding sort_rows
sort_rows-Linked engine index os floats times rows =
    let done = sink_rows engine index os rows [] in
    (
      Perm.trans (rw append-nil at (reverse_onto-Perm done []))
          (rw append-nil at (sink_rows-Perm engine index os rows [])),
      reverse_onto-Linked _ done [] (sink_rows-Linked engine index os floats times rows [] _) _
          (links_to_end _ done),
    )
