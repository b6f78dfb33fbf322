-- ===== src/Value/Order.antt =====
-- types/types.go: what becomes of Compare where its values are exchanged.
use xxldb.Base.{ℕ, ◌≡◌, refl, Bool, true, false, Option, none, some, List, [], ◌∷◌, arith}
use xxldb.Value.{Value}
use xxldb.Value.Convert.{
  Library, Sign, compare_nulls, opposite, bytes_less, sign_of, to_string, to_float64,
  compare_strings, compare_times, compare_numbers, compare,
}

-- What comes before comes not behind.
abbrev pub IsAsymmetric : (ℕ → ℕ → Bool) → Type 0
IsAsymmetric before = (x y : ℕ) → before x y ≡ true → before y x ≡ false

sign_of-swap : (b c : Bool) → (b ≡ true → c ≡ false) → sign_of c b ≡ opposite (sign_of b c)
unfolding sign_of opposite
sign_of-swap true true h = absurd (cc (h refl))
sign_of-swap true false h = refl
sign_of-swap false true h = refl
sign_of-swap false false h = refl

bytes_less-asymm : (xs ys : List ℕ) → bytes_less xs ys ≡ true → bytes_less ys xs ≡ false
unfolding bytes_less
bytes_less-asymm [] [] h = refl
bytes_less-asymm (x ∷ xs) [] h = absurd (cc h)
bytes_less-asymm [] (y ∷ ys) h = refl
bytes_less-asymm (x ∷ xs) (y ∷ ys) h = ground (arith, bytes_less-asymm xs ys)

compare_nulls-swap :
    (b c : Bool) (s t : Sign)
    → t ≡ opposite s
    → compare_nulls c b t ≡ opposite (compare_nulls b c s)
unfolding compare_nulls opposite
compare_nulls-swap true true s t e = refl
compare_nulls-swap true false s t e = refl
compare_nulls-swap false true s t e = refl
compare_nulls-swap false false s t e = e

module _ (lib : Library) (floats : IsAsymmetric lib.float_less)
    (times : IsAsymmetric lib.before) where
  compare_strings-swap :
      (v w : Value) → compare_strings lib w v ≡ opposite (compare_strings lib v w)
  unfolding compare_strings
  compare_strings-swap v w = sign_of-swap _ _ (bytes_less-asymm (to_string lib v) (to_string lib w))

  compare_times-swap :
      (v w : Value) (s t : Option ℕ)
      → compare_times lib w v t s ≡ opposite (compare_times lib v w s t)
  unfolding compare_times
  compare_times-swap v w (some s) (some t) = sign_of-swap _ _ (times s t)
  compare_times-swap v w (some s) none = compare_strings-swap v w
  compare_times-swap v w none (some t) = compare_strings-swap v w
  compare_times-swap v w none none = compare_strings-swap v w

  compare_numbers-swap :
      (v w : Value) (x y : Option ℕ)
      → compare_numbers lib w v y x ≡ opposite (compare_numbers lib v w x y)
  unfolding compare_numbers
  compare_numbers-swap v w (some x) (some y) = sign_of-swap _ _ (floats x y)
  compare_numbers-swap v w (some x) none = compare_times-swap v w _ _
  compare_numbers-swap v w none (some y) = compare_times-swap v w _ _
  compare_numbers-swap v w none none = compare_times-swap v w _ _

  -- Where no float and no time is both before and behind another: Compare with the values exchanged
  -- gives the opposite sign, whatever their types, NULL included.
  pub compare-swap : (v w : Value) → compare lib w v ≡ opposite (compare lib v w)
  unfolding compare
  compare-swap v w =
      compare_nulls-swap v.is_null w.is_null _ _
        (compare_numbers-swap v w (to_float64 lib v) (to_float64 lib w))
