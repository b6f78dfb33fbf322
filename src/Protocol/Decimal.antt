-- ===== src/Protocol/Decimal.antt =====
-- mysql/protocol.go: the decimal numbers that uint64ToString and int64ToString print.
use xxldb.Base.{
  ℕ, zero, suc, ◌+◌, ◌-◌, ◌*◌, ◌/◌, ◌%◌, ◌^◌, ◌<◌, ◌≤◌, ◌≡◌, ◌≢◌, refl, ap, ◌∙◌, arith, inl, inr,
  false, Bool-cases, List, [], ◌∷◌, ◌==◌, if◌then◌else◌, All,
}
use native.Mathlib.Nat.{pow-suc}
use xxldb.Protocol.{
  count_digits, fill_digits, max_digits, uint64_to_string, int64_to_string, is_negative,
}

-- The number that decimal digits spell behind `n`.
unfoldable pub decimal_value : ℕ → List ℕ → ℕ
decimal_value n [] = n
decimal_value n (b ∷ bs) = decimal_value (10 * n + (b - b'0')) bs

-- How a client reads an int64: the bit pattern.
unfoldable pub int64_value : List ℕ → ℕ
unfolding decimal_value
int64_value [] = 0
int64_value (b ∷ bs) =
    if b == b'-' then (2 ^ 64 - decimal_value 0 bs) % 2 ^ 64 else decimal_value 0 (b ∷ bs)

abbrev pub IsDigit : ℕ → Type 0
IsDigit b = (b'0' ≤ b) × (b ≤ b'9')

digits_zero : (fuel n : ℕ) (done : List ℕ) → n ≡ 0 → fill_digits (count_digits fuel n) n done ≡ done
unfolding count_digits fill_digits
digits_zero zero n done e = refl
digits_zero (suc fuel) n done e = rw e refl

digits_step :
    (fuel n : ℕ) (done : List ℕ)
    → n ≢ 0
    → fill_digits (count_digits (suc fuel) n) n done
      ≡ fill_digits (count_digits fuel (n / 10)) (n / 10) ((b'0' + n % 10) ∷ done)
unfolding count_digits fill_digits
digits_step fuel n done h = rw more (rw more refl)
  where
    more : (n == 0) ≡ false
    more = ground arith

-- The counted places are just filled.
fill_digits-value :
    (fuel n : ℕ) (done : List ℕ)
    → n < 10 ^ fuel
    → decimal_value 0 (fill_digits (count_digits fuel n) n done) ≡ decimal_value n done
unfolding decimal_value
fill_digits-value zero n done h =
    rw (digits_zero 0 n done (omega arith)) (ap (λ k. decimal_value k done) (omega arith))
fill_digits-value (suc fuel) n done h = elim (Bool-cases (n == 0)) [
  | inl e ↦
      rw (digits_zero (suc fuel) n done (ground (arith, e)))
        (ap (λ k. decimal_value k done) (ground (arith, e)))
  | inr e ↦ rw (digits_step fuel n done (ground (arith, e))) (
      fill_digits-value fuel (n / 10) ((b'0' + n % 10) ∷ done) (omega (arith, pow-suc 10 fuel))
      ∙ ap (λ k. decimal_value k done) (omega arith))
]

fill_digits-IsDigit :
    (fuel n : ℕ) (done : List ℕ)
    → All IsDigit done
    → All IsDigit (fill_digits (count_digits fuel n) n done)
unfolding count_digits fill_digits
fill_digits-IsDigit zero n done h = h
fill_digits-IsDigit (suc fuel) n done h = elim (Bool-cases (n == 0)) [
  | inl e ↦ rw (digits_zero (suc fuel) n done (ground (arith, e))) h
  | inr e ↦
      rw (digits_step fuel n done (ground (arith, e)))
        (fill_digits-IsDigit fuel (n / 10) ((b'0' + n % 10) ∷ done) ((omega arith, omega arith), h))
]

magnitude :
    (n : ℕ) → n < 2 ^ 64 → decimal_value 0 (fill_digits (count_digits max_digits n) n []) ≡ n
unfolding decimal_value
magnitude n h = fill_digits-value max_digits n [] (omega arith)

-- uint64ToString prints decimal digits, and they spell the number.
decimal_value-uint64_to_string :
    (n : ℕ)
    → n < 2 ^ 64
    → (decimal_value 0 (uint64_to_string n) ≡ n) × All IsDigit (uint64_to_string n)
unfolding uint64_to_string decimal_value
decimal_value-uint64_to_string n h = elim (Bool-cases (n == 0)) [
  | inl e ↦ rw e (ground (arith, e), ((omega arith, omega arith), tt))
  | inr e ↦ rw e (magnitude n h, fill_digits-IsDigit max_digits n [] tt)
]

no_sign : (bs : List ℕ) → All IsDigit bs → int64_value bs ≡ decimal_value 0 bs
unfolding int64_value decimal_value
no_sign [] h = refl
no_sign (b ∷ bs) h = rw not_minus refl
  where
    not_minus : (b == b'-') ≡ false
    not_minus = ground (arith, h.0.0)

-- int64ToString prints every int64, the least one too, as its sign and decimal digits, which are
-- read back as the same bit pattern.
int64_value-int64_to_string : (w : ℕ) → w < 2 ^ 64 → int64_value (int64_to_string w) ≡ w
unfolding int64_to_string int64_value
int64_value-int64_to_string w h = elim (Bool-cases (w == 0)) [
  | inl e ↦ rw e (ground (arith, e))
  | inr e ↦ elim (Bool-cases (w == 2 ^ 63)) [
    | inl f ↦ rw (e, f) (ground (arith, f))
    | inr f ↦ elim (Bool-cases (is_negative w)) [
      | inl g ↦ rw (e, f, g, magnitude (2 ^ 64 - w) (ground (arith, e))) (ground (arith, g))
      | inr g ↦
          rw (e, f, g)
            (no_sign (fill_digits (count_digits max_digits w) w [])
                (fill_digits-IsDigit max_digits w [] tt)
              ∙ magnitude w h)
    ]
  ]
]
