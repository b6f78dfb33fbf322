-- ===== src/Lexer/Loops.antt =====
-- parser/lexer.go: the loops of the lexer end, and stay in the input.
use xxldb.Base.{
  ℕ, ◌<◌, ◌≤◌, ◌≡◌, ◌≢◌, refl, ap, arith, Bool, true, false, not, ◌&&◌, ◌||◌, ◌==◌, length,
  Bool-cases, inl, inr,
}
use xxldb.Base.Loop.{run, go_on, IsGood, Yields, run_yields}
use xxldb.Lexer.{
  Lexer, peek, next, take_one, skip_while, fuel_of, NumberState, number_round, skip_sign, is_digit,
  block_round, peek_at,
}
use xxldb.Lexer.Moves.{
  Moves, Moves-refl, Moves-trans, next-Moves, next-shorter, Moves-shorter, Ahead, Ahead-then,
  next-Ahead,
}

abbrev pub left_of : Lexer → ℕ
left_of l = length l.rest

next-step : (l m : Lexer) → Moves l m → Moves l (next m)
next-step l m p = Moves-trans l m (next m) p (next-Moves m)

pub next-Ahead_step : (l m : Lexer) → Ahead l m → Ahead l (next m)
next-Ahead_step l m p = Ahead-then l m (next m) p (next-Moves m)

-- A test that fails at the end of the input is a test for a rune.
pub is_rune : (p : ℕ → Bool) → p 0 ≡ false → (r : ℕ) → p r ≡ true → r ≢ 0
is_rune p h r e z = cc (h, e, ap p z)

pub not_zero : (r : ℕ) → (r == 0) ≡ false → r ≢ 0
not_zero r e z = ground arith

is_digit_0 : is_digit 0 ≡ false
unfolding is_digit
is_digit_0 = refl

dot-rune : (r : ℕ) (d x : Bool) → (r == b'.' && not d && not x) ≡ true → r ≢ 0
dot-rune r d x e z = ground arith

exponent-rune : (r : ℕ) (x : Bool) → ((r == b'e' || r == b'E') && not x) ≡ true → r ≢ 0
exponent-rune r x e z = ground arith

skip_sign-shorter : (l : Lexer) → left_of (skip_sign l) ≤ left_of l
unfolding skip_sign
skip_sign-shorter l = elim (Bool-cases (peek l == b'+' || peek l == b'-')) [
  | inl e ↦ rw e (Moves-shorter l (next l) (next-Moves l))
  | inr e ↦ rw e (omega arith)
]

-- What the loops keep: a property of lexers that the next rune does not end.
module _ (P : Lexer → Type 0) (step : (m : Lexer) → P m → P (next m)) where
  take_one-IsGood :
      (p : ℕ → Bool)
      → p 0 ≡ false
      → (m : Lexer) → P m
      → IsGood P P left_of (left_of m) (take_one p m)
  unfolding take_one
  take_one-IsGood p h m q = elim (Bool-cases (p (peek m))) [
    | inl e ↦ rw e (step m q, next-shorter m (is_rune p h (peek m) e), _)
    | inr e ↦ rw e (q, _)
  ]

  pub skip_while-keeps :
      (p : ℕ → Bool)
      → p 0 ≡ false
      → (fuel : ℕ) (l : Lexer) → left_of l < fuel
      → P l
      → Yields (run (take_one p) fuel l) P
  skip_while-keeps p h = run_yields P P left_of (take_one p) (take_one-IsGood p h)

  skip_sign-keeps : (m : Lexer) → P m → P (skip_sign m)
  unfolding skip_sign
  skip_sign-keeps m q = elim (Bool-cases (peek m == b'+' || peek m == b'-')) [
    | inl e ↦ rw e (step m q)
    | inr e ↦ rw e q
  ]

  pub number_round-IsGood :
      (s : NumberState)
      → P s.2
      → IsGood (λ (t : NumberState). P t.2) P (λ t. left_of t.2) (left_of s.2) (number_round s)
  unfolding number_round
  number_round-IsGood (d, x, m) q =
      let r = peek m in
      elim (Bool-cases (is_digit r)) [
        | inl e ↦ rw e (step m q, next-shorter m (is_rune is_digit is_digit_0 r e), _)
        | inr e ↦ elim (Bool-cases (r == b'.' && not d && not x)) [
          | inl f ↦ rw (e, f) (step m q, next-shorter m (dot-rune r d x f), _)
          | inr f ↦ elim (Bool-cases ((r == b'e' || r == b'E') && not x)) [
            | inl g ↦
                rw (e, f, g)
                  (
                    skip_sign-keeps (next m) (step m q),
                    omega (arith, skip_sign-shorter (next m), next-shorter m (exponent-rune r x g)),
                    _,
                  )
            | inr g ↦ rw (e, f, g) (q, _)
          ]
        ]
      ]

  pub block_round-IsGood : (m : Lexer) → P m → IsGood P P left_of (left_of m) (block_round m)
  unfolding block_round
  block_round-IsGood m q = elim (Bool-cases (peek m == 0)) [
    | inl e ↦ rw e (q, _)
    | inr e ↦ rw e (elim (Bool-cases (peek m == b'*' && peek_at 1 m == b'/')) [
      | inl f ↦ rw f (step (next m) (step m q), _)
      | inr f ↦ rw f (step m q, next-shorter m (not_zero (peek m) e), _)
    ])
  ]

pub skip_while-Moves :
    (p : ℕ → Bool) → p 0 ≡ false → (l : Lexer) → Yields (skip_while p l) (Moves l)
unfolding skip_while
skip_while-Moves p h l =
    skip_while-keeps (Moves l) (next-step l) p h (fuel_of l) l (omega arith) (Moves-refl l)

-- Where the first rune passes the test, it is taken.
pub skip_while-Ahead :
    (p : ℕ → Bool)
    → p 0 ≡ false
    → (l : Lexer) → p (peek l) ≡ true
    → Yields (skip_while p l) (Ahead l)
unfolding skip_while run go_on take_one
skip_while-Ahead p h l e =
    let r = is_rune p h (peek l) e in
    rw e (
      skip_while-keeps (Ahead l) (next-Ahead_step l) p h (length l.rest) (next l) (next-shorter l r)
        (next-Ahead l r))
