-- ===== src/Lexer/Scanners.antt =====
-- parser/lexer.go: every scanner of the lexer gives a token, and goes on in the input.
use xxldb.Base.{
  not, [], ◌∷◌, ℕ, ◌<◌, ◌≡◌, ◌≢◌, refl, arith, Bool, true, false, List, [], ltb, ◌==◌, length,
  Bool-cases, Option, some, inl, inr,
}
use xxldb.Base.Loop.{Round, run, go_on, IsGood, Yields, run_yields}
use xxldb.Base.Text.{same_bytes, codes, is_one_of, to_upper}
use xxldb.Lexer.Keywords.{keywords}
use xxldb.Lexer.{
  operator, Lexer, TokenType, eof, Scanned, peek, next, fuel_of, number_round, scan_number,
  is_digit, is_letter, is_ident_part, is_variable_part, StringState, string_round, after_quote,
  after_backslash, token_from, backtick_round, block_round, scan_string, scan_backtick_ident, word,
  scan_ident_or_keyword, scan_parameter, scan_system_variable, skip_at, NumberState, ident, number,
  parameter, skip_while, ◌>>=◌, skip_block_comment, since,
}
use xxldb.Lexer.Moves.{next-Moves, next-shorter, Moves-shorter, Ahead, next-Ahead}
use xxldb.Lexer.Loops.{
  left_of, next-Ahead_step, not_zero, skip_while-keeps, number_round-IsGood, block_round-IsGood,
  skip_while-Ahead, is_rune,
}

abbrev pub is_eof : TokenType → Bool
is_eof eof = true
is_eof _ = false

-- What a scanner makes: no end of the input, and no operator `*`.
abbrev pub is_lexed : TokenType → List ℕ → Bool
is_lexed eof value = false
is_lexed operator value = not (same_bytes value (b'*' ∷ []))
is_lexed _ value = true

-- The token stands where the scanner started, and the lexer is ahead of that.
pub record Takes (start : Lexer) (s : Scanned) : Type 0 where
  pub ahead : Ahead start s.1
  pub at_start : s.0.pos ≡ start.pos
  pub is_token : is_lexed s.0.type s.0.value ≡ true

pub takes :
    (start l : Lexer) (type : TokenType) (value : List ℕ)
    → Ahead start l
    → is_lexed type value ≡ true
    → Takes start (token_from start type value, l)
unfolding token_from
takes start l type value p e = record { ahead = p; at_start = refl; is_token = e }

abbrev StringGood : Lexer → ℕ → Round StringState Scanned → Type 0
StringGood start n =
    IsGood (λ (t : StringState). Ahead start t.1) (Takes start) (λ t. left_of t.1) n

after_quote-IsGood :
    (quote : ℕ) (start : Lexer) (sb : List ℕ) (l : Lexer) (n : ℕ)
    → Ahead start l
    → left_of l < n
    → StringGood start n (after_quote quote start sb l)
unfolding after_quote
after_quote-IsGood quote start sb l n p q = elim (Bool-cases (peek l == quote)) [
  | inl e ↦
      rw e (next-Ahead_step start l p, omega (arith, q, Moves-shorter l (next l) (next-Moves l)), _)
  | inr e ↦ rw e (takes start l _ _ p refl, _)
]

after_backslash-IsGood :
    (quote : ℕ) (start : Lexer) (sb : List ℕ) (l : Lexer) (n : ℕ)
    → Ahead start l
    → left_of l < n
    → StringGood start n (after_backslash quote start sb l)
unfolding after_backslash
after_backslash-IsGood quote start sb l n p q = elim (Bool-cases (peek l == 0)) [
  | inl e ↦ rw e (takes start l _ _ p refl, _)
  | inr e ↦
      rw e (next-Ahead_step start l p, omega (arith, q, Moves-shorter l (next l) (next-Moves l)), _)
]

string_round-IsGood :
    (quote : ℕ) (start : Lexer)
    → (s : StringState) → Ahead start s.1
    → StringGood start (left_of s.1) (string_round quote start s)
unfolding string_round
string_round-IsGood quote start (sb, l) p =
    let r = peek l in
    elim (Bool-cases (r == 0)) [
      | inl e ↦ rw e (takes start l _ _ p refl, _)
      | inr e ↦
          let q = next-Ahead_step start l p in
          let h = next-shorter l (not_zero r e) in
          elim (Bool-cases (r == quote)) [
            | inl f ↦ rw (e, f) (after_quote-IsGood quote start sb (next l) (left_of l) q h)
            | inr f ↦ elim (Bool-cases (r == b'\\')) [
              | inl g ↦
                  rw (e, f, g) (after_backslash-IsGood quote start sb (next l) (left_of l) q h)
              | inr g ↦ rw (e, f, g) (q, h, _)
            ]
          ]
    ]

pub scan_string-Takes : (l : Lexer) → peek l ≢ 0 → Yields (scan_string l) (Takes l)
unfolding scan_string
scan_string-Takes l h =
    run_yields (λ (t : StringState). Ahead l t.1) (Takes l) (λ t. left_of t.1)
      (string_round (peek l) l) (string_round-IsGood (peek l) l) (fuel_of l) ([], next l)
      (omega (arith, Moves-shorter l (next l) (next-Moves l))) (next-Ahead l h)

backtick_round-IsGood :
    (start : Lexer)
    → (s : StringState) → Ahead start s.1
    → StringGood start (left_of s.1) (backtick_round start s)
unfolding backtick_round
backtick_round-IsGood start (sb, l) p =
    let r = peek l in
    elim (Bool-cases (r == 0)) [
      | inl e ↦ rw e (takes start l _ _ p refl, _)
      | inr e ↦
          let q = next-Ahead_step start l p in
          let h = next-shorter l (not_zero r e) in
          elim (Bool-cases (r == b'`')) [
            | inl f ↦ rw (e, f) (takes start (next l) _ _ q refl, _)
            | inr f ↦ rw (e, f) (q, h, _)
          ]
    ]

pub scan_backtick_ident-Takes : (l : Lexer) → peek l ≢ 0 → Yields (scan_backtick_ident l) (Takes l)
unfolding scan_backtick_ident
scan_backtick_ident-Takes l h =
    run_yields (λ (t : StringState). Ahead l t.1) (Takes l) (λ t. left_of t.1) (backtick_round l)
      (backtick_round-IsGood l) (fuel_of l) ([], next l)
      (omega (arith, Moves-shorter l (next l) (next-Moves l))) (next-Ahead l h)

-- A scanner that makes a token of where its loop ends.
token_of_loop :
    (start : Lexer) (o : Option Lexer) (f : Lexer → Scanned)
    → Yields o (Ahead start)
    → ((l : Lexer) → Ahead start l → Takes start (f l))
    → Yields (o >>= λ l. some (f l)) (Takes start)
token_of_loop start o f (l, e, p) g = (f l, rw e refl, g l p)

ident_0 : is_ident_part 0 ≡ false
unfolding is_ident_part is_letter is_digit
ident_0 = refl

variable_0 : is_variable_part 0 ≡ false
unfolding is_variable_part is_letter is_digit
variable_0 = refl

word-Takes : (start l : Lexer) (value : List ℕ) → Ahead start l → Takes start (word value start, l)
unfolding word
word-Takes start l value p = elim (Bool-cases (is_one_of (to_upper value) keywords)) [
  | inl e ↦ rw e (takes start l _ _ p refl)
  | inr e ↦ rw e (takes start l _ _ p refl)
]

pub scan_ident_or_keyword-Takes :
    (l : Lexer) → is_ident_part (peek l) ≡ true → Yields (scan_ident_or_keyword l) (Takes l)
unfolding scan_ident_or_keyword
scan_ident_or_keyword-Takes l h =
    token_of_loop l (skip_while is_ident_part l) (λ m. (word (since l m) l, m))
      (skip_while-Ahead is_ident_part ident_0 l h) (λ m p. word-Takes l m (since l m) p)

digit_0 : is_digit 0 ≡ false
unfolding is_digit
digit_0 = refl

number_loop-Ahead :
    (l : Lexer)
    → is_digit (peek l) ≡ true
    → Yields (run number_round (fuel_of l) (false, false, l)) (Ahead l)
unfolding run go_on number_round
number_loop-Ahead l h =
    let r = is_rune is_digit digit_0 (peek l) h in
    rw h (
      run_yields (λ (t : NumberState). Ahead l t.2) (Ahead l) (λ t. left_of t.2) number_round
        (number_round-IsGood (Ahead l) (next-Ahead_step l)) (length l.rest) (false, false, next l)
        (next-shorter l r) (next-Ahead l r))

pub scan_number-Takes : (l : Lexer) → is_digit (peek l) ≡ true → Yields (scan_number l) (Takes l)
unfolding scan_number
scan_number-Takes l h =
    token_of_loop l (run number_round (fuel_of l) (false, false, l))
      (λ m. (token_from l number (since l m), m)) (number_loop-Ahead l h)
      (λ m p. takes l m number (since l m) p refl)

-- A loop behind some runes that are taken already.
pub loop-Ahead :
    (p : ℕ → Bool)
    → p 0 ≡ false
    → (start l : Lexer) → Ahead start l
    → Yields (skip_while p l) (Ahead start)
unfolding skip_while
loop-Ahead p h start l q =
    skip_while-keeps (Ahead start) (next-Ahead_step start) p h (fuel_of l) l (omega arith) q

pub scan_parameter-Takes : (l : Lexer) → peek l ≢ 0 → Yields (scan_parameter l) (Takes l)
unfolding scan_parameter
scan_parameter-Takes l h = go (loop-Ahead is_digit digit_0 l (next l) (next-Ahead l h))
  where
    go : Yields (skip_while is_digit (next l)) (Ahead l) → Yields (scan_parameter l) (Takes l)
    go (m, e, p) = elim (Bool-cases (ltb (next l).pos m.pos)) [
      | inl f ↦ (
        (token_from l parameter (since l m), m),
        rw (e, f) refl,
        takes l m parameter (since l m) p refl,
      )
      | inr f ↦
          ((token_from l ident (codes "$"), m), rw (e, f) refl, takes l m ident (codes "$") p refl)
    ]

skip_at-Ahead : (start l : Lexer) → Ahead start l → Ahead start (skip_at l)
unfolding skip_at
skip_at-Ahead start l p = elim (Bool-cases (peek l == b'@')) [
  | inl e ↦ rw e (next-Ahead_step start l p)
  | inr e ↦ rw e p
]

pub scan_system_variable-Takes :
    (l : Lexer) → peek l ≢ 0 → Yields (scan_system_variable l) (Takes l)
unfolding scan_system_variable
scan_system_variable-Takes l h =
    token_of_loop l (skip_while is_variable_part (skip_at (next l)))
      (λ m. (token_from l ident (since l m), m))
      (loop-Ahead is_variable_part variable_0 l (skip_at (next l))
        (skip_at-Ahead l (next l) (next-Ahead l h)))
      (λ m p. takes l m ident (since l m) p refl)

pub skip_block_comment-Ahead : (l : Lexer) → peek l ≢ 0 → Yields (skip_block_comment l) (Ahead l)
unfolding skip_block_comment
skip_block_comment-Ahead l h =
    run_yields (Ahead l) (Ahead l) left_of block_round
      (block_round-IsGood (Ahead l) (next-Ahead_step l)) (fuel_of l) (next (next l))
      (omega (
        arith,
        Moves-shorter l (next l) (next-Moves l),
        Moves-shorter (next l) (next (next l)) (next-Moves (next l)),
      ))
      (next-Ahead_step l (next l) (next-Ahead l h))
