-- ===== src/Lexer/Tokens.antt =====
-- parser/lexer.go: NextToken and Tokenize end on every input, with tokens in the order of the input.
use xxldb.Base.{
  ℕ, ◌<◌, ◌≤◌, ◌≡◌, refl, arith, Bool, true, false, List, [], ◌∷◌, Bool-cases, Option, none, some,
  inl, inr,
}
use xxldb.Base.Loop.{run, IsGood, Yields, run_yields}
use xxldb.Base.Text.{same_bytes}
use xxldb.Base.Utf8.{is_space}
use xxldb.Lexer.{
  eof, operator, Lexer, TokenType, Scanned, Outcome, peek, fuel_of, token_from, scan, skip_while,
  skip_whitespace, next_token_round, settle, next_token,
}
use xxldb.Lexer.Moves.{Moves, Moves-refl, Moves-trans, Moves-shorter, Moves-forward, Ahead}
use xxldb.Lexer.Loops.{left_of, skip_while-Moves}
use xxldb.Lexer.Scanners.{is_lexed}
use xxldb.Lexer.Total.{Gives, token, at_end, Scans, gives, skips, scan-Scans}

abbrev pub is_eof : TokenType → Bool
is_eof eof = true
is_eof _ = false

-- The operator `*`.
abbrev pub is_times : TokenType → List ℕ → Bool
is_times operator value = same_bytes value (b'*' ∷ [])
is_times _ value = false

lexed-not_times :
    (type : TokenType) (value : List ℕ) → is_lexed type value ≡ true → is_times type value ≡ false
lexed-not_times type value e = ground arith

lexed-not_eof :
    (type : TokenType) (value : List ℕ) → is_lexed type value ≡ true → is_eof type ≡ false
lexed-not_eof type value e = ground arith

-- What NextToken gives: the lexer stays in the input; a token begins where the lexer was or
-- behind that, and ends behind its beginning, but at the end of the input.
pub record Lexed (l : Lexer) (s : Scanned) : Type 0 where
  pub moved : Moves l s.1
  pub begins : l.pos ≤ s.0.pos
  pub goes_on : is_eof s.0.type ≡ false → (s.0.pos < s.1.pos) × (left_of s.1 < left_of l)
  pub not_times : is_times s.0.type s.0.value ≡ false
  pub stops : is_eof s.0.type ≡ true → (s.0.pos ≡ s.1.pos) × (peek s.1 ≡ 0)

space_0 : is_space 0 ≡ false
unfolding is_space
space_0 = refl

Moves-pos : (l m : Lexer) → Moves l m → l.pos ≤ m.pos
Moves-pos l m p = omega (arith, p.at_pos)

Gives-Lexed : (l m : Lexer) (s : Scanned) → Moves l m → Gives m s → Lexed l s
unfolding Ahead token_from
Gives-Lexed l m s p (token t) = record {
  moved = Moves-trans l m s.1 p t.ahead.0;
  begins = omega (arith, Moves-pos l m p, t.at_start);
  goes_on = λ e. (
    omega (arith, t.at_start, Moves-forward m s.1 t.ahead.0 t.ahead.1),
    omega (arith, t.ahead.1, Moves-shorter l m p),
  );
  not_times = lexed-not_times s.0.type s.0.value t.is_token;
  stops = λ e. cc (e, lexed-not_eof s.0.type s.0.value t.is_token);
}
Gives-Lexed l m s p (at_end e h) = rw e record {
  moved = p;
  begins = Moves-pos l m p;
  goes_on = λ f. cc f;
  not_times = refl;
  stops = λ f. (refl, h);
}

pub Lexed-within : (l : Lexer) (s : Scanned) → Lexed l s → s.0.pos ≤ s.1.pos
Lexed-within l s q = elim (Bool-cases (is_eof s.0.type)) [
  | inl e ↦ omega (arith, (q.stops e).0)
  | inr e ↦ omega (arith, (q.goes_on e).0)
]

LexedOrNone : Lexer → Option Scanned → Type 0
LexedOrNone l none = ⊥
LexedOrNone l (some s) = Lexed l s

settle-IsGood :
    (l k m : Lexer) (o : Outcome)
    → Moves l m
    → left_of m ≤ left_of k
    → Scans m o
    → IsGood (Moves l) (LexedOrNone l) left_of (left_of k) (settle o)
unfolding settle LexedOrNone Ahead
settle-IsGood l k m o p h (gives s g) = (Gives-Lexed l m s p g, _)
settle-IsGood l k m o p h (skips n a) = (Moves-trans l m n p a.0, omega (arith, a.1, h), _)

next_token_round-IsGood :
    (l k : Lexer)
    → Moves l k
    → IsGood (Moves l) (LexedOrNone l) left_of (left_of k) (next_token_round k)
unfolding next_token_round skip_whitespace
next_token_round-IsGood l k p = go (skip_while-Moves is_space space_0 k)
  where
    go :
        Yields (skip_while is_space k) (Moves k)
        → IsGood (Moves l) (LexedOrNone l) left_of (left_of k) (next_token_round k)
    go (m, e, q) =
        rw e (
          settle-IsGood l k m (scan m) (Moves-trans l k m p q) (Moves-shorter k m q) (scan-Scans m))

-- NextToken gives a token from every place in every input, so none of its loops runs on. The lexer
-- goes over bytes that were left, the token begins where the lexer was or behind that, and a token
-- that is not the end of the input takes a byte at least.
pub next_token-Lexed : (l : Lexer) → Yields (next_token l) (Lexed l)
unfolding next_token LexedOrNone
next_token-Lexed l = go (
    run_yields (Moves l) (LexedOrNone l) left_of next_token_round (next_token_round-IsGood l)
      (fuel_of l) l (omega arith) (Moves-refl l))
  where
    go :
        Yields (run next_token_round (fuel_of l) l) (LexedOrNone l)
        → Yields (next_token l) (Lexed l)
    go (none, e, q) = absurd q
    go (some s, e, q) = (s, rw e refl, q)
