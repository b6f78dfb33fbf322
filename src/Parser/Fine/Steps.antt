-- ===== src/Parser/Fine/Steps.antt =====
-- parser/parser.go: the loops of the parser, and the rules by which a part of the grammar is fine.
use xxldb.Base.{
  ℕ, zero, suc, ◌<◌, ◌≡◌, refl, Bool, true, false, List, length, arith, Bool-cases, inl, inr,
}
use xxldb.Base.Loop.{Round, done, more}
use xxldb.Lexer.{
  Token, TokenType, eof, comma, keyword, operator, number, string, ident, lparen, star,
}
use xxldb.Parser.{
  ParseError, Outcome, parsed, failed, stuck, Parser, go_with, ◌>>=◌, pure, fail, choose, same_type,
  type_index, current, advance, matches, matches_one, when, when_one, look, round_then, rounds_of,
  repeat, expect, expect_keyword,
}
use xxldb.Parser.Syntax.{Text}
use xxldb.Parser.Expressions.{comma_round}
use xxldb.Parser.Fine.{
  IsFine, IsStep, Under, Rounds, advance-le, advance-less, matches_one-matches, IsFine-weaken,
  IsStep-weaken, IsStep-strict, Under-bind, Rounds-bind, Under-pure, Under-fail, Under-choose,
  Under-look, Under-skip, Under-suc, Under-le, Under-when, Under-when_one,
}

-- The same where the part in front may take as much as the whole.
module _ {A : Type 0} where
  pub Under-when_weak :
      (n : ℕ) (type : TokenType) (p : Token → Parser A) (q : Parser A)
      → ((t : Token) → Under n (p t))
      → Under n q
      → Under n (when type p q)
  unfolding Under when
  Under-when_weak n type p q hp hq ts h = elim (Bool-cases (matches type ts)) [
    | inl m ↦ rw m (
        IsFine-weaken ts (advance ts) (p (current ts) (advance ts)) (advance-le ts)
          (hp (current ts) (advance ts) (omega (arith, h, advance-le ts))))
    | inr m ↦ rw m (hq ts h)
  ]

  pub Under-when_one_weak :
      (n : ℕ) (type : TokenType) (words : List Text) (p : Token → Parser A) (q : Parser A)
      → ((t : Token) → Under n (p t))
      → Under n q
      → Under n (when_one type words p q)
  unfolding Under when_one
  Under-when_one_weak n type words p q hp hq ts h = elim (Bool-cases (matches_one type words ts)) [
    | inl m ↦ rw m (
        IsFine-weaken ts (advance ts) (p (current ts) (advance ts)) (advance-le ts)
          (hp (current ts) (advance ts) (omega (arith, h, advance-le ts))))
    | inr m ↦ rw m (hq ts h)
  ]

module _ (n : ℕ) where
  pub Under-expect : (type : TokenType) → Under n (expect type)
  unfolding expect
  Under-expect type =
      Under-when_weak n type _ _ (λ t. Under-pure n tt) (Under-look n _ (λ ts. Under-fail _ n _))

  pub Under-expect_keyword : (word : Text) → Under n (expect_keyword word)
  unfolding expect_keyword
  Under-expect_keyword word =
      Under-when_weak n keyword _ _ (λ t. Under-choose n _ _ _ (Under-pure n tt) (Under-fail _ n _))
        (Under-look n _ (λ ts. Under-fail _ n _))

pub Rounds-done : (S : Type 0) {A : Type 0} (n : ℕ) (a : A) → Rounds {S = S} n (pure (done a))
unfolding Rounds pure IsStep
Rounds-done S n a ts h = omega arith

pub Rounds-fail : (S A : Type 0) (n : ℕ) (e : ParseError) → Rounds {S = S} {A = A} n (fail e)
unfolding Rounds fail IsStep
Rounds-fail S A n e ts h = _

module _ {S A : Type 0} (n : ℕ) where
  pub Rounds-look :
      (p : List Token → Parser (Round S A))
      → ((ts : List Token) → Rounds n (p ts))
      → Rounds n (look p)
  unfolding Rounds look
  Rounds-look p hp ts h = hp ts ts h

  pub Rounds-choose :
      (b : Bool) (p q : Parser (Round S A)) → Rounds n p → Rounds n q → Rounds n (choose b p q)
  unfolding Rounds choose
  Rounds-choose true p q hp hq = hp
  Rounds-choose false p q hp hq = hq

  pub Rounds-when :
      (type : TokenType) (p : Token → Parser (Round S A)) (q : Parser (Round S A))
      → same_type eof type ≡ false
      → ((t : Token) → Under n (p t))
      → Rounds n q
      → Rounds n (when type p q)
  unfolding Under Rounds when
  Rounds-when type p q e hp hq ts h = elim (Bool-cases (matches type ts)) [
    | inl m ↦
        let less = advance-less type ts e m in
        rw m (
          IsStep-strict ts (advance ts) (p (current ts) (advance ts)) less
            (hp (current ts) (advance ts) (omega (arith, h, less))))
    | inr m ↦ rw m (hq ts h)
  ]

  pub Rounds-when_one :
      (type : TokenType) (words : List Text) (p : Token → Parser (Round S A))
      (q : Parser (Round S A))
      → same_type eof type ≡ false
      → ((t : Token) → Under n (p t))
      → Rounds n q
      → Rounds n (when_one type words p q)
  unfolding Under Rounds when_one
  Rounds-when_one type words p q e hp hq ts h = elim (Bool-cases (matches_one type words ts)) [
    | inl m ↦
        let less = advance-less type ts e (matches_one-matches type words ts m) in
        rw m (
          IsStep-strict ts (advance ts) (p (current ts) (advance ts)) less
            (hp (current ts) (advance ts) (omega (arith, h, less))))
    | inr m ↦ rw m (hq ts h)
  ]

  -- Where the part behind the token is fine on fewer tokens only.
  pub Rounds-when_one_strict :
      (type : TokenType) (words : List Text) (p : Token → Parser (Round S A))
      (q : Parser (Round S A))
      → same_type eof type ≡ false
      → ((t : Token) → Under n (p t))
      → Rounds (suc n) q
      → Rounds (suc n) (when_one type words p q)
  unfolding Under Rounds when_one
  Rounds-when_one_strict type words p q e hp hq ts h =
      elim (Bool-cases (matches_one type words ts)) [
        | inl m ↦
            let less = advance-less type ts e (matches_one-matches type words ts m) in
            rw m (
              IsStep-strict ts (advance ts) (p (current ts) (advance ts)) less
                (hp (current ts) (advance ts) (omega (arith, h, less))))
        | inr m ↦ rw m (hq ts h)
      ]

  rounds_of-IsFine :
      (round : S → Parser (Round S A))
      → ((s : S) → Rounds n (round s))
      → (fuel : ℕ) (s : S) (ts : List Token) → length ts < n
      → length ts < fuel
      → IsFine ts (rounds_of round fuel s ts)
  unfolding Rounds rounds_of ◌>>=◌ go_with round_then pure IsStep IsFine
  rounds_of-IsFine round hr zero s ts h f = absurd (omega (arith, f))
  rounds_of-IsFine round hr (suc fuel) s ts h f =
      behind (round s ts) (hr s ts h)
        (λ t us k. rounds_of-IsFine round hr fuel t us (omega (arith, h, k)) (omega (arith, f, k)))
    where
      behind :
          (o : Outcome (Round S A))
          → IsStep ts o
          → ((t : S) (us : List Token)
              → length us < length ts
              → IsFine us (rounds_of round fuel t us))
          → IsFine ts (go_with o (round_then (rounds_of round fuel)))
      behind (parsed (done a) rest) k ih = k
      behind (parsed (more t) rest) k ih =
          IsFine-weaken ts rest (rounds_of round fuel t rest) (omega (arith, k)) (ih t rest k)
      behind (failed e) k ih = _
      behind stuck k ih = k

  pub Under-repeat :
      (round : S → Parser (Round S A))
      → ((s : S) → Rounds n (round s))
      → (s : S) → Under n (repeat round s)
  unfolding Under repeat
  Under-repeat round hr s ts h = rounds_of-IsFine round hr (suc (length ts)) s ts h (omega arith)

pub Rounds-comma_round : {A : Type 0} (n : ℕ) (a : A) → Rounds n (comma_round a)
unfolding comma_round same_type type_index
Rounds-comma_round n a =
    Rounds-when n comma _ _ refl (λ t. Under-pure n (more a)) (Rounds-done _ n a)

pub Under-comma_round : {A : Type 0} (n : ℕ) (a : A) → Under n (comma_round a)
unfolding comma_round
Under-comma_round n a =
    Under-when_weak n comma _ _ (λ t. Under-pure n (more a)) (Under-pure n (done a))

-- The types that mark no end.
pub keyword_real : same_type eof keyword ≡ false
unfolding same_type type_index
keyword_real = refl

pub operator_real : same_type eof operator ≡ false
unfolding same_type type_index
operator_real = refl

pub real_number : same_type eof number ≡ false
unfolding same_type type_index
real_number = refl

pub real_string : same_type eof string ≡ false
unfolding same_type type_index
real_string = refl

pub real_ident : same_type eof ident ≡ false
unfolding same_type type_index
real_ident = refl

pub real_lparen : same_type eof lparen ≡ false
unfolding same_type type_index
real_lparen = refl

pub real_star : same_type eof star ≡ false
unfolding same_type type_index
real_star = refl

pub ruleset weak = (
  Under-bind, Under-pure, Under-fail, Under-choose, Under-look, Under-when_weak,
  Under-when_one_weak, Under-expect, Under-expect_keyword, Under-repeat, Under-skip,
  Under-comma_round, Rounds-done, Rounds-fail, Rounds-look, Rounds-choose, Rounds-bind, Rounds-when,
  Rounds-when_one, Rounds-comma_round, real_ident, keyword_real, operator_real,
)
