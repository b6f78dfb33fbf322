-- ===== src/Parser/Fine.antt =====
-- parser/parser.go: parsers that end and only go forward, and how the parts of a grammar keep that.
pub mod Steps
pub mod Operands
pub mod Levels
pub mod Selects
pub mod Schema
pub mod Show
pub mod Statements
pub mod Dispatch
use xxldb.Base.{
  ℕ, zero, suc, ◌<◌, ◌≤◌, ◌≡◌, refl, Bool, true, false, List, [], ◌∷◌, length, arith, if◌then◌else◌,
  Bool-cases, inl, inr,
}
use xxldb.Base.Loop.{Round, done, more}
use xxldb.Lexer.{
  Token, TokenType, eof, comma, keyword, operator, number, string, ident, lparen, star,
}
use xxldb.Parser.{
  ParseError, Outcome, parsed, failed, stuck, Parser, go_with, ◌>>=◌, pure, fail, choose, same_type,
  type_index, current, advance, matches, matches_one, when, when_one, skip, look, round_then,
  rounds_of, repeat, expect, expect_keyword,
}
use xxldb.Parser.Syntax.{Text}
use xxldb.Parser.Expressions.{comma_round}

-- A result leaves no more tokens than there were, and no fuel was missing.
unfoldable pub IsFine : {A : Type 0} → List Token → Outcome A → Type 0
IsFine ts (parsed a rest) = length rest ≤ length ts
IsFine ts (failed e) = Unit
IsFine ts stuck = ⊥

-- What goes on takes a token at least.
unfoldable pub IsStep : {S A : Type 0} → List Token → Outcome (Round S A) → Type 0
IsStep ts (parsed (done a) rest) = length rest ≤ length ts
IsStep ts (parsed (more s) rest) = length rest < length ts
IsStep ts (failed e) = Unit
IsStep ts stuck = ⊥

-- A parser that is fine on less than `n` tokens.
unfoldable pub Under : {A : Type 0} → ℕ → Parser A → Type 0
Under n p = (ts : List Token) → length ts < n → IsFine ts (p ts)

unfoldable pub Rounds : {S A : Type 0} → ℕ → Parser (Round S A) → Type 0
Rounds n p = (ts : List Token) → length ts < n → IsStep ts (p ts)

pub advance-le : (ts : List Token) → length (advance ts) ≤ length ts
unfolding advance
advance-le [] = omega arith
advance-le (t ∷ ts) = omega arith

-- A token of a type that is not the end is there.
pub advance-less :
    (type : TokenType) (ts : List Token)
    → same_type eof type ≡ false
    → matches type ts ≡ true
    → length (advance ts) < length ts
unfolding advance matches current
advance-less type [] h e = cc (h, e)
advance-less type (t ∷ ts) h e = omega arith

pub matches_one-matches :
    (type : TokenType) (words : List Text) (ts : List Token)
    → matches_one type words ts ≡ true
    → matches type ts ≡ true
unfolding matches_one matches
matches_one-matches type words ts e = ground (arith, e)

pub IsFine-weaken :
    {A : Type 0} (ts us : List Token) (o : Outcome A)
    → length us ≤ length ts
    → IsFine us o
    → IsFine ts o
unfolding IsFine
IsFine-weaken ts us (parsed a rest) h p = omega (arith, h, p)
IsFine-weaken ts us (failed e) h p = _
IsFine-weaken ts us stuck h p = p

pub IsStep-weaken :
    {S A : Type 0} (ts us : List Token) (o : Outcome (Round S A))
    → length us ≤ length ts
    → IsStep us o
    → IsStep ts o
unfolding IsStep
IsStep-weaken ts us (parsed (done a) rest) h p = omega (arith, h, p)
IsStep-weaken ts us (parsed (more s) rest) h p = omega (arith, h, p)
IsStep-weaken ts us (failed e) h p = _
IsStep-weaken ts us stuck h p = p

pub IsStep-strict :
    {S A : Type 0} (ts us : List Token) (o : Outcome (Round S A))
    → length us < length ts
    → IsFine us o
    → IsStep ts o
unfolding IsStep IsFine
IsStep-strict ts us (parsed (done a) rest) h p = omega (arith, h, p)
IsStep-strict ts us (parsed (more s) rest) h p = omega (arith, h, p)
IsStep-strict ts us (failed e) h p = _
IsStep-strict ts us stuck h p = p

module _ {A B : Type 0} where
  pub Under-bind :
      (n : ℕ) (p : Parser A) (f : A → Parser B)
      → Under n p
      → ((a : A) → Under n (f a))
      → Under n (p >>= f)
  unfolding Under ◌>>=◌ go_with IsFine
  Under-bind n p f hp hf ts h = go (p ts) (hp ts h)
    where
      go : (o : Outcome A) → IsFine ts o → IsFine ts (go_with o f)
      go (parsed a rest) k = IsFine-weaken ts rest (f a rest) k (hf a rest (omega (arith, h, k)))
      go (failed e) k = _
      go stuck k = k

module _ {A S B : Type 0} where
  pub Rounds-bind :
      (n : ℕ) (p : Parser A) (f : A → Parser (Round S B))
      → Under n p
      → ((a : A) → Rounds n (f a))
      → Rounds n (p >>= f)
  unfolding Under Rounds ◌>>=◌ go_with IsFine IsStep
  Rounds-bind n p f hp hf ts h = go (p ts) (hp ts h)
    where
      go : (o : Outcome A) → IsFine ts o → IsStep ts (go_with o f)
      go (parsed a rest) k = IsStep-weaken ts rest (f a rest) k (hf a rest (omega (arith, h, k)))
      go (failed e) k = _
      go stuck k = k

pub Under-fail : (A : Type 0) (n : ℕ) (e : ParseError) → Under {A = A} n (fail e)
unfolding Under fail IsFine
Under-fail A n e ts h = _

module _ {A : Type 0} (n : ℕ) where
  pub Under-pure : (a : A) → Under n (pure a)
  unfolding Under pure IsFine
  Under-pure a ts h = omega arith

  pub Under-choose : (b : Bool) (p q : Parser A) → Under n p → Under n q → Under n (choose b p q)
  unfolding Under choose
  Under-choose true p q hp hq = hp
  Under-choose false p q hp hq = hq

  pub Under-look :
      (p : List Token → Parser A) → ((ts : List Token) → Under n (p ts)) → Under n (look p)
  unfolding Under look
  Under-look p hp ts h = hp ts ts h

  pub Under-skip : (p : Token → Parser A) → ((t : Token) → Under n (p t)) → Under n (skip p)
  unfolding Under skip
  Under-skip p hp ts h =
      IsFine-weaken ts (advance ts) (p (current ts) (advance ts)) (advance-le ts)
        (hp (current ts) (advance ts) (omega (arith, h, advance-le ts)))

  pub Under-suc : (p : Parser A) → Under (suc n) p → Under n p
  unfolding Under
  Under-suc p hp ts h = hp ts (omega (arith, h))

  pub Under-le : (m : ℕ) (p : Parser A) → m ≤ n → Under n p → Under m p
  unfolding Under
  Under-le m p k hp ts h = hp ts (omega (arith, h, k))

  -- Behind a token, where it is not the end, one less is left.
  pub Under-when :
      (type : TokenType) (p : Token → Parser A) (q : Parser A)
      → same_type eof type ≡ false
      → ((t : Token) → Under n (p t))
      → Under (suc n) q
      → Under (suc n) (when type p q)
  unfolding Under when
  Under-when type p q e hp hq ts h = elim (Bool-cases (matches type ts)) [
    | inl m ↦
        let less = advance-less type ts e m in
        rw m (
          IsFine-weaken ts (advance ts) (p (current ts) (advance ts)) (advance-le ts)
            (hp (current ts) (advance ts) (omega (arith, h, less))))
    | inr m ↦ rw m (hq ts h)
  ]

  pub Under-when_one :
      (type : TokenType) (words : List Text) (p : Token → Parser A) (q : Parser A)
      → same_type eof type ≡ false
      → ((t : Token) → Under n (p t))
      → Under (suc n) q
      → Under (suc n) (when_one type words p q)
  unfolding Under when_one
  Under-when_one type words p q e hp hq ts h = elim (Bool-cases (matches_one type words ts)) [
    | inl m ↦
        let less = advance-less type ts e (matches_one-matches type words ts m) in
        rw m (
          IsFine-weaken ts (advance ts) (p (current ts) (advance ts)) (advance-le ts)
            (hp (current ts) (advance ts) (omega (arith, h, less))))
    | inr m ↦ rw m (hq ts h)
  ]
