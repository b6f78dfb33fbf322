-- ===== src/Parser.antt =====
-- parser/parser.go: the parser's state. A parser is a function of the tokens that are left; behind
-- the last token all tokens mark the end, so that advancing there changes nothing.
pub mod Syntax
pub mod Expressions
pub mod Query
pub mod Grammar
pub mod Definitions
pub mod Constraints
pub mod Statements
pub mod Schema
pub mod Show
pub mod Dispatch
pub mod Commands
pub mod Fine
pub mod Chains
pub mod Grouping
pub mod Ends
mod Runs
use xxldb.Base.{
  ℕ, zero, suc, Bool, true, false, ◌&&◌, ◌||◌, List, [], ◌∷◌, ◌==◌, if◌then◌else◌, length,
}
use xxldb.Base.Loop.{Round, done, more}
use xxldb.Base.Text.{codes, same_bytes, is_one_of, to_upper}
use xxldb.Lexer.{
  Token, TokenType, eof, error, ident, number, string, keyword, operator, comma, lparen, rparen,
  lbracket, rbracket, semicolon, dot, star, parameter,
}
use xxldb.Parser.Syntax.{Text}

-- The parser's errors, with what their texts show.
pub data ParseError : Type 0 where
  expected_type : TokenType → TokenType → ParseError
  expected_value : Text → Text → ParseError
  message : Text → ParseError
  unexpected : Text → Token → ParseError

-- `stuck` is a loop or a recursion that was given too little fuel.
pub data Outcome (A : Type 0) : Type 0 where
  parsed : A → List Token → Outcome A
  failed : ParseError → Outcome A
  stuck : Outcome A

abbrev pub Parser : Type 0 → Type 0
Parser A = List Token → Outcome A

module _ {A B : Type 0} where
  unfoldable pub go_with : Outcome A → (A → Parser B) → Outcome B
  go_with (parsed a ts) f = f a ts
  go_with (failed e) f = failed e
  go_with stuck f = stuck

  infixl 5 ◌>>=◌
  unfoldable pub ◌>>=◌ : Parser A → (A → Parser B) → Parser B
  unfolding go_with
  (p >>= f) ts = go_with (p ts) f

module _ {A : Type 0} where
  unfoldable pub pure : A → Parser A
  pure a ts = parsed a ts

  unfoldable pub fail : ParseError → Parser A
  fail e ts = failed e

  unfoldable pub choose : Bool → Parser A → Parser A → Parser A
  choose b p q ts = if b then p ts else q ts

unfoldable pub type_index : TokenType → ℕ
type_index eof = 0
type_index error = 1
type_index ident = 2
type_index number = 3
type_index string = 4
type_index keyword = 5
type_index operator = 6
type_index comma = 7
type_index lparen = 8
type_index rparen = 9
type_index lbracket = 10
type_index rbracket = 11
type_index semicolon = 12
type_index dot = 13
type_index star = 14
type_index parameter = 15

unfoldable pub same_type : TokenType → TokenType → Bool
same_type t u = type_index t == type_index u

unfoldable pub current : List Token → Token
current [] = record { type = eof; value = []; pos = 0 }
current (t ∷ ts) = t

unfoldable pub advance : List Token → List Token
advance [] = []
advance (t ∷ ts) = ts

unfoldable pub peek : ℕ → List Token → Token
unfolding current advance
peek zero ts = current ts
peek (suc n) ts = peek n (advance ts)

-- `match` with no values.
unfoldable pub matches : TokenType → List Token → Bool
matches type ts = same_type (current ts).type type

-- `match` with values, which are written in upper case.
unfoldable pub matches_one : TokenType → List Text → List Token → Bool
matches_one type values ts =
    same_type (current ts).type type && is_one_of (to_upper (current ts).value) values

module _ {A : Type 0} where
  -- `if p.match(type) { tok := p.advance(); ... } else { ... }`; p takes the token.
  unfoldable pub when : TokenType → (Token → Parser A) → Parser A → Parser A
  when type p q ts = if matches type ts then p (current ts) (advance ts) else q ts

  unfoldable pub when_one : TokenType → List Text → (Token → Parser A) → Parser A → Parser A
  when_one type values p q ts =
      if matches_one type values ts then p (current ts) (advance ts) else q ts

  abbrev pub when_keyword : Text → Parser A → Parser A → Parser A
  when_keyword word p q = when_one keyword (word ∷ []) (λ _. p) q

  -- What stands behind the current token, whatever it is.
  unfoldable pub skip : (Token → Parser A) → Parser A
  skip p ts = p (current ts) (advance ts)

  -- A look at the current tokens.
  unfoldable pub look : (List Token → Parser A) → Parser A
  look p ts = p ts ts

unfoldable pub expect : TokenType → Parser (Unit {0})
expect type = when type (λ _. pure tt) (look λ ts. fail (expected_type type (current ts).type))

unfoldable pub expect_keyword : Text → Parser (Unit {0})
expect_keyword word =
    when keyword
      (λ t.
        choose (same_bytes (to_upper t.value) word) (pure tt) (fail (expected_value word t.value)))
      (look λ ts. fail (expected_type keyword (current ts).type))

module _ {S A : Type 0} where
  unfoldable pub round_then : (S → Parser A) → Round S A → Parser A
  round_then rest (done a) = pure a
  round_then rest (more s) = rest s

  unfoldable pub rounds_of : (S → Parser (Round S A)) → ℕ → S → Parser A
  rounds_of round zero s ts = stuck
  rounds_of round (suc fuel) s ts = (round s >>= round_then (rounds_of round fuel)) ts

  -- A loop whose rounds take a token at least, but the last.
  unfoldable pub repeat : (S → Parser (Round S A)) → S → Parser A
  repeat round s ts = rounds_of round (suc (length ts)) s ts
