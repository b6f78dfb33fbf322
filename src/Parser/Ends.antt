-- ===== src/Parser/Ends.antt =====
-- parser/parser.go: the parser ends on every list of tokens.
use xxldb.Base.{ℕ, zero, suc, ◌+◌, ◌≤◌, ◌≢◌, Option, List, length, arith}
use xxldb.Base.Loop.{Yields}
use xxldb.Lexer.{Token, tokenize}
use xxldb.Lexer.Tokenize.{Tokens, tokenize-Tokens}
use xxldb.Parser.{Outcome, parsed, failed, stuck, Parser}
use xxldb.Parser.Dispatch.{parse, parsed_statement, parse_sql}
use xxldb.Parser.Fine.{IsFine, Under}
use xxldb.Parser.Fine.Dispatch.{statement_parser-Under}
use xxldb.Parser.Fine.Levels.{or_expr-Under}
use xxldb.Parser.Fine.Selects.{select_expr-Under}
use xxldb.Parser.Grammar.{grammar, fuel_for, parse_expression, parse_select}
use xxldb.Parser.Syntax.{Text}

module _ (parse_float : Text → Option ℕ) where
  none-Under : {A : Type 0} (p : Parser A) → Under 0 p
  unfolding Under
  none-Under p ts h = absurd (omega (arith, h))

  -- Fuel for two calls a token.
  abbrev pub IsFed : ℕ → Type 0
  IsFed n =
      (fuel : ℕ)
      → n + n ≤ fuel
      → Under n (grammar parse_float fuel).0 × Under n (grammar parse_float fuel).1

  expression-Under :
      (n : ℕ)
      → IsFed n
      → (fuel : ℕ) → suc (n + n) ≤ fuel
      → Under (suc n) (grammar parse_float fuel).0
  unfolding grammar
  expression-Under n h zero k = absurd (omega (arith, k))
  expression-Under n h (suc fuel) k =
      let inner = h fuel (omega (arith, k)) in
      or_expr-Under parse_float n (grammar parse_float fuel).0 (grammar parse_float fuel).1 inner.0
        inner.1

  pub grammar-IsFed : (n : ℕ) → IsFed n
  unfolding grammar
  grammar-IsFed zero fuel k = (none-Under _, none-Under _)
  grammar-IsFed (suc n) zero k = absurd (omega (arith, k))
  grammar-IsFed (suc n) (suc fuel) k =
      let ih = grammar-IsFed n in
      let inner = ih fuel (omega (arith, k)) in
      (
        expression-Under n ih (suc fuel) (omega (arith, k)),
        select_expr-Under n (grammar parse_float fuel).0 (grammar parse_float fuel).1
            (expression-Under n ih fuel (omega (arith, k))) inner.1,
      )

  -- parseExpression ends on every list of tokens, with a result or an error, and leaves no more
  -- tokens than there were.
  parse_expression-IsFine : (ts : List Token) → IsFine ts (parse_expression parse_float ts)
  unfolding parse_expression Under
  parse_expression-IsFine ts =
      (grammar-IsFed (suc (length ts)) (fuel_for ts) (omega arith)).0 ts (omega arith)

  parse_select-IsFine : (ts : List Token) → IsFine ts (parse_select parse_float ts)
  unfolding parse_select Under
  parse_select-IsFine ts =
      (grammar-IsFed (suc (length ts)) (fuel_for ts) (omega arith)).1 ts (omega arith)

  IsFine-ne-stuck : {A : Type 0} (ts : List Token) (o : Outcome A) → IsFine ts o → o ≢ stuck
  unfolding IsFine
  IsFine-ne-stuck ts (parsed a rest) h = λ e. cc e
  IsFine-ne-stuck ts (failed e) h = λ f. cc f
  IsFine-ne-stuck ts stuck h = absurd h

  -- Parse ends on every list of tokens, with a statement or an error, and leaves no more tokens than
  -- there were.
  parse-IsFine : (ts : List Token) → IsFine ts (parse parse_float ts)
  unfolding parse Under
  parse-IsFine ts =
      statement_parser-Under (suc (length ts)) (parse_expression parse_float)
        (parse_select parse_float) (λ us h. parse_expression-IsFine us)
        (λ us h. parse_select-IsFine us) ts (omega arith)

  -- ParseString ends on every text, with a statement or an error: the lexer gives its tokens, and the
  -- fuel, two calls for each token and two more, is enough for the parser's loops and recursion.
  pub parse_sql-ne-stuck : (sql : List ℕ) → parse_sql parse_float sql ≢ stuck
  unfolding parse_sql parsed_statement
  parse_sql-ne-stuck sql = go (tokenize-Tokens sql)
    where
      go : Yields (tokenize sql) (Tokens sql) → parse_sql parse_float sql ≢ stuck
      go (ts, e, t) = rw e (IsFine-ne-stuck ts (parse parse_float ts) (parse-IsFine ts))
