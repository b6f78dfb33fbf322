-- ===== src/Parser/Grammar.antt =====
-- parser/parser.go: parseExpression and parseSelect, which call each other.
use xxldb.Base.{ℕ, zero, suc, ◌+◌, Option, List, length}
use xxldb.Lexer.{Token}
use xxldb.Parser.{stuck, Parser}
use xxldb.Parser.Expressions.{or_expr}
use xxldb.Parser.Query.{select_expr}
use xxldb.Parser.Syntax.{Text, Expression, Select}

-- Two calls for each token, and two more.
abbrev pub fuel_for : List Token → ℕ
fuel_for ts = suc (length ts) + suc (length ts)

module _ (parse_float : Text → Option ℕ) where
  -- Both parsers on fuel for the depth of their calls.
  unfoldable pub grammar : ℕ → Parser Expression × Parser Select
  grammar zero = ((λ ts. stuck), (λ ts. stuck))
  grammar (suc fuel) =
      let inner = grammar fuel in (or_expr parse_float inner.0 inner.1, select_expr inner.0 inner.1)

  unfoldable pub parse_expression : Parser Expression
  parse_expression ts = (grammar (fuel_for ts)).0 ts

  unfoldable pub parse_select : Parser Select
  parse_select ts = (grammar (fuel_for ts)).1 ts
