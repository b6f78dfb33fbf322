-- ===== src/Parser/Fine/Operands.antt =====
-- parser/parser.go: the operands of expressions end, and only go forward.
use xxldb.Base.{ℕ, Option, none, some}
use xxldb.Lexer.{Token}
use xxldb.Parser.{Parser}
use xxldb.Parser.Fine.{Under, Rounds}
use xxldb.Parser.Fine.Steps.{weak}
use xxldb.Parser.Syntax.{Text, Expression, Expressions, Whens, Select}
use xxldb.Parser.Expressions.{
  match_mode, match_level, match_query, match_column, match_against_expr, qualified, float_literal,
  int_literal, number_literal, argument, argument_round, arguments, ident_or_function, case_operand,
  when_round, optional_expression, case_expr, item_round, closed_select, exists_expr, paren_expr,
  in_items, in_expr,
}

module _ (n : ℕ) where
  match_mode-Under : Under n match_mode
  unfolding match_mode
  match_mode-Under = search weak

  match_level-Under : Under n match_level
  unfolding match_level
  match_level-Under = search weak

  match_query-Under : (name : Text) → Under n (match_query name)
  unfolding match_query
  match_query-Under name = search (weak, match_mode-Under, match_level-Under)

  match_column-Under : (name : Text) → Under n (match_column name)
  unfolding match_column
  match_column-Under name = search (weak, match_query-Under)

  pub match_against_expr-Under : Under n match_against_expr
  unfolding match_against_expr
  match_against_expr-Under = search (weak, match_column-Under)

  qualified-Under : (name : Text) → Under n (qualified name)
  unfolding qualified
  qualified-Under name = search weak

  float_literal-Under : (f : Option ℕ) → Under n (float_literal f)
  unfolding float_literal
  float_literal-Under none = search weak
  float_literal-Under (some f) = search weak

  int_literal-Under :
      (parse_float : Text → Option ℕ) (value : Text) (i : Option ℕ)
      → Under n (int_literal parse_float value i)
  unfolding int_literal
  int_literal-Under parse_float value none = float_literal-Under (parse_float value)
  int_literal-Under parse_float value (some i) = search weak

  pub number_literal-Under :
      (parse_float : Text → Option ℕ) (value : Text) → Under n (number_literal parse_float value)
  unfolding number_literal
  number_literal-Under parse_float value = int_literal-Under parse_float value _

module _ (n : ℕ) (expression : Parser Expression) (e : Under n expression) where
  argument-Under : Under n (argument expression)
  unfolding argument
  argument-Under = search (weak, e)

  argument_round-Rounds : (es : Expressions) → Rounds n (argument_round expression es)
  unfolding argument_round
  argument_round-Rounds es = search (weak, argument-Under)

  arguments-Under : Under n (arguments expression)
  unfolding arguments
  arguments-Under = search (weak, argument_round-Rounds)

  pub ident_or_function-Under : (t : Token) → Under n (ident_or_function expression t)
  unfolding ident_or_function
  ident_or_function-Under t = search (weak, arguments-Under, qualified-Under)

  case_operand-Under : Under n (case_operand expression)
  unfolding case_operand
  case_operand-Under = search (weak, e)

  when_round-Rounds : (ws : Whens) → Rounds n (when_round expression ws)
  unfolding when_round
  when_round-Rounds ws = search (weak, e)

  pub optional_expression-Under : (word : Text) → Under n (optional_expression expression word)
  unfolding optional_expression
  optional_expression-Under word = search (weak, e)

  pub case_expr-Under : Under n (case_expr expression)
  unfolding case_expr
  case_expr-Under = search (weak, case_operand-Under, when_round-Rounds, optional_expression-Under)

  pub item_round-Rounds : (es : Expressions) → Rounds n (item_round expression es)
  unfolding item_round
  item_round-Rounds es = search (weak, e)

module _ (n : ℕ) (select_of : Parser Select) (s : Under n select_of) where
  closed_select-Under : (make : Select → Expression) → Under n (closed_select select_of make)
  unfolding closed_select
  closed_select-Under make = search (weak, s)

  pub exists_expr-Under : Under n (exists_expr select_of)
  unfolding exists_expr
  exists_expr-Under = search (weak, closed_select-Under)

module _ (n : ℕ) (expression : Parser Expression) (select_of : Parser Select)
    (e : Under n expression) (s : Under n select_of) where
  pub paren_expr-Under : Under n (paren_expr expression select_of)
  unfolding paren_expr
  paren_expr-Under = search (weak, e, closed_select-Under)

  in_items-Under : (left : Expression) → Under n (in_items expression select_of left)
  unfolding in_items
  in_items-Under left = search (weak, item_round-Rounds, closed_select-Under)

  pub in_expr-Under : (left : Expression) → Under n (in_expr expression select_of left)
  unfolding in_expr
  in_expr-Under left = search (weak, in_items-Under)
