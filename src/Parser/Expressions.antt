-- ===== src/Parser/Expressions.antt =====
-- parser/parser.go, from parseExpression on: the grammar of expressions. The nested expressions and
-- SELECTs are read by `expression` and `select_of`; ParseFloat is an argument.
use xxldb.Base.{
  ℕ, zero, suc, ◌+◌, ◌-◌, ◌*◌, ◌^◌, Bool, true, false, ◌&&◌, ◌||◌, Option, none, some, List, [],
  ◌∷◌, ◌==◌, leb, ltb, if◌then◌else◌, length,
}
use xxldb.Base.Loop.{Round, done, more}
use xxldb.Base.Text.{codes, to_upper}
use xxldb.Lexer.{Token, ident, number, string, keyword, operator, comma, lparen, rparen, dot, star}
use xxldb.Parser.{
  message, unexpected, stuck, Parser, ◌>>=◌, pure, fail, choose, current, matches, matches_one,
  when, when_one, when_keyword, look, expect, expect_keyword, repeat,
}
use xxldb.Parser.Syntax.{
  Text, null_value, bool_value, int_value, float_value, string_value, Expression, literal, column,
  function, unary, binary, case_of, in_list, in_select, between, exists, subquery, star_of,
  match_against, MaybeExpression, absent, present, Expressions, no_expression, next_expression,
  Whens, no_when, Select, append_expression, append_when,
}

unfoldable pub contains : ℕ → Text → Bool
contains b [] = false
contains b (x ∷ xs) = x == b || contains b xs

abbrev pub is_float : Text → Bool
is_float value = contains b'.' value || contains b'E' (to_upper value)

-- strconv.ParseInt on an unsigned numeral.
unfoldable pub digits_value : ℕ → Text → Option ℕ
digits_value n [] = some n
digits_value n (x ∷ xs) =
    let rest = digits_value (n * 10 + (x - b'0')) xs in
    if leb b'0' x && leb x b'9' then rest else none

unfoldable pub in_int64 : Option ℕ → Option ℕ
in_int64 none = none
in_int64 (some n) = if ltb n (2 ^ 63) then some n else none

unfoldable pub parse_int : Text → Option ℕ
parse_int [] = none
parse_int (x ∷ xs) = in_int64 (digits_value 0 (x ∷ xs))

abbrev pub null_literal : Expression
null_literal = literal null_value

-- LEVEL n of MATCH, where 0 is all levels.
unfoldable pub level_of : Option ℕ → ℕ
level_of none = 0
level_of (some n) = if leb 1 n && leb n 3 then n else 0

unfoldable pub match_mode : Parser Text
match_mode =
    when_keyword (codes "WITH")
      (when_keyword (codes "QUERY")
        (expect_keyword (codes "EXPANSION") >>= λ _. pure (codes "QUERY EXPANSION"))
        (when_keyword (codes "BOOLEAN")
          (expect_keyword (codes "MODE") >>= λ _. pure (codes "BOOLEAN")) (pure [])))
      (pure [])

unfoldable pub match_level : Parser ℕ
match_level =
    when_keyword (codes "LEVEL")
      (when number (λ t. pure (level_of (parse_int t.value)))
        (fail (message (codes "expected level number after LEVEL"))))
      (pure 0)

unfoldable pub match_query : Text → Parser Expression
match_query name =
    when string
      (λ t. do
        mode ← match_mode
        level ← match_level
        u ← expect rparen
        pure (match_against name t.value mode level))
      (fail (message (codes "expected search query string")))

unfoldable pub match_column : Text → Parser Expression
match_column name = do
  u ← expect rparen
  when_keyword (codes "AGAINST") (expect lparen >>= λ _. match_query name)
      (fail (message (codes "expected AGAINST after MATCH(column)")))

-- What stands behind MATCH.
unfoldable pub match_against_expr : Parser Expression
match_against_expr =
    when lparen
      (λ _.
        when ident (λ t. match_column t.value)
          (fail (message (codes "expected column name in MATCH"))))
      (fail (message (codes "expected ( after MATCH")))

unfoldable pub qualified : Text → Parser Expression
qualified name =
    when ident (λ t. pure (column name t.value))
      (when keyword (λ t. pure (column name t.value))
        (fail (message (codes "expected column name after '.'"))))

-- One round of a list with commas.
unfoldable pub comma_round : {A : Type 0} → A → Parser (Round A A)
comma_round found = when comma (λ _. pure (more found)) (pure (done found))

-- A left operand with the operators of one level behind it.
unfoldable pub operator_round :
    List Text → Parser Expression → Expression → Parser (Round Expression Expression)
operator_round ops operand left =
    when_one operator ops (λ t. operand >>= λ right. pure (more (binary left t.value right)))
      (pure (done left))

unfoldable pub keyword_round :
    Text → Parser Expression → Expression → Parser (Round Expression Expression)
keyword_round word operand left =
    when_keyword word (operand >>= λ right. pure (more (binary left word right))) (pure (done left))

unfoldable pub null_test : Expression → Parser Expression
null_test left =
    when_keyword (codes "NOT")
      (when_keyword (codes "NULL") (pure (binary left (codes "IS NOT") null_literal))
        (fail (message (codes "expected NULL after IS NOT"))))
      (when_keyword (codes "NULL") (pure (binary left (codes "IS") null_literal))
        (fail (message (codes "expected NULL after IS"))))

unfoldable pub comparison_operators : List Text
comparison_operators =
    codes "=" ∷ codes "<" ∷ codes ">" ∷ codes "<=" ∷ codes ">=" ∷ codes "<>" ∷ codes "!=" ∷ []

unfoldable pub float_literal : Option ℕ → Parser Expression
float_literal none = fail (message (codes "invalid number"))
float_literal (some f) = pure (literal (float_value f))

module _ (parse_float : Text → Option ℕ) where
  unfoldable pub int_literal : Text → Option ℕ → Parser Expression
  int_literal value none = float_literal (parse_float value)
  int_literal value (some n) = pure (literal (int_value n))

  unfoldable pub number_literal : Text → Parser Expression
  number_literal value = int_literal value (if is_float value then none else parse_int value)

module _ (expression : Parser Expression) where
  unfoldable pub argument : Parser Expression
  argument =
      when_keyword (codes "DISTINCT") (expression >>= λ e. pure (unary (codes "DISTINCT") e))
        expression

  unfoldable pub argument_round : Expressions → Parser (Round Expressions Expressions)
  argument_round es = argument >>= λ e. comma_round (append_expression es e)

  unfoldable pub arguments : Parser Expressions
  arguments =
      when star (λ _. pure (next_expression (star_of []) no_expression))
        (look λ ts.
          choose (matches rparen ts) (pure no_expression) (repeat argument_round no_expression))

  unfoldable pub ident_or_function : Token → Parser Expression
  ident_or_function t =
      when lparen
        (λ _. do args ← arguments; u ← expect rparen; pure (function (to_upper t.value) args))
        (when dot (λ _. qualified t.value) (pure (column [] t.value)))

  unfoldable pub case_operand : Parser MaybeExpression
  case_operand = look λ ts.
      choose (matches_one keyword (codes "WHEN" ∷ []) ts) (pure absent)
        (expression >>= λ e. pure (present e))

  unfoldable pub when_round : Whens → Parser (Round Whens Whens)
  when_round ws =
      when_keyword (codes "WHEN")
        (do
          condition ← expression
          u ← expect_keyword (codes "THEN")
          result ← expression
          pure (more (append_when ws condition result)))
        (pure (done ws))

  unfoldable pub optional_expression : Text → Parser MaybeExpression
  optional_expression word = when_keyword word (expression >>= λ e. pure (present e)) (pure absent)

  unfoldable pub case_expr : Parser Expression
  case_expr = do
    operand ← case_operand
    whens ← repeat when_round no_when
    otherwise ← optional_expression (codes "ELSE")
    u ← expect_keyword (codes "END")
    pure (case_of operand whens otherwise)

  unfoldable pub item_round : Expressions → Parser (Round Expressions Expressions)
  item_round es = expression >>= λ e. comma_round (append_expression es e)

module _ (select_of : Parser Select) where
  unfoldable pub closed_select : (Select → Expression) → Parser Expression
  closed_select make = do s ← select_of; u ← expect rparen; pure (make s)

  unfoldable pub exists_expr : Parser Expression
  exists_expr = expect lparen >>= λ _. closed_select exists

module _ (expression : Parser Expression) (select_of : Parser Select) where
  -- What stands behind an opening parenthesis.
  unfoldable pub paren_expr : Parser Expression
  paren_expr = look λ ts.
      choose (matches_one keyword (codes "SELECT" ∷ []) ts) (closed_select select_of subquery)
        (do e ← expression; u ← expect rparen; pure e)

  unfoldable pub in_items : Expression → Parser Expression
  in_items left = look λ ts.
      choose (matches_one keyword (codes "SELECT" ∷ []) ts)
        (closed_select select_of (in_select left))
        (do
          items ← repeat (item_round expression) no_expression
          u ← expect rparen
          pure (in_list left items))

  unfoldable pub in_expr : Expression → Parser Expression
  in_expr left = expect lparen >>= λ _. in_items left

  unfoldable pub keyword_expr : Parser Expression → Parser Expression
  keyword_expr other = when_keyword (codes "NULL") (pure null_literal) (
      when_keyword (codes "TRUE") (pure (literal (bool_value true))) (
        when_keyword (codes "FALSE") (pure (literal (bool_value false))) (
          when_keyword (codes "CASE") (case_expr expression) (
            when_keyword (codes "EXISTS") (exists_expr select_of) (
              when_keyword (codes "MATCH") match_against_expr
                (when keyword (ident_or_function expression) other))))))

module _ (parse_float : Text → Option ℕ) (expression : Parser Expression)
    (select_of : Parser Select) where
  unfoldable pub primary : Parser Expression
  primary =
      when number (λ t. number_literal parse_float t.value)
        (when string (λ t. pure (literal (string_value t.value)))
          (keyword_expr expression select_of (
            when ident (ident_or_function expression) (
              when lparen (λ _. paren_expr expression select_of)
                (when star (λ _. pure (star_of []))
                  (look λ ts. fail (unexpected (codes "unexpected token") (current ts))))))))

  unfoldable pub unary_of : ℕ → Parser Expression
  unary_of zero = λ ts. stuck
  unary_of (suc fuel) =
      when_one operator (codes "+" ∷ codes "-" ∷ [])
        (λ t. unary_of fuel >>= λ right. pure (unary t.value right)) primary

  unfoldable pub unary_expr : Parser Expression
  unary_expr ts = unary_of (suc (length ts)) ts

  unfoldable pub multiplicative : Parser Expression
  multiplicative =
      unary_expr >>= repeat (operator_round (codes "*" ∷ codes "/" ∷ codes "%" ∷ []) unary_expr)

  unfoldable pub additive : Parser Expression
  additive =
      multiplicative
      >>= repeat (operator_round (codes "+" ∷ codes "-" ∷ codes "||" ∷ []) multiplicative)

  unfoldable pub between_expr : Expression → Parser Expression
  between_expr left = do
    low ← additive
    u ← expect_keyword (codes "AND")
    high ← additive
    pure (between left low high)

  unfoldable pub comparison_rest : Expression → Parser Expression
  comparison_rest left =
      when_one operator comparison_operators
        (λ t. additive >>= λ right. pure (binary left t.value right))
        (when_keyword (codes "IS") (null_test left) (
          when_keyword (codes "IN") (in_expr expression select_of left) (
            when_keyword (codes "BETWEEN") (between_expr left) (
              when_keyword (codes "LIKE")
                (additive >>= λ right. pure (binary left (codes "LIKE") right)) (pure left)))))

  unfoldable pub comparison : Parser Expression
  comparison = additive >>= comparison_rest

  unfoldable pub not_expr : Parser Expression
  not_expr =
      when_keyword (codes "NOT") (comparison >>= λ right. pure (unary (codes "NOT") right))
        comparison

  unfoldable pub and_expr : Parser Expression
  and_expr = not_expr >>= repeat (keyword_round (codes "AND") not_expr)

  unfoldable pub or_expr : Parser Expression
  or_expr = and_expr >>= repeat (keyword_round (codes "OR") and_expr)
