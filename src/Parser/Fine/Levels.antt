-- ===== src/Parser/Fine/Levels.antt =====
-- parser/parser.go: the levels of the expression grammar end, and only go forward, where the nested
-- expressions and SELECTs do so on fewer tokens.
use xxldb.Base.{◌≤◌, ℕ, zero, suc, Option, List, length, arith}
use xxldb.Lexer.{operator}
use xxldb.Parser.{Parser}
use xxldb.Parser.Fine.{
  Under, Under-le, Rounds, Under-bind, Under-pure, Under-look, Under-fail, Under-suc, Under-when,
  Under-when_one,
}
use xxldb.Parser.Fine.Steps.{
  weak, keyword_real, operator_real, real_number, real_string, real_ident, real_lparen, real_star,
}
use xxldb.Parser.Fine.Operands.{
  match_against_expr-Under, number_literal-Under, ident_or_function-Under, case_expr-Under,
  exists_expr-Under, paren_expr-Under, in_expr-Under,
}
use xxldb.Parser.Syntax.{Text, Expression, Select}
use xxldb.Parser.Expressions.{
  operator_round, keyword_round, keyword_expr, primary, unary_of, unary_expr, multiplicative,
  additive, null_test, between_expr, comparison_rest, comparison, not_expr, and_expr, or_expr,
}

-- One operator of a level.
operator_round-Rounds :
    (n : ℕ) (ops : List Text) (operand : Parser Expression) (left : Expression)
    → Under n operand
    → Rounds n (operator_round ops operand left)
unfolding operator_round
operator_round-Rounds n ops operand left h = search (weak, h)

keyword_round-Rounds :
    (n : ℕ) (word : Text) (operand : Parser Expression) (left : Expression)
    → Under n operand
    → Rounds n (keyword_round word operand left)
unfolding keyword_round
keyword_round-Rounds n word operand left h = search (weak, h)

Under-zero : (p : Parser Expression) → Under 0 p
unfolding Under
Under-zero p ts h = absurd (omega (arith, h))

module _ (parse_float : Text → Option ℕ) (n : ℕ) (expression : Parser Expression)
    (select_of : Parser Select) (e : Under n expression) (s : Under n select_of) where
  keyword_expr-Under :
      (other : Parser Expression)
      → Under (suc n) other
      → Under (suc n) (keyword_expr expression select_of other)
  unfolding keyword_expr
  keyword_expr-Under other h =
      search
        (
          Under-when, Under-when_one, Under-pure, keyword_real, case_expr-Under, exists_expr-Under,
          match_against_expr-Under, ident_or_function-Under, e, s, h,
        )
        depth 14

  primary-Under : Under (suc n) (primary parse_float expression select_of)
  unfolding primary
  primary-Under =
      search
        (
          Under-when, Under-pure, Under-look, Under-fail, real_number, real_string, real_ident,
          real_lparen, real_star, number_literal-Under, keyword_expr-Under, ident_or_function-Under,
          paren_expr-Under, e, s,
        )
        depth 14

  unary_of-Under :
      (fuel m : ℕ) → m ≤ fuel → m ≤ suc n → Under m (unary_of parse_float expression select_of fuel)
  unfolding unary_of
  unary_of-Under fuel zero f h = Under-zero _
  unary_of-Under zero (suc m) f h = absurd (omega (arith, f))
  unary_of-Under (suc fuel) (suc m) f h =
      Under-when_one m operator _ _ _ operator_real
        (λ t.
          Under-bind m _ _ (unary_of-Under fuel m (omega (arith, f)) (omega (arith, h)))
            (λ r. Under-pure m _))
        (Under-le (suc n) (suc m) _ h primary-Under)

  pub unary_expr-Under : Under (suc n) (unary_expr parse_float expression select_of)
  unfolding unary_expr Under
  unary_expr-Under ts h =
      unary_of-Under (suc (length ts)) (suc (length ts)) (omega arith) (omega (arith, h)) ts
        (omega arith)

  pub multiplicative-Under : Under (suc n) (multiplicative parse_float expression select_of)
  unfolding multiplicative
  multiplicative-Under = search (weak, unary_expr-Under, operator_round-Rounds)

  additive-Under : Under (suc n) (additive parse_float expression select_of)
  unfolding additive
  additive-Under = search (weak, multiplicative-Under, operator_round-Rounds)

  null_test-Under : (left : Expression) → Under n (null_test left)
  unfolding null_test
  null_test-Under left = search weak

  between_expr-Under :
      (left : Expression) → Under (suc n) (between_expr parse_float expression select_of left)
  unfolding between_expr
  between_expr-Under left = search (weak, additive-Under)

  comparison_rest-Under :
      (left : Expression) → Under (suc n) (comparison_rest parse_float expression select_of left)
  unfolding comparison_rest
  comparison_rest-Under left =
      let additive_n = Under-suc n _ additive-Under in
      let between_n = Under-suc n _ (between_expr-Under left) in
      search
        (
          Under-when_one, Under-bind, Under-pure, keyword_real, operator_real, additive_n,
          between_n, null_test-Under, in_expr-Under, e, s,
        )
        depth 14

  comparison-Under : Under (suc n) (comparison parse_float expression select_of)
  unfolding comparison
  comparison-Under = search (weak, additive-Under, comparison_rest-Under)

  pub not_expr-Under : Under (suc n) (not_expr parse_float expression select_of)
  unfolding not_expr
  not_expr-Under = search (weak, comparison-Under)

  pub and_expr-Under : Under (suc n) (and_expr parse_float expression select_of)
  unfolding and_expr
  and_expr-Under = search (weak, not_expr-Under, keyword_round-Rounds)

  pub or_expr-Under : Under (suc n) (or_expr parse_float expression select_of)
  unfolding or_expr
  or_expr-Under = search (weak, and_expr-Under, keyword_round-Rounds)
