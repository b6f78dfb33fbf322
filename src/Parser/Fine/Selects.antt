-- ===== src/Parser/Fine/Selects.antt =====
-- parser/parser.go: SELECT and its clauses end, and only go forward, where the expressions do, and the
-- nested SELECTs on fewer tokens.
use xxldb.Base.{ℕ, suc, List}
use xxldb.Base.Text.{codes}
use xxldb.Lexer.{Token}
use xxldb.Parser.{Parser, when_keyword, pure}
use xxldb.Parser.Fine.{Under, Rounds, Under-bind, Under-pure, Under-when_one, Under-skip}
use xxldb.Parser.Fine.Steps.{weak, keyword_real, Under-repeat, Rounds-when_one_strict, Rounds-done}
use xxldb.Parser.Fine.Operands.{optional_expression-Under}
use xxldb.Parser.Syntax.{Text, Expression, no_from, Columns, Joins, Orders, Select}
use xxldb.Parser.Query.{
  taken, plain_alias, column_alias, table_alias, table_name, join_kind, name_round, using_clause,
  group_clause, direction, expression_column, column_item, columns_round, join_table, join_clause,
  join_round, order_round, order_clause, Unions, from_nested, from_named, from_clause, union_round,
  select_body, select_expr,
}

module _ (n : ℕ) where
  pub taken-Under : (word : Text) → Under n (taken word)
  unfolding taken
  taken-Under word = search weak

  plain_alias-Under : Under n plain_alias
  unfolding plain_alias
  plain_alias-Under = search weak

  column_alias-Under : Under n column_alias
  unfolding column_alias
  column_alias-Under = search (weak, plain_alias-Under)

  table_alias-Under : Under n table_alias
  unfolding table_alias
  table_alias-Under = search (weak, taken-Under, plain_alias-Under)

  pub table_name-Under : (name : Text) → Under n (table_name name)
  unfolding table_name
  table_name-Under name = search weak

  join_kind-Under : (word : Text) → Under n (join_kind word)
  unfolding join_kind
  join_kind-Under word = search (weak, taken-Under)

  pub name_round-Rounds : (names : List Text) → Rounds n (name_round names)
  unfolding name_round
  name_round-Rounds names = search weak depth 8

  using_clause-Under : Under n using_clause
  unfolding using_clause
  using_clause-Under = search (weak, name_round-Rounds) depth 10

  group_clause-Under : Under n group_clause
  unfolding group_clause
  group_clause-Under = search (weak, name_round-Rounds) depth 10

  from_named-Under : (t : Token) → Under n (from_named t)
  unfolding from_named
  from_named-Under t = search (weak, table_name-Under, table_alias-Under)

  direction-Under : Under n direction
  unfolding direction
  direction-Under = search weak

module _ (n : ℕ) (expression : Parser Expression) (e : Under n expression) where
  expression_column-Under : Under n (expression_column expression)
  unfolding expression_column
  expression_column-Under = search (weak, e, column_alias-Under)

  column_item-Under : Under n (column_item expression)
  unfolding column_item
  column_item-Under = search (weak, expression_column-Under) depth 10

  columns_round-Rounds : (cs : Columns) → Rounds n (columns_round expression cs)
  unfolding columns_round
  columns_round-Rounds cs = search (weak, column_item-Under)

  join_table-Under : (kind : Text) (t : Token) → Under n (join_table expression kind t)
  unfolding join_table
  join_table-Under kind t =
      search
        (
          weak, table_name-Under, table_alias-Under, optional_expression-Under, using_clause-Under,
          e,
        )
        depth 10

  join_clause-Under : (word : Text) → Under n (join_clause expression word)
  unfolding join_clause
  join_clause-Under word = search (weak, join_kind-Under, join_table-Under)

  join_round-Rounds : (js : Joins) → Rounds n (join_round expression js)
  unfolding join_round
  join_round-Rounds js = search (weak, join_clause-Under)

  order_round-Rounds : (os : Orders) → Rounds n (order_round expression os)
  unfolding order_round
  order_round-Rounds os = search (weak, e, direction-Under)

  order_clause-Under : Under n (order_clause expression)
  unfolding order_clause
  order_clause-Under = search (weak, order_round-Rounds)

module _ (n : ℕ) (select_of : Parser Select) (s : Under n select_of) where
  from_nested-Under : Under n (from_nested select_of)
  unfolding from_nested
  from_nested-Under = search (weak, s, table_alias-Under)

  from_clause-Under : Under n (from_clause select_of)
  unfolding from_clause
  from_clause-Under = search (weak, from_nested-Under, from_named-Under)

  union_round-Rounds : (us : Unions) → Rounds (suc n) (union_round select_of us)
  unfolding union_round
  union_round-Rounds (selects, all) =
      Rounds-when_one_strict n _ _ _ _ keyword_real (λ t. search (weak, taken-Under, s))
        (Rounds-done _ (suc n) (selects, all))

module _ (n : ℕ) (expression : Parser Expression) (select_of : Parser Select)
    (e : Under (suc n) expression) (s : Under n select_of) where
  from_part-Under :
      Under (suc n) (when_keyword (codes "FROM") (from_clause select_of) (pure no_from))
  from_part-Under =
      Under-when_one n _ _ _ _ keyword_real (λ t. from_clause-Under n select_of s)
        (Under-pure (suc n) no_from)

  select_body-Under : Under (suc n) (select_body expression select_of)
  unfolding select_body
  select_body-Under =
      search
        (
          Under-bind, Under-pure, Under-repeat, taken-Under, columns_round-Rounds, from_part-Under,
          join_round-Rounds, optional_expression-Under, group_clause-Under, order_clause-Under,
          union_round-Rounds, e, s,
        )
        depth 30

  pub select_expr-Under : Under (suc n) (select_expr expression select_of)
  unfolding select_expr
  select_expr-Under = Under-skip (suc n) _ (λ t. select_body-Under)
