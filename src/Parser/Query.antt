-- ===== src/Parser/Query.antt =====
-- parser/parser.go, parseSelect and its clauses. The expressions are read by `expression`, the nested
-- SELECTs by `select_of`.
use xxldb.Base.{Bool, true, false, not, ◌&&◌, ◌||◌, List, [], ◌∷◌, ◌++◌}
use xxldb.Base.Loop.{Round, done, more}
use xxldb.Base.Text.{codes, same_bytes, is_one_of, to_upper}
use xxldb.Lexer.{Token, ident, keyword, lparen, rparen, dot, star}
use xxldb.Lexer.Keywords.{keywords}
use xxldb.Parser.{
  unexpected, Parser, ◌>>=◌, pure, fail, choose, current, peek, same_type, matches, when, when_one,
  when_keyword, skip, look, expect, expect_keyword, repeat,
}
use xxldb.Parser.Expressions.{comma_round, optional_expression}
use xxldb.Parser.Syntax.{
  Text, Expression, Columns, no_column, next_star, next_column, From, no_from, from_table,
  from_select, Joins, no_join, next_join, Orders, no_order, Selects, no_select, Select, select,
  append_columns, append_joins, append_order, append_select,
}

-- Whether a keyword is there, which is then taken.
unfoldable pub taken : Text → Parser Bool
taken word = when_keyword word (pure true) (pure false)

unfoldable pub plain_alias : Parser Text
plain_alias = look λ ts.
    choose (matches ident ts && not (is_one_of (to_upper (current ts).value) keywords))
      (skip λ t. pure t.value) (pure [])

unfoldable pub column_alias : Parser Text
column_alias = when_keyword (codes "AS") (when ident (λ t. pure t.value) (pure [])) plain_alias

unfoldable pub table_alias : Parser Text
table_alias = taken (codes "AS") >>= λ _. plain_alias

unfoldable pub is_table_star : List Token → Bool
is_table_star ts =
    matches ident ts && same_type (peek 1 ts).type dot && same_type (peek 2 ts).type star

-- The database and the table, behind the first name.
unfoldable pub table_name : Text → Parser (Text × Text)
table_name name =
    when dot
      (λ _.
        when ident (λ t. pure (name, t.value))
          (when keyword (λ t. pure (name, t.value)) (pure ([], name))))
      (pure ([], name))

-- The kind of a join, behind its first keyword. A JOIN that is missing is no error.
unfoldable pub join_kind : Text → Parser Text
join_kind word = choose (same_bytes word (codes "JOIN")) (pure (codes "INNER")) (
    choose (same_bytes word (codes "INNER") || same_bytes word (codes "CROSS"))
      (taken (codes "JOIN") >>= λ _. pure word)
      (taken (codes "OUTER") >>= λ _. taken (codes "JOIN") >>= λ _. pure word))

unfoldable pub name_round : List Text → Parser (Round (List Text) (List Text))
name_round names =
    when ident (λ t. comma_round (names ++ (t.value ∷ [])))
      (look λ ts. fail (unexpected (codes "expected column name") (current ts)))

unfoldable pub using_clause : Parser (List Text)
using_clause =
    when_keyword (codes "USING")
      (do u ← expect lparen; names ← repeat name_round []; v ← expect rparen; pure names) (pure [])

unfoldable pub group_clause : Parser (List Text)
group_clause =
    when_keyword (codes "GROUP") (expect_keyword (codes "BY") >>= λ _. repeat name_round [])
      (pure [])

unfoldable pub direction : Parser Text
direction =
    when_keyword (codes "ASC") (pure (codes "ASC"))
      (when_keyword (codes "DESC") (pure (codes "DESC")) (pure (codes "ASC")))

module _ (expression : Parser Expression) where
  unfoldable pub expression_column : Parser Columns
  expression_column = do e ← expression; alias ← column_alias; pure (next_column e alias no_column)

  unfoldable pub column_item : Parser Columns
  column_item =
      when star (λ _. pure (next_star [] no_column))
        (look λ ts.
          choose (is_table_star ts)
            (skip λ t. skip λ _. skip λ _. pure (next_star t.value no_column)) expression_column)

  unfoldable pub columns_round : Columns → Parser (Round Columns Columns)
  columns_round cs = column_item >>= λ c. comma_round (append_columns cs c)

  unfoldable pub join_table : Text → Token → Parser Joins
  join_table kind t = do
    name ← table_name t.value
    alias ← table_alias
    on ← optional_expression expression (codes "ON")
    names ← using_clause
    pure (next_join kind name.1 alias on names no_join)

  unfoldable pub join_clause : Text → Parser Joins
  join_clause word = do
    kind ← join_kind word
    when ident (join_table kind)
        (look λ ts. fail (unexpected (codes "expected table name") (current ts)))

  unfoldable pub join_round : Joins → Parser (Round Joins Joins)
  join_round js =
      when_one keyword
        (codes "JOIN" ∷ codes "INNER" ∷ codes "LEFT" ∷ codes "RIGHT" ∷ codes "CROSS" ∷ [])
        (λ t. join_clause (to_upper t.value) >>= λ j. pure (more (append_joins js j)))
        (pure (done js))

  unfoldable pub order_round : Orders → Parser (Round Orders Orders)
  order_round os = do e ← expression; d ← direction; comma_round (append_order os e d)

  unfoldable pub order_clause : Parser Orders
  order_clause =
      when_keyword (codes "ORDER")
        (expect_keyword (codes "BY") >>= λ _. repeat order_round no_order) (pure no_order)

-- The selects of UNION so far, and whether the last of them said ALL.
abbrev pub Unions : Type 0
Unions = Selects × Bool

unfoldable pub from_named : Token → Parser From
from_named t = do
  name ← table_name t.value
  alias ← table_alias
  pure (from_table name.0 name.1 alias)

module _ (select_of : Parser Select) where
  unfoldable pub from_nested : Parser From
  from_nested = do s ← select_of; u ← expect rparen; alias ← table_alias; pure (from_select s alias)

  unfoldable pub from_clause : Parser From
  from_clause =
      when lparen (λ _. from_nested)
        (when ident from_named
          (look λ ts. fail (unexpected (codes "expected table name") (current ts))))

  unfoldable pub union_round : Unions → Parser (Round Unions Unions)
  union_round (selects, all) =
      when_keyword (codes "UNION")
        (taken (codes "ALL") >>= λ a. select_of >>= λ s. pure (more (append_select selects s, a)))
        (pure (done (selects, all)))

module _ (expression : Parser Expression) (select_of : Parser Select) where
  -- What stands behind SELECT.
  unfoldable pub select_body : Parser Select
  select_body = do
    distinct ← taken (codes "DISTINCT")
    columns ← repeat (columns_round expression) no_column
    table ← when_keyword (codes "FROM") (from_clause select_of) (pure no_from)
    joins ← repeat (join_round expression) no_join
    condition ← optional_expression expression (codes "WHERE")
    groups ← group_clause
    having ← optional_expression expression (codes "HAVING")
    order ← order_clause expression
    limit ← optional_expression expression (codes "LIMIT")
    offset ← optional_expression expression (codes "OFFSET")
    unions ← repeat (union_round select_of) (no_select, false)
    pure (
        select distinct columns table joins condition groups having order limit offset unions.0
          unions.1)

  unfoldable pub select_expr : Parser Select
  select_expr = skip λ _. select_body
