-- ===== src/Parser/Constraints.antt =====
-- parser/parser_dml.go: constraints.
use xxldb.Base.{List, []}
use xxldb.Base.Text.{codes}
use xxldb.Lexer.{lparen, rparen}
use xxldb.Parser.{Parser, ◌>>=◌, pure, when_keyword, expect, expect_keyword}
use xxldb.Parser.Syntax.{Text, Expression, MaybeExpression, absent, present}
use xxldb.Parser.Definitions.{name_of, named, names_in_parens, column_list}

pub record Constraint : Type 0 where
  pub name : Text
  pub type : Text
  pub columns : List Text
  pub ref_table : Text
  pub ref_columns : List Text
  pub expr : MaybeExpression

unfoldable pub constraint_name : Parser Text
constraint_name =
    when_keyword (codes "CONSTRAINT") (name_of (codes "expected constraint name")) (pure [])

unfoldable pub primary_key_of : Text → Parser Constraint
primary_key_of name = do
  u ← expect_keyword (codes "KEY")
  columns ← names_in_parens
  pure (record {
    name = name;
    type = codes "PRIMARY KEY";
    columns = columns;
    ref_table = [];
    ref_columns = [];
    expr = absent;
  })

unfoldable pub foreign_key_of : Text → Parser Constraint
foreign_key_of name = do
  u ← expect_keyword (codes "KEY")
  columns ← names_in_parens
  v ← expect_keyword (codes "REFERENCES")
  table ← named (codes "expected table name")
  others ← column_list
  pure (record {
    name = name;
    type = codes "FOREIGN KEY";
    columns = columns;
    ref_table = table;
    ref_columns = others;
    expr = absent;
  })

unfoldable pub unique_of : Text → Parser Constraint
unique_of name = do
  columns ← column_list
  pure (record {
    name = name;
    type = codes "UNIQUE";
    columns = columns;
    ref_table = [];
    ref_columns = [];
    expr = absent;
  })

module _ (expression : Parser Expression) where
  unfoldable pub check_of : Text → Parser Constraint
  check_of name = do
    u ← expect lparen
    e ← expression
    v ← expect rparen
    pure (record {
      name = name;
      type = codes "CHECK";
      columns = [];
      ref_table = [];
      ref_columns = [];
      expr = present e;
    })

  -- A name without a constraint is no error.
  unfoldable pub parse_constraint : Parser Constraint
  parse_constraint = constraint_name >>= λ name.
      when_keyword (codes "PRIMARY") (primary_key_of name) (
        when_keyword (codes "FOREIGN") (foreign_key_of name) (
          when_keyword (codes "UNIQUE") (unique_of name) (
            when_keyword (codes "CHECK") (check_of name) (
              pure (record {
                name = name;
                type = [];
                columns = [];
                ref_table = [];
                ref_columns = [];
                expr = absent;
              })))))
