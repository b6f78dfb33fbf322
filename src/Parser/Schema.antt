-- ===== src/Parser/Schema.antt =====
-- parser/parser_dml.go: CREATE TABLE, CREATE INDEX, CREATE FULLTEXT INDEX and ALTER TABLE.
use xxldb.Base.{
  Bool, true, false, ◌&&◌, ◌||◌, Option, none, some, List, [], ◌∷◌, ◌++◌, if◌then◌else◌,
}
use xxldb.Base.Loop.{Round, done, more}
use xxldb.Base.Text.{codes, same_bytes, to_upper}
use xxldb.Lexer.{eof, ident, number, string, keyword, operator, comma, lparen, rparen}
use xxldb.Parser.{
  unexpected, Parser, ◌>>=◌, pure, fail, choose, current, matches, matches_one, when, when_one,
  when_keyword, skip, look, expect, expect_keyword, repeat,
}
use xxldb.Parser.Expressions.{comma_round}
use xxldb.Parser.Query.{taken}
use xxldb.Parser.Syntax.{Text, Expression}
use xxldb.Parser.Definitions.{
  ColumnDefinition, expected, name_of, named, names_in_parens, parse_column_def,
}
use xxldb.Parser.Constraints.{Constraint, parse_constraint}
use xxldb.Parser.Statements.{
  SqlStatement, create_table, create_index, alter_table, if_not_exists, AlterAction, Options,
}

abbrev constraint_words : List Text
constraint_words =
    codes "PRIMARY" ∷ codes "FOREIGN" ∷ codes "UNIQUE" ∷ codes "CHECK" ∷ codes "CONSTRAINT" ∷ []

abbrev pub Parts : Type 0
Parts = List ColumnDefinition × List Constraint

unfoldable pub column_action : Text → Option ColumnDefinition → AlterAction
column_action type c = record { type = type; column = []; column_def = c; new_name = [] }

unfoldable pub drop_action : Parser AlterAction
drop_action = do
  u ← taken (codes "COLUMN")
  name ← name_of (codes "expected column name")
  pure (record { type = codes "DROP"; column = name; column_def = none; new_name = [] })

unfoldable pub rename_column : Parser AlterAction
rename_column = do
  name ← name_of (codes "expected column name")
  u ← expect_keyword (codes "TO")
  renamed ← name_of (codes "expected new column name")
  pure (record { type = codes "RENAME"; column = name; column_def = none; new_name = renamed })

unfoldable pub rename_action : Parser AlterAction
rename_action = when_keyword (codes "COLUMN") rename_column (
    when_keyword (codes "TO")
      (name_of (codes "expected new table name") >>= λ renamed.
        pure (record { type = codes "RENAME"; column = []; column_def = none; new_name = renamed }))
      (pure (column_action (codes "RENAME") none)))

-- What USING may name.
unfoldable pub uses_full_text : Parser Bool
uses_full_text =
    when_keyword (codes "USING")
      (when_one keyword (codes "FTS" ∷ codes "FULLTEXT" ∷ []) (λ _. pure true)
        (when_one ident (codes "FTS" ∷ codes "FULLTEXT" ∷ []) (λ _. pure true)
          (expected (codes "expected FTS or FULLTEXT after USING"))))
      (pure false)

unfoldable pub parse_create_index : Parser SqlStatement
parse_create_index = do
  unique ← taken (codes "UNIQUE")
  u ← expect_keyword (codes "INDEX")
  name ← name_of (codes "expected index name")
  v ← expect_keyword (codes "ON")
  table ← named (codes "expected table name")
  columns ← names_in_parens
  full_text ← uses_full_text
  pure (create_index name unique full_text table columns [])

unfoldable pub option_value : Parser Text
option_value =
    when string (λ t. pure t.value)
      (when number (λ t. pure t.value)
        (when ident (λ t. pure t.value) (expected (codes "expected option value"))))

unfoldable pub set_option : Options → Text → Text → Options
set_option [] key value = (key, value) ∷ []
set_option (o ∷ os) key value =
    let rest = set_option os key value in if same_bytes o.0 key then (key, value) ∷ os else o ∷ rest

-- What stands behind the option's name.
unfoldable pub named_option : Options → Text → Parser Options
named_option options name = look λ ts.
    choose (matches operator ts && same_bytes (current ts).value (codes "="))
      (skip λ _. option_value >>= λ value. pure (set_option options (to_upper name) value))
      (expected (codes "expected = after option name"))

unfoldable pub option_round : Options → Parser (Round Options Options)
option_round options = look λ ts.
    choose (matches rparen ts || matches eof ts) (pure (done options)) (
      when ident
        (λ t.
          named_option options t.value >>= λ os. when comma (λ _. pure (more os)) (pure (more os)))
        (look λ us. fail (unexpected (codes "expected option name") (current us))))

unfoldable pub parse_fts_options : Parser Options
parse_fts_options = skip λ _.
    when lparen (λ _. do options ← repeat option_round []; u ← expect rparen; pure options)
      (when ident (λ t. named_option [] t.value) (expected (codes "expected option name")))

unfoldable pub fts_options : Parser Options
fts_options =
    look λ ts. choose (matches_one keyword (codes "WITH" ∷ []) ts) parse_fts_options (pure [])

unfoldable pub parse_create_full_text_index : Parser SqlStatement
parse_create_full_text_index = skip λ _. do
  u ← expect_keyword (codes "INDEX")
  name ← when ident (λ t. pure t.value) (pure [])
  v ← expect_keyword (codes "ON")
  table ← named (codes "expected table name")
  w ← expect lparen
  column ← name_of (codes "expected column name")
  x ← expect rparen
  options ← fts_options
  pure (create_index name false true table (column ∷ []) options)

module _ (expression : Parser Expression) where
  unfoldable pub part : Parts → Parser (Round Parts Parts)
  part parts = look λ ts.
      choose (matches_one keyword constraint_words ts)
        (parse_constraint expression >>= λ c. comma_round (parts.0, parts.1 ++ (c ∷ [])))
        (parse_column_def expression >>= λ c. comma_round (parts.0 ++ (c ∷ []), parts.1))

  unfoldable pub part_round : Parts → Parser (Round Parts Parts)
  part_round parts = look λ ts. choose (matches rparen ts) (pure (done parts)) (part parts)

  unfoldable pub parse_create_table : Parser SqlStatement
  parse_create_table = skip λ _. do
    b ← if_not_exists
    table ← named (codes "expected table name")
    u ← expect lparen
    parts ← repeat part_round ([], [])
    v ← expect rparen
    pure (create_table b table parts.0 parts.1)

  -- A constraint is read and left out.
  unfoldable pub add_action : Parser AlterAction
  add_action =
      when_keyword (codes "COLUMN")
        (parse_column_def expression >>= λ c. pure (column_action (codes "ADD") (some c)))
        (look λ ts.
          choose (matches_one keyword constraint_words ts)
            (parse_constraint expression >>= λ _. pure (column_action (codes "ADD") none))
            (parse_column_def expression >>= λ c. pure (column_action (codes "ADD") (some c))))

  unfoldable pub modify_action : Parser AlterAction
  modify_action = do
    u ← taken (codes "COLUMN")
    c ← parse_column_def expression
    pure (column_action (codes "MODIFY") (some c))

  unfoldable pub action_round :
      List AlterAction → Parser (Round (List AlterAction) (List AlterAction))
  action_round actions =
      when_keyword (codes "ADD") (add_action >>= λ a. comma_round (actions ++ (a ∷ []))) (
        when_keyword (codes "DROP") (drop_action >>= λ a. comma_round (actions ++ (a ∷ []))) (
          when_one keyword (codes "MODIFY" ∷ codes "ALTER" ∷ [])
            (λ _. modify_action >>= λ a. comma_round (actions ++ (a ∷ [])))
            (when_keyword (codes "RENAME")
              (rename_action >>= λ a. comma_round (actions ++ (a ∷ []))) (pure (done actions)))))

  unfoldable pub parse_alter : Parser SqlStatement
  parse_alter = skip λ _. do
    u ← expect_keyword (codes "TABLE")
    table ← named (codes "expected table name")
    actions ← repeat action_round []
    pure (alter_table table actions)
