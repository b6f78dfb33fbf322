-- ===== src/Parser/Statements.antt =====
-- parser/parser_dml.go: the statements other than SELECT, ALTER, SHOW, CREATE TABLE and CREATE INDEX.
-- Each parser starts at the statement's first keyword.
use xxldb.Base.{Option, Bool, true, false, List, [], ◌∷◌, ◌++◌, if◌then◌else◌}
use xxldb.Base.Loop.{Round}
use xxldb.Base.Text.{codes, same_bytes, to_upper}
use xxldb.Lexer.{ident, string, keyword, operator, lparen, rparen}
use xxldb.Parser.{
  unexpected, message, expected_value, expected_type, matches_one, Parser, ◌>>=◌, pure, fail,
  choose, current, when, when_one, when_keyword, skip, look, expect, expect_keyword, repeat,
}
use xxldb.Parser.Expressions.{comma_round, optional_expression, item_round}
use xxldb.Parser.Query.{taken}
use xxldb.Parser.Constraints.{Constraint}
use xxldb.Parser.Definitions.{ColumnDefinition, named, column_list}
use xxldb.Parser.Syntax.{Text, Expression, MaybeExpression, Expressions, no_expression, Select}

pub data InsertSource : Type 0 where
  rows : List Expressions → InsertSource
  from_query : Select → InsertSource
  default_values : InsertSource

-- The values that UPDATE sets, by column.
abbrev pub Updates : Type 0
Updates = List (Text × Expression)

pub record AlterAction : Type 0 where
  pub type : Text
  pub column : Text
  pub column_def : Option ColumnDefinition
  pub new_name : Text

abbrev pub Options : Type 0
Options = List (Text × Text)

pub data SqlStatement : Type 0 where
  query : Select → SqlStatement
  insert : (table : Text) → (columns : List Text) → InsertSource → SqlStatement
  update : (table : Text) → Updates → (condition limit : MaybeExpression) → SqlStatement
  delete : (table : Text) → (condition limit : MaybeExpression) → SqlStatement
  drop_table : (if_exists : Bool) → (table : Text) → SqlStatement
  drop_index : (name table : Text) → SqlStatement
  drop_database : (if_exists : Bool) → (name : Text) → SqlStatement
  create_database : (if_not_exists : Bool) → (name : Text) → SqlStatement
  create_table :
      (if_not_exists : Bool)
      → (table : Text) → List ColumnDefinition
      → List Constraint
      → SqlStatement
  create_index :
      (name : Text)
      → (unique full_text : Bool) → (table : Text) → (columns : List Text) → Options
      → SqlStatement
  alter_table : (table : Text) → List AlterAction → SqlStatement
  show : (type target pattern : Text) → SqlStatement
  set_variable : (name : Text) → Expression → SqlStatement
  use_database : Text → SqlStatement
  describe : Text → SqlStatement
  backup : (path : Text) → SqlStatement
  restore : (path : Text) → SqlStatement
  begin : SqlStatement
  commit : SqlStatement
  rollback : SqlStatement

unfoldable pub set_update : Updates → Text → Expression → Updates
set_update [] name e = (name, e) ∷ []
set_update (u ∷ us) name e =
    let rest = set_update us name e in if same_bytes u.0 name then (name, e) ∷ us else u ∷ rest

unfoldable pub expect_equals : Parser (Unit {0})
expect_equals =
    when operator
      (λ t.
        choose (same_bytes (to_upper t.value) (codes "=")) (pure tt)
          (fail (expected_value (codes "=") t.value)))
      (look λ ts. fail (expected_type operator (current ts).type))

unfoldable pub if_exists : Parser Bool
if_exists =
    when_keyword (codes "IF") (expect_keyword (codes "EXISTS") >>= λ _. pure true) (pure false)

unfoldable pub if_not_exists : Parser Bool
if_not_exists =
    when_keyword (codes "IF")
      (expect_keyword (codes "NOT") >>= λ _. expect_keyword (codes "EXISTS") >>= λ _. pure true)
      (pure false)

unfoldable pub parse_drop_table : Parser SqlStatement
parse_drop_table =
    if_exists >>= λ b. named (codes "expected table name") >>= λ n. pure (drop_table b n)

unfoldable pub parse_drop_database : Parser SqlStatement
parse_drop_database =
    if_exists >>= λ b. named (codes "expected database name") >>= λ n. pure (drop_database b n)

unfoldable pub parse_create_database : Parser SqlStatement
parse_create_database = if_not_exists >>= λ b.
    named (codes "expected database name") >>= λ n. pure (create_database b n)

unfoldable pub on_table : Parser Text
on_table = when_keyword (codes "ON") (named (codes "expected table name")) (pure [])

unfoldable pub parse_drop_index : Parser SqlStatement
parse_drop_index =
    when ident (λ t. on_table >>= λ n. pure (drop_index t.value n))
      (look λ ts. fail (unexpected (codes "expected index name") (current ts)))

unfoldable pub parse_drop : Parser SqlStatement
parse_drop = skip λ _. when_keyword (codes "TABLE") parse_drop_table (
    when_keyword (codes "INDEX") parse_drop_index (
      when_one keyword (codes "DATABASE" ∷ codes "SCHEMA" ∷ []) (λ _. parse_drop_database)
        (look λ ts. fail (message (codes "unsupported DROP statement: " ++ (current ts).value)))))

unfoldable pub parse_use : Parser SqlStatement
parse_use = skip λ _. named (codes "expected database name") >>= λ n. pure (use_database n)

unfoldable pub parse_describe : Parser SqlStatement
parse_describe = skip λ _. named (codes "expected table name") >>= λ n. pure (describe n)

unfoldable pub file_path : Parser Text
file_path =
    when string (λ t. pure t.value)
      (when ident (λ t. pure t.value)
        (look λ ts. fail (unexpected (codes "expected file path") (current ts))))

unfoldable pub parse_backup : Parser SqlStatement
parse_backup = skip λ _. taken (codes "TO") >>= λ _. file_path >>= λ path. pure (backup path)

unfoldable pub parse_restore : Parser SqlStatement
parse_restore = skip λ _. taken (codes "FROM") >>= λ _. file_path >>= λ path. pure (restore path)

unfoldable pub parse_begin : Parser SqlStatement
parse_begin = skip λ _. taken (codes "TRANSACTION") >>= λ _. pure begin

unfoldable pub parse_start_transaction : Parser SqlStatement
parse_start_transaction = skip λ _. expect_keyword (codes "TRANSACTION") >>= λ _. pure begin

unfoldable pub parse_commit : Parser SqlStatement
parse_commit = skip λ _. taken (codes "TRANSACTION") >>= λ _. pure commit

unfoldable pub parse_rollback : Parser SqlStatement
parse_rollback = skip λ _. taken (codes "TRANSACTION") >>= λ _. pure rollback

-- SET LOG LEVEL sets LOG_LEVEL.
unfoldable pub variable_name : Text → Parser Text
variable_name name =
    choose (same_bytes (to_upper name) (codes "LOG"))
      (when_keyword (codes "LEVEL") (pure (codes "LOG_LEVEL")) (pure name)) (pure name)

module _ (expression : Parser Expression) where
  unfoldable pub row_of_values : Parser Expressions
  row_of_values = do
    u ← expect lparen
    row ← repeat (item_round expression) no_expression
    v ← expect rparen
    pure row

  unfoldable pub values_round :
      List Expressions → Parser (Round (List Expressions) (List Expressions))
  values_round found = row_of_values >>= λ row. comma_round (found ++ (row ∷ []))

  unfoldable pub assignment : Updates → Text → Parser (Round Updates Updates)
  assignment updates name =
      expect_equals >>= λ _. expression >>= λ e. comma_round (set_update updates name e)

  unfoldable pub update_round : Updates → Parser (Round Updates Updates)
  update_round updates =
      when ident (λ t. assignment updates t.value)
        (look λ ts. fail (unexpected (codes "expected column name") (current ts)))

  unfoldable pub parse_update : Parser SqlStatement
  parse_update = skip λ _. do
    table ← named (codes "expected table name")
    u ← expect_keyword (codes "SET")
    updates ← repeat update_round []
    condition ← optional_expression expression (codes "WHERE")
    limit ← optional_expression expression (codes "LIMIT")
    pure (update table updates condition limit)

  unfoldable pub parse_delete : Parser SqlStatement
  parse_delete = skip λ _. do
    u ← expect_keyword (codes "FROM")
    table ← named (codes "expected table name")
    condition ← optional_expression expression (codes "WHERE")
    limit ← optional_expression expression (codes "LIMIT")
    pure (delete table condition limit)

  unfoldable pub set_value : Text → Parser SqlStatement
  set_value word = do
    name ← variable_name word
    u ← when_one operator (codes "=" ∷ []) (λ _. pure true) (pure false)
    e ← expression
    pure (set_variable name e)

  unfoldable pub parse_set : Parser SqlStatement
  parse_set = skip λ _.
      when ident (λ t. set_value t.value)
        (when keyword (λ t. set_value t.value)
          (look λ ts. fail (unexpected (codes "expected variable name") (current ts))))

module _ (expression : Parser Expression) (select_of : Parser Select) where
  -- SELECT is left for parseSelect to take.
  unfoldable pub insert_source : Parser InsertSource
  insert_source =
      when_keyword (codes "VALUES")
        (repeat (values_round expression) [] >>= λ found. pure (rows found))
        (look λ ts.
          choose (matches_one keyword (codes "SELECT" ∷ []) ts)
            (select_of >>= λ s. pure (from_query s))
            (when_keyword (codes "DEFAULT")
              (expect_keyword (codes "VALUES") >>= λ _. pure default_values)
              (fail (unexpected (codes "expected VALUES or SELECT") (current ts)))))

  unfoldable pub parse_insert : Parser SqlStatement
  parse_insert = skip λ _. do
    u ← expect_keyword (codes "INTO")
    table ← named (codes "expected table name")
    columns ← column_list
    source ← insert_source
    pure (insert table columns source)
