-- ===== src/Parser/Fine/Statements.antt =====
-- parser/parser_dml.go: the statements end, and only go forward, where the expressions and the
-- SELECTs do.
use xxldb.Base.{ℕ, List}
use xxldb.Parser.{Parser}
use xxldb.Parser.Fine.{Under, Rounds}
use xxldb.Parser.Fine.Steps.{weak}
use xxldb.Parser.Fine.Operands.{optional_expression-Under}
use xxldb.Parser.Fine.Schema.{named-Under, if_not_exists-Under, column_list-Under}
use xxldb.Parser.Fine.Selects.{taken-Under}
use xxldb.Parser.Expressions.{item_round}
use xxldb.Parser.Statements.{
  expect_equals, if_exists, parse_drop_table, parse_drop_database, parse_create_database, on_table,
  parse_drop_index, parse_drop, parse_use, parse_describe, file_path, parse_backup, parse_restore,
  parse_begin, parse_start_transaction, parse_commit, parse_rollback, variable_name, row_of_values,
  values_round, Updates, assignment, update_round, parse_update, parse_delete, set_value, parse_set,
  insert_source, parse_insert,
}
use xxldb.Parser.Syntax.{Text, Expression, Expressions, Select}

module _ (n : ℕ) where
  expect_equals-Under : Under n expect_equals
  unfolding expect_equals
  expect_equals-Under = search weak depth 14

  if_exists-Under : Under n if_exists
  unfolding if_exists
  if_exists-Under = search weak depth 14

  parse_drop_table-Under : Under n parse_drop_table
  unfolding parse_drop_table
  parse_drop_table-Under = search (weak, if_exists-Under, named-Under) depth 14

  parse_drop_database-Under : Under n parse_drop_database
  unfolding parse_drop_database
  parse_drop_database-Under = search (weak, if_exists-Under, named-Under) depth 14

  pub parse_create_database-Under : Under n parse_create_database
  unfolding parse_create_database
  parse_create_database-Under = search (weak, if_not_exists-Under, named-Under) depth 14

  on_table-Under : Under n on_table
  unfolding on_table
  on_table-Under = search (weak, named-Under) depth 14

  parse_drop_index-Under : Under n parse_drop_index
  unfolding parse_drop_index
  parse_drop_index-Under = search (weak, on_table-Under) depth 14

  pub parse_drop-Under : Under n parse_drop
  unfolding parse_drop
  parse_drop-Under =
      search (weak, parse_drop_table-Under, parse_drop_index-Under, parse_drop_database-Under) depth
        14

  pub parse_use-Under : Under n parse_use
  unfolding parse_use
  parse_use-Under = search (weak, named-Under) depth 14

  pub parse_describe-Under : Under n parse_describe
  unfolding parse_describe
  parse_describe-Under = search (weak, named-Under) depth 14

  file_path-Under : Under n file_path
  unfolding file_path
  file_path-Under = search weak depth 14

  pub parse_backup-Under : Under n parse_backup
  unfolding parse_backup
  parse_backup-Under = search (weak, taken-Under, file_path-Under) depth 14

  pub parse_restore-Under : Under n parse_restore
  unfolding parse_restore
  parse_restore-Under = search (weak, taken-Under, file_path-Under) depth 14

  pub parse_begin-Under : Under n parse_begin
  unfolding parse_begin
  parse_begin-Under = search (weak, taken-Under) depth 14

  pub parse_start_transaction-Under : Under n parse_start_transaction
  unfolding parse_start_transaction
  parse_start_transaction-Under = search weak depth 14

  pub parse_commit-Under : Under n parse_commit
  unfolding parse_commit
  parse_commit-Under = search (weak, taken-Under) depth 14

  pub parse_rollback-Under : Under n parse_rollback
  unfolding parse_rollback
  parse_rollback-Under = search (weak, taken-Under) depth 14

  variable_name-Under : (name : Text) → Under n (variable_name name)
  unfolding variable_name
  variable_name-Under name = search weak depth 14

module _ (n : ℕ) (expression : Parser Expression) (e : Under n expression) where
  item_round-Rounds : (es : Expressions) → Rounds n (item_round expression es)
  unfolding item_round
  item_round-Rounds es = search (weak, e)

  row_of_values-Under : Under n (row_of_values expression)
  unfolding row_of_values
  row_of_values-Under = search (weak, item_round-Rounds) depth 14

  values_round-Rounds : (found : List Expressions) → Rounds n (values_round expression found)
  unfolding values_round
  values_round-Rounds found = search (weak, row_of_values-Under)

  assignment-Under :
      (updates : Updates) (name : Text) → Under n (assignment expression updates name)
  unfolding assignment
  assignment-Under updates name = search (weak, e, expect_equals-Under)

  update_round-Rounds : (updates : Updates) → Rounds n (update_round expression updates)
  unfolding update_round
  update_round-Rounds updates = search (weak, assignment-Under)

  pub parse_update-Under : Under n (parse_update expression)
  unfolding parse_update
  parse_update-Under =
      search (weak, named-Under, update_round-Rounds, optional_expression-Under, e) depth 30

  pub parse_delete-Under : Under n (parse_delete expression)
  unfolding parse_delete
  parse_delete-Under = search (weak, named-Under, optional_expression-Under, e) depth 30

  set_value-Under : (word : Text) → Under n (set_value expression word)
  unfolding set_value
  set_value-Under word = search (weak, variable_name-Under, e) depth 14

  pub parse_set-Under : Under n (parse_set expression)
  unfolding parse_set
  parse_set-Under = search (weak, set_value-Under) depth 14

module _ (n : ℕ) (expression : Parser Expression) (select_of : Parser Select)
    (e : Under n expression) (s : Under n select_of) where
  insert_source-Under : Under n (insert_source expression select_of)
  unfolding insert_source
  insert_source-Under = search (weak, values_round-Rounds, e, s) depth 30

  pub parse_insert-Under : Under n (parse_insert expression select_of)
  unfolding parse_insert
  parse_insert-Under = search (weak, named-Under, column_list-Under, insert_source-Under) depth 30
