-- ===== src/Parser/Fine/Schema.antt =====
-- parser/parser_dml.go: column definitions, constraints and the statements on the schema end, and only
-- go forward, where the expressions do.
use xxldb.Base.{ℕ, List}
use xxldb.Parser.{Parser}
use xxldb.Parser.Fine.{Under, Rounds}
use xxldb.Parser.Fine.Steps.{weak}
use xxldb.Parser.Fine.Selects.{taken-Under, table_name-Under, name_round-Rounds}
use xxldb.Parser.Syntax.{Text, Expression}
use xxldb.Parser.Definitions.{
  ColumnDefinition, expected, name_of, named, names_in_parens, column_list, scale_of_type,
  type_size, word_of, column_round, parse_column_def,
}
use xxldb.Parser.Constraints.{
  constraint_name, primary_key_of, foreign_key_of, unique_of, check_of, parse_constraint,
}
use xxldb.Parser.Statements.{AlterAction, Options, if_not_exists}
use xxldb.Parser.Schema.{
  Parts, drop_action, rename_column, rename_action, uses_full_text, parse_create_index,
  option_value, named_option, option_round, parse_fts_options, fts_options,
  parse_create_full_text_index, part, part_round, parse_create_table, add_action, modify_action,
  action_round, parse_alter,
}

module _ (n : ℕ) where
  expected-Under : (A : Type 0) (what : Text) → Under n (expected {A = A} what)
  unfolding expected
  expected-Under A what = search weak

  pub name_of-Under : (what : Text) → Under n (name_of what)
  unfolding name_of
  name_of-Under what = search (weak, expected-Under) depth 14

  pub named-Under : (what : Text) → Under n (named what)
  unfolding named
  named-Under what = search (weak, expected-Under, table_name-Under) depth 14

  names_in_parens-Under : Under n names_in_parens
  unfolding names_in_parens
  names_in_parens-Under = search (weak, name_round-Rounds) depth 14

  pub column_list-Under : Under n column_list
  unfolding column_list
  column_list-Under = search (weak, name_round-Rounds) depth 14

  scale_of_type-Under : Under n scale_of_type
  unfolding scale_of_type
  scale_of_type-Under = search (weak, expected-Under) depth 14

  type_size-Under : Under n type_size
  unfolding type_size
  type_size-Under = search (weak, expected-Under, scale_of_type-Under) depth 14

  word_of-Under : (what : Text) → Under n (word_of what)
  unfolding word_of
  word_of-Under what = search (weak, expected-Under) depth 14

  constraint_name-Under : Under n constraint_name
  unfolding constraint_name
  constraint_name-Under = search (weak, name_of-Under) depth 14

  primary_key_of-Under : (name : Text) → Under n (primary_key_of name)
  unfolding primary_key_of
  primary_key_of-Under name = search (weak, names_in_parens-Under) depth 14

  foreign_key_of-Under : (name : Text) → Under n (foreign_key_of name)
  unfolding foreign_key_of
  foreign_key_of-Under name =
      search (weak, names_in_parens-Under, named-Under, column_list-Under) depth 20

  unique_of-Under : (name : Text) → Under n (unique_of name)
  unfolding unique_of
  unique_of-Under name = search (weak, column_list-Under) depth 14

  pub if_not_exists-Under : Under n if_not_exists
  unfolding if_not_exists
  if_not_exists-Under = search weak depth 14

  drop_action-Under : Under n drop_action
  unfolding drop_action
  drop_action-Under = search (weak, taken-Under, name_of-Under) depth 14

  rename_column-Under : Under n rename_column
  unfolding rename_column
  rename_column-Under = search (weak, name_of-Under) depth 14

  rename_action-Under : Under n rename_action
  unfolding rename_action
  rename_action-Under = search (weak, name_of-Under, rename_column-Under) depth 14

  uses_full_text-Under : Under n uses_full_text
  unfolding uses_full_text
  uses_full_text-Under = search (weak, expected-Under) depth 14

  pub parse_create_index-Under : Under n parse_create_index
  unfolding parse_create_index
  parse_create_index-Under =
      search
        (weak, taken-Under, name_of-Under, named-Under, names_in_parens-Under, uses_full_text-Under)
        depth 30

  option_value-Under : Under n option_value
  unfolding option_value
  option_value-Under = search (weak, expected-Under) depth 14

  named_option-Under : (options : Options) (name : Text) → Under n (named_option options name)
  unfolding named_option
  named_option-Under options name = search (weak, option_value-Under, expected-Under) depth 14

  option_round-Rounds : (options : Options) → Rounds n (option_round options)
  unfolding option_round
  option_round-Rounds options = search (weak, named_option-Under) depth 14

  parse_fts_options-Under : Under n parse_fts_options
  unfolding parse_fts_options
  parse_fts_options-Under =
      search (weak, option_round-Rounds, named_option-Under, expected-Under) depth 14

  fts_options-Under : Under n fts_options
  unfolding fts_options
  fts_options-Under = search (weak, parse_fts_options-Under) depth 14

  pub parse_create_full_text_index-Under : Under n parse_create_full_text_index
  unfolding parse_create_full_text_index
  parse_create_full_text_index-Under =
      search (weak, named-Under, name_of-Under, fts_options-Under) depth 30

module _ (n : ℕ) (expression : Parser Expression) (e : Under n expression) where
  column_round-Rounds : (c : ColumnDefinition) → Rounds n (column_round expression c)
  unfolding column_round
  column_round-Rounds c = search (weak, e, name_of-Under) depth 20

  parse_column_def-Under : Under n (parse_column_def expression)
  unfolding parse_column_def
  parse_column_def-Under =
      search (weak, word_of-Under, type_size-Under, column_round-Rounds) depth 20

  check_of-Under : (name : Text) → Under n (check_of expression name)
  unfolding check_of
  check_of-Under name = search (weak, e) depth 14

  parse_constraint-Under : Under n (parse_constraint expression)
  unfolding parse_constraint
  parse_constraint-Under =
      search
        (
          weak, constraint_name-Under, primary_key_of-Under, foreign_key_of-Under, unique_of-Under,
          check_of-Under,
        )
        depth 20

  part-Rounds : (parts : Parts) → Rounds n (part expression parts)
  unfolding part
  part-Rounds parts = search (weak, parse_constraint-Under, parse_column_def-Under) depth 14

  part_round-Rounds : (parts : Parts) → Rounds n (part_round expression parts)
  unfolding part_round
  part_round-Rounds parts = search (weak, part-Rounds) depth 14

  pub parse_create_table-Under : Under n (parse_create_table expression)
  unfolding parse_create_table
  parse_create_table-Under =
      search (weak, if_not_exists-Under, named-Under, part_round-Rounds) depth 30

  add_action-Under : Under n (add_action expression)
  unfolding add_action
  add_action-Under = search (weak, parse_column_def-Under, parse_constraint-Under) depth 14

  modify_action-Under : Under n (modify_action expression)
  unfolding modify_action
  modify_action-Under = search (weak, taken-Under, parse_column_def-Under) depth 14

  action_round-Rounds : (actions : List AlterAction) → Rounds n (action_round expression actions)
  unfolding action_round
  action_round-Rounds actions =
      search (weak, add_action-Under, drop_action-Under, modify_action-Under, rename_action-Under)
        depth 20

  pub parse_alter-Under : Under n (parse_alter expression)
  unfolding parse_alter
  parse_alter-Under = search (weak, named-Under, action_round-Rounds) depth 30
