-- ===== src/Parser/Fine/Dispatch.antt =====
-- parser/parser.go, Parse: it ends, and only goes forward, where the parsers it chooses from do.
use xxldb.Base.{ℕ}
use xxldb.Lexer.{Token}
use xxldb.Parser.{Parser}
use xxldb.Parser.Dispatch.{
  transaction_of, file_of, parse_create, schema_of, data_of, statement_of, statement_parser,
}
use xxldb.Parser.Fine.{Under}
use xxldb.Parser.Fine.Schema.{
  parse_create_table-Under, parse_create_index-Under, parse_create_full_text_index-Under,
  parse_alter-Under,
}
use xxldb.Parser.Fine.Show.{parse_show-Under}
use xxldb.Parser.Fine.Statements.{
  parse_create_database-Under, parse_drop-Under, parse_use-Under, parse_describe-Under,
  parse_backup-Under, parse_restore-Under, parse_begin-Under, parse_start_transaction-Under,
  parse_commit-Under, parse_rollback-Under, parse_update-Under, parse_delete-Under, parse_set-Under,
  parse_insert-Under,
}
use xxldb.Parser.Fine.Steps.{weak}
use xxldb.Parser.Statements.{SqlStatement}
use xxldb.Parser.Syntax.{Text, Expression, Select}

module _ (n : ℕ) (word : Text) (rest : Parser SqlStatement) (r : Under n rest) where
  transaction_of-Under : Under n (transaction_of word rest)
  unfolding transaction_of
  transaction_of-Under =
      search
        (
          weak, parse_begin-Under, parse_start_transaction-Under, parse_commit-Under,
          parse_rollback-Under, r,
        )
        depth 14

  file_of-Under : Under n (file_of word rest)
  unfolding file_of
  file_of-Under =
      search
        (weak, parse_use-Under, parse_describe-Under, parse_backup-Under, parse_restore-Under, r)
        depth 14

module _ (n : ℕ) (expression : Parser Expression) (e : Under n expression) where
  parse_create-Under : Under n (parse_create expression)
  unfolding parse_create
  parse_create-Under =
      search
        (
          weak, parse_create_table-Under, parse_create_full_text_index-Under,
          parse_create_index-Under, parse_create_database-Under, e,
        )
        depth 14

  schema_of-Under :
      (word : Text) (rest : Parser SqlStatement)
      → Under n rest
      → Under n (schema_of expression word rest)
  unfolding schema_of
  schema_of-Under word rest r =
      search (weak, parse_create-Under, parse_drop-Under, parse_alter-Under, parse_show-Under, e, r)
        depth 14

module _ (n : ℕ) (expression : Parser Expression) (select_of : Parser Select)
    (e : Under n expression) (s : Under n select_of) where
  data_of-Under :
      (word : Text) (rest : Parser SqlStatement)
      → Under n rest
      → Under n (data_of expression select_of word rest)
  unfolding data_of
  data_of-Under word rest r =
      search
        (weak, parse_insert-Under, parse_update-Under, parse_delete-Under, parse_set-Under, e, s, r)
        depth 20

  statement_of-Under : (t : Token) → Under n (statement_of expression select_of t)
  unfolding statement_of
  statement_of-Under t =
      search (weak, data_of-Under, schema_of-Under, file_of-Under, transaction_of-Under, e) depth 14

  pub statement_parser-Under : Under n (statement_parser expression select_of)
  unfolding statement_parser
  statement_parser-Under = search (weak, statement_of-Under) depth 14
