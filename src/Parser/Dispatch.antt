-- ===== src/Parser/Dispatch.antt =====
-- parser/parser.go, Parse: the statement's first keyword chooses its parser.
use xxldb.Base.{ℕ, Option, none, some, List, [], ◌∷◌, ◌++◌}
use xxldb.Base.Text.{codes, same_bytes, is_one_of, to_upper}
use xxldb.Lexer.{Token, keyword, tokenize}
use xxldb.Parser.{
  unexpected, message, Outcome, stuck, Parser, ◌>>=◌, pure, fail, choose, current, matches,
  matches_one, when_one, skip, look,
}
use xxldb.Parser.Grammar.{parse_expression, parse_select}
use xxldb.Parser.Statements.{
  SqlStatement, query, parse_insert, parse_update, parse_delete, parse_create_database, parse_drop,
  parse_set, parse_use, parse_describe, parse_backup, parse_restore, parse_begin,
  parse_start_transaction, parse_commit, parse_rollback,
}
use xxldb.Parser.Schema.{
  parse_create_table, parse_create_index, parse_create_full_text_index, parse_alter,
}
use xxldb.Parser.Show.{parse_show}
use xxldb.Parser.Syntax.{Text, Expression, Select}

unfoldable pub transaction_of : Text → Parser SqlStatement → Parser SqlStatement
transaction_of word rest = choose (same_bytes word (codes "BEGIN")) parse_begin (
    choose (same_bytes word (codes "START")) parse_start_transaction (
      choose (same_bytes word (codes "COMMIT")) parse_commit
        (choose (same_bytes word (codes "ROLLBACK")) parse_rollback rest)))

unfoldable pub file_of : Text → Parser SqlStatement → Parser SqlStatement
file_of word rest = choose (same_bytes word (codes "USE")) parse_use (
    choose (is_one_of word (codes "DESCRIBE" ∷ codes "DESC" ∷ [])) parse_describe (
      choose (same_bytes word (codes "BACKUP")) parse_backup
        (choose (same_bytes word (codes "RESTORE")) parse_restore rest)))

module _ (expression : Parser Expression) where
  -- The keyword is left for the parser that is chosen.
  unfoldable pub parse_create : Parser SqlStatement
  parse_create = skip λ _. look λ ts.
      choose (matches_one keyword (codes "TABLE" ∷ []) ts) (parse_create_table expression) (
        choose (matches_one keyword (codes "FULLTEXT" ∷ []) ts) parse_create_full_text_index (
          choose (matches_one keyword (codes "INDEX" ∷ codes "UNIQUE" ∷ []) ts) parse_create_index (
            when_one keyword (codes "DATABASE" ∷ codes "SCHEMA" ∷ []) (λ _. parse_create_database)
              (fail (message (codes "unsupported CREATE statement: " ++ (current ts).value))))))

  unfoldable pub schema_of : Text → Parser SqlStatement → Parser SqlStatement
  schema_of word rest = choose (same_bytes word (codes "CREATE")) parse_create (
      choose (same_bytes word (codes "DROP")) parse_drop (
        choose (same_bytes word (codes "ALTER")) (parse_alter expression)
          (choose (same_bytes word (codes "SHOW")) parse_show rest)))

module _ (expression : Parser Expression) (select_of : Parser Select) where
  unfoldable pub data_of : Text → Parser SqlStatement → Parser SqlStatement
  data_of word rest =
      choose (same_bytes word (codes "SELECT")) (select_of >>= λ s. pure (query s)) (
        choose (same_bytes word (codes "INSERT")) (parse_insert expression select_of) (
          choose (same_bytes word (codes "UPDATE")) (parse_update expression) (
            choose (same_bytes word (codes "DELETE")) (parse_delete expression)
              (choose (same_bytes word (codes "SET")) (parse_set expression) rest))))

  unfoldable pub statement_of : Token → Parser SqlStatement
  statement_of t =
      let word = to_upper t.value in
      data_of word (
        schema_of expression word (
          file_of word
            (transaction_of word (fail (message (codes "unsupported statement: " ++ t.value))))))

  unfoldable pub statement_parser : Parser SqlStatement
  statement_parser = look λ ts.
      choose (matches keyword ts) (statement_of (current ts))
        (fail (unexpected (codes "expected keyword") (current ts)))

module _ (parse_float : Text → Option ℕ) where
  unfoldable pub parse : Parser SqlStatement
  parse = statement_parser (parse_expression parse_float) (parse_select parse_float)

  unfoldable pub parsed_statement : Option (List Token) → Outcome SqlStatement
  parsed_statement none = stuck
  parsed_statement (some ts) = parse ts

  -- ParseString.
  unfoldable pub parse_sql : List ℕ → Outcome SqlStatement
  parse_sql sql = parsed_statement (tokenize sql)
