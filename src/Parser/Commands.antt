-- ===== src/Parser/Commands.antt =====
-- parser/parser_dml.go: the statements without expressions as tokens.
pub mod ReadBack
use xxldb.Base.{ℕ, ◌≡◌, refl, Bool, true, false, Option, none, some, List, [], ◌∷◌, ◌++◌}
use xxldb.Base.Text.{codes, same_bytes, is_one_of, to_upper}
use xxldb.Lexer.{Token, TokenType, eof, ident, keyword, string}
use xxldb.Parser.{
  parsed, go_with, ◌>>=◌, pure, choose, same_type, type_index, current, advance, matches,
  matches_one, when, when_one, skip, look, expect_keyword,
}
use xxldb.Parser.Dispatch.{
  transaction_of, file_of, parse_create, schema_of, data_of, statement_of, statement_parser, parse,
}
use xxldb.Base.Loop.{done, more}
use xxldb.Parser.Expressions.{comma_round}
use xxldb.Parser.{round_then, rounds_of, repeat, expect}
use xxldb.Lexer.{comma, rparen, lparen}
use xxldb.Base.{zero, suc, ◌<◌, length, arith}
use xxldb.Parser.Query.{name_round, taken, table_name}
use xxldb.Parser.Schema.{parse_create_index, uses_full_text}
use xxldb.Base.{append_assoc}
use xxldb.Parser.Definitions.{name_of, names_in_parens, column_list, expected, named}
use xxldb.Parser.Statements.{
  default_values, rows, from_query, parse_insert, insert_source, parse_delete, SqlStatement,
  create_table, create_index, alter_table, show, insert, update, delete, query, set_variable,
  drop_table, drop_index, drop_database, create_database, use_database, describe, backup, restore,
  begin, commit, rollback, if_exists, if_not_exists, parse_drop_table, parse_drop_database,
  parse_create_database, on_table, parse_drop_index, parse_drop, parse_use, parse_describe,
  file_path, parse_backup, parse_restore, parse_begin, parse_commit, parse_rollback,
}
use xxldb.Parser.Expressions.{optional_expression}
use xxldb.Parser.Syntax.{Text, absent}

unfoldable pub token : TokenType → Text → Token
token type value = record { type = type; value = value; pos = 0 }

unfoldable pub keyword_token : Text → Token
unfolding token
keyword_token value = token keyword value

unfoldable words_if : Bool → List Token → List Token
words_if true words = words
words_if false words = []

unfoldable ending : Text → List Token
unfolding token
ending name = token ident name ∷ token eof [] ∷ []

-- The statement's first word, its second where there is one, and the rest.
unfoldable if_exists_ending : Text → Text → Bool → Text → List Token
unfolding keyword_token words_if ending
if_exists_ending first second b name =
    keyword_token first
      ∷ keyword_token second
      ∷ words_if b (keyword_token (codes "IF") ∷ keyword_token (codes "EXISTS") ∷ [])
    ++ ending name

-- Names with commas between them and a parenthesis behind them.
unfoldable names_in : Text → List Text → List Token → List Token
unfolding token
names_in n [] tail = token ident n ∷ token rparen [] ∷ tail
names_in n (m ∷ ns) tail = token ident n ∷ token comma [] ∷ names_in m ns tail

-- The tokens of a statement without expressions, BACKUP without TO, which the lexer makes no keyword;
-- the options of a full-text index, CREATE TABLE, ALTER
-- and SHOW are left out.
unfoldable pub write_command : SqlStatement → Option (List Token)
unfolding token keyword_token words_if ending if_exists_ending names_in
write_command (drop_table b name) = some (if_exists_ending (codes "DROP") (codes "TABLE") b name)
write_command (drop_database b name) =
    some (if_exists_ending (codes "DROP") (codes "DATABASE") b name)
write_command (create_database b name) = some (
    keyword_token (codes "CREATE")
      ∷ keyword_token (codes "DATABASE")
      ∷ words_if b (
          keyword_token (codes "IF")
          ∷ keyword_token (codes "NOT")
          ∷ keyword_token (codes "EXISTS")
          ∷ [])
    ++ ending name)
write_command (drop_index name []) =
    some (keyword_token (codes "DROP") ∷ keyword_token (codes "INDEX") ∷ ending name)
write_command (drop_index name (c ∷ cs)) = some (
    keyword_token (codes "DROP")
    ∷ keyword_token (codes "INDEX")
    ∷ token ident name
    ∷ keyword_token (codes "ON")
    ∷ ending (c ∷ cs))
write_command (use_database name) = some (keyword_token (codes "USE") ∷ ending name)
write_command (describe name) = some (keyword_token (codes "DESCRIBE") ∷ ending name)
write_command (backup path) =
    some (keyword_token (codes "BACKUP") ∷ token string path ∷ token eof [] ∷ [])
write_command (restore path) = some (
    keyword_token (codes "RESTORE")
    ∷ keyword_token (codes "FROM")
    ∷ token string path
    ∷ token eof []
    ∷ [])
write_command begin = some (keyword_token (codes "BEGIN") ∷ token eof [] ∷ [])
write_command commit = some (keyword_token (codes "COMMIT") ∷ token eof [] ∷ [])
write_command rollback = some (keyword_token (codes "ROLLBACK") ∷ token eof [] ∷ [])
write_command (create_table b table columns constraints) = none
write_command (create_index name unique full_text table (c ∷ cs) []) = some (
    keyword_token (codes "CREATE") ∷ words_if unique (keyword_token (codes "UNIQUE") ∷ [])
    ++ (keyword_token (codes "INDEX")
        ∷ token ident name
        ∷ keyword_token (codes "ON")
        ∷ token ident table
        ∷ token lparen []
        ∷ names_in c cs (
            words_if full_text
              (keyword_token (codes "USING") ∷ keyword_token (codes "FULLTEXT") ∷ [])
            ++ (token eof [] ∷ []))))
write_command (create_index name unique full_text table [] options) = none
write_command (create_index name unique full_text table (c ∷ cs) (o ∷ os)) = none
write_command (alter_table table actions) = none
write_command (show type target pattern) = none
write_command (query s) = none
write_command (insert table [] default_values) = some (
    keyword_token (codes "INSERT")
    ∷ keyword_token (codes "INTO")
    ∷ token ident table
    ∷ keyword_token (codes "DEFAULT")
    ∷ keyword_token (codes "VALUES")
    ∷ token eof []
    ∷ [])
write_command (insert table (c ∷ cs) default_values) = some (
    keyword_token (codes "INSERT")
    ∷ keyword_token (codes "INTO")
    ∷ token ident table
    ∷ token lparen []
    ∷ names_in c cs
        (keyword_token (codes "DEFAULT") ∷ keyword_token (codes "VALUES") ∷ token eof [] ∷ []))
write_command (insert table columns (rows values)) = none
write_command (insert table columns (from_query s)) = none
write_command (update table updates condition limit) = none
write_command (delete table condition limit) = none
write_command (set_variable name e) = none
