-- ===== src/Parser/Commands/ReadBack.antt =====
-- parser/parser_dml.go: Parse reads the statements without expressions back from their tokens.
use xxldb.Base.{ℕ, ◌≡◌, refl, true, false, Option, none, some, List, [], ◌∷◌, ◌++◌}
use xxldb.Base.Text.{codes, same_bytes, is_one_of, to_upper}
use xxldb.Lexer.{Token, eof}
use xxldb.Parser.{
  parsed, go_with, ◌>>=◌, pure, choose, same_type, type_index, current, advance, matches,
  matches_one, when, when_one, skip, look, expect_keyword,
}
use xxldb.Parser.Dispatch.{
  transaction_of, file_of, parse_create, schema_of, data_of, statement_of, statement_parser, parse,
}
use xxldb.Parser.Expressions.{comma_round}
use xxldb.Parser.{round_then, rounds_of, repeat, expect}
use xxldb.Lexer.{rparen, lparen}
use xxldb.Base.{zero, suc, ◌<◌, length, arith}
use xxldb.Parser.Query.{name_round, taken, table_name}
use xxldb.Parser.Schema.{parse_create_index, uses_full_text}
use xxldb.Base.{append_assoc}
use xxldb.Parser.Commands.{
  token, keyword_token, words_if, ending, if_exists_ending, names_in, write_command,
}
use xxldb.Parser.Definitions.{name_of, names_in_parens, column_list, expected, named}
use xxldb.Parser.Statements.{
  default_values, rows, from_query, parse_insert, insert_source, SqlStatement, create_table,
  create_index, alter_table, show, insert, update, delete, query, set_variable, drop_table,
  drop_index, drop_database, create_database, use_database, describe, backup, restore, begin,
  commit, rollback, if_exists, if_not_exists, parse_drop_table, parse_drop_database,
  parse_create_database, on_table, parse_drop_index, parse_drop, parse_use, parse_describe,
  file_path, parse_backup, parse_restore, parse_begin, parse_commit, parse_rollback,
}
use xxldb.Parser.Syntax.{Text}

rounds_of-names :
    (n : Text) (ns : List Text) (tail : List Token) (fuel : ℕ) (acc : List Text)
    → length (names_in n ns tail) < fuel
    → rounds_of name_round fuel acc (names_in n ns tail)
      ≡ parsed (acc ++ (n ∷ ns)) (token rparen [] ∷ tail)
unfolding names_in token rounds_of name_round comma_round round_then go_with ◌>>=◌ pure when look
    matches current advance same_type type_index
rounds_of-names n ns tail zero acc h = absurd (omega (arith, h))
rounds_of-names n [] tail (suc fuel) acc h = refl
rounds_of-names n (m ∷ ns) tail (suc fuel) acc h =
    rw (rounds_of-names m ns tail fuel (acc ++ (n ∷ [])) (omega (arith, h)))
      (rw (append_assoc acc (n ∷ []) (m ∷ ns)) refl)

names_in_parens-names :
    (n : Text) (ns : List Text) (tail : List Token)
    → names_in_parens (token lparen [] ∷ names_in n ns tail) ≡ parsed (n ∷ ns) tail
unfolding names_in_parens token expect repeat go_with ◌>>=◌ pure when look matches current advance
    same_type type_index
names_in_parens-names n ns tail =
    rw (rounds_of-names n ns tail (suc (length (names_in n ns tail))) [] (omega arith)) refl

column_list-names :
    (n : Text) (ns : List Text) (tail : List Token)
    → column_list (token lparen [] ∷ names_in n ns tail) ≡ parsed (n ∷ ns) tail
unfolding column_list token expect repeat go_with ◌>>=◌ pure when look matches current advance
    same_type type_index
column_list-names n ns tail =
    rw (rounds_of-names n ns tail (suc (length (names_in n ns tail))) [] (omega arith)) refl

module _ (parse_float : Text → Option ℕ) where
  unfoldable pub IsRead : SqlStatement → Option (List Token) → Type 0
  IsRead s none = Unit
  IsRead s (some ts) =
      parse parse_float ts ≡ parsed s (record { type = eof; value = []; pos = 0 } ∷ [])

  -- Parse reads a statement without expressions back from its tokens: DROP, CREATE DATABASE, CREATE
  -- INDEX on any columns, INSERT of the default values into any columns, USE, DESCRIBE, BACKUP
  -- without TO, RESTORE, BEGIN, COMMIT and ROLLBACK, with and without IF EXISTS, IF NOT EXISTS, ON, UNIQUE and
  -- USING FULLTEXT.
  pub parse-write_command : (s : SqlStatement) → IsRead s (write_command s)
  unfolding IsRead write_command names_in parse_insert insert_source parse_create_index
      uses_full_text name_of if_exists_ending ending words_if keyword_token token codes parse
      statement_parser statement_of data_of schema_of file_of transaction_of parse_create
      parse_create_database parse_drop parse_drop_table parse_drop_index parse_drop_database
      on_table if_exists if_not_exists parse_use parse_describe parse_backup parse_restore
      parse_begin parse_commit parse_rollback file_path taken named expected table_name pure choose
      look when when_one skip expect_keyword matches matches_one current advance same_type
      type_index go_with ◌>>=◌ same_bytes is_one_of to_upper column_list
  parse-write_command (drop_table true name) = refl
  parse-write_command (drop_table false name) = refl
  parse-write_command (drop_database true name) = refl
  parse-write_command (drop_database false name) = refl
  parse-write_command (create_database true name) = refl
  parse-write_command (create_database false name) = refl
  parse-write_command (drop_index name []) = refl
  parse-write_command (drop_index name (c ∷ cs)) = refl
  parse-write_command (use_database name) = refl
  parse-write_command (describe name) = refl
  parse-write_command (backup path) = refl
  parse-write_command (restore path) = refl
  parse-write_command begin = refl
  parse-write_command commit = refl
  parse-write_command rollback = refl
  parse-write_command (create_table b table columns constraints) = _
  parse-write_command (create_index name true true table (c ∷ cs) []) =
      rw
        (names_in_parens-names c cs
          (keyword_token (codes "USING") ∷ keyword_token (codes "FULLTEXT") ∷ token eof [] ∷ []))
        refl
  parse-write_command (create_index name true false table (c ∷ cs) []) =
      rw (names_in_parens-names c cs (token eof [] ∷ [])) refl
  parse-write_command (create_index name false true table (c ∷ cs) []) =
      rw
        (names_in_parens-names c cs
          (keyword_token (codes "USING") ∷ keyword_token (codes "FULLTEXT") ∷ token eof [] ∷ []))
        refl
  parse-write_command (create_index name false false table (c ∷ cs) []) =
      rw (names_in_parens-names c cs (token eof [] ∷ [])) refl
  parse-write_command (create_index name unique full_text table [] options) = _
  parse-write_command (create_index name unique full_text table (c ∷ cs) (o ∷ os)) = _
  parse-write_command (alter_table table actions) = _
  parse-write_command (show type target pattern) = _
  parse-write_command (query s) = _
  parse-write_command (insert table [] default_values) = refl
  parse-write_command (insert table (c ∷ cs) default_values) =
      rw
        (column_list-names c cs
          (keyword_token (codes "DEFAULT") ∷ keyword_token (codes "VALUES") ∷ token eof [] ∷ []))
        refl
  parse-write_command (insert table columns (rows values)) = _
  parse-write_command (insert table columns (from_query s)) = _
  parse-write_command (update table updates condition limit) = _
  parse-write_command (delete table condition limit) = _
  parse-write_command (set_variable name e) = _
