-- ===== src/Parser/Runs.antt =====
-- parser/parser.go: the parser run on expressions, and the theorems at concrete inputs.
use xxldb.Base.{arith, ℕ, true, false, ◌≢◌, Option, none, List, [], ◌∷◌}
use xxldb.Base.Text.{codes}
use xxldb.Lexer.{Token, ident, keyword, eof}
use xxldb.Parser.{stuck}
use xxldb.Parser.Grouping.{IsGrouped, binary_levels-IsGrouped}
use xxldb.Parser.Ends.{grammar-IsFed, parse_sql-ne-stuck}
use xxldb.Parser.Grammar.{grammar}
use xxldb.Parser.Commands.{token, write_command}
use xxldb.Parser.Commands.ReadBack.{IsRead, parse-write_command}
use xxldb.Parser.Dispatch.{parse_sql}
use xxldb.Parser.Statements.{SqlStatement, create_index}
use xxldb.Parser.Syntax.{Text, Expression, binary, column}

abbrev no_float : Text → Option ℕ
no_float value = none

abbrev condition : List Token
condition =
    token ident (codes "a")
    ∷ token keyword (codes "OR")
    ∷ token ident (codes "b")
    ∷ token eof []
    ∷ []

parse_sql-ne-stuck_example : parse_sql no_float (codes "DELETE FROM t WHERE (a") ≢ stuck
parse_sql-ne-stuck_example = parse_sql-ne-stuck no_float (codes "DELETE FROM t WHERE (a")

abbrev indexed : SqlStatement
indexed = create_index (codes "i") true false (codes "t") (codes "a" ∷ codes "b" ∷ []) []

parse-write_command_example : IsRead no_float indexed (write_command indexed)
parse-write_command_example = parse-write_command no_float indexed

abbrev tree : Expression
tree = binary (column [] (codes "a")) (codes "OR") (column [] (codes "b"))

binary_levels-IsGrouped_example :
    IsGrouped no_float
      (grammar no_float 8).0
      (grammar no_float 8).1
      condition
      tree
      (token eof [] ∷ [])
binary_levels-IsGrouped_example =
    binary_levels-IsGrouped no_float 4 (grammar no_float 8).0 (grammar no_float 8).1
      (grammar-IsFed no_float 4 8 (omega arith)).0 (grammar-IsFed no_float 4 8 (omega arith)).1
      condition (omega arith) tree (token eof [] ∷ [])
