-- ===== src/Parser/Show.antt =====
-- parser/parser_dml.go, parseShow.
use xxldb.Base.{Bool, true, false, ◌||◌, List, [], ◌∷◌, if◌then◌else◌, ◌++◌}
use xxldb.Base.Text.{codes}
use xxldb.Lexer.{Token, eof, semicolon, ident, string, keyword}
use xxldb.Parser.{
  Parser, message, parsed, ◌>>=◌, pure, fail, current, same_type, when, when_one, when_keyword,
  skip, look,
}
use xxldb.Parser.Definitions.{name_of, named}
use xxldb.Parser.Query.{taken}
use xxldb.Parser.Statements.{SqlStatement, show}
use xxldb.Parser.Syntax.{Text}

-- The tokens from the end or the next semicolon on.
unfoldable pub ending_at : List Token → List Token
ending_at [] = []
ending_at (t ∷ ts) =
    let rest = ending_at ts in
    if same_type t.type eof || same_type t.type semicolon then t ∷ ts else rest

unfoldable pub skip_rest : Parser (Unit {0})
skip_rest ts = parsed tt (ending_at ts)

unfoldable pub shown : Text → Parser SqlStatement
shown type = pure (show type [] [])

-- Everything up to the statement's end is passed over.
unfoldable pub shown_only : Text → Parser SqlStatement
shown_only type = skip_rest >>= λ _. shown type

unfoldable pub shown_from : Text → Parser SqlStatement
shown_from type =
    when_keyword (codes "FROM")
      (name_of (codes "expected table name") >>= λ table. pure (show type table [])) (shown type)

unfoldable pub show_create : Parser SqlStatement
show_create =
    when_keyword (codes "TABLE")
      (named (codes "expected table name") >>= λ table. pure (show (codes "CREATE") table []))
      (shown (codes "CREATE"))

unfoldable pub show_routines : Text → Parser SqlStatement
show_routines type = taken (codes "STATUS") >>= λ _. shown_only type

unfoldable pub optional_name : Parser Text
optional_name = when ident (λ t. pure t.value) (pure [])

unfoldable pub show_triggers : Parser SqlStatement
show_triggers = do
  target ← when_one keyword (codes "FROM" ∷ codes "IN" ∷ []) (λ _. optional_name) (pure [])
  u ← skip_rest
  pure (show (codes "TRIGGERS") target [])

unfoldable pub show_table_status : Parser SqlStatement
show_table_status =
    when_keyword (codes "STATUS")
      (do
        target ← when_keyword (codes "FROM") optional_name (pure [])
        pattern ← when_keyword (codes "LIKE") (when string (λ t. pure t.value) (pure [])) (pure [])
        pure (show (codes "TABLE STATUS") target pattern))
      (shown [])

unfoldable pub if_full : Bool → Text → Text
if_full full type = if full then codes "FULL " ++ type else type

unfoldable pub show_routine : Parser SqlStatement → Parser SqlStatement
show_routine rest = when_keyword (codes "OPEN") (shown_only (codes "OPEN TABLES")) (
    when_keyword (codes "COLLATION") (shown_only (codes "COLLATION")) (
      when_keyword (codes "FUNCTION") (show_routines (codes "FUNCTION STATUS")) (
        when_keyword (codes "PROCEDURE") (show_routines (codes "PROCEDURE STATUS")) (
          when_keyword (codes "TRIGGERS") show_triggers (
            when_keyword (codes "EVENTS") (shown_only (codes "EVENTS"))
              (when_keyword (codes "TABLE") show_table_status rest))))))

unfoldable pub show_server : Parser SqlStatement → Parser SqlStatement
show_server rest = when_keyword (codes "VARIABLES") (shown (codes "VARIABLES")) (
    when_keyword (codes "STATUS") (shown (codes "STATUS")) (
      when_keyword (codes "WARNINGS") (shown (codes "WARNINGS")) (
        when_keyword (codes "GRANTS") (shown (codes "GRANTS")) (
          when_one keyword (codes "INDEX" ∷ codes "INDEXES" ∷ codes "KEYS" ∷ [])
            (λ _. shown_from (codes "INDEX"))
            (when_keyword (codes "PROCESSLIST") (shown (codes "PROCESSLIST")) (
              when_one keyword (codes "ENGINES" ∷ codes "ENGINE" ∷ [])
                (λ _. shown (codes "ENGINES")) rest))))))

unfoldable pub show_schema : Bool → Parser SqlStatement → Parser SqlStatement
show_schema full rest = when_keyword (codes "TABLES") (shown (if_full full (codes "TABLES"))) (
    when_keyword (codes "DATABASES") (shown (codes "DATABASES")) (
      when_keyword (codes "COLUMNS") (shown_from (if_full full (codes "COLUMNS")))
        (when_keyword (codes "CREATE") show_create rest)))

unfoldable pub parse_show : Parser SqlStatement
parse_show = skip λ _. do
  u ← when_one keyword (codes "GLOBAL" ∷ codes "SESSION" ∷ []) (λ _. pure true) (pure false)
  full ← taken (codes "FULL")
  show_schema full (
      show_server (
        show_routine
          (look λ ts. fail (message (codes "unsupported SHOW statement: " ++ (current ts).value)))))
