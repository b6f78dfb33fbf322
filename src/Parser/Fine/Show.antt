-- ===== src/Parser/Fine/Show.antt =====
-- parser/parser_dml.go: SHOW ends, and only goes forward.
use xxldb.Base.{ℕ, Bool, List}
use xxldb.Lexer.{Token}
use xxldb.Parser.{Parser}
use xxldb.Parser.Fine.{Under}
use xxldb.Parser.Fine.Steps.{weak}
use xxldb.Parser.Fine.Selects.{taken-Under}
use xxldb.Parser.Syntax.{Text}
use xxldb.Base.{◌≤◌, [], ◌∷◌, length, arith}
use xxldb.Parser.Fine.{IsFine}
use xxldb.Parser.Fine.Schema.{name_of-Under, named-Under}
use xxldb.Parser.Statements.{SqlStatement}
use xxldb.Parser.Show.{
  ending_at, skip_rest, shown, shown_only, shown_from, show_create, show_routines, optional_name,
  show_triggers, show_table_status, show_routine, show_server, show_schema, parse_show,
}

ending_at-le : (ts : List Token) → length (ending_at ts) ≤ length ts
unfolding ending_at
ending_at-le [] = omega arith
ending_at-le (t ∷ ts) = ground (arith, ending_at-le ts)

module _ (n : ℕ) where
  skip_rest-Under : Under n skip_rest
  unfolding Under IsFine skip_rest
  skip_rest-Under ts h = ending_at-le ts

  shown-Under : (type : Text) → Under n (shown type)
  unfolding shown
  shown-Under type = search weak depth 14

  shown_only-Under : (type : Text) → Under n (shown_only type)
  unfolding shown_only
  shown_only-Under type = search (weak, skip_rest-Under, shown-Under) depth 14

  shown_from-Under : (type : Text) → Under n (shown_from type)
  unfolding shown_from
  shown_from-Under type = search (weak, name_of-Under, shown-Under) depth 14

  show_create-Under : Under n show_create
  unfolding show_create
  show_create-Under = search (weak, named-Under, shown-Under) depth 14

  show_routines-Under : (type : Text) → Under n (show_routines type)
  unfolding show_routines
  show_routines-Under type = search (weak, taken-Under, shown_only-Under) depth 14

  optional_name-Under : Under n optional_name
  unfolding optional_name
  optional_name-Under = search weak depth 14

  show_triggers-Under : Under n show_triggers
  unfolding show_triggers
  show_triggers-Under = search (weak, optional_name-Under, skip_rest-Under) depth 14

  show_table_status-Under : Under n show_table_status
  unfolding show_table_status
  show_table_status-Under = search (weak, optional_name-Under, shown-Under) depth 20

module _ (n : ℕ) (rest : Parser SqlStatement) (r : Under n rest) where
  show_routine-Under : Under n (show_routine rest)
  unfolding show_routine
  show_routine-Under =
      search
        (
          weak, shown_only-Under, show_routines-Under, show_triggers-Under, show_table_status-Under,
          r,
        )
        depth 20

  show_server-Under : Under n (show_server rest)
  unfolding show_server
  show_server-Under = search (weak, shown-Under, shown_from-Under, r) depth 20

  show_schema-Under : (full : Bool) → Under n (show_schema full rest)
  unfolding show_schema
  show_schema-Under full =
      search (weak, shown-Under, shown_from-Under, show_create-Under, r) depth 20

module _ (n : ℕ) where
  pub parse_show-Under : Under n parse_show
  unfolding parse_show
  parse_show-Under =
      search (weak, taken-Under, show_schema-Under, show_server-Under, show_routine-Under) depth 30
