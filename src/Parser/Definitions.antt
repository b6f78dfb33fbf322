-- ===== src/Parser/Definitions.antt =====
-- parser/parser_dml.go: column definitions.
use xxldb.Base.{ℕ, Bool, true, false, ◌&&◌, Option, none, some, List, [], ◌∷◌, leb, if◌then◌else◌}
use xxldb.Base.Loop.{Round, done, more}
use xxldb.Base.Text.{codes}
use xxldb.Lexer.{ident, number, keyword, comma, lparen, rparen}
use xxldb.Parser.{
  unexpected, Parser, ◌>>=◌, pure, fail, current, when, when_one, when_keyword, look, expect,
  expect_keyword, repeat,
}
use xxldb.Parser.Expressions.{parse_int}
use xxldb.Parser.Query.{table_name, name_round}
use xxldb.Parser.Syntax.{Text, Expression, MaybeExpression, absent, present}

pub record ColumnDefinition : Type 0 where
  pub name : Text
  pub type : Text
  pub size : ℕ
  pub scale : ℕ
  pub nullable : Bool
  pub default : MaybeExpression
  pub auto_inc : Bool
  pub primary_key : Bool
  pub unique : Bool
  pub references : Text

-- What has to be there, with the error that shows the token in its place.
unfoldable pub expected : {A : Type 0} → Text → Parser A
expected what = look λ ts. fail (unexpected what (current ts))

unfoldable pub name_of : Text → Parser Text
name_of what = when ident (λ t. pure t.value) (expected what)

-- A name that a database may stand in front of.
unfoldable pub named : Text → Parser Text
named what = when ident (λ t. table_name t.value >>= λ n. pure n.1) (expected what)

unfoldable pub names_in_parens : Parser (List Text)
names_in_parens = do u ← expect lparen; names ← repeat name_round []; v ← expect rparen; pure names

unfoldable pub column_list : Parser (List Text)
column_list =
    when lparen (λ _. do names ← repeat name_round []; u ← expect rparen; pure names) (pure [])

unfoldable pub leading_digits : Text → Text
leading_digits [] = []
leading_digits (x ∷ xs) =
    let rest = leading_digits xs in if leb b'0' x && leb x b'9' then x ∷ rest else []

unfoldable pub or_zero : Option ℕ → ℕ
or_zero none = 0
or_zero (some n) = n

-- Sscanf reads the digits in front, and nothing where they are no int64.
unfoldable pub scan_int : Text → ℕ
scan_int value = or_zero (parse_int (leading_digits value))

unfoldable pub scale_of_type : Parser ℕ
scale_of_type =
    when comma (λ _. when number (λ t. pure (scan_int t.value)) (expected (codes "expected scale")))
      (pure 0)

-- The length and the scale.
unfoldable pub type_size : Parser (ℕ × ℕ)
type_size =
    when lparen
      (λ _.
        when number
          (λ t. do scale ← scale_of_type; u ← expect rparen; pure (scan_int t.value, scale))
          (expected (codes "expected length")))
      (pure (0, 0))

unfoldable pub word_of : Text → Parser Text
word_of what = when ident (λ t. pure t.value) (when keyword (λ t. pure t.value) (expected what))

-- What a column may have.
unfoldable pub set_primary : ColumnDefinition → ColumnDefinition
set_primary c = record c { nullable = false; primary_key = true }

unfoldable pub set_nullable : Bool → ColumnDefinition → ColumnDefinition
set_nullable b c = record c { nullable = b }

unfoldable pub set_unique : ColumnDefinition → ColumnDefinition
set_unique c = record c { unique = true }

unfoldable pub set_default : Expression → ColumnDefinition → ColumnDefinition
set_default e c = record c { default = present e }

unfoldable pub set_auto_inc : ColumnDefinition → ColumnDefinition
set_auto_inc c = record c { auto_inc = true }

unfoldable pub set_references : Text → ColumnDefinition → ColumnDefinition
set_references table c = record c { references = table }

unfoldable pub plain_column : (name type : Text) → ℕ × ℕ → ColumnDefinition
plain_column name type sizes = record {
  name = name;
  type = type;
  size = sizes.0;
  scale = sizes.1;
  nullable = true;
  default = absent;
  auto_inc = false;
  primary_key = false;
  unique = false;
  references = [];
}

module _ (expression : Parser Expression) where
  unfoldable pub column_round : ColumnDefinition → Parser (Round ColumnDefinition ColumnDefinition)
  column_round c =
      when_keyword (codes "PRIMARY")
        (expect_keyword (codes "KEY") >>= λ _. pure (more (set_primary c)))
        (when_keyword (codes "NOT")
          (expect_keyword (codes "NULL") >>= λ _. pure (more (set_nullable false c)))
          (when_keyword (codes "NULL") (pure (more (set_nullable true c))) (
            when_keyword (codes "UNIQUE") (pure (more (set_unique c))) (
              when_keyword (codes "DEFAULT") (expression >>= λ e. pure (more (set_default e c))) (
                when_one keyword (codes "AUTO_INCREMENT" ∷ codes "AUTOINCREMENT" ∷ [])
                  (λ _. pure (more (set_auto_inc c)))
                  (when_keyword (codes "REFERENCES")
                    (name_of (codes "expected table name") >>= λ table.
                      pure (more (set_references table c)))
                    (pure (done c))))))))

  unfoldable pub parse_column_def : Parser ColumnDefinition
  parse_column_def = do
    name ← word_of (codes "expected column name")
    type ← word_of (codes "expected data type")
    sizes ← type_size
    repeat column_round (plain_column name type sizes)
