-- ===== src/Parser/Syntax.antt =====
-- parser/ast.go: expressions and SELECT statements.
use xxldb.Base.{ℕ, Bool, List}

-- Bytes of an identifier, an operator or a string.
abbrev pub Text : Type 0
Text = List ℕ

-- What a literal holds. A float64 is its bit pattern.
pub data Literal : Type 0 where
  null_value : Literal
  bool_value : Bool → Literal
  int_value : ℕ → Literal
  float_value : ℕ → Literal
  string_value : Text → Literal

mutual
  pub data Expression : Type 0 where
    literal : Literal → Expression
    column : (table name : Text) → Expression
    function : Text → Expressions → Expression
    unary : Text → Expression → Expression
    binary : Expression → Text → Expression → Expression
    case_of : MaybeExpression → Whens → MaybeExpression → Expression
    in_list : Expression → Expressions → Expression
    in_select : Expression → Select → Expression
    between : Expression → (low high : Expression) → Expression
    exists : Select → Expression
    subquery : Select → Expression
    star_of : Text → Expression
    match_against : (column query mode : Text) → (level : ℕ) → Expression

  pub data MaybeExpression : Type 0 where
    absent : MaybeExpression
    present : Expression → MaybeExpression

  pub data Expressions : Type 0 where
    no_expression : Expressions
    next_expression : Expression → Expressions → Expressions

  pub data Whens : Type 0 where
    no_when : Whens
    next_when : (condition result : Expression) → Whens → Whens

  -- `*` or `table.*`, or an expression with its alias.
  pub data Columns : Type 0 where
    no_column : Columns
    next_star : (table : Text) → Columns → Columns
    next_column : Expression → (alias : Text) → Columns → Columns

  pub data From : Type 0 where
    no_from : From
    from_table : (database table alias : Text) → From
    from_select : Select → (alias : Text) → From

  pub data Joins : Type 0 where
    no_join : Joins
    next_join :
        (type table alias : Text)
        → (on : MaybeExpression) → (using_columns : List Text) → Joins
        → Joins

  pub data Orders : Type 0 where
    no_order : Orders
    next_order : Expression → (direction : Text) → Orders → Orders

  pub data Selects : Type 0 where
    no_select : Selects
    next_select : Select → Selects → Selects

  pub data Select : Type 0 where
    select :
        (distinct : Bool)
        → Columns
        → From
        → Joins
        → (condition : MaybeExpression) → (group_by : List Text) → (having : MaybeExpression)
        → Orders
        → (limit offset : MaybeExpression) → (unions : Selects) → (union_all : Bool) → Select

-- The slices that the parser appends to, one item after another.
unfoldable pub append_expression : Expressions → Expression → Expressions
append_expression no_expression e = next_expression e no_expression
append_expression (next_expression d ds) e = next_expression d (append_expression ds e)

unfoldable pub append_when : Whens → Expression → Expression → Whens
append_when no_when c r = next_when c r no_when
append_when (next_when a b ws) c r = next_when a b (append_when ws c r)

-- An item of its own, as a list of one.
unfoldable pub append_columns : Columns → Columns → Columns
append_columns no_column ds = ds
append_columns (next_star t cs) ds = next_star t (append_columns cs ds)
append_columns (next_column e a cs) ds = next_column e a (append_columns cs ds)

unfoldable pub append_joins : Joins → Joins → Joins
append_joins no_join ks = ks
append_joins (next_join t n a o u js) ks = next_join t n a o u (append_joins js ks)

unfoldable pub append_order : Orders → Expression → Text → Orders
append_order no_order e d = next_order e d no_order
append_order (next_order f c os) e d = next_order f c (append_order os e d)

unfoldable pub append_select : Selects → Select → Selects
append_select no_select s = next_select s no_select
append_select (next_select r rs) s = next_select r (append_select rs s)
