-- ===== src/Executor/Evaluate.antt =====
-- executor/executor.go: evalExpr on the trees of the parser. Scalar functions and MATCH ... AGAINST are
-- arguments, as are the float operations of Go.
use xxldb.Base.{
  ℕ, zero, suc, ◌-◌, ◌%◌, ◌^◌, Bool, true, false, not, ◌&&◌, ◌||◌, Option, none, some, List, [],
  ◌∷◌, ◌++◌, ◌==◌, get_or, if◌then◌else◌, length, drop,
}
use xxldb.Base.Text.{codes, same_bytes, is_one_of}
use xxldb.Base.Utf8.{decode_rune}
use xxldb.Executor.Like.{match_like}
use xxldb.Parser.Syntax.{
  Text, Literal, null_value, bool_value, int_value, float_value, string_value, Expression, literal,
  column, function, unary, binary, case_of, in_list, in_select, between, exists, subquery, star_of,
  match_against, MaybeExpression, absent, present, Expressions, no_expression, next_expression,
  Whens, no_when, next_when,
}
use xxldb.Value.DataType
use xxldb.Value.{
  Value, plain, bool, new_null_value, new_int_value, new_float_value, new_string_value,
  new_bool_value,
}
use xxldb.Value.Convert.{
  Library, Sign, less, greater, to_string, to_int64, to_float64, to_bool, compare, equals,
}

abbrev pub Row : Type 0
Row = List Value

-- The positions of the columns by their names in lower case, the last of a name first.
abbrev pub ColumnIndex : Type 0
ColumnIndex = List (Text × ℕ)

-- A name that the map lacks is answered with 0.
unfoldable pub index_of : ColumnIndex → Text → ℕ
index_of [] name = 0
index_of (e ∷ es) name = let rest = index_of es name in if same_bytes e.0 name then e.1 else rest

-- What evaluation takes from elsewhere.
pub record Engine : Type 0 where
  pub lib : Library
  pub float_add : ℕ → ℕ → ℕ
  pub float_subtract : ℕ → ℕ → ℕ
  pub float_multiply : ℕ → ℕ → ℕ
  pub float_divide : ℕ → ℕ → ℕ
  pub float_negate : ℕ → ℕ
  pub call : Text → List Value → Option Value
  pub system_variable : Text → Value
  pub match_against : (column query : Text) → (level : ℕ) → Row → ℕ → Value

unfoldable pub value_of : Literal → Value
value_of null_value = new_null_value
value_of (bool_value b) = plain DataType.int (bool b)
value_of (int_value n) = new_int_value n
value_of (float_value w) = new_float_value w
value_of (string_value s) = new_string_value s

-- The `[]rune` of a string, on fuel for its bytes.
unfoldable pub runes_of : ℕ → List ℕ → List ℕ
runes_of zero bs = []
runes_of (suc fuel) [] = []
runes_of (suc fuel) (b ∷ bs) =
    let (r, width) = decode_rune (b ∷ bs) in r ∷ runes_of fuel (drop width (b ∷ bs))

unfoldable pub runes : List ℕ → List ℕ
runes bs = runes_of (length bs) bs

unfoldable pub or_null : Option Value → Value
or_null none = new_null_value
or_null (some v) = v

unfoldable pub is_less : Sign → Bool
is_less less = true
is_less s = false

unfoldable pub is_greater : Sign → Bool
is_greater greater = true
is_greater s = false

unfoldable pub begins_with : Text → Text → Bool
begins_with [] cs = true
begins_with (p ∷ ps) [] = false
begins_with (p ∷ ps) (c ∷ cs) = p == c && begins_with ps cs

module _ (engine : Engine) where
  unfoldable pub eval_like : Value → Value → Value
  eval_like left right =
      new_bool_value
        (match_like (runes (to_string engine.lib right)) (runes (to_string engine.lib left)))

  -- The result of an operation on floats, as an int64 where both operands were of the type INT.
  unfoldable pub number_of : (left right : Value) → ℕ → Value
  number_of left right w =
      if left.type == DataType.int && right.type == DataType.int
      then new_int_value (engine.lib.go.i64_of_f64 w)
      else new_float_value w

  unfoldable pub arithmetic_of : (left right : Value) → Text → ℕ → ℕ → Value
  arithmetic_of left right op x y =
      if same_bytes op (codes "+")
      then number_of left right (engine.float_add x y)
      else if same_bytes op (codes "-")
      then number_of left right (engine.float_subtract x y)
      else if same_bytes op (codes "*")
      then number_of left right (engine.float_multiply x y)
      else if same_bytes op (codes "/") && not (engine.lib.float_same y 0)
      then number_of left right (engine.float_divide x y)
      else new_null_value

  unfoldable pub arithmetic_on : (left right : Value) → Text → Option ℕ → Option ℕ → Value
  arithmetic_on left right op (some x) (some y) = arithmetic_of left right op x y
  arithmetic_on left right op x y = new_null_value

  unfoldable pub eval_arithmetic : (left right : Value) → Text → Value
  eval_arithmetic left right op =
      arithmetic_on left right op (to_float64 engine.lib left) (to_float64 engine.lib right)

  unfoldable pub eval_binary_op : Text → (left right : Value) → Value
  eval_binary_op op left right =
      if same_bytes op (codes "=")
      then new_bool_value (equals engine.lib left right)
      else if is_one_of op (codes "<>" ∷ codes "!=" ∷ [])
      then new_bool_value (not (equals engine.lib left right))
      else if same_bytes op (codes "<")
      then new_bool_value (is_less (compare engine.lib left right))
      else if same_bytes op (codes ">")
      then new_bool_value (is_greater (compare engine.lib left right))
      else if same_bytes op (codes "<=")
      then new_bool_value (not (is_greater (compare engine.lib left right)))
      else if same_bytes op (codes ">=")
      then new_bool_value (not (is_less (compare engine.lib left right)))
      else if same_bytes op (codes "AND")
      then new_bool_value (to_bool engine.lib left && to_bool engine.lib right)
      else if same_bytes op (codes "OR")
      then new_bool_value (to_bool engine.lib left || to_bool engine.lib right)
      else if same_bytes op (codes "LIKE")
      then eval_like left right
      else if is_one_of op (codes "+" ∷ codes "-" ∷ codes "*" ∷ codes "/" ∷ [])
      then eval_arithmetic left right op
      else if same_bytes op (codes "||")
      then new_string_value (to_string engine.lib left ++ to_string engine.lib right)
      else new_null_value

  unfoldable pub negated_float : Option ℕ → Value
  negated_float none = new_null_value
  negated_float (some w) = new_float_value (engine.float_negate w)

  unfoldable pub negated : Value → ℕ × Bool → Value
  negated v (n, true) = new_int_value ((2 ^ 64 - n) % 2 ^ 64)
  negated v (n, false) = negated_float (to_float64 engine.lib v)

  unfoldable pub eval_unary_op : Text → Value → Value
  eval_unary_op op v =
      if same_bytes op (codes "NOT")
      then new_bool_value (not (to_bool engine.lib v))
      else if same_bytes op (codes "-")
      then negated v (to_int64 engine.lib v)
      else if same_bytes op (codes "+")
      then v
      else new_null_value

  unfoldable pub eval_column : ColumnIndex → Row → Text → Value
  eval_column index row name =
      if begins_with (codes "@@") name
      then engine.system_variable name
      else get_or row (index_of index (engine.lib.to_lower name)) new_null_value

  unfoldable pub is_between : (value lower upper : Value) → Bool
  is_between v lower upper =
      not (is_less (compare engine.lib v lower)) && not (is_greater (compare engine.lib v upper))

module _ (engine : Engine) (index : ColumnIndex) (row : Row) (id : ℕ) where
  -- The list of an IN with a SELECT is empty, and the operand of a CASE is not looked at.
  unfoldable mutual
    pub eval_expr : Expression → Value
    eval_expr (literal l) = value_of l
    eval_expr (column table name) = eval_column engine index row name
    eval_expr (function name args) = or_null (engine.call name (eval_all args))
    eval_expr (unary op e) = eval_unary_op engine op (eval_expr e)
    eval_expr (binary e op f) = eval_binary_op engine op (eval_expr e) (eval_expr f)
    eval_expr (case_of operand whens otherwise) = eval_case whens (eval_else otherwise)
    eval_expr (in_list e items) = new_bool_value (eval_in (eval_expr e) items)
    eval_expr (in_select e s) = new_bool_value false
    eval_expr (between e low high) =
        new_bool_value (is_between engine (eval_expr e) (eval_expr low) (eval_expr high))
    eval_expr (match_against name query mode level) = engine.match_against name query level row id
    eval_expr (exists s) = new_null_value
    eval_expr (subquery s) = new_null_value
    eval_expr (star_of table) = new_null_value

    pub eval_all : Expressions → List Value
    eval_all no_expression = []
    eval_all (next_expression e es) = eval_expr e ∷ eval_all es

    pub eval_in : Value → Expressions → Bool
    eval_in v no_expression = false
    eval_in v (next_expression e es) = equals engine.lib v (eval_expr e) || eval_in v es

    pub eval_case : Whens → Value → Value
    eval_case no_when otherwise = otherwise
    eval_case (next_when condition result whens) otherwise =
        let rest = eval_case whens otherwise in
        if to_bool engine.lib (eval_expr condition) then eval_expr result else rest

    pub eval_else : MaybeExpression → Value
    eval_else absent = new_null_value
    eval_else (present e) = eval_expr e

  unfoldable pub eval_bool : Expression → Bool
  eval_bool e = to_bool engine.lib (eval_expr e)
