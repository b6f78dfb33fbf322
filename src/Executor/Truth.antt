-- ===== src/Executor/Truth.antt =====
-- executor/executor.go, evalExpr: what conditions are true of a row.
use xxldb.Base.{ℕ, ◌≡◌, refl, ◌∙◌, sym, Bool, true, false}
use xxldb.Base.Text.{codes, same_bytes, is_one_of}
use xxldb.Executor.Evaluate.{
  Row, ColumnIndex, Engine, value_of, eval_binary_op, is_between, eval_expr, eval_in, eval_bool,
}
use xxldb.Parser.Syntax.{
  bool_value, Expression, literal, binary, in_list, between, Expressions, no_expression,
  next_expression,
}
use xxldb.Value.{new_bool_value}
use xxldb.Value.Convert.{to_bool, payload_to_bool, Library}

module _ (lib : Library) where
  to_bool-new_bool_value : (b : Bool) → to_bool lib (new_bool_value b) ≡ b
  unfolding to_bool payload_to_bool
  to_bool-new_bool_value true = refl
  to_bool-new_bool_value false = refl

  false_literal : to_bool lib (value_of (bool_value false)) ≡ false
  unfolding to_bool payload_to_bool value_of
  false_literal = refl

-- `e = a OR e = b OR ... OR FALSE`.
unfoldable pub any_equal : Expression → Expressions → Expression
any_equal e no_expression = literal (bool_value false)
any_equal e (next_expression f fs) = binary (binary e (codes "=") f) (codes "OR") (any_equal e fs)

module _ (engine : Engine) (index : ColumnIndex) (row : Row) (id : ℕ) where
  -- BETWEEN holds where `>=` and `<=` do.
  eval_bool-between :
      (e low high : Expression)
      → eval_bool engine index row id (between e low high)
        ≡ eval_bool engine index row id
            (binary (binary e (codes ">=") low) (codes "AND") (binary e (codes "<=") high))
  unfolding eval_bool eval_expr eval_binary_op same_bytes is_one_of codes is_between
  eval_bool-between e low high = simp (to_bool-new_bool_value)

  eval_bool-any_equal :
      (e : Expression) (items : Expressions)
      → eval_bool engine index row id (any_equal e items)
        ≡ eval_in engine index row id (eval_expr engine index row id e) items
  unfolding eval_bool eval_expr eval_binary_op same_bytes is_one_of codes any_equal
  eval_bool-any_equal e no_expression = false_literal engine.lib
  eval_bool-any_equal e (next_expression f fs) =
      simp (to_bool-new_bool_value, eval_bool-any_equal e fs)

  -- IN holds where `=` does for one item of the list.
  pub eval_bool-in_list :
      (e : Expression) (items : Expressions)
      → eval_bool engine index row id (in_list e items)
        ≡ eval_bool engine index row id (any_equal e items)
  unfolding eval_bool eval_expr
  eval_bool-in_list e items =
      to_bool-new_bool_value engine.lib _ ∙ sym (eval_bool-any_equal e items)
