-- ===== src/Executor/Runs.antt =====
-- executor/executor.go: the theorems at concrete rows.
use xxldb.Base.{ℕ, ◌≡◌, ◌↔◌, true, false, none, List, [], ◌∷◌, All, map}
use xxldb.Base.Text.{codes, is_one_of}
use xxldb.Executor.Distinct.{NoRepeats, keys, distinct_rows-keys}
use xxldb.Executor.Evaluate.{ColumnIndex, Engine, eval_bool}
use xxldb.Executor.Like.{Likes, item_of, match_like, match_like_iff}
use xxldb.Executor.Rows.{ResultRow, row_key, should_swap, sort_rows, distinct_rows}
use xxldb.Executor.Sorted.{Linked, sort_rows-Linked}
use xxldb.Executor.Truth.{any_equal, eval_bool-in_list}
use xxldb.Parser.Syntax.{
  Expression, literal, column, in_list, int_value, Expressions, no_expression, next_expression,
  Orders, no_order, next_order,
}
use xxldb.Value.{new_int_value, new_null_value}
use xxldb.Value.Runs.{library, ltb-IsAsymmetric}
use mathlib.Core.List.{Perm}

abbrev engine : Engine
engine = record {
  lib = library;
  float_add = λ x y. x;
  float_subtract = λ x y. x;
  float_multiply = λ x y. x;
  float_divide = λ x y. x;
  float_negate = λ x. x;
  call = λ name values. none;
  system_variable = λ name. new_null_value;
  match_against = λ name query level row id. new_null_value;
}

abbrev index : ColumnIndex
index = (codes "a", 0) ∷ (codes "b", 1) ∷ []

abbrev row : ℕ → ℕ → ResultRow
row id n = record { id = id; values = new_int_value n ∷ new_null_value ∷ [] }

abbrev rows : List ResultRow
rows = row 1 3 ∷ row 2 1 ∷ row 3 3 ∷ []

abbrev column_a : Expression
column_a = column [] (codes "a")

abbrev by_a : Orders
by_a = next_order column_a (codes "DESC") no_order

abbrev items : Expressions
items =
    next_expression (literal (int_value 2)) (next_expression (literal (int_value 3)) no_expression)

eval_bool-in_list_example :
    eval_bool engine index (row 1 3).values 1 (in_list column_a items)
    ≡ eval_bool engine index (row 1 3).values 1 (any_equal column_a items)
eval_bool-in_list_example = eval_bool-in_list engine index (row 1 3).values 1 column_a items

match_like_iff_example :
    (match_like (codes "a_%c") (codes "abbc") ≡ true)
    ↔ Likes (map item_of (codes "a_%c")) (codes "abbc")
unfolding codes
match_like_iff_example =
    match_like_iff (codes "a_%c") (codes "abbc")
      ((λ e. cc), ((λ e. cc), ((λ e. cc), ((λ e. cc), _))))

sort_rows-Linked_example :
    Perm (sort_rows engine index by_a rows) rows
    × Linked (λ r s. should_swap engine index by_a r s ≡ false) (sort_rows engine index by_a rows)
sort_rows-Linked_example = sort_rows-Linked engine index by_a ltb-IsAsymmetric ltb-IsAsymmetric rows

distinct_rows-keys_example :
    NoRepeats (keys library (distinct_rows library rows))
    × All
        (λ r.
          is_one_of (row_key library r.values) (keys library (distinct_rows library rows)) ≡ true)
        rows
distinct_rows-keys_example = distinct_rows-keys library rows

abbrev whole : ℕ → Expression
whole n = literal (int_value n)
