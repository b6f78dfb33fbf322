-- ===== src/Executor/Rows.antt =====
-- executor/executor.go: the rows of a SELECT without groups and aggregates: filterRows, sortRows, LIMIT and
-- OFFSET, the projection and distinctRows.
use xxldb.Base.{
  ℕ, ◌^◌, Bool, true, false, not, Option, none, some, List, [], ◌∷◌, ◌++◌, ltb, get_or,
  if◌then◌else◌, length, take, drop, map,
}
use xxldb.Base.Text.{codes, same_bytes, is_one_of}
use xxldb.Executor.Evaluate.{Row, ColumnIndex, index_of, Engine, eval_expr, eval_bool}
use xxldb.Parser.Syntax.{
  Text, Expression, column, MaybeExpression, absent, present, Columns, no_column, next_star,
  next_column, Orders, no_order, next_order,
}
use xxldb.Value.DataType
use xxldb.Value.{Value, plain, nil}
use xxldb.Value.Convert.{Library, Sign, less, same, greater, to_string, to_int64, compare}

pub record ResultRow : Type 0 where
  pub id : ℕ
  pub values : Row

-- The Value that a `var` declares.
abbrev pub zero_value : Value
zero_value = plain DataType.unknown nil

unfoldable pub reverse_onto : List ResultRow → List ResultRow → List ResultRow
reverse_onto [] done = done
reverse_onto (r ∷ rs) done = reverse_onto rs (r ∷ done)

-- Whether a comparison that is not a tie puts the rows the other way round.
unfoldable pub swaps : Text → Sign → Bool → Bool
swaps direction same rest = rest
swaps direction less rest = same_bytes direction (codes "DESC")
swaps direction greater rest = not (same_bytes direction (codes "DESC"))

-- `rows[:n]` for an int64; `none` is the slice out of range.
unfoldable pub limit_rows : ℕ → List ResultRow → Option (List ResultRow)
limit_rows n rows =
    if ltb n (2 ^ 63) then some (if ltb n (length rows) then take n rows else rows) else none

unfoldable pub offset_rows : ℕ → List ResultRow → Option (List ResultRow)
offset_rows n rows =
    if ltb n (2 ^ 63) then some (if ltb n (length rows) then drop n rows else []) else none

module _ (lib : Library) where
  unfoldable pub row_key : Row → Text
  row_key [] = []
  row_key (v ∷ vs) = to_string lib v ++ (codes "|" ++ row_key vs)

  unfoldable pub distinct_from : List Text → List ResultRow → List ResultRow
  distinct_from seen [] = []
  distinct_from seen (r ∷ rs) =
      let key = row_key r.values in
      let others = distinct_from seen rs in
      let rest = distinct_from (key ∷ seen) rs in if is_one_of key seen then others else r ∷ rest

  unfoldable pub distinct_rows : List ResultRow → List ResultRow
  distinct_rows rows = distinct_from [] rows

module _ (engine : Engine) (index : ColumnIndex) where
  unfoldable pub filter_rows : Expression → List ResultRow → List ResultRow
  filter_rows condition [] = []
  filter_rows condition (r ∷ rs) =
      let rest = filter_rows condition rs in
      if eval_bool engine index r.values r.id condition then r ∷ rest else rest

  unfoldable pub order_value : Expression → ResultRow → Value
  order_value (column table name) r =
      get_or r.values (index_of index (engine.lib.to_lower name)) zero_value
  order_value e r = eval_expr engine index r.values r.id e

  unfoldable pub should_swap : Orders → ResultRow → ResultRow → Bool
  should_swap no_order r s = false
  should_swap (next_order e direction os) r s =
      swaps direction (compare engine.lib (order_value e r) (order_value e s)) (should_swap os r s)

  -- The inner loop: the sorted part stands with its last row first, and the new row moves down.
  unfoldable pub sink_row : Orders → ResultRow → List ResultRow → List ResultRow
  sink_row os x [] = x ∷ []
  sink_row os x (r ∷ rs) =
      let rest = sink_row os x rs in if should_swap os r x then r ∷ rest else x ∷ r ∷ rs

  unfoldable pub sink_rows : Orders → List ResultRow → List ResultRow → List ResultRow
  sink_rows os [] done = done
  sink_rows os (x ∷ xs) done = sink_rows os xs (sink_row os x done)

  unfoldable pub sort_rows : Orders → List ResultRow → List ResultRow
  sort_rows os rows = reverse_onto (sink_rows os rows []) []

  -- A star has no expression: its Value is the zero one.
  unfoldable pub project : Columns → ResultRow → Row
  project no_column r = []
  project (next_star table cs) r = zero_value ∷ project cs r
  project (next_column e alias cs) r = eval_expr engine index r.values r.id e ∷ project cs r

  unfoldable pub begins_with_expression : Columns → Bool
  begins_with_expression (next_column e alias cs) = true
  begins_with_expression cs = false

  unfoldable pub project_rows : Columns → List ResultRow → List ResultRow
  project_rows cs rows =
      if begins_with_expression cs
      then map (λ r. record { id = r.id; values = project cs r }) rows
      else rows

  -- evalInt.
  unfoldable pub eval_int : Expression → ℕ
  eval_int e = (to_int64 engine.lib (eval_expr engine [] [] 0 e)).0

  unfoldable pub limited :
      (ℕ → List ResultRow → Option (List ResultRow))
      → MaybeExpression
      → Option (List ResultRow)
      → Option (List ResultRow)
  limited cut e none = none
  limited cut absent (some rows) = some rows
  limited cut (present e) (some rows) = cut (eval_int e) rows

  unfoldable pub filtered : MaybeExpression → List ResultRow → List ResultRow
  filtered absent rows = rows
  filtered (present e) rows = filter_rows e rows

  unfoldable pub finish : Bool → Columns → Option (List ResultRow) → Option (List ResultRow)
  finish distinct cs none = none
  finish distinct cs (some rows) =
      let projected = project_rows cs rows in
      some (if distinct then distinct_rows engine.lib projected else projected)

  -- executeSelect behind the read of the table, without GROUP BY, aggregates and UNION.
  unfoldable pub select_rows :
      Bool
      → Columns
      → MaybeExpression
      → Orders
      → (limit offset : MaybeExpression) → List ResultRow
      → Option (List ResultRow)
  select_rows distinct cs condition os limit offset rows = finish distinct cs (
      limited offset_rows offset
        (limited limit_rows limit (some (sort_rows os (filtered condition rows)))))
