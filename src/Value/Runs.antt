-- ===== src/Value/Runs.antt =====
-- types/types.go: Compare at concrete values.
use xxldb.Base.{ℕ, ◌≡◌, true, false, Option, none, some, List, [], ltb, arith, if◌then◌else◌}
use xxldb.Base.Text.{codes, same_bytes}
use xxldb.Value.{Runtime, new_int_value, new_string_value}
use xxldb.Value.Convert.{Library, opposite, compare}
use xxldb.Value.Order.{IsAsymmetric, compare-swap}

abbrev pub runtime : Runtime
runtime = record {
  u64_of_f64 = λ w. w;
  i64_of_f64 = λ w. w;
  f64_of_u64 = λ w. w;
  f64_of_f32 = λ w. w;
  sprint = λ d. [];
  checksum_ieee = λ bs. 0;
}

-- 2 and 10 are numbers.
abbrev pub read_float : List ℕ → Option ℕ
read_float s =
    if same_bytes s (codes "2") then some 2 else if same_bytes s (codes "10") then some 10 else none

-- Floats that stand for themselves.
abbrev pub library : Library
library = record {
  go = runtime;
  to_lower = λ s. s;
  f64_of_int = λ n. n;
  f64_of_unsigned = λ n. n;
  float_less = ltb;
  float_same = λ x y. if ltb x y then false else if ltb y x then false else true;
  parse_int = λ s. (0, false);
  parse_float = read_float;
  parse_time = λ layout s. none;
  before = ltb;
  format = λ layout t. [];
  sprint_string = λ d. [];
  sprint_whole = λ w. [];
}

pub ltb-IsAsymmetric : IsAsymmetric ltb
ltb-IsAsymmetric x y e = ground arith

compare-swap_example :
    compare library (new_string_value (codes "2")) (new_int_value 3)
    ≡ opposite (compare library (new_int_value 3) (new_string_value (codes "2")))
compare-swap_example =
    compare-swap library ltb-IsAsymmetric ltb-IsAsymmetric (new_int_value 3)
      (new_string_value (codes "2"))
