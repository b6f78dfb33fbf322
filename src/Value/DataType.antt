-- ===== src/Value/DataType.antt =====
-- types/types.go: the constants of DataType.
use xxldb.Base.{ℕ}

abbrev pub unknown : ℕ
unknown = 0

abbrev pub null : ℕ
null = 1

abbrev pub seq : ℕ
seq = 2

abbrev pub int : ℕ
int = 3

abbrev pub float : ℕ
float = 4

abbrev pub char : ℕ
char = 5

abbrev pub varchar : ℕ
varchar = 6

abbrev pub text : ℕ
text = 7

abbrev pub date : ℕ
date = 8

abbrev pub time : ℕ
time = 9

abbrev pub datetime : ℕ
datetime = 10

abbrev pub blob : ℕ
blob = 11

abbrev pub file : ℕ
file = 12

abbrev pub image : ℕ
image = 13
