-- ===== src/Prepared/Runs.antt =====
-- mysql/server.go: the theorems on prepared statements at concrete inputs.
use xxldb.Base.{ℕ, ◌+◌, ◌≡◌, refl, some, List, [], ◌∷◌, ◌++◌, length, arith}
use xxldb.Base.Text.{codes}
use xxldb.Lexer.{string, next_token, peek, peek_rune}
use xxldb.Lexer.Literals.{AllPlain}
use xxldb.Prepared.{
  string_param, double_quotes, replacement_of, replace_first, replace_placeholders,
}
use xxldb.Prepared.Strings.{lacks, next_token-replace_placeholders}

abbrev no_float : ℕ → List ℕ
no_float f = []

next_token-replace_placeholders_example :
    (replace_placeholders no_float (codes "SELECT " ++ b'?' ∷ []) (string_param (codes "it's") ∷ [])
      ≡ codes "SELECT " ++ (replacement_of no_float (string_param (codes "it's")) ++ []))
    × (next_token (record {
      pos = length (codes "SELECT ");
      rest = replacement_of no_float (string_param (codes "it's")) ++ [];
    })
        ≡ some (
          record { type = string; value = codes "it's"; pos = length (codes "SELECT ") },
          record {
            pos = length (codes "SELECT ") + length (double_quotes (codes "it's")) + 2;
            rest = [];
          },
        ))
unfolding lacks AllPlain codes peek peek_rune
next_token-replace_placeholders_example =
    next_token-replace_placeholders no_float (codes "SELECT ") [] (codes "it's") refl refl
      (ground arith) (λ n e. cc e)

-- The quote behind a backslash: the text is spliced as `'\''`, whose second quote is escaped.
escaped :
    replace_placeholders no_float (codes "?") (string_param (codes "\\' OR 1") ∷ [])
    ≡ codes "'\\'' OR 1'"
unfolding replace_placeholders replace_first replacement_of double_quotes codes
escaped = refl
