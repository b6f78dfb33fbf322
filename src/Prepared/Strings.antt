-- ===== src/Prepared/Strings.antt =====
-- mysql/server.go and parser/lexer.go: a string parameter in the query is one string token again.
use xxldb.Base.{
  ℕ, ◌+◌, ◌≡◌, ◌≢◌, refl, Bool, true, not, ◌&&◌, some, List, [], ◌∷◌, ◌++◌, ◌==◌, length, arith,
  append_assoc,
}
use xxldb.Lexer.{string, next_token, peek}
use xxldb.Lexer.Literals.{quoted, is_quote, AllPlain, next_token-quoted}
use xxldb.Prepared.{
  string_param, double_quotes, replace_first, replacement_of, replace_placeholders,
}

-- No text has the byte.
unfoldable pub lacks : ℕ → List ℕ → Bool
lacks b [] = true
lacks b (x ∷ xs) = not (x == b) && lacks b xs

double_quotes-quoted : (s : List ℕ) → lacks b'\\' s ≡ true → double_quotes s ≡ quoted b'\'' s
unfolding double_quotes quoted lacks
double_quotes-quoted [] h = refl
double_quotes-quoted (x ∷ xs) h = ground (arith, double_quotes-quoted xs, h)

replace_first-append :
    (r before behind : List ℕ)
    → lacks b'?' before ≡ true
    → replace_first r (before ++ b'?' ∷ behind) ≡ before ++ (r ++ behind)
unfolding replace_first lacks
replace_first-append r [] behind h = refl
replace_first-append r (x ∷ xs) behind h = ground (arith, replace_first-append r xs behind, h)

-- Where there is one parameter, a string of ASCII characters without NUL and without a backslash: it
-- is put in the place of the first question mark, and where no quote follows that mark, NextToken
-- reads it there as one string token with its value.
pub next_token-replace_placeholders :
    (format_float : ℕ → List ℕ) (before behind s : List ℕ)
    → lacks b'?' before ≡ true
    → lacks b'\\' s ≡ true
    → AllPlain s
    → ((n : ℕ) → peek (record { pos = n; rest = behind }) ≢ b'\'')
    → (replace_placeholders format_float (before ++ b'?' ∷ behind) (string_param s ∷ [])
        ≡ before ++ (replacement_of format_float (string_param s) ++ behind))
      × (next_token (record {
        pos = length before;
        rest = replacement_of format_float (string_param s) ++ behind;
      })
          ≡ some (
            record { type = string; value = s; pos = length before },
            record { pos = length before + length (double_quotes s) + 2; rest = behind },
          ))
unfolding replace_placeholders replacement_of is_quote
next_token-replace_placeholders format_float before behind s b k p q = (
  replace_first-append _ before behind b,
  rw (append_assoc (double_quotes s) (b'\'' ∷ []) behind, double_quotes-quoted s k)
      (next_token-quoted b'\'' (length before) s behind refl p q),
)
