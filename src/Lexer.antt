-- ===== src/Lexer.antt =====
-- parser/lexer.go: the lexer. Its input is a list of bytes; `rest` is the input from `pos` on, so
-- that input[start:pos] is what was taken off since `start`.
pub mod Keywords
pub mod Moves
pub mod Loops
pub mod Scanners
pub mod Total
pub mod Tokens
pub mod Tokenize
pub mod Literals
mod Runs
use xxldb.Base.{
  ℕ, zero, suc, ◌+◌, ◌-◌, Bool, true, false, not, ◌&&◌, ◌||◌, Option, none, some, List, [], ◌∷◌,
  ◌++◌, ltb, leb, ◌==◌, if◌then◌else◌, length, take, drop,
}
use xxldb.Base.Loop.{Round, done, more, run}
use xxldb.Base.Text.{codes, is_one_of, to_upper}
use xxldb.Base.Utf8.{decode_rune, encode_rune, is_space}
use xxldb.Lexer.Keywords.{keywords}

infixl 5 ◌>>=◌
abbrev pub ◌>>=◌ {ℓ κ} : {A : Type ℓ} {B : Type κ} → Option A → (A → Option B) → Option B
none >>= f = none
some a >>= f = f a

pub data TokenType : Type 0 where
  eof error ident number string keyword operator comma lparen rparen lbracket rbracket semicolon dot
        star parameter :
      TokenType

pub record Token : Type 0 where
  pub type : TokenType
  pub value : List ℕ
  pub pos : ℕ

pub record Lexer : Type 0 where
  pub pos : ℕ
  pub rest : List ℕ

unfoldable pub new_lexer : List ℕ → Lexer
new_lexer input = record { pos = 0; rest = input }

-- 0 stands for the end of the input, too.
unfoldable pub peek_rune : List ℕ → ℕ
peek_rune [] = 0
peek_rune (b ∷ bs) = (decode_rune (b ∷ bs)).0

unfoldable pub peek : Lexer → ℕ
unfolding peek_rune
peek l = peek_rune l.rest

-- How far the next rune reaches.
unfoldable pub width : List ℕ → ℕ
width [] = 0
width (b ∷ bs) = (decode_rune (b ∷ bs)).1

unfoldable pub next : Lexer → Lexer
unfolding width
next l = record { pos = l.pos + width l.rest; rest = drop (width l.rest) l.rest }

unfoldable pub peek_at : ℕ → Lexer → ℕ
unfolding peek next
peek_at zero l = peek l
peek_at (suc offset) l = peek_at offset (next l)

abbrev pub since : Lexer → Lexer → List ℕ
since start l = take (l.pos - start.pos) start.rest

abbrev pub fuel_of : Lexer → ℕ
fuel_of l = suc (length l.rest)

unfoldable pub is_letter : ℕ → Bool
is_letter r = (leb b'a' r && leb r b'z') || (leb b'A' r && leb r b'Z')

unfoldable pub is_digit : ℕ → Bool
is_digit r = leb b'0' r && leb r b'9'

-- The loops that take runes of one kind.
unfoldable pub take_one : (ℕ → Bool) → Lexer → Round Lexer Lexer
take_one p l = if p (peek l) then more (next l) else done l

unfoldable pub skip_while : (ℕ → Bool) → Lexer → Option Lexer
skip_while p l = run (take_one p) (fuel_of l) l

unfoldable pub is_ident_part : ℕ → Bool
is_ident_part r = is_letter r || is_digit r || r == b'_'

unfoldable pub is_variable_part : ℕ → Bool
is_variable_part r = is_letter r || is_digit r || r == b'_' || r == b'.'

unfoldable pub is_line_part : ℕ → Bool
is_line_part r = not (r == 0 || r == 10)

unfoldable pub token_from : Lexer → TokenType → List ℕ → Token
token_from start type value = record { type = type; value = value; pos = start.pos }

-- A token, and the lexer behind it.
abbrev pub Scanned : Type 0
Scanned = Token × Lexer

unfoldable pub word : List ℕ → Lexer → Token
word value start =
    if is_one_of (to_upper value) keywords
    then token_from start keyword (to_upper value)
    else token_from start ident value

unfoldable pub scan_ident_or_keyword : Lexer → Option Scanned
scan_ident_or_keyword start = do
  l ← skip_while is_ident_part start
  some (word (since start l) start, l)

unfoldable pub skip_sign : Lexer → Lexer
skip_sign l = if peek l == b'+' || peek l == b'-' then next l else l

-- hasDot, hasExp, and where the lexer is.
abbrev pub NumberState : Type 0
NumberState = Bool × Bool × Lexer

unfoldable pub number_round : NumberState → Round NumberState Lexer
number_round (has_dot, has_exp, l) =
    let r = peek l in
    if is_digit r
    then more (has_dot, has_exp, next l)
    else if r == b'.' && not has_dot && not has_exp
    then more (true, has_exp, next l)
    else if (r == b'e' || r == b'E') && not has_exp
    then more (has_dot, true, skip_sign (next l))
    else done l

unfoldable pub scan_number : Lexer → Option Scanned
scan_number start = do
  l ← run number_round (fuel_of start) (false, false, start)
  some (token_from start number (since start l), l)

-- What an escape stands for: `\n`, `\t`, `\r`, the backslash and the quote, or itself.
unfoldable pub escape : ℕ → ℕ → List ℕ
escape quote escaped =
    if escaped == b'n'
    then 10 ∷ []
    else if escaped == b't'
    then 9 ∷ []
    else if escaped == b'r'
    then 13 ∷ []
    else if escaped == b'\\'
    then b'\\' ∷ []
    else if escaped == quote
    then encode_rune quote
    else b'\\' ∷ encode_rune escaped

-- What the string holds so far, and where the lexer is.
abbrev pub StringState : Type 0
StringState = List ℕ × Lexer

unfoldable pub after_quote : ℕ → Lexer → List ℕ → Lexer → Round StringState Scanned
after_quote quote start sb l =
    if peek l == quote
    then more (sb ++ encode_rune quote, next l)
    else done (token_from start string sb, l)

unfoldable pub after_backslash : ℕ → Lexer → List ℕ → Lexer → Round StringState Scanned
after_backslash quote start sb l =
    if peek l == 0
    then done (token_from start error (codes "unterminated escape sequence"), l)
    else more (sb ++ escape quote (peek l), next l)

unfoldable pub string_round : ℕ → Lexer → StringState → Round StringState Scanned
string_round quote start (sb, l) =
    let r = peek l in
    if r == 0
    then done (token_from start error (codes "unterminated string"), l)
    else if r == quote
    then after_quote quote start sb (next l)
    else if r == b'\\'
    then after_backslash quote start sb (next l)
    else more (sb ++ encode_rune r, next l)

unfoldable pub scan_string : Lexer → Option Scanned
scan_string start = run (string_round (peek start) start) (fuel_of start) ([], next start)

unfoldable pub backtick_round : Lexer → StringState → Round StringState Scanned
backtick_round start (sb, l) =
    let r = peek l in
    if r == 0
    then done (token_from start error (codes "unterminated backtick identifier"), l)
    else if r == b'`'
    then done (token_from start ident sb, next l)
    else more (sb ++ encode_rune r, next l)

unfoldable pub scan_backtick_ident : Lexer → Option Scanned
scan_backtick_ident start = run (backtick_round start) (fuel_of start) ([], next start)

unfoldable pub scan_parameter : Lexer → Option Scanned
scan_parameter start = do
  l ← skip_while is_digit (next start)
  if ltb (next start).pos l.pos
      then some (token_from start parameter (since start l), l)
      else some (token_from start ident (codes "$"), l)

-- One rune, or two where the second is this one.
unfoldable pub operator_with : Lexer → List ℕ → Scanned
operator_with start value = (token_from start operator value, next start)

unfoldable pub longer_operator : Lexer → List ℕ → Scanned
longer_operator start value = (token_from start operator value, next (next start))

unfoldable pub less_operator : ℕ → Lexer → Scanned
less_operator r start =
    if r == b'='
    then longer_operator start (codes "<=")
    else if r == b'>'
    then longer_operator start (codes "<>")
    else if r == b'<'
    then longer_operator start (codes "<<")
    else operator_with start (codes "<")

unfoldable pub greater_operator : ℕ → Lexer → Scanned
greater_operator r start =
    if r == b'='
    then longer_operator start (codes ">=")
    else if r == b'>'
    then longer_operator start (codes ">>")
    else operator_with start (codes ">")

unfoldable pub scan_operator : Lexer → Scanned
scan_operator start =
    let r = peek start in
    let second = peek (next start) in
    if r == b'<'
    then less_operator second start
    else if r == b'>'
    then greater_operator second start
    else if r == b'!' && second == b'='
    then longer_operator start (codes "!=")
    else if r == b'|' && second == b'|'
    then longer_operator start (codes "||")
    else operator_with start (encode_rune r)

unfoldable pub skip_at : Lexer → Lexer
skip_at l = if peek l == b'@' then next l else l

unfoldable pub scan_system_variable : Lexer → Option Scanned
scan_system_variable start = do
  l ← skip_while is_variable_part (skip_at (next start))
  some (token_from start ident (since start l), l)

unfoldable pub block_round : Lexer → Round Lexer Lexer
block_round l =
    if peek l == 0
    then done l
    else if peek l == b'*' && peek_at 1 l == b'/'
    then done (next (next l))
    else more (next l)

unfoldable pub skip_block_comment : Lexer → Option Lexer
skip_block_comment l = run block_round (fuel_of l) (next (next l))

-- Where a comment was skipped, NextToken starts again.
abbrev pub Outcome : Type 0
Outcome = Option (Round Lexer Scanned)

unfoldable pub found : Option Scanned → Outcome
found o = o >>= λ s. some (done s)

unfoldable pub again : Option Lexer → Outcome
again o = o >>= λ l. some (more l)

unfoldable pub one_rune : TokenType → List ℕ → Lexer → Outcome
one_rune type value start = some (done (token_from start type value, next start))

unfoldable pub scan_star : Lexer → Outcome
scan_star l =
    if peek_at 1 l == b'/' then some (more (next (next l))) else one_rune star (codes "*") l

unfoldable pub scan_slash : Lexer → Outcome
scan_slash l =
    if peek_at 1 l == b'*'
    then if peek_at 2 l == b'!'
      then again (skip_while is_digit (next (next (next l))))
      else again (skip_block_comment l)
    else some (done (scan_operator l))

unfoldable pub scan_minus : Lexer → Outcome
scan_minus l =
    if peek_at 1 l == b'-' then again (skip_while is_line_part l) else some (done (scan_operator l))

unfoldable pub is_operator_start : ℕ → Bool
is_operator_start r =
    r == b'=' || r == b'<' || r == b'>' || r == b'!' || r == b'|' || r == b'+' || r == b'%'

-- The punctuation marks of one rune.
unfoldable pub mark_of : ℕ → Option TokenType
mark_of r =
    if r == b'?'
    then some parameter
    else if r == b'('
    then some lparen
    else if r == b')'
    then some rparen
    else if r == b'['
    then some lbracket
    else if r == b']'
    then some rbracket
    else if r == b','
    then some comma
    else if r == b';'
    then some semicolon
    else if r == b'.'
    then some dot
    else none

unfoldable pub scan_rune : ℕ → Lexer → Outcome
scan_rune r l =
    if r == b'*'
    then scan_star l
    else if r == b'@'
    then found (scan_system_variable l)
    else if r == b'/'
    then scan_slash l
    else if r == b'-'
    then scan_minus l
    else if is_operator_start r
    then some (done (scan_operator l))
    else one_rune error (codes "unexpected character: " ++ encode_rune r) l

unfoldable pub scan_mark : ℕ → Lexer → Option TokenType → Outcome
scan_mark r l none = scan_rune r l
scan_mark r l (some type) = one_rune type (r ∷ []) l

-- What NextToken does behind the white space.
unfoldable pub scan : Lexer → Outcome
scan l =
    let r = peek l in
    if r == 0
    then some (done (token_from l eof [], l))
    else if is_letter r || r == b'_'
    then found (scan_ident_or_keyword l)
    else if is_digit r
    then found (scan_number l)
    else if r == b'\'' || r == b'"'
    then found (scan_string l)
    else if r == b'`'
    then found (scan_backtick_ident l)
    else if r == b'$'
    then found (scan_parameter l)
    else scan_mark r l (mark_of r)

unfoldable pub skip_whitespace : Lexer → Option Lexer
skip_whitespace l = skip_while is_space l

unfoldable pub settle : Outcome → Round Lexer (Option Scanned)
settle none = done none
settle (some (done s)) = done (some s)
settle (some (more l)) = more l

unfoldable pub next_token_round : Lexer → Round Lexer (Option Scanned)
next_token_round l = settle (skip_whitespace l >>= scan)

unfoldable pub next_token : Lexer → Option Scanned
next_token l = run next_token_round (fuel_of l) l >>= λ o. o

unfoldable pub ends_input : TokenType → Bool
ends_input eof = true
ends_input error = true
ends_input _ = false

-- The tokens so far, and where the lexer is.
abbrev pub TokenizeState : Type 0
TokenizeState = List Token × Lexer

unfoldable pub tokenize_next :
    List Token → Option Scanned → Round TokenizeState (Option (List Token))
tokenize_next tokens none = done none
tokenize_next tokens (some (t, l)) =
    if ends_input t.type then done (some (tokens ++ (t ∷ []))) else more (tokens ++ (t ∷ []), l)

unfoldable pub tokenize_round : TokenizeState → Round TokenizeState (Option (List Token))
tokenize_round (tokens, l) = tokenize_next tokens (next_token l)

unfoldable pub tokenize : List ℕ → Option (List Token)
tokenize input = run tokenize_round (suc (length input)) ([], new_lexer input) >>= λ o. o
