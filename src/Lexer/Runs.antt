-- ===== src/Lexer/Runs.antt =====
-- parser/lexer.go: the lexer run on statements, and the theorems at concrete inputs.
use xxldb.Base.{ℕ, ◌≡◌, refl, List, [], ◌∷◌, map, Option, none, some}
use xxldb.Base.Loop.{Yields, go_on, run}
use xxldb.Base.Text.{codes, is_one_of, same_bytes, to_upper}
use xxldb.Base.Utf8.{decode_rune, encode_rune, is_space}
use xxldb.Lexer.{
  Token, TokenType, after_backslash, after_quote, again, backtick_round, block_round, comma,
  ends_input, eof, error, escape, found, greater_operator, ident, is_digit, is_ident_part,
  is_letter, is_line_part, is_operator_start, is_variable_part, keyword, less_operator,
  longer_operator, mark_of, new_lexer, next, next_token, next_token_round, number, number_round,
  one_rune, operator, operator_with, peek, peek_at, peek_rune, scan, scan_backtick_ident,
  scan_ident_or_keyword, scan_mark, scan_minus, scan_number, scan_operator, scan_parameter,
  scan_rune, scan_slash, scan_star, scan_string, scan_system_variable, settle, skip_at,
  skip_block_comment, skip_sign, skip_while, skip_whitespace, star, string_round, take_one,
  token_from, tokenize, tokenize_next, tokenize_round, width, word,
}
use xxldb.Lexer.Keywords.{keywords}
use xxldb.Lexer.Tokenize.{Tokens, tokenize-Tokens}

abbrev statement : List ℕ
statement = codes "SELECT a+1e-2 FROM t -- x"

tokenize-Tokens_example : Yields (tokenize statement) (Tokens statement)
tokenize-Tokens_example = tokenize-Tokens statement

types : Option (List Token) → List TokenType
types none = []
types (some ts) = map (λ t. t.type) ts

-- The multiplication sign is a star, and what follows a NUL is not read.
runs :
    (types (tokenize (codes "2*a")) ≡ number ∷ star ∷ ident ∷ eof ∷ [])
    × (types (tokenize (b'a' ∷ 0 ∷ b'b' ∷ [])) ≡ ident ∷ eof ∷ [])
    × (types (tokenize (codes "SELECT a /* b */ <= 1.5e+3, 'x"))
        ≡ keyword ∷ ident ∷ operator ∷ number ∷ comma ∷ error ∷ [])
unfolding types after_backslash after_quote again backtick_round block_round codes decode_rune
    encode_rune ends_input escape found go_on greater_operator is_digit is_ident_part is_letter
    is_line_part is_one_of is_operator_start is_space is_variable_part keywords less_operator
    longer_operator mark_of new_lexer next next_token next_token_round number_round one_rune
    operator_with peek peek_at peek_rune run same_bytes scan scan_backtick_ident
    scan_ident_or_keyword scan_mark scan_minus scan_number scan_operator scan_parameter scan_rune
    scan_slash scan_star scan_string scan_system_variable settle skip_at skip_block_comment
    skip_sign skip_while skip_whitespace string_round take_one to_upper token_from tokenize
    tokenize_next tokenize_round width word
runs = (refl, refl, refl)
