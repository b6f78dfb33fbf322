-- ===== src/Lexer/Total.antt =====
-- parser/lexer.go: NextToken and Tokenize give a result on every input.
use xxldb.Base.{
  [], ◌∷◌, ℕ, ◌≡◌, ◌≢◌, refl, arith, Bool, true, false, ◌||◌, List, [], ◌==◌, if◌then◌else◌, Option,
  none, some,
}
use xxldb.Base.Loop.{done, more, Yields}
use xxldb.Base.Utf8.{encode_rune}
use xxldb.Base.Text.{same_bytes, codes}
use xxldb.Lexer.{
  Lexer, TokenType, eof, operator, error, star, Scanned, Outcome, peek, peek_at, next, token_from,
  is_digit, is_letter, is_ident_part, is_line_part, found, again, one_rune, operator_with,
  longer_operator, less_operator, greater_operator, scan_operator, scan_star, scan_slash,
  scan_minus, is_operator_start, mark_of, scan_mark, scan_rune, scan,
}
use xxldb.Lexer.Moves.{Ahead, next-Ahead}
use xxldb.Lexer.Loops.{next-Ahead_step, not_zero, skip_while-Ahead, is_rune}
use xxldb.Lexer.Scanners.{
  Takes, takes, is_lexed, scan_string-Takes, scan_backtick_ident-Takes, scan_ident_or_keyword-Takes,
  scan_number-Takes, scan_parameter-Takes, scan_system_variable-Takes, skip_block_comment-Ahead,
  loop-Ahead,
}

-- A token that is there, or the end of the input.
pub data Gives (start : Lexer) (s : Scanned) : Type 0 where
  token : Takes start s → Gives start s
  at_end : s ≡ (token_from start eof [], start) → peek start ≡ 0 → Gives start s

-- What the scanners promise: a token, or a comment that is skipped.
pub data Scans (start : Lexer) : Outcome → Type 0 where
  gives : (s : Scanned) → Gives start s → Scans start (some (done s))
  skips : (m : Lexer) → Ahead start m → Scans start (some (more m))

found-Scans : (l : Lexer) (o : Option Scanned) → Yields o (Takes l) → Scans l (found o)
unfolding found
found-Scans l o (s, e, t) = rw e (gives s (token t))

again-Scans : (l : Lexer) (o : Option Lexer) → Yields o (Ahead l) → Scans l (again o)
unfolding again
again-Scans l o (m, e, p) = rw e (skips m p)

one_rune-Scans :
    (l : Lexer) (type : TokenType) (value : List ℕ)
    → peek l ≢ 0
    → is_lexed type value ≡ true
    → Scans l (one_rune type value l)
unfolding one_rune
one_rune-Scans l type value h e = gives _ (token (takes l (next l) type value (next-Ahead l h) e))

operator_with-Takes :
    (l : Lexer) (value : List ℕ)
    → peek l ≢ 0
    → is_lexed operator value ≡ true
    → Takes l (operator_with l value)
unfolding operator_with
operator_with-Takes l value h e = takes l (next l) operator value (next-Ahead l h) e

longer_operator-Takes :
    (l : Lexer) (value : List ℕ)
    → peek l ≢ 0
    → is_lexed operator value ≡ true
    → Takes l (longer_operator l value)
unfolding longer_operator
longer_operator-Takes l value h e =
    takes l (next (next l)) operator value (next-Ahead_step l (next l) (next-Ahead l h)) e

-- A choice by a test.
Takes-if :
    (l : Lexer) (b : Bool) (s t : Scanned) → Takes l s → Takes l t → Takes l (if b then s else t)
Takes-if l true s t p q = p
Takes-if l false s t p q = q

Scans-if :
    (l : Lexer) (b : Bool) {s t : Outcome}
    → (b ≡ true → Scans l s)
    → (b ≡ false → Scans l t)
    → Scans l (if b then s else t)
Scans-if l true p q = p refl
Scans-if l false p q = q refl

encode_rune-lexed : (r : ℕ) → (r == b'*') ≡ false → is_lexed operator (encode_rune r) ≡ true
unfolding encode_rune same_bytes
encode_rune-lexed r e = ground arith

scan_operator-Takes :
    (l : Lexer) → peek l ≢ 0 → (peek l == b'*') ≡ false → Takes l (scan_operator l)
unfolding scan_operator less_operator greater_operator codes same_bytes
scan_operator-Takes l h e =
    search (Takes-if, operator_with-Takes, longer_operator-Takes, encode_rune-lexed, h, e)

operator-Scans :
    (l : Lexer) → peek l ≢ 0 → (peek l == b'*') ≡ false → Scans l (some (done (scan_operator l)))
operator-Scans l h e = gives (scan_operator l) (token (scan_operator-Takes l h e))

digit_0 : is_digit 0 ≡ false
unfolding is_digit
digit_0 = refl

line_0 : is_line_part 0 ≡ false
unfolding is_line_part
line_0 = refl

scan_star-Scans : (l : Lexer) → peek l ≢ 0 → Scans l (scan_star l)
unfolding scan_star
scan_star-Scans l h =
    Scans-if l (peek_at 1 l == b'/')
      (λ _. skips (next (next l)) (next-Ahead_step l (next l) (next-Ahead l h)))
      (λ _. one_rune-Scans l star (codes "*") h refl)

scan_slash-Scans : (l : Lexer) → peek l ≢ 0 → (peek l == b'*') ≡ false → Scans l (scan_slash l)
unfolding scan_slash
scan_slash-Scans l h n =
    let third = next-Ahead_step l (next (next l)) (next-Ahead_step l (next l) (next-Ahead l h)) in
    Scans-if l (peek_at 1 l == b'*')
      (λ _.
        Scans-if l (peek_at 2 l == b'!')
          (λ _. again-Scans l _ (loop-Ahead is_digit digit_0 l (next (next (next l))) third))
          (λ _. again-Scans l _ (skip_block_comment-Ahead l h)))
      (λ _. operator-Scans l h n)

-- A line comment starts with a rune of the line.
scan_minus-Scans :
    (l : Lexer) → (peek l == b'*') ≡ false → is_line_part (peek l) ≡ true → Scans l (scan_minus l)
unfolding scan_minus
scan_minus-Scans l n h =
    Scans-if l (peek_at 1 l == b'-')
      (λ _. again-Scans l _ (skip_while-Ahead is_line_part line_0 l h))
      (λ _. operator-Scans l (is_rune is_line_part line_0 (peek l) h) n)

minus-line : (r : ℕ) → (r == b'-') ≡ true → is_line_part r ≡ true
unfolding is_line_part
minus-line r e = ground arith

scan_rune-Scans : (l : Lexer) → peek l ≢ 0 → Scans l (scan_rune (peek l) l)
unfolding scan_rune
scan_rune-Scans l h =
    Scans-if l (peek l == b'*') (λ _. scan_star-Scans l h)
      (λ n.
        Scans-if l (peek l == b'@') (λ _. found-Scans l _ (scan_system_variable-Takes l h))
          (λ _.
            Scans-if l (peek l == b'/') (λ _. scan_slash-Scans l h n)
              (λ _.
                Scans-if l (peek l == b'-') (λ e. scan_minus-Scans l n (minus-line (peek l) e))
                  (λ _.
                    Scans-if l (is_operator_start (peek l)) (λ _. operator-Scans l h n)
                      (λ _. one_rune-Scans l error _ h refl)))))

-- The marks of punctuation are tokens.
mark_of-token : (r : ℕ) (type : TokenType) → mark_of r ≡ some type → is_lexed type (r ∷ []) ≡ true
unfolding mark_of
mark_of-token r type e = ground arith

scan_mark-Scans :
    (l : Lexer)
    → peek l ≢ 0
    → (o : Option TokenType) → mark_of (peek l) ≡ o
    → Scans l (scan_mark (peek l) l o)
unfolding scan_mark
scan_mark-Scans l h none e = scan_rune-Scans l h
scan_mark-Scans l h (some type) e = one_rune-Scans l type _ h (mark_of-token (peek l) type e)

ident-start : (r : ℕ) → (is_letter r || r == b'_') ≡ true → is_ident_part r ≡ true
unfolding is_ident_part
ident-start r e = ground arith

pub scan-Scans : (l : Lexer) → Scans l (scan l)
unfolding scan
scan-Scans l =
    Scans-if l (peek l == 0) (λ e. gives _ (at_end refl (ground arith)))
      (λ e.
        let h = not_zero (peek l) e in
        Scans-if l (is_letter (peek l) || peek l == b'_')
          (λ f. found-Scans l _ (scan_ident_or_keyword-Takes l (ident-start (peek l) f)))
          (λ _.
            Scans-if l (is_digit (peek l)) (λ f. found-Scans l _ (scan_number-Takes l f))
              (λ _.
                Scans-if l (peek l == b'\'' || peek l == b'"')
                  (λ _. found-Scans l _ (scan_string-Takes l h))
                  (λ _.
                    Scans-if l (peek l == b'`')
                      (λ _. found-Scans l _ (scan_backtick_ident-Takes l h))
                      (λ _.
                        Scans-if l (peek l == b'$')
                          (λ _. found-Scans l _ (scan_parameter-Takes l h))
                          (λ _. scan_mark-Scans l h (mark_of (peek l)) refl))))))
