-- ===== src/Lexer/Literals.antt =====
-- parser/lexer.go: a string literal with its quotes and backslashes doubled is read as the string.
use xxldb.Base.{
  ℕ, zero, suc, ◌+◌, ◌<◌, ◌≡◌, ◌≢◌, refl, sym, ap, ◌∙◌, arith, Bool, true, false, ◌||◌, List, [],
  ◌∷◌, ◌++◌, ◌==◌, if◌then◌else◌, length, length-append, append-nil, append_assoc, drop, Bool-cases,
  some, inl, inr,
}
use xxldb.Base.Loop.{done, more, run, go_on}
use xxldb.Base.Utf8.{is_space, decode_rune-ascii, encode_rune}
use xxldb.Lexer.{
  Lexer, string, Scanned, StringState, peek_rune, width, peek, next, fuel_of, token_from, escape,
  after_quote, after_backslash, string_round, scan_string, scan, found, take_one, is_letter,
  is_digit, skip_while, skip_whitespace, next_token_round, settle, next_token,
}

abbrev at : ℕ → List ℕ → Lexer
at pos rest = record { pos = pos; rest = rest }

-- How a string is written between quotes.
unfoldable pub quoted : ℕ → List ℕ → List ℕ
quoted q [] = []
quoted q (x ∷ xs) = if x == q || x == b'\\' then x ∷ x ∷ quoted q xs else x ∷ quoted q xs

quoted-doubled :
    (q x : ℕ) (xs : List ℕ)
    → (x == q || x == b'\\') ≡ true
    → quoted q (x ∷ xs) ≡ x ∷ x ∷ quoted q xs
unfolding quoted
quoted-doubled q x xs e = rw e refl

quoted-single :
    (q x : ℕ) (xs : List ℕ) → (x == q || x == b'\\') ≡ false → quoted q (x ∷ xs) ≡ x ∷ quoted q xs
unfolding quoted
quoted-single q x xs e = rw e refl

-- An ASCII character, and not the NUL.
abbrev pub IsPlain : ℕ → Type 0
IsPlain x = (0 < x) × (x < 0x80)

unfoldable pub AllPlain : List ℕ → Type 0
AllPlain [] = Unit
AllPlain (x ∷ xs) = IsPlain x × AllPlain xs

peek-ascii : (pos b : ℕ) (bs : List ℕ) → b < 0x80 → peek (at pos (b ∷ bs)) ≡ b
unfolding peek peek_rune
peek-ascii pos b bs h = ap (λ p. p.0) (decode_rune-ascii b bs h)

next-ascii : (pos b : ℕ) (bs : List ℕ) → b < 0x80 → next (at pos (b ∷ bs)) ≡ at (suc pos) bs
unfolding next width
next-ascii pos b bs h =
    ap (λ p. at (pos + p.1) (drop p.1 (b ∷ bs))) (decode_rune-ascii b bs h)
    ∙ ap (λ n. at n bs) {x = pos + 1} (omega arith)

encode_rune-ascii : (b : ℕ) → b < 0x80 → encode_rune b ≡ b ∷ []
unfolding encode_rune
encode_rune-ascii b h = ground arith

-- The loop behind an opening quote.
module _ (q : ℕ) (q_plain : IsPlain q) (q_quote : q ≢ b'\\') (start : Lexer) where
  one_char :
      (sb : List ℕ) (pos x : ℕ) (rest : List ℕ)
      → IsPlain x
      → x ≢ q
      → x ≢ b'\\'
      → string_round q start (sb, at pos (x ∷ rest)) ≡ more (sb ++ (x ∷ []), at (suc pos) rest)
  unfolding string_round
  one_char sb pos x rest p h k =
      rw (peek-ascii pos x rest p.1, next-ascii pos x rest p.1, encode_rune-ascii x p.1)
        (ground arith)

  two_quotes :
      (sb : List ℕ) (pos : ℕ) (rest : List ℕ)
      → string_round q start (sb, at pos (q ∷ q ∷ rest))
        ≡ more (sb ++ (q ∷ []), at (suc (suc pos)) rest)
  unfolding string_round after_quote
  two_quotes sb pos rest =
      rw
        (
          peek-ascii pos q (q ∷ rest) q_plain.1,
          next-ascii pos q (q ∷ rest) q_plain.1,
          peek-ascii (suc pos) q rest q_plain.1,
          next-ascii (suc pos) q rest q_plain.1,
          encode_rune-ascii q q_plain.1,
        )
        (ground arith)

  two_backslashes :
      (sb : List ℕ) (pos : ℕ) (rest : List ℕ)
      → string_round q start (sb, at pos (b'\\' ∷ b'\\' ∷ rest))
        ≡ more (sb ++ (b'\\' ∷ []), at (suc (suc pos)) rest)
  unfolding string_round after_backslash escape
  two_backslashes sb pos rest =
      rw
        (
          peek-ascii pos b'\\' (b'\\' ∷ rest) (omega arith),
          next-ascii pos b'\\' (b'\\' ∷ rest) (omega arith),
          peek-ascii (suc pos) b'\\' rest (omega arith),
          next-ascii (suc pos) b'\\' rest (omega arith),
        )
        (ground arith)

  doubled :
      (sb : List ℕ) (pos x : ℕ) (rest : List ℕ)
      → (x == q || x == b'\\') ≡ true
      → string_round q start (sb, at pos (x ∷ x ∷ rest))
        ≡ more (sb ++ (x ∷ []), at (suc (suc pos)) rest)
  doubled sb pos x rest e = elim (Bool-cases (x == q)) [
    | inl f ↦ let x_is : x ≡ q = ground arith in rw x_is (two_quotes sb pos rest)
    | inr f ↦ let x_is : x ≡ b'\\' = ground arith in rw x_is (two_backslashes sb pos rest)
  ]

  closing :
      (sb : List ℕ) (pos : ℕ) (rest : List ℕ)
      → peek (at (suc pos) rest) ≢ q
      → string_round q start (sb, at pos (q ∷ rest))
        ≡ done (token_from start string sb, at (suc pos) rest)
  unfolding string_round after_quote
  closing sb pos rest h =
      rw (peek-ascii pos q rest q_plain.1, next-ascii pos q rest q_plain.1) (ground arith)

  -- How the loop goes on behind a round.
  run_more :
      (fuel : ℕ) (s t : StringState)
      → string_round q start s ≡ more t
      → run (string_round q start) (suc fuel) s ≡ run (string_round q start) fuel t
  unfolding run go_on
  run_more fuel s t e = rw e refl

  run_done :
      (fuel : ℕ) (s : StringState) (r : Scanned)
      → string_round q start s ≡ done r
      → run (string_round q start) (suc fuel) s ≡ some r
  unfolding run go_on
  run_done fuel s r e = rw e refl

  -- The loop ends with the string, behind the closing quote.
  body_loop :
      (fuel : ℕ) (xs sb out : List ℕ) (pos stop : ℕ) (rest : List ℕ)
      → AllPlain xs
      → ((n : ℕ) → peek (at n rest) ≢ q)
      → length (quoted q xs) < fuel
      → out ≡ sb ++ xs
      → stop ≡ suc (pos + length (quoted q xs))
      → run (string_round q start) fuel (sb, at pos (quoted q xs ++ q ∷ rest))
        ≡ some (token_from start string out, at stop rest)
  unfolding quoted AllPlain
  body_loop zero xs sb out pos stop rest p h f o t = absurd (omega (arith, f))
  body_loop (suc fuel) [] sb out pos stop rest p h f o t =
      let sb_is : out ≡ sb = o ∙ append-nil sb in
      let stop_is : stop ≡ suc pos = omega (arith, t) in
      rw (sb_is, stop_is) (run_done fuel _ _ (closing sb pos rest (h (suc pos))))
  body_loop (suc fuel) (x ∷ xs) sb out pos stop rest p h f o t =
      elim (Bool-cases (x == q || x == b'\\')) [
        | inl e ↦
            let two = quoted-doubled q x xs e in
            let len = ap length two in
            rw two (
              run_more fuel _ _ (doubled sb pos x (quoted q xs ++ q ∷ rest) e)
              ∙ body_loop fuel xs (sb ++ (x ∷ [])) out (suc (suc pos)) stop rest p.1 h
                  (omega (arith, f, len)) (o ∙ sym (append_assoc sb (x ∷ []) xs))
                  (omega (arith, t, len)))
        | inr e ↦
            let one = quoted-single q x xs e in
            let len = ap length one in
            rw one (
              run_more fuel _ _
                (one_char sb pos x (quoted q xs ++ q ∷ rest) p.0 (ground arith) (ground arith))
              ∙ body_loop fuel xs (sb ++ (x ∷ [])) out (suc pos) stop rest p.1 h
                  (omega (arith, f, len)) (o ∙ sym (append_assoc sb (x ∷ []) xs))
                  (omega (arith, t, len)))
      ]

unfoldable pub is_quote : ℕ → Bool
is_quote q = q == b'\'' || q == b'"'

-- NextToken at a character that begins neither white space nor a comment.
next_token-here :
    (l : Lexer) (s : Scanned)
    → is_space (peek l) ≡ false
    → scan l ≡ some (done s)
    → next_token l ≡ some s
unfolding next_token next_token_round run go_on skip_whitespace skip_while take_one settle
next_token-here l s e f = rw (e, f) refl

-- The branch that NextToken takes at a quote.
quote-branch :
    (r : ℕ)
    → is_quote r ≡ true
    → ((r == 0) ≡ false) × ((is_letter r || r == b'_') ≡ false) × (is_digit r ≡ false)
unfolding is_quote is_letter is_digit
quote-branch r e = ground arith

scan-string :
    (l : Lexer) (s : Scanned)
    → is_quote (peek l) ≡ true
    → scan_string l ≡ some s
    → scan l ≡ some (done s)
unfolding scan is_quote found
scan-string l s e f = let b = quote-branch (peek l) e in rw (b.0, b.1, b.2, e, f) refl

quote-IsPlain : (q : ℕ) → is_quote q ≡ true → IsPlain q × (q ≢ b'\\') × (is_space q ≡ false)
unfolding is_quote is_space
quote-IsPlain q e = ground arith

-- A single or double quote, the text with its quotes and backslashes doubled, and the quote again,
-- where the text is ASCII without NUL and no quote follows: NextToken gives the text as one string
-- token, and the lexer stands behind the closing quote.
pub next_token-quoted :
    (q pos : ℕ) (xs rest : List ℕ)
    → is_quote q ≡ true
    → AllPlain xs
    → ((n : ℕ) → peek (at n rest) ≢ q)
    → next_token (at pos (q ∷ (quoted q xs ++ q ∷ rest)))
      ≡ some (
        record { type = string; value = xs; pos = pos },
        at (pos + length (quoted q xs) + 2) rest,
      )
unfolding scan_string token_from
next_token-quoted q pos xs rest e p h =
    let tail = quoted q xs ++ q ∷ rest in
    let l = at pos (q ∷ tail) in
    let plain = quote-IsPlain q e in
    let here : peek l ≡ q = peek-ascii pos q tail plain.0.1 in
    let stop = pos + length (quoted q xs) + 2 in
    next_token-here l _ (rw here plain.2) (
      scan-string l _ (rw here e) (
        rw (here, next-ascii pos q tail plain.0.1)
          (body_loop q plain.0 plain.1 l (fuel_of l) xs [] xs (suc pos) stop rest p h
            (omega (arith, length-append (quoted q xs) (q ∷ rest))) refl (omega arith))))
