-- ===== src/Lexer/Tokenize.antt =====
-- parser/lexer.go: Tokenize ends on every input, with tokens in the order of the input.
use xxldb.Base.{
  ℕ, suc, ◌<◌, ◌≤◌, ◌≡◌, refl, arith, Bool, true, false, not, ◌&&◌, List, [], ◌∷◌, ◌++◌, length,
  Bool-cases, Option, none, some, inl, inr,
}
use xxldb.Base.Loop.{run, IsGood, Yields, run_yields}
use xxldb.Lexer.{
  Lexer, Token, TokenType, new_lexer, next_token, ends_input, TokenizeState, tokenize_next,
  tokenize_round, tokenize,
}
use xxldb.Lexer.Moves.{Moves, Moves-refl, Moves-trans}
use xxldb.Lexer.Loops.{left_of}
use xxldb.Lexer.Tokens.{Lexed, Lexed-within, next_token-Lexed, is_eof, is_times}

-- The tokens stand between `lo` and `hi`, each behind the one before it.
unfoldable pub InOrder : ℕ → ℕ → List Token → Type 0
InOrder lo hi [] = lo ≤ hi
InOrder lo hi (t ∷ ts) = (lo ≤ t.pos) × InOrder (suc t.pos) hi ts

-- The last token, and no other, is the end of the input or an error.
unfoldable pub is_ended : List Token → Bool
is_ended [] = false
is_ended (t ∷ []) = ends_input t.type
is_ended (t ∷ u ∷ ts) = not (ends_input t.type) && is_ended (u ∷ ts)

unfoldable pub none_ends : List Token → Bool
none_ends [] = true
none_ends (t ∷ ts) = not (ends_input t.type) && none_ends ts

-- No token is the operator `*`.
unfoldable pub never_times : List Token → Bool
never_times [] = true
never_times (t ∷ ts) = not (is_times t.type t.value) && never_times ts

never_times-append :
    (ts : List Token) (t : Token)
    → never_times ts ≡ true
    → is_times t.type t.value ≡ false
    → never_times (ts ++ (t ∷ [])) ≡ true
unfolding never_times
never_times-append [] t p q = rw q refl
never_times-append (u ∷ ts) t p q = ground (arith, never_times-append ts t, p, q)

InOrder-append :
    (lo mid hi : ℕ) (ts : List Token) (t : Token)
    → InOrder lo mid ts
    → mid ≤ t.pos
    → t.pos < hi
    → InOrder lo hi (ts ++ (t ∷ []))
unfolding InOrder
InOrder-append lo mid hi [] t p q r = (omega (arith, p, q), omega (arith, r))
InOrder-append lo mid hi (u ∷ ts) t p q r = (p.0, InOrder-append (suc u.pos) mid hi ts t p.1 q r)

is_ended-append :
    (ts : List Token) (t : Token)
    → none_ends ts ≡ true
    → ends_input t.type ≡ true
    → is_ended (ts ++ (t ∷ [])) ≡ true
unfolding is_ended none_ends
is_ended-append [] t p q = q
is_ended-append (u ∷ []) t p q = ground (arith, p, q)
is_ended-append (u ∷ v ∷ ts) t p q = ground (arith, is_ended-append (v ∷ ts) t, p, q)

none_ends-append :
    (ts : List Token) (t : Token)
    → none_ends ts ≡ true
    → ends_input t.type ≡ false
    → none_ends (ts ++ (t ∷ [])) ≡ true
unfolding none_ends
none_ends-append [] t p q = rw q refl
none_ends-append (u ∷ ts) t p q = ground (arith, none_ends-append ts t, p, q)

-- What Tokenize keeps, and what it gives.
record Running (input : List ℕ) (s : TokenizeState) : Type 0 where
  moved : Moves (new_lexer input) s.1
  ordered : InOrder 0 s.1.pos s.0
  open_ended : none_ends s.0 ≡ true
  timeless : never_times s.0 ≡ true

pub record Tokens (input : List ℕ) (ts : List Token) : Type 0 where
  pub in_order : InOrder 0 (suc (length input)) ts
  pub ended : is_ended ts ≡ true
  pub timeless : never_times ts ≡ true

TokensOrNone : List ℕ → Option (List Token) → Type 0
TokensOrNone input none = ⊥
TokensOrNone input (some ts) = Tokens input ts

-- Where the lexer is in its input.
pos-le : (input : List ℕ) (m : Lexer) → Moves (new_lexer input) m → m.pos ≤ length input
unfolding new_lexer
pos-le input m p = omega (arith, p.at_pos, p.in_input)

not_eof : (type : TokenType) → ends_input type ≡ false → is_eof type ≡ false
unfolding ends_input
not_eof type e = ground arith

tokenize_next-IsGood :
    (input : List ℕ) (ts : List Token) (l : Lexer) (t : Token) (m : Lexer)
    → Running input (ts, l)
    → Lexed l (t, m)
    → IsGood
        (Running input)
        (TokensOrNone input)
        (λ s. left_of s.1)
        (left_of l)
        (tokenize_next ts (some (t, m)))
unfolding tokenize_next TokensOrNone
tokenize_next-IsGood input ts l t m p q =
    let moved = Moves-trans (new_lexer input) l m p.moved q.moved in
    elim (Bool-cases (ends_input t.type)) [
      | inl e ↦ rw e (
        record {
          in_order =
              InOrder-append 0 l.pos (suc (length input)) ts t p.ordered q.begins
                (omega (arith, Lexed-within l (t, m) q, pos-le input m moved));
          ended = is_ended-append ts t p.open_ended e;
          timeless = never_times-append ts t p.timeless q.not_times;
        },
        _,
      )
      | inr e ↦ rw e (
        record {
          moved = moved;
          ordered =
              InOrder-append 0 l.pos m.pos ts t p.ordered q.begins (q.goes_on (not_eof t.type e)).0;
          open_ended = none_ends-append ts t p.open_ended e;
          timeless = never_times-append ts t p.timeless q.not_times;
        },
        (q.goes_on (not_eof t.type e)).1,
        _,
      )
    ]

tokenize_round-IsGood :
    (input : List ℕ) (s : TokenizeState)
    → Running input s
    → IsGood
        (Running input)
        (TokensOrNone input)
        (λ s. left_of s.1)
        (left_of s.1)
        (tokenize_round s)
unfolding tokenize_round
tokenize_round-IsGood input (ts, l) p = go (next_token-Lexed l)
  where
    go :
        Yields (next_token l) (Lexed l)
        → IsGood
            (Running input)
            (TokensOrNone input)
            (λ s. left_of s.1)
            (left_of l)
            (tokenize_next ts (next_token l))
    go ((t, m), e, q) = rw e (tokenize_next-IsGood input ts l t m p q)

-- Tokenize gives a list of tokens for every input, so none of the lexer's loops runs on: the
-- tokens stand within the input, each behind the one before it; the last one, and no other, is the
-- end of the input or an error; and none is the operator `*`.
pub tokenize-Tokens : (input : List ℕ) → Yields (tokenize input) (Tokens input)
unfolding tokenize TokensOrNone InOrder none_ends never_times new_lexer
tokenize-Tokens input = go (
    run_yields (Running input) (TokensOrNone input) (λ s. left_of s.1) tokenize_round
      (tokenize_round-IsGood input) (suc (length input)) ([], new_lexer input) (omega arith)
      (record {
        moved = Moves-refl (new_lexer input);
        ordered = omega arith;
        open_ended = refl;
        timeless = refl;
      }))
  where
    go :
        Yields (run tokenize_round (suc (length input)) ([], new_lexer input)) (TokensOrNone input)
        → Yields (tokenize input) (Tokens input)
    go (none, e, q) = absurd q
    go (some s, e, q) = (s, rw e refl, q)
