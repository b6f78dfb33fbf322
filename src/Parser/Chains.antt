-- ===== src/Parser/Chains.antt =====
-- parser/parser.go: the levels of the expression grammar read chains of operators, from the left.
use xxldb.Base.{
  ℕ, zero, suc, ◌<◌, ◌≤◌, ◌≡◌, ◌↔◌, refl, sym, ◌∙◌, true, false, List, length, arith, Bool-cases,
  inl, inr,
}
use xxldb.Base.Loop.{Round, done, more}
use xxldb.Lexer.{Token, TokenType, eof}
use xxldb.Parser.{
  Outcome, parsed, failed, stuck, Parser, go_with, ◌>>=◌, pure, same_type, current, advance,
  matches_one, when_one, round_then, rounds_of, repeat,
}
use xxldb.Parser.Fine.{IsFine, Under, advance-less, matches_one-matches}
use xxldb.Parser.Syntax.{Text, Expression, binary}

-- One round of a level: its operator, its label in the tree, and the operand behind it.
unfoldable pub chain_round :
    TokenType
    → List Text
    → (Token → Text)
    → Parser Expression
    → Expression
    → Parser (Round Expression Expression)
chain_round type ops label operand left =
    when_one type ops (λ t. operand >>= λ right. pure (more (binary left (label t) right)))
      (pure (done left))

-- An operand, or a chain with an operator and an operand behind it: the grammar of a level whose
-- operators group to the left.
pub data Chain (type : TokenType) (ops : List Text) (label : Token → Text)
    (operand : Parser Expression) (ts : List Token) : Expression → List Token → Type 0 where
  first :
      (e : Expression) (rest : List Token)
      → operand ts ≡ parsed e rest
      → Chain type ops label operand ts e rest
  next :
      (left right : Expression) (us rest : List Token)
      → Chain type ops label operand ts left us
      → matches_one type ops us ≡ true
      → operand (advance us) ≡ parsed right rest
      → Chain type ops label operand ts (binary left (label (current us)) right) rest

module _ (type : TokenType) (ops : List Text) (label : Token → Text)
    (operand : Parser Expression) where
  abbrev pub IsChain : List Token → Expression → List Token → Type 0
  IsChain ts e rest = Chain type ops label operand ts e rest × (matches_one type ops rest ≡ false)

  abbrev round : Expression → Parser (Round Expression Expression)
  round = chain_round type ops label operand

  -- A round at an operator, and at the end of the chain.
  rounds_of-operator :
      (fuel : ℕ) (left right : Expression) (us vs : List Token)
      → matches_one type ops us ≡ true
      → operand (advance us) ≡ parsed right vs
      → rounds_of round (suc fuel) left us
        ≡ rounds_of round fuel (binary left (label (current us)) right) vs
  unfolding rounds_of chain_round when_one ◌>>=◌ go_with round_then pure
  rounds_of-operator fuel left right us vs m o = rw (m, o) refl

  rounds_of-stop :
      (fuel : ℕ) (left : Expression) (us : List Token)
      → matches_one type ops us ≡ false
      → rounds_of round (suc fuel) left us ≡ parsed left us
  unfolding rounds_of chain_round when_one ◌>>=◌ go_with round_then pure
  rounds_of-stop fuel left us m = rw m refl

  rounds_of-failed :
      (fuel : ℕ) (left : Expression) (us : List Token) (o : Outcome Expression)
      → matches_one type ops us ≡ true
      → operand (advance us) ≡ o
      → rounds_of round (suc fuel) left us
        ≡ go_with o (λ right. rounds_of round fuel (binary left (label (current us)) right))
  unfolding rounds_of chain_round when_one ◌>>=◌ go_with round_then pure
  rounds_of-failed fuel left us (parsed right vs) m o = rw (m, o) refl
  rounds_of-failed fuel left us (failed f) m o = rw (m, o) refl
  rounds_of-failed fuel left us stuck m o = rw (m, o) refl

  -- What the rounds give continues the chain so far.
  rounds_of-IsChain :
      (fuel : ℕ) (ts us : List Token) (left e : Expression) (rest : List Token)
      → Chain type ops label operand ts left us
      → rounds_of round fuel left us ≡ parsed e rest
      → IsChain ts e rest
  unfolding rounds_of go_with
  rounds_of-IsChain zero ts us left e rest c h = cc h
  rounds_of-IsChain (suc fuel) ts us left e rest c h = elim (Bool-cases (matches_one type ops us)) [
    | inl m ↦ behind (operand (advance us)) refl m (λ right vs o.
        rounds_of-IsChain fuel ts vs (binary left (label (current us)) right) e rest
          (next left right us vs c m o))
    | inr m ↦
        let same = sym (rounds_of-stop fuel left us m) ∙ h in
        let tree : e ≡ left = cc same in
        let behind_it : rest ≡ us = cc same in rw (tree, behind_it) (c, m)
  ]
    where
      behind :
          (o : Outcome Expression)
          → operand (advance us) ≡ o
          → matches_one type ops us ≡ true
          → ((right : Expression) (vs : List Token)
              → operand (advance us) ≡ parsed right vs
              → rounds_of round fuel (binary left (label (current us)) right) vs ≡ parsed e rest
              → IsChain ts e rest)
          → IsChain ts e rest
      behind (parsed right vs) o m ih =
          ih right vs o (sym (rounds_of-operator fuel left right us vs m o) ∙ h)
      behind (failed f) o m ih = cc (sym (rounds_of-failed fuel left us (failed f) m o) ∙ h)
      behind stuck o m ih = cc (sym (rounds_of-failed fuel left us stuck m o) ∙ h)

  -- A chain is what the rounds have read, with fuel for what is left.
  abbrev IsRead : List Token → Expression → List Token → Type 0
  IsRead ts e rest =
      (fuel : ℕ) × (length rest < fuel)
      × ((operand >>= repeat round) ts ≡ rounds_of round fuel e rest)

  operand_left :
      (n : ℕ)
      → Under n operand
      → (us : List Token) → length us < n
      → (r : Expression) (vs : List Token) → operand us ≡ parsed r vs
      → length vs ≤ length us
  unfolding Under IsFine
  operand_left n under us k r vs q = rw q at (under us k)

  module _ (n : ℕ) (under : Under n operand) (real : same_type eof type ≡ false) (ts : List Token)
      (h : length ts < n) where
    Chain-IsRead :
        (e : Expression) (rest : List Token)
        → Chain type ops label operand ts e rest
        → (length rest ≤ length ts) × IsRead ts e rest
    unfolding ◌>>=◌ go_with repeat
    Chain-IsRead e rest (first _ _ o) =
        (operand_left n under ts h e rest o, (suc (length rest), omega arith, rw o refl))
    Chain-IsRead _ rest (next left right us _ c m o) = behind (Chain-IsRead left us c)
      where
        behind :
            (length us ≤ length ts) × IsRead ts left us
            → (length rest ≤ length ts) × IsRead ts (binary left (label (current us)) right) rest
        behind (k, (zero, l, q)) = absurd (omega (arith, l))
        behind (k, (suc fuel, l, q)) =
            let less = advance-less type us real (matches_one-matches type ops us m) in
            let left_over =
              operand_left n under (advance us) (omega (arith, k, h, less)) right rest o in
            (
              omega (arith, k, less, left_over),
              (
                fuel,
                omega (arith, l, less, left_over),
                q ∙ rounds_of-operator fuel left right us rest m o,
              ),
            )

    IsChain-read :
        (e : Expression) (rest : List Token)
        → IsChain ts e rest
        → (operand >>= repeat round) ts ≡ parsed e rest
    IsChain-read e rest (c, stop) = behind (Chain-IsRead e rest c)
      where
        behind :
            (length rest ≤ length ts) × IsRead ts e rest
            → (operand >>= repeat round) ts ≡ parsed e rest
        behind (k, (zero, l, q)) = absurd (omega (arith, l))
        behind (k, (suc fuel, l, q)) = q ∙ rounds_of-stop fuel e rest stop

    read-IsChain :
        (e : Expression) (rest : List Token)
        → (operand >>= repeat round) ts ≡ parsed e rest
        → IsChain ts e rest
    unfolding ◌>>=◌ go_with repeat
    read-IsChain e rest q = behind (operand ts) refl q
      where
        behind :
            (o : Outcome Expression)
            → operand ts ≡ o
            → go_with o (repeat round) ≡ parsed e rest
            → IsChain ts e rest
        behind (parsed left us) o q =
            rounds_of-IsChain (suc (length us)) ts us left e rest (first left us o) q
        behind (failed f) o q = cc q
        behind stuck o q = cc q

    -- A level reads exactly the chains of its operators, as far as they go.
    pub level-IsChain :
        (e : Expression) (rest : List Token)
        → ((operand >>= repeat round) ts ≡ parsed e rest) ↔ IsChain ts e rest
    level-IsChain e rest = (read-IsChain e rest, IsChain-read e rest)
