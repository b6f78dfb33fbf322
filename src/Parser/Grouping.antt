-- ===== src/Parser/Grouping.antt =====
-- parser/parser.go: how the binary operators bind and group.
use xxldb.Base.{ℕ, suc, ◌<◌, ◌≡◌, ◌↔◌, Option, List, [], ◌∷◌, length}
use xxldb.Base.Text.{codes}
use xxldb.Lexer.{Token, operator, keyword}
use xxldb.Parser.{parsed, Parser}
use xxldb.Parser.Chains.{IsChain, chain_round, level-IsChain}
use xxldb.Parser.Expressions.{
  operator_round, keyword_round, unary_expr, multiplicative, additive, not_expr, and_expr, or_expr,
}
use xxldb.Parser.Fine.{Under}
use xxldb.Parser.Fine.Levels.{
  unary_expr-Under, multiplicative-Under, not_expr-Under, and_expr-Under,
}
use xxldb.Parser.Fine.Steps.{keyword_real, operator_real}
use xxldb.Parser.Syntax.{Text, Expression, Select}

-- Chains of operators that stand in the tree as they are written, and of one keyword.
abbrev pub OfOperators :
    List Text → Parser Expression → List Token → Expression → List Token → Type 0
OfOperators ops operand = IsChain operator ops (λ t. t.value) operand

abbrev pub OfKeyword : Text → Parser Expression → List Token → Expression → List Token → Type 0
OfKeyword word operand = IsChain keyword (word ∷ []) (λ t. word) operand

module _ (parse_float : Text → Option ℕ) (expression : Parser Expression)
    (select_of : Parser Select) (ts : List Token) (t : Expression) (rest : List Token) where
  -- Each level reads the longest chain of its operators over the operands of the next level.
  abbrev pub IsGrouped : Type 0
  IsGrouped =
      ((or_expr parse_float expression select_of ts ≡ parsed t rest)
        ↔ OfKeyword (codes "OR") (and_expr parse_float expression select_of) ts t rest)
      × ((and_expr parse_float expression select_of ts ≡ parsed t rest)
          ↔ OfKeyword (codes "AND") (not_expr parse_float expression select_of) ts t rest)
      × ((additive parse_float expression select_of ts ≡ parsed t rest)
          ↔ OfOperators (codes "+" ∷ codes "-" ∷ codes "||" ∷ [])
              (multiplicative parse_float expression select_of) ts t rest)
      × ((multiplicative parse_float expression select_of ts ≡ parsed t rest)
          ↔ OfOperators (codes "*" ∷ codes "/" ∷ codes "%" ∷ [])
              (unary_expr parse_float expression select_of) ts t rest)

module _ (parse_float : Text → Option ℕ) (n : ℕ) (expression : Parser Expression)
    (select_of : Parser Select) (e : Under n expression) (s : Under n select_of) (ts : List Token)
    (h : length ts < suc n) where
  multiplicative-IsChain :
      (t : Expression) (rest : List Token)
      → (multiplicative parse_float expression select_of ts ≡ parsed t rest)
        ↔ OfOperators
            (codes "*" ∷ codes "/" ∷ codes "%" ∷ [])
            (unary_expr parse_float expression select_of)
            ts
            t
            rest
  unfolding multiplicative operator_round chain_round
  multiplicative-IsChain t rest =
      level-IsChain operator _ (λ t. t.value) (unary_expr parse_float expression select_of) (suc n)
        (unary_expr-Under parse_float n expression select_of e s) operator_real ts h t rest

  additive-IsChain :
      (t : Expression) (rest : List Token)
      → (additive parse_float expression select_of ts ≡ parsed t rest)
        ↔ OfOperators
            (codes "+" ∷ codes "-" ∷ codes "||" ∷ [])
            (multiplicative parse_float expression select_of)
            ts
            t
            rest
  unfolding additive operator_round chain_round
  additive-IsChain t rest =
      level-IsChain operator _ (λ t. t.value) (multiplicative parse_float expression select_of)
        (suc n) (multiplicative-Under parse_float n expression select_of e s) operator_real ts h t
        rest

  and_expr-IsChain :
      (t : Expression) (rest : List Token)
      → (and_expr parse_float expression select_of ts ≡ parsed t rest)
        ↔ OfKeyword (codes "AND") (not_expr parse_float expression select_of) ts t rest
  unfolding and_expr keyword_round chain_round
  and_expr-IsChain t rest =
      level-IsChain keyword _ (λ t. codes "AND") (not_expr parse_float expression select_of) (suc n)
        (not_expr-Under parse_float n expression select_of e s) keyword_real ts h t rest

  or_expr-IsChain :
      (t : Expression) (rest : List Token)
      → (or_expr parse_float expression select_of ts ≡ parsed t rest)
        ↔ OfKeyword (codes "OR") (and_expr parse_float expression select_of) ts t rest
  unfolding or_expr keyword_round chain_round
  or_expr-IsChain t rest =
      level-IsChain keyword _ (λ t. codes "OR") (and_expr parse_float expression select_of) (suc n)
        (and_expr-Under parse_float n expression select_of e s) keyword_real ts h t rest

  -- Where the nested expressions and SELECTs are fine on fewer than `n` tokens, on at most `n`
  -- tokens: OR, AND, the additive and the multiplicative operators each read exactly the longest
  -- chain of their operators, grouped to the left, whose operands the next tighter level reads.
  pub binary_levels-IsGrouped :
      (t : Expression) (rest : List Token) → IsGrouped parse_float expression select_of ts t rest
  binary_levels-IsGrouped t rest = (
    or_expr-IsChain t rest,
    and_expr-IsChain t rest,
    additive-IsChain t rest,
    multiplicative-IsChain t rest,
  )
