-- ===== src/Lexer/Moves.antt =====
-- parser/lexer.go: how far the lexer is moved, and that it does not leave its input.
use xxldb.Base.{
  drop-drop, ℕ, ◌+◌, ◌<◌, ◌≤◌, ◌≡◌, ◌≢◌, refl, ap, ◌∙◌, arith, List, [], ◌∷◌, length, length-drop,
  drop,
}
use xxldb.Base.Utf8.{decode_rune-width}
use xxldb.Lexer.{Lexer, peek, peek_rune, width, next}

-- From `l` to `m` the lexer goes over some of the bytes that are left.
pub record Moves (l m : Lexer) : Type 0 where
  pub gap : ℕ
  pub in_input : gap ≤ length l.rest
  pub at_pos : m.pos ≡ l.pos + gap
  pub left : m.rest ≡ drop gap l.rest

pub Moves-refl : (l : Lexer) → Moves l l
Moves-refl l = record { gap = 0; in_input = omega arith; at_pos = omega arith; left = refl }

pub Moves-trans : (l m n : Lexer) → Moves l m → Moves m n → Moves l n
Moves-trans l m n p q = record {
  gap = p.gap + q.gap;
  in_input = omega (arith, p.in_input, q.in_input, ap length p.left, length-drop p.gap l.rest);
  at_pos = omega (arith, p.at_pos, q.at_pos);
  left = q.left ∙ ap (drop q.gap) p.left ∙ drop-drop p.gap q.gap l.rest;
}

width-le : (bs : List ℕ) → width bs ≤ length bs
unfolding width
width-le [] = omega arith
width-le (b ∷ bs) = (decode_rune-width b bs).1

pub next-Moves : (l : Lexer) → Moves l (next l)
unfolding next
next-Moves l = record { gap = width l.rest; in_input = width-le l.rest; at_pos = refl; left = refl }

-- Where there is a rune, the rest gets shorter.
peek_rune-width : (bs : List ℕ) → peek_rune bs ≢ 0 → 0 < width bs
unfolding peek_rune width
peek_rune-width [] h = absurd (h refl)
peek_rune-width (b ∷ bs) h = (decode_rune-width b bs).0

pub next-shorter : (l : Lexer) → peek l ≢ 0 → length (next l).rest < length l.rest
unfolding next peek
next-shorter l h =
    omega (arith, peek_rune-width l.rest h, width-le l.rest, length-drop (width l.rest) l.rest)

-- Over some bytes at least.
pub Moves-shorter : (l m : Lexer) → Moves l m → length m.rest ≤ length l.rest
Moves-shorter l m p = omega (arith, ap length p.left, length-drop p.gap l.rest)

pub Moves-forward : (l m : Lexer) (p : Moves l m) → length m.rest < length l.rest → l.pos < m.pos
Moves-forward l m p h =
    omega (arith, ap length p.left, length-drop p.gap l.rest, p.at_pos, p.in_input)

-- What a scanner does: it goes on in the input, over a byte at least.
unfoldable pub Ahead : Lexer → Lexer → Type 0
Ahead l m = Moves l m × (length m.rest < length l.rest)

pub next-Ahead : (l : Lexer) → peek l ≢ 0 → Ahead l (next l)
unfolding Ahead
next-Ahead l h = (next-Moves l, next-shorter l h)

pub Ahead-then : (l m n : Lexer) → Ahead l m → Moves m n → Ahead l n
unfolding Ahead
Ahead-then l m n p q = (Moves-trans l m n p.0 q, omega (arith, p.1, Moves-shorter m n q))
