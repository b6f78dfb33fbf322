-- ===== src/Row/Prefixed.antt =====
-- storage/page.go: slices, and the columns that are written with their length in front.
use xxldb.Base.{
  ℕ, ◌+◌, ◌-◌, ◌%◌, ◌<◌, ◌≡◌, ap, ◌∙◌, arith, List, [], ◌∷◌, ◌++◌, append_assoc, append-nil, length,
  length-append, ok, take-append, drop-append,
}
use xxldb.Base.Words.{le_bytes, length-le_bytes, le_value-le_bytes, u32_mod}
use xxldb.Value.{Value, new_string_value}
use xxldb.Row.{Error, slice, prefixed, decode_prefixed, stated_length, end_of, decode_other}

pub slice_middle :
    (pre s rest : List ℕ) → slice (pre ++ (s ++ rest)) (length pre) (length pre + length s) ≡ ok s
unfolding slice
slice_middle pre s rest =
    let kept : length (pre ++ (s ++ rest)) ≡ length pre + (length s + length rest) =
      omega (arith, length-append pre (s ++ rest), length-append s rest) in
    let width : length pre + length s - length pre ≡ length s = omega arith in
    rw (drop-append pre (s ++ rest), width, take-append s rest) (ground (arith, kept))

prefixed-append :
    (t : ℕ) (s rest : List ℕ)
    → prefixed t s ++ rest ≡ ((t % 256) ∷ le_bytes 4 (length s % u32_mod)) ++ (s ++ rest)
prefixed-append t s rest = ap (◌∷◌ (t % 256)) (append_assoc _ s rest)

stated_length-prefixed :
    (t : ℕ) (s rest : List ℕ) → length s < u32_mod → stated_length (prefixed t s ++ rest) ≡ length s
stated_length-prefixed t s rest h =
    rw (prefixed-append t s rest)
      (le_value-le_bytes 4 (length s % u32_mod) (s ++ rest) (omega arith) ∙ omega arith)

pub length-prefixed : (t : ℕ) (s : List ℕ) → length (prefixed t s) ≡ 5 + length s
length-prefixed t s = omega (
  arith,
  length-append (le_bytes 4 (length s % u32_mod)) s,
  length-le_bytes 4 (length s % u32_mod),
)

length-prefixed_rest :
    (t : ℕ) (s rest : List ℕ) → length (prefixed t s ++ rest) ≡ 5 + length s + length rest
length-prefixed_rest t s rest =
    omega (arith, length-append (prefixed t s) rest, length-prefixed t s)

slice-prefixed : (t : ℕ) (s rest : List ℕ) → slice (prefixed t s ++ rest) 5 (5 + length s) ≡ ok s
unfolding le_bytes
slice-prefixed t s rest = slice_middle ((t % 256) ∷ le_bytes 4 (length s % u32_mod)) s rest

end_of-prefixed :
    (t : ℕ) (s rest : List ℕ)
    → 5 + length s < u32_mod
    → end_of (prefixed t s ++ rest) ≡ 5 + length s
end_of-prefixed t s rest h = omega (arith, stated_length-prefixed t s rest (omega arith))

module _ (t : ℕ) (s rest : List ℕ) (fits : 5 + length s < u32_mod) where
  pub decode_prefixed-prefixed :
      (short truncated : Error) (make : List ℕ → Value)
      → decode_prefixed short truncated make (prefixed t s ++ rest) ≡ ok (make s, 5 + length s)
  unfolding decode_prefixed
  decode_prefixed-prefixed short truncated make = ground (
    arith,
    length-prefixed_rest t s rest,
    stated_length-prefixed t s rest,
    end_of-prefixed t s rest,
    slice-prefixed t s rest,
  )

  pub decode_other-prefixed :
      decode_other (prefixed t s ++ rest) ≡ ok (new_string_value s, 5 + length s)
  unfolding decode_other
  decode_other-prefixed = ground (
    arith,
    length-prefixed_rest t s rest,
    stated_length-prefixed t s rest,
    end_of-prefixed t s rest,
    slice-prefixed t s rest,
  )

pub slice-suffix : (pre s : List ℕ) → slice (pre ++ s) (length pre) (length (pre ++ s)) ≡ ok s
slice-suffix pre s = rw (length-append pre s) (rw append-nil at (slice_middle pre s []))
