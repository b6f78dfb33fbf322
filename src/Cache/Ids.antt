-- ===== src/Cache/Ids.antt =====
-- storage/pagecache.go: lists of page ids without repetition, and the pages under their ids.
use xxldb.Base.{
  ℕ, suc, ◌≡◌, ◌≢◌, refl, sym, ap, ◌∙◌, arith, true, false, Bool-cases, inl, inr, none, some, List,
  [], ◌∷◌, ◌==◌, length,
}
use xxldb.Page.{Page}
use xxldb.Cache.{mem, erase, back, lookup, delete, replace, keys, touch}

unfoldable pub NoDup : List ℕ → Type 0
NoDup [] = Unit {0}
NoDup (x ∷ xs) = (mem x xs ≡ false) × NoDup xs

pub same_id : (a b : ℕ) → (a == b) ≡ true → a ≡ b
same_id a b h = ground (arith, h)

pub mem-erase_ne : (x y : ℕ) (xs : List ℕ) → x ≢ y → mem x (erase y xs) ≡ mem x xs
unfolding mem erase
mem-erase_ne x y [] h = refl
mem-erase_ne x y (z ∷ xs) h = ground (arith, mem-erase_ne x y xs h)

pub mem-erase_self : (x : ℕ) (xs : List ℕ) → NoDup xs → mem x (erase x xs) ≡ false
unfolding mem erase NoDup
mem-erase_self x [] d = refl
mem-erase_self x (y ∷ xs) d = elim (Bool-cases (x == y)) [
  | inl e ↦ rw e (rw (same_id x y e) d.0)
  | inr e ↦ rw e (rw e (mem-erase_self x xs d.1))
]

pub NoDup-erase : (x : ℕ) (xs : List ℕ) → NoDup xs → NoDup (erase x xs)
unfolding mem erase NoDup
NoDup-erase x [] d = tt
NoDup-erase x (y ∷ xs) d = elim (Bool-cases (x == y)) [
  | inl e ↦ rw e d.1
  | inr e ↦ rw e (mem-erase_ne y x xs (λ q. ground (arith, e, q)) ∙ d.0, NoDup-erase x xs d.1)
]

pub length-erase : (x : ℕ) (xs : List ℕ) → mem x xs ≡ true → suc (length (erase x xs)) ≡ length xs
unfolding mem erase
length-erase x [] h = ground arith
length-erase x (y ∷ xs) h = elim (Bool-cases (x == y)) [
  | inl e ↦ rw e refl
  | inr e ↦ rw e (ap suc (length-erase x xs (ground (arith, h, e))))
]

pub erase_absent : (x : ℕ) (xs : List ℕ) → mem x xs ≡ false → erase x xs ≡ xs
unfolding mem erase
erase_absent x [] h = refl
erase_absent x (y ∷ xs) h = elim (Bool-cases (x == y)) [
  | inl e ↦ absurd (ground (arith, h, e))
  | inr e ↦ rw e (ap (λ l. y ∷ l) (erase_absent x xs (ground (arith, h, e))))
]

pub back-mem : (x : ℕ) (xs : List ℕ) → back xs ≡ some x → mem x xs ≡ true
unfolding back mem
back-mem x [] h = ground arith
back-mem x (y ∷ []) h = ground (arith, h)
back-mem x (y ∷ z ∷ xs) h = ground (arith, back-mem x (z ∷ xs) h)

-- An element that is moved to the front stays, and so do the others.
pub mem-touch : (x y : ℕ) (xs : List ℕ) → mem x (touch y xs) ≡ mem x xs
unfolding touch mem
mem-touch x y xs = elim (Bool-cases (mem y xs)) [
  | inl h ↦ elim (Bool-cases (x == y)) [
    | inl e ↦ rw (h, e) (rw (same_id x y e) (sym h))
    | inr e ↦ rw (h, e) (mem-erase_ne x y xs (λ q. ground (arith, e, q)))
  ]
  | inr h ↦ rw h refl
]

pub NoDup-touch : (y : ℕ) (xs : List ℕ) → NoDup xs → NoDup (touch y xs)
unfolding touch NoDup
NoDup-touch y xs d = elim (Bool-cases (mem y xs)) [
  | inl h ↦ rw h (mem-erase_self y xs d, NoDup-erase y xs d)
  | inr h ↦ rw h d
]

pub length-touch : (y : ℕ) (xs : List ℕ) → length (touch y xs) ≡ length xs
unfolding touch
length-touch y xs = elim (Bool-cases (mem y xs)) [
  | inl h ↦ rw h (length-erase y xs h)
  | inr h ↦ rw h refl
]

pub keys-delete : (x : ℕ) (pages : List (ℕ × Page)) → keys (delete x pages) ≡ erase x (keys pages)
unfolding delete erase
keys-delete x [] = refl
keys-delete x (p ∷ pages) = elim (Bool-cases (x == p.0)) [
  | inl e ↦ rw e refl
  | inr e ↦ rw e (ap (λ l. p.0 ∷ l) (keys-delete x pages))
]

pub keys-replace :
    (x : ℕ) (page : Page) (pages : List (ℕ × Page)) → keys (replace x page pages) ≡ keys pages
unfolding replace
keys-replace x page [] = refl
keys-replace x page (p ∷ pages) = elim (Bool-cases (x == p.0)) [
  | inl e ↦ rw e (ap (λ k. k ∷ keys pages) (same_id x p.0 e))
  | inr e ↦ rw e (ap (λ l. p.0 ∷ l) (keys-replace x page pages))
]

pub lookup-delete_ne :
    (x y : ℕ) (pages : List (ℕ × Page)) → x ≢ y → lookup x (delete y pages) ≡ lookup x pages
unfolding lookup delete
lookup-delete_ne x y [] h = refl
lookup-delete_ne x y (p ∷ pages) h = ground (arith, lookup-delete_ne x y pages h)

pub lookup-replace_ne :
    (x y : ℕ) (page : Page) (pages : List (ℕ × Page))
    → x ≢ y
    → lookup x (replace y page pages) ≡ lookup x pages
unfolding lookup replace
lookup-replace_ne x y page [] h = refl
lookup-replace_ne x y page (p ∷ pages) h = ground (arith, lookup-replace_ne x y page pages h)

pub lookup-replace_self :
    (x : ℕ) (page : Page) (pages : List (ℕ × Page))
    → mem x (keys pages) ≡ true
    → lookup x (replace x page pages) ≡ some page
unfolding lookup replace mem
lookup-replace_self x page [] h = ground arith
lookup-replace_self x page (p ∷ pages) h = ground (arith, lookup-replace_self x page pages)

-- A page is found just where its id is a key.
pub lookup_absent :
    (x : ℕ) (pages : List (ℕ × Page)) → mem x (keys pages) ≡ false → lookup x pages ≡ none
unfolding lookup mem
lookup_absent x [] h = refl
lookup_absent x (p ∷ pages) h = ground (arith, lookup_absent x pages)

pub lookup_present :
    (x : ℕ) (page : Page) (pages : List (ℕ × Page))
    → lookup x pages ≡ some page
    → mem x (keys pages) ≡ true
unfolding lookup mem
lookup_present x page [] h = ground arith
lookup_present x page (p ∷ pages) h = ground (arith, lookup_present x page pages)

pub lookup_missing :
    (x : ℕ) (pages : List (ℕ × Page)) → lookup x pages ≡ none → mem x (keys pages) ≡ false
unfolding lookup mem
lookup_missing x [] h = refl
lookup_missing x (p ∷ pages) h = ground (arith, lookup_missing x pages)
