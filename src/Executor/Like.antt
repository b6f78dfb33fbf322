-- ===== src/Executor/Like.antt =====
-- executor/executor.go, matchLikeRunes: LIKE on lists of runes. An index that only moves forward is the
-- list that is left.
use xxldb.Base.{
  ℕ, ◌≡◌, ◌≢◌, ◌↔◌, refl, Bool, true, false, ◌||◌, List, [], ◌∷◌, ◌==◌, if◌then◌else◌, map, arith,
  Bool-cases, inl, inr, All,
}

abbrev percent : ℕ
percent = b'%'

abbrev underscore : ℕ
underscore = b'_'

-- The loop behind the text: what is left of the pattern may be % only.
unfoldable pub only_percents : List ℕ → Bool
only_percents [] = true
only_percents (p ∷ ps) = if p == percent then only_percents ps else false

-- The loop that tries every rest of the text, the empty one too.
unfoldable pub some_rest : (List ℕ → Bool) → List ℕ → Bool
some_rest f [] = f []
some_rest f (c ∷ cs) = f (c ∷ cs) || some_rest f cs

unfoldable pub match_like : (pattern str : List ℕ) → Bool
match_like pattern [] = only_percents pattern
match_like [] (c ∷ cs) = false
match_like (p ∷ ps) (c ∷ cs) =
    if (p == underscore) || (p == c)
    then match_like ps cs
    else if p == percent
    then some_rest (match_like ps) (c ∷ cs)
    else false

-- What a pattern says.
pub data Item : Type 0 where
  any_run : Item
  any_one : Item
  itself : ℕ → Item

unfoldable pub item_of : ℕ → Item
item_of p = if p == underscore then any_one else if p == percent then any_run else itself p

pub data Likes : List Item → List ℕ → Type 0 where
  ended : Likes [] []
  one : {is : List Item} {c : ℕ} {cs : List ℕ} → Likes is cs → Likes (any_one ∷ is) (c ∷ cs)
  exact : {is : List Item} {c : ℕ} {cs : List ℕ} → Likes is cs → Likes (itself c ∷ is) (c ∷ cs)
  left : {is : List Item} {cs : List ℕ} → Likes is cs → Likes (any_run ∷ is) cs
  longer :
      {is : List Item} {c : ℕ} {cs : List ℕ}
      → Likes (any_run ∷ is) cs
      → Likes (any_run ∷ is) (c ∷ cs)

abbrev pub HasNoPercent : List ℕ → Type 0
HasNoPercent = All (λ c. c ≢ percent)

item_of-underscore : (p : ℕ) → (p == underscore) ≡ true → item_of p ≡ any_one
unfolding item_of
item_of-underscore p e = rw e refl

item_of-percent : (p : ℕ) → (p == percent) ≡ true → item_of p ≡ any_run
unfolding item_of
item_of-percent p e = ground arith

item_of-itself : (p : ℕ) → (p == underscore) ≡ false → (p == percent) ≡ false → item_of p ≡ itself p
unfolding item_of
item_of-itself p e f = rw e (rw f refl)

any_run_end : {is : List Item} → Likes (any_run ∷ is) [] → Likes is []
any_run_end (left l) = l

not_one : {is : List Item} → ¬ Likes (any_one ∷ is) []
not_one l = elim l [ ]

not_itself : {is : List Item} {c : ℕ} → ¬ Likes (itself c ∷ is) []
not_itself l = elim l [ ]

only_percents→Likes : (ps : List ℕ) → only_percents ps ≡ true → Likes (map item_of ps) []
unfolding only_percents
only_percents→Likes [] e = ended
only_percents→Likes (p ∷ ps) e = elim (Bool-cases (p == percent)) [
  | inl m ↦ rw (item_of-percent p m) (left (only_percents→Likes ps (rw m at e)))
  | inr m ↦ absurd (cc (rw m at e))
]

Likes→only_percents : (ps : List ℕ) → Likes (map item_of ps) [] → only_percents ps ≡ true
unfolding only_percents
Likes→only_percents [] l = refl
Likes→only_percents (p ∷ ps) l = elim (Bool-cases (p == percent)) [
  | inl m ↦ rw m (Likes→only_percents ps (any_run_end (rw (item_of-percent p m) at l)))
  | inr m ↦ elim (Bool-cases (p == underscore)) [
    | inl u ↦ absurd (not_one (rw (item_of-underscore p u) at l))
    | inr u ↦ absurd (not_itself (rw (item_of-itself p u m) at l))
  ]
]

some_rest-Likes :
    (f : List ℕ → Bool) (is : List Item)
    → ((cs : List ℕ) → f cs ≡ true → Likes is cs)
    → (cs : List ℕ) → some_rest f cs ≡ true
    → Likes (any_run ∷ is) cs
unfolding some_rest
some_rest-Likes f is h [] e = left (h [] e)
some_rest-Likes f is h (c ∷ cs) e = elim (Bool-cases (f (c ∷ cs))) [
  | inl m ↦ left (h (c ∷ cs) m)
  | inr m ↦ longer (some_rest-Likes f is h cs (rw m at e))
]

Likes-some_rest :
    (f : List ℕ → Bool) (is : List Item)
    → ((cs : List ℕ) → HasNoPercent cs → Likes is cs → f cs ≡ true)
    → (cs : List ℕ) → HasNoPercent cs
    → Likes (any_run ∷ is) cs
    → some_rest f cs ≡ true
unfolding some_rest
Likes-some_rest f is h [] n (left l) = h [] n l
Likes-some_rest f is h (c ∷ cs) n (left l) = rw (h (c ∷ cs) n l) refl
Likes-some_rest f is h (c ∷ cs) n (longer l) = elim (Bool-cases (f (c ∷ cs))) [
  | inl m ↦ rw m refl
  | inr m ↦ rw m (Likes-some_rest f is h cs n.1 l)
]

behind_one : {is : List Item} {c : ℕ} {cs : List ℕ} → Likes (any_one ∷ is) (c ∷ cs) → Likes is cs
behind_one (one l) = l

behind_itself :
    {is : List Item} {p c : ℕ} {cs : List ℕ}
    → Likes (itself p ∷ is) (c ∷ cs)
    → (p ≡ c) × Likes is cs
behind_itself (exact l) = (refl, l)

any_rest : (cs : List ℕ) → Likes (any_run ∷ []) cs
any_rest [] = left ended
any_rest (c ∷ cs) = longer (any_rest cs)

==-eq : (p c : ℕ) → (p == c) ≡ true → p ≡ c
==-eq p c e = ground arith

eq-== : (p c : ℕ) → p ≡ c → (p == c) ≡ true
eq-== p c e = ground arith

percent_ne : (p c : ℕ) → (p == percent) ≡ true → c ≢ percent → (p == c) ≡ false
percent_ne p c e n = ground arith

match_like→Likes : (ps cs : List ℕ) → match_like ps cs ≡ true → Likes (map item_of ps) cs
unfolding match_like
match_like→Likes ps [] e = only_percents→Likes ps e
match_like→Likes [] (c ∷ cs) e = absurd (cc e)
match_like→Likes (p ∷ ps) (c ∷ cs) e = elim (Bool-cases (p == underscore)) [
  | inl u ↦ rw (item_of-underscore p u) (one (match_like→Likes ps cs (rw u at e)))
  | inr u ↦ elim (Bool-cases (p == percent)) [
    | inl m ↦ rw (item_of-percent p m) (elim (Bool-cases (p == c)) [
      | inl s ↦ longer (left (match_like→Likes ps cs (rw (u, s) at e)))
      | inr s ↦
          some_rest-Likes (match_like ps) (map item_of ps) (λ ds. match_like→Likes ps ds) (c ∷ cs)
            (rw (u, s, m) at e)
    ])
    | inr m ↦ rw (item_of-itself p u m) (elim (Bool-cases (p == c)) [
      | inl s ↦ rw (==-eq p c s) (exact (match_like→Likes ps cs (rw (u, s) at e)))
      | inr s ↦ absurd (cc (rw (u, s, m) at e))
    ])
  ]
]

Likes→match_like :
    (ps cs : List ℕ) → HasNoPercent cs → Likes (map item_of ps) cs → match_like ps cs ≡ true
unfolding match_like
Likes→match_like ps [] n l = Likes→only_percents ps l
Likes→match_like [] (c ∷ cs) n l = elim l [ ]
Likes→match_like (p ∷ ps) (c ∷ cs) n l = elim (Bool-cases (p == underscore)) [
  | inl u ↦ rw u (Likes→match_like ps cs n.1 (behind_one (rw (item_of-underscore p u) at l)))
  | inr u ↦ elim (Bool-cases (p == percent)) [
    | inl m ↦
        let s : (p == c) ≡ false = percent_ne p c m n.0 in
        rw (u, s, m)
          (Likes-some_rest (match_like ps) (map item_of ps) (λ ds. Likes→match_like ps ds) (c ∷ cs)
            n (rw (item_of-percent p m) at l))
    | inr m ↦
        let (s, k) = behind_itself (rw (item_of-itself p u m) at l) in
        rw (u, eq-== p c s) (Likes→match_like ps cs n.1 k)
  ]
]

-- On texts without %, LIKE is what the pattern says: _ stands for one rune, % for any run of runes, and
-- every other rune for itself.
pub match_like_iff :
    (pattern str : List ℕ)
    → HasNoPercent str
    → (match_like pattern str ≡ true) ↔ Likes (map item_of pattern) str
match_like_iff pattern str n = (match_like→Likes pattern str, Likes→match_like pattern str n)

-- A text of two runes or more that begins with % is not LIKE the pattern %, which stands for any
-- text: the rune of the pattern is taken as itself first.
match_like-percent :
    (c : ℕ) (cs : List ℕ)
    → (match_like (percent ∷ []) (percent ∷ c ∷ cs) ≡ false)
      × Likes (map item_of (percent ∷ [])) (percent ∷ c ∷ cs)
unfolding match_like item_of
match_like-percent c cs = (refl, longer (longer (any_rest cs)))
