-- ===== src/Base/Loop.antt =====
-- A loop as its round on a state, run on fuel, and the rule by which it ends and keeps an invariant.
use Prim.Native.Nat.{ℕ, zero, suc, ◌<◌}
use mathlib.Core.Path.{◌≡◌, refl}
use mathlib.Core.Option.{Option, none, some}
use native.Mathlib.Omega.{arith}

-- A round leaves the loop with a result, or goes on with a new state.
pub data Round {ℓ κ} (S : Type ℓ) (A : Type κ) : Type (ℓ ⊔ κ) where
  done : A → Round S A
  more : S → Round S A

module _ {ℓ κ} {S : Type ℓ} {A : Type κ} where
  unfoldable pub go_on : (S → Option A) → Round S A → Option A
  go_on rest (done a) = some a
  go_on rest (more s) = rest s

  -- `none` is a loop that was given too little fuel.
  unfoldable pub run : (S → Round S A) → ℕ → S → Option A
  unfolding go_on
  run round zero s = none
  run round (suc fuel) s = go_on (run round fuel) (round s)

-- A result that is there, with a property.
abbrev pub Yields {ℓ κ} : {A : Type ℓ} → Option A → (A → Type κ) → Type (ℓ ⊔ κ)
Yields {A} o Q = (a : A) × (o ≡ some a) × Q a

module _ {ℓ κ ι ν} {S : Type ℓ} {A : Type κ} (P : S → Type ι) (Q : A → Type ν)
    (measure : S → ℕ) where
  -- What a round from `s` has to give.
  abbrev pub IsGood : ℕ → Round S A → Type (ι ⊔ ν)
  IsGood n (done a) = Q a × Unit {ι}
  IsGood n (more t) = P t × (measure t < n) × Unit {ν}

module _ {ℓ κ} {S : Type ℓ} {A : Type κ} where
  -- Where every round keeps the invariant and lessens the measure, enough fuel gives a result.
  pub run_yields {ι ν} :
      (P : S → Type ι) (Q : A → Type ν) (measure : S → ℕ) (round : S → Round S A)
      → ((s : S) → P s → IsGood P Q measure (measure s) (round s))
      → (fuel : ℕ) (s : S) → measure s < fuel
      → P s
      → Yields (run round fuel s) Q
  unfolding run go_on
  run_yields P Q measure round good zero s h p = absurd (omega arith)
  run_yields P Q measure round good (suc fuel) s h p =
      next (round s) refl (good s p)
        (λ t m q. run_yields P Q measure round good fuel t (omega (arith, m)) q)
    where
      next :
          (r : Round S A)
          → round s ≡ r
          → IsGood P Q measure (measure s) r
          → ((t : S) → measure t < measure s → P t → Yields (run round fuel t) Q)
          → Yields (go_on (run round fuel) (round s)) Q
      next (done a) e g ih = (a, rw e refl, g.0)
      next (more t) e g ih = rw e (ih t g.1 g.0)
