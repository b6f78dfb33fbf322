-- ===== src/Base/Assoc.antt =====
-- Go's map with string keys, as a list of pairs.
use Prim.Native.Nat.{ℕ}
use mathlib.Core.Path.{◌≡◌, refl}
use mathlib.Core.Bool.{false}
use mathlib.Core.List.{List, [], ◌∷◌}
use mathlib.Core.Option.{Option, none, some}
use native.Mathlib.Omega.{arith}
use xxldb.Base.Tests.{if◌then◌else◌}
use xxldb.Base.Text.{same_bytes, same_bytes_refl, same_bytes→eq}

abbrev pub Map : Type 0 → Type 0
Map A = List (List ℕ × A)

module _ {A : Type 0} where
  unfoldable pub find_key : Map A → List ℕ → Option A
  find_key [] k = none
  find_key (e ∷ es) k = let rest = find_key es k in if same_bytes e.0 k then some e.1 else rest

  unfoldable pub put_key : Map A → List ℕ → A → Map A
  put_key [] k v = (k, v) ∷ []
  put_key (e ∷ es) k v =
      let rest = put_key es k v in if same_bytes e.0 k then (k, v) ∷ es else e ∷ rest

  unfoldable pub remove_key : Map A → List ℕ → Map A
  remove_key [] k = []
  remove_key (e ∷ es) k = let rest = remove_key es k in if same_bytes e.0 k then rest else e ∷ rest

  pub find_key-put_key_self : (m : Map A) (k : List ℕ) (v : A) → find_key (put_key m k v) k ≡ some v
  unfolding find_key put_key
  find_key-put_key_self [] k v = rw (same_bytes_refl k) refl
  find_key-put_key_self (e ∷ es) k v =
      ground (arith, same_bytes_refl k, find_key-put_key_self es k v)

  pub find_key-put_key_ne :
      (m : Map A) (k l : List ℕ) (v : A)
      → same_bytes k l ≡ false
      → find_key (put_key m k v) l ≡ find_key m l
  unfolding find_key put_key
  find_key-put_key_ne [] k l v h = rw h refl
  find_key-put_key_ne (e ∷ es) k l v h =
      ground (arith, h, find_key-put_key_ne es k l v h, same_bytes→eq e.0 k)

  pub find_key-remove_key_self : (m : Map A) (k : List ℕ) → find_key (remove_key m k) k ≡ none
  unfolding find_key remove_key
  find_key-remove_key_self [] k = refl
  find_key-remove_key_self (e ∷ es) k = ground (arith, find_key-remove_key_self es k)

  pub find_key-remove_key_ne :
      (m : Map A) (k l : List ℕ)
      → same_bytes k l ≡ false
      → find_key (remove_key m k) l ≡ find_key m l
  unfolding find_key remove_key
  find_key-remove_key_ne [] k l h = refl
  find_key-remove_key_ne (e ∷ es) k l h =
      ground (arith, h, find_key-remove_key_ne es k l h, same_bytes→eq e.0 k)
