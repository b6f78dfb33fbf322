-- ===== src/Auth/Runs.antt =====
-- auth/auth.go: the theorems at concrete inputs, with a copy of constant size in place of a hash.
use xxldb.Base.{ℕ, zero, suc, List, [], ◌∷◌, replicate, All, arith}
use xxldb.Base.Words.{IsByte}
use xxldb.Auth.{Auth, new_auth, set_credentials, from_map, to_map}
use xxldb.Auth.Policy.{
  credentials_set, restarted, Reachable, start, step, IsConsistent, Reachable-IsConsistent,
}

abbrev first : ℕ → List ℕ → List ℕ
first size [] = replicate size 0
first size (x ∷ xs) = replicate size 1

replicate-IsByte : (n b : ℕ) → IsByte b → All IsByte (replicate n b)
replicate-IsByte zero b h = _
replicate-IsByte (suc n) b h = (h, replicate-IsByte n b h)

first-IsByte : (xs : List ℕ) → All IsByte (first 20 xs)
first-IsByte [] = replicate-IsByte 20 0 (omega arith)
first-IsByte (x ∷ xs) = replicate-IsByte 20 1 (omega arith)

abbrev user : List ℕ
user = b'u' ∷ []

abbrev secret : List ℕ
secret = b'p' ∷ []

abbrev named_auth : Auth
named_auth = set_credentials (first 32) (first 20) user secret new_auth

walk : Reachable (first 32) (first 20) (from_map (to_map named_auth) new_auth)
walk = step _ _ (step _ _ start (credentials_set user secret)) restarted

Reachable-IsConsistent_example :
    IsConsistent (first 32) (first 20) (from_map (to_map named_auth) new_auth)
Reachable-IsConsistent_example =
    Reachable-IsConsistent (first 32) (first 20) first-IsByte
      (from_map (to_map named_auth) new_auth) walk
