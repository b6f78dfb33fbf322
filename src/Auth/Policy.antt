-- ===== src/Auth/Policy.antt =====
-- auth/auth.go: who is let in, and the states that the operations lead to.
use xxldb.Base.{
  ℕ, ◌≡◌, refl, false, ◌&&◌, ◌||◌, List, [], ◌∷◌, length, Bool-cases, arith, none, some, inl, inr,
  All,
}
use xxldb.Base.Hex.{hex_encode}
use xxldb.Base.Text.{same_bytes, same_bytes_refl}
use xxldb.Base.Words.{IsByte}
use xxldb.Auth.{
  Auth, new_auth, authenticate, set_credentials, hash_password, set_user, set_user_password,
  set_password, enable, disable, clear_credentials, is_empty, to_map, from_map, decoded,
}
use xxldb.Auth.Config.{from_map-to_map}

module _ (sha256 : List ℕ → List ℕ) (sized : (xs : List ℕ) → length (sha256 xs) ≡ 32) where
  hash_password-not_empty : (p : List ℕ) → is_empty (hash_password sha256 p) ≡ false
  unfolding hash_password hex_encode same_bytes
  hash_password-not_empty p = go (sha256 _) (sized _)
    where
      go : (h : List ℕ) → length h ≡ 32 → is_empty (hex_encode h) ≡ false
      go [] e = absurd (omega (arith, e))
      go (b ∷ bs) e = refl

module _ (sha256 sha1 : List ℕ → List ℕ) (sized : (xs : List ℕ) → length (sha256 xs) ≡ 32) where
  -- With SHA-256 giving 32 bytes: after SetCredentials, everyone is let in where the name is
  -- empty, and else who gives the name, and a password with the same hash where there is one.
  authenticate-set_credentials :
      (a : Auth) (u p v q : List ℕ)
      → authenticate sha256 (set_credentials sha256 sha1 u p a) v q ≡ (
          is_empty u
          || (same_bytes v u
              && (is_empty p || same_bytes (hash_password sha256 p) (hash_password sha256 q))))
  unfolding authenticate set_credentials
  authenticate-set_credentials a u p v q =
      ground (arith, hash_password-not_empty sha256 sized p, same_bytes_refl [])

module _ (sha256 sha1 : List ℕ → List ℕ) where
  -- What the engine does to the credentials; a restart exports them and reads them back.
  pub data Step (a : Auth) : Auth → Type 0 where
    enabled : Step a (enable a)
    disabled : Step a (disable a)
    cleared : Step a (clear_credentials a)
    credentials_set : (u p : List ℕ) → Step a (set_credentials sha256 sha1 u p a)
    user_set : (u : List ℕ) → Step a (set_user sha256 sha1 u a)
    user_password_set : (p : List ℕ) → Step a (set_user_password sha256 sha1 p a)
    password_set : (p : List ℕ) → Step a (set_password sha256 sha1 p a)
    restarted : Step a (from_map (to_map a) new_auth)

  pub data Reachable : Auth → Type 0 where
    start : Reachable new_auth
    step : (a b : Auth) → Reachable a → Step a b → Reachable b

  -- Both hashes are those of one password, or there is none.
  pub data IsConsistent (a : Auth) : Type 0 where
    no_password : a.password ≡ [] → a.mysql_sha1 ≡ none → IsConsistent a
    hashes_of :
        (p : List ℕ)
        → a.password ≡ hash_password sha256 p
        → a.mysql_sha1 ≡ some (sha1 p)
        → IsConsistent a

  set_credentials-IsConsistent :
      (u p : List ℕ) (a : Auth) → IsConsistent (set_credentials sha256 sha1 u p a)
  unfolding set_credentials
  set_credentials-IsConsistent u p a = elim (Bool-cases (is_empty p)) [
    | inl e ↦ no_password (rw e refl) (rw e refl)
    | inr e ↦ hashes_of p (rw e refl) (rw e refl)
  ]

  restarted-IsConsistent :
      ((xs : List ℕ) → All IsByte (sha1 xs))
      → (a : Auth) → IsConsistent a
      → IsConsistent (from_map (to_map a) new_auth)
  unfolding decoded new_auth
  restarted-IsConsistent bytes a (no_password e f) =
      rw (from_map-to_map a new_auth (λ h g. cc (f, g))) (no_password e (rw f refl))
  restarted-IsConsistent bytes a (hashes_of p e f) =
      rw
        (from_map-to_map a new_auth (λ h g. let same : h ≡ sha1 p = cc (f, g) in rw same (bytes p)))
        (hashes_of p e (rw f refl))

  Step-IsConsistent :
      ((xs : List ℕ) → All IsByte (sha1 xs))
      → (a b : Auth) → IsConsistent a
      → Step a b
      → IsConsistent b
  unfolding enable disable clear_credentials set_user set_user_password set_password
  Step-IsConsistent bytes a b (no_password e f) enabled = no_password e f
  Step-IsConsistent bytes a b (hashes_of p e f) enabled = hashes_of p e f
  Step-IsConsistent bytes a b (no_password e f) disabled = no_password e f
  Step-IsConsistent bytes a b (hashes_of p e f) disabled = hashes_of p e f
  Step-IsConsistent bytes a b c cleared = no_password refl refl
  Step-IsConsistent bytes a b c (credentials_set u p) = set_credentials-IsConsistent u p a
  Step-IsConsistent bytes a b c (user_set u) = set_credentials-IsConsistent u [] a
  Step-IsConsistent bytes a b c (user_password_set p) = set_credentials-IsConsistent a.username p a
  Step-IsConsistent bytes a b c (password_set p) = hashes_of p refl refl
  Step-IsConsistent bytes a b c restarted = restarted-IsConsistent bytes a c

  -- In every state that the engine comes to, both hashes are those of one password or there is none,
  -- where SHA-1 gives bytes.
  pub Reachable-IsConsistent :
      ((xs : List ℕ) → All IsByte (sha1 xs)) → (a : Auth) → Reachable a → IsConsistent a
  unfolding new_auth
  Reachable-IsConsistent bytes a start = no_password refl refl
  Reachable-IsConsistent bytes a (step b _ r s) =
      Step-IsConsistent bytes b a (Reachable-IsConsistent bytes b r) s
