-- ===== src/Handshake/Scramble.antt =====
-- mysql/server.go and mysql/protocol.go: which responses the password checks take.
use xxldb.Base.{
  ℕ, ◌≡◌, refl, sym, ap, ◌∙◌, true, false, not, ◌&&◌, List, ◌++◌, length, All, arith, ◌↔◌,
}
use xxldb.Auth.{is_empty}
use xxldb.Base.Text.{same_bytes, same_bytes_refl, same_bytes→eq}
use xxldb.Base.Words.{IsByte}
use xxldb.Base.Xor.{xor_all, xor_all-length, xor_all-IsByte, xor_all-cancel}
use xxldb.Handshake.{
  native_mask, native_password_auth, verify_native_with_sha1, verify_native, sha2_mask,
  verify_caching_sha2, caching_sha2_token,
}

-- A hash gives so many bytes.
pub record IsHash (size : ℕ) (hash : List ℕ → List ℕ) : Type 0 where
  pub sized : (xs : List ℕ) → length (hash xs) ≡ size
  pub bytes : (xs : List ℕ) → All IsByte (hash xs)

module _ (sha1 : List ℕ → List ℕ) (is_hash : IsHash 20 sha1) where
  mask_sized : (salt hash : List ℕ) → length (native_mask sha1 salt hash) ≡ 20
  mask_sized salt hash = is_hash.sized (salt ++ sha1 hash)

  verify-sized :
      (response salt hash : List ℕ)
      → length response ≡ 20
      → length salt ≡ 20
      → length hash ≡ 20
      → verify_native_with_sha1 sha1 response salt hash
        ≡ same_bytes (xor_all response (native_mask sha1 salt hash)) hash
  unfolding verify_native_with_sha1
  verify-sized response salt hash r s h = rw (r, s, h) refl

  verify-lengths :
      (response salt hash : List ℕ)
      → verify_native_with_sha1 sha1 response salt hash ≡ true
      → (length response ≡ 20) × (length salt ≡ 20) × (length hash ≡ 20)
  unfolding verify_native_with_sha1
  verify-lengths response salt hash e = ground (arith, e)

  -- For a hash function that gives 20 bytes, and bytes as response and as stored hash: the check
  -- takes a response if and only if all three strings have 20 bytes and the response is the stored
  -- hash masked by the hash of the salt and of the stored hash's hash, so no other response.
  pub verify_native_with_sha1_iff :
      (response salt hash : List ℕ)
      → All IsByte response
      → All IsByte hash
      → (verify_native_with_sha1 sha1 response salt hash ≡ true) ↔ (
          (length response ≡ 20)
          × (length salt ≡ 20)
          × (length hash ≡ 20)
          × (response ≡ xor_all hash (native_mask sha1 salt hash)))
  verify_native_with_sha1_iff response salt hash p q = (to, fro)
    where
      to :
          verify_native_with_sha1 sha1 response salt hash ≡ true
          → (length response ≡ 20)
            × (length salt ≡ 20)
            × (length hash ≡ 20)
            × (response ≡ xor_all hash (native_mask sha1 salt hash))
      to e =
          let n = verify-lengths response salt hash e in
          let same = same_bytes→eq _ _ (sym (verify-sized response salt hash n.0 n.1 n.2) ∙ e) in
          (
            n.0,
            n.1,
            n.2,
            sym (
                  xor_all-cancel response (native_mask sha1 salt hash) p
                    (omega (arith, n.0, mask_sized salt hash)))
                ∙ ap (λ xs. xor_all xs (native_mask sha1 salt hash)) same,
          )

      fro :
          (length response ≡ 20)
            × (length salt ≡ 20)
            × (length hash ≡ 20)
            × (response ≡ xor_all hash (native_mask sha1 salt hash))
          → verify_native_with_sha1 sha1 response salt hash ≡ true
      fro (r, s, h, e) =
          verify-sized response salt hash r s h
          ∙ rw
              (
                e,
                xor_all-cancel hash (native_mask sha1 salt hash) q
                    (omega (arith, h, mask_sized salt hash)),
              )
              (same_bytes_refl hash)

  -- For a hash function that gives 20 bytes, a salt of 20 bytes and a password that is not empty:
  -- what the client computes from the password is taken.
  pub verify-native_password_auth :
      (password salt : List ℕ)
      → is_empty password ≡ false
      → length salt ≡ 20
      → verify_native_with_sha1 sha1 (native_password_auth sha1 password salt) salt (sha1 password)
        ≡ true
  unfolding native_password_auth
  verify-native_password_auth password salt e s =
      let hash = sha1 password in
      let n = is_hash.sized password in
      let m = mask_sized salt hash in
      rw e (
        (verify_native_with_sha1_iff (xor_all hash (native_mask sha1 salt hash)) salt hash
            (xor_all-IsByte hash _) (is_hash.bytes password)).1
          (xor_all-length hash (native_mask sha1 salt hash) (n ∙ sym m) ∙ n, s, n, refl))

  -- The check by the password is the check by its stored SHA-1, and it takes no response at all
  -- where the password is empty.
  verify_native-verify_native_with_sha1 :
      (response salt password : List ℕ)
      → verify_native sha1 response salt password
        ≡ (not (is_empty password) && verify_native_with_sha1 sha1 response salt (sha1 password))
  unfolding verify_native verify_native_with_sha1
  verify_native-verify_native_with_sha1 response salt password =
      ground (arith, is_hash.sized password)

-- For a hash function that gives 32 bytes and a password that is not empty: the check of
-- caching_sha2_password takes the token that is computed from the same salt and password.
verify-caching_sha2_token :
    (sha256 : List ℕ → List ℕ) (is_hash : IsHash 32 sha256) (password salt : List ℕ)
    → is_empty password ≡ false
    → verify_caching_sha2 sha256 (caching_sha2_token sha256 password salt) salt password ≡ true
unfolding verify_caching_sha2 caching_sha2_token
verify-caching_sha2_token sha256 is_hash password salt e =
    let hash = sha256 password in
    let n = is_hash.sized password in
    let same = n ∙ sym (is_hash.sized (sha256 hash ++ salt)) in
    rw
      (
        xor_all-length hash (sha2_mask sha256 salt password) same,
        n,
        e,
        xor_all-cancel hash (sha2_mask sha256 salt password) (is_hash.bytes password) same,
      )
      (same_bytes_refl (sha256 hash))
