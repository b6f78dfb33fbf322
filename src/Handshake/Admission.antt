-- ===== src/Handshake/Admission.antt =====
-- mysql/server.go: whom handleAuth and sendAuthSwitchRequest let in.
use xxldb.Base.{
  ℕ, ◌≡◌, refl, sym, ◌∙◌, Bool, true, false, Option, none, some, List, ok, length, arith,
  Bool-cases, ◌⊎◌, inl, inr,
}
use xxldb.Base.Text.{same_bytes_refl}
use xxldb.Auth.{Auth, is_empty, set_credentials}
use xxldb.Handshake.{
  Login, wrong_user, verify_native_with_sha1, native_password_auth, check_reply, auth_switch,
  check_native, route, admit,
}
use xxldb.Handshake.Scramble.{IsHash, verify-native_password_auth}

module _ (sha1 : List ℕ → List ℕ) (auth : Auth) (salt : List ℕ) where
  -- The stored hash takes the response, or there is none stored.
  pub data IsProof (response : List ℕ) : Type 0 where
    no_password : auth.mysql_sha1 ≡ none → IsProof response
    taken :
        (hash : List ℕ)
        → auth.mysql_sha1 ≡ some hash
        → verify_native_with_sha1 sha1 response salt hash ≡ true
        → IsProof response

  pub data IsAllowed (require_auth : Bool) (login : Login) (reply : Option (List ℕ)) : Type 0 where
    open_server : require_auth ≡ false → auth.enabled ≡ false → IsAllowed require_auth login reply
    by_login :
        auth.enabled ≡ true
        → wrong_user auth login ≡ false
        → IsProof login.response
        → IsAllowed require_auth login reply
    by_reply :
        auth.enabled ≡ true
        → wrong_user auth login ≡ false
        → (r : List ℕ) → reply ≡ some r
        → IsProof r
        → IsAllowed require_auth login reply

  check_reply-IsProof :
      (o : Option (List ℕ)) (r : List ℕ) (n : ℕ)
      → auth.mysql_sha1 ≡ o
      → check_reply sha1 auth salt o r ≡ ok n
      → IsProof r
  unfolding check_reply
  check_reply-IsProof none r n s e = no_password s
  check_reply-IsProof (some hash) r n s e = taken hash s (ground (arith, e))

  auth_switch-IsProof :
      (login : Login) (reply : Option (List ℕ)) (n : ℕ)
      → auth.enabled ≡ true
      → auth_switch sha1 auth salt login reply ≡ ok n
      → (r : List ℕ) × (reply ≡ some r) × IsProof r
  unfolding auth_switch
  auth_switch-IsProof login none n h e = cc e
  auth_switch-IsProof login (some r) n h e =
      let checked : check_reply sha1 auth salt auth.mysql_sha1 r ≡ ok n = ground (arith, h, e) in
      (r, refl, check_reply-IsProof auth.mysql_sha1 r n refl checked)

  -- How a route is taken.
  route-cases :
      (login : Login) (reply : Option (List ℕ))
      → (route sha1 auth salt login reply ≡ auth_switch sha1 auth salt login reply)
        ⊎ (route sha1 auth salt login reply
            ≡ check_native sha1 auth salt login reply auth.mysql_sha1)
  unfolding route
  route-cases login reply = ground arith

  check_native-cases :
      (login : Login) (reply : Option (List ℕ)) (n : ℕ) (o : Option (List ℕ))
      → auth.mysql_sha1 ≡ o
      → check_native sha1 auth salt login reply o ≡ ok n
      → IsProof login.response ⊎ (auth_switch sha1 auth salt login reply ≡ ok n)
  unfolding check_native
  check_native-cases login reply n none s e = inl (no_password s)
  check_native-cases login reply n (some hash) s e =
      elim (Bool-cases (verify_native_with_sha1 sha1 login.response salt hash)) [
        | inl f ↦ inl (taken hash s f)
        | inr f ↦ inr (ground (arith, e, f))
      ]

  -- A connection is let in only where authentication is off and not required, or where the user
  -- is right and the login, or the reply to the switch, holds a response that the stored hash takes,
  -- if there is one.
  pub admit-IsAllowed :
      (require_auth : Bool) (login : Login) (reply : Option (List ℕ)) (n : ℕ)
      → admit sha1 auth salt require_auth login reply ≡ ok n
      → IsAllowed require_auth login reply
  unfolding admit
  admit-IsAllowed require_auth login reply n e = elim (Bool-cases auth.enabled) [
    | inl h ↦
        let right : wrong_user auth login ≡ false = ground (arith, e, h) in
        let routed : route sha1 auth salt login reply ≡ ok n = ground (arith, e, h) in
        let switched : auth_switch sha1 auth salt login reply ≡ ok n
            → IsAllowed require_auth login reply =
          (λ f. let p = auth_switch-IsProof login reply n h f in by_reply h right p.0 p.1 p.2) in
        elim (route-cases login reply) [
          | inl c ↦ switched (sym c ∙ routed)
          | inr c ↦ elim (check_native-cases login reply n auth.mysql_sha1 refl (sym c ∙ routed)) [
            | inl p ↦ by_login h right p
            | inr f ↦ switched f
          ]
        ]
    | inr h ↦ open_server (ground (arith, e, h)) h
  ]

module _ (sha256 sha1 : List ℕ → List ℕ) (is_hash : IsHash 20 sha1) (old : Auth)
    (username password salt : List ℕ) (named : is_empty username ≡ false)
    (with_password : is_empty password ≡ false) (salted : length salt ≡ 20) where
  abbrev auth : Auth
  auth = set_credentials sha256 sha1 username password old

  abbrev client_answer : List ℕ
  client_answer = native_password_auth sha1 password salt

  auth_fields : (auth.mysql_sha1 ≡ some (sha1 password)) × (auth.enabled ≡ true)
  unfolding set_credentials
  auth_fields = rw (with_password, named) (refl, refl)

  right_user : (login : Login) → login.username ≡ username → wrong_user auth login ≡ false
  unfolding set_credentials
  right_user login e = rw (e, same_bytes_refl username) (ground arith)

  switch-client_answer :
      (login : Login)
      → login.username ≡ username
      → auth_switch sha1 auth salt login (some client_answer) ≡ ok 4
  unfolding auth_switch check_reply
  switch-client_answer login e =
      rw
        (
          auth_fields.1,
          right_user login e,
          auth_fields.0,
          verify-native_password_auth sha1 is_hash password salt with_password salted,
        )
        refl

  native-client_answer :
      (login : Login)
      → login.username ≡ username
      → (o : Option (List ℕ)) → o ≡ some (sha1 password)
      → (check_native sha1 auth salt login (some client_answer) o ≡ ok 2)
        ⊎ (check_native sha1 auth salt login (some client_answer) o ≡ ok 4)
  unfolding check_native
  native-client_answer login e o s =
      rw s (elim (Bool-cases (verify_native_with_sha1 sha1 login.response salt (sha1 password))) [
        | inl f ↦ inl (rw f refl)
        | inr f ↦ inr (rw f (switch-client_answer login e))
      ])

  admit-route :
      (require_auth : Bool) (login : Login) (reply : Option (List ℕ))
      → login.username ≡ username
      → admit sha1 auth salt require_auth login reply ≡ route sha1 auth salt login reply
  unfolding admit
  admit-route require_auth login reply e = rw (auth_fields.1, right_user login e) (ground arith)

  -- After SetCredentials with a name and a password that are not empty, for a hash function that
  -- gives 20 bytes and a salt of 20 bytes: whoever gives that name, with any plugin and any response,
  -- and answers a switch with what the password gives, is let in.
  pub admit-client_answer :
      (require_auth : Bool) (login : Login)
      → login.username ≡ username
      → (admit sha1 auth salt require_auth login (some client_answer) ≡ ok 2)
        ⊎ (admit sha1 auth salt require_auth login (some client_answer) ≡ ok 4)
  admit-client_answer require_auth login e =
      rw (admit-route require_auth login (some client_answer) e)
        (elim (route-cases sha1 auth salt login (some client_answer)) [
          | inl c ↦ inr (c ∙ switch-client_answer login e)
          | inr c ↦ rw c (native-client_answer login e auth.mysql_sha1 auth_fields.0)
        ])
