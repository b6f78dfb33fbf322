-- ===== src/Handshake/Runs.antt =====
-- mysql/server.go: the theorems at concrete inputs, with a sum in place of a hash.
use xxldb.Base.{
  ℕ, zero, suc, ◌+◌, ◌%◌, ◌≡◌, ◌↔◌, ◌⊎◌, refl, true, some, List, [], ◌∷◌, ok, length, replicate,
  length-replicate, All, arith,
}
use xxldb.Base.Text.{codes, same_bytes}
use xxldb.Base.Words.{IsByte}
use xxldb.Base.Xor.{xor_all, xor_bits}
use xxldb.Auth.{Auth, new_auth, set_credentials}
use xxldb.Handshake.{
  Login, has_flag, check_reply, auth_switch, check_native, route, native_mask,
  verify_native_with_sha1, native_password_auth, parse_login, admit,
}
use xxldb.Handshake.Scramble.{IsHash, verify_native_with_sha1_iff}
use xxldb.Handshake.Packet.{IsLogin, no_nul, write_login, parse_login-write_login}
use xxldb.Handshake.Admission.{IsAllowed, admit-IsAllowed, admit-client_answer}

sum : List ℕ → ℕ
sum [] = 0
sum (x ∷ xs) = (x + sum xs) % 256

abbrev sum_hash : ℕ → List ℕ → List ℕ
sum_hash size xs = replicate size (sum xs)

sum-IsByte : (xs : List ℕ) → IsByte (sum xs)
unfolding sum
sum-IsByte [] = omega arith
sum-IsByte (x ∷ xs) = omega arith

replicate-IsByte : (n b : ℕ) → IsByte b → All IsByte (replicate n b)
replicate-IsByte zero b h = _
replicate-IsByte (suc n) b h = (h, replicate-IsByte n b h)

sum_hash-IsHash : (size : ℕ) → IsHash size (sum_hash size)
sum_hash-IsHash size = record {
  sized = λ xs. length-replicate size (sum xs);
  bytes = λ xs. replicate-IsByte size (sum xs) (sum-IsByte xs);
}

abbrev salt : List ℕ
salt = replicate 20 7

abbrev sha1 : List ℕ → List ℕ
sha1 = sum_hash 20

abbrev secret : List ℕ
secret = b'p' ∷ b'w' ∷ []

abbrev user : List ℕ
user = b'u' ∷ []

abbrev login : Login
login = record {
  capability = 0x80008;
  charset = 33;
  username = user;
  response = 1 ∷ 2 ∷ [];
  database = b'd' ∷ [];
  plugin = b'x' ∷ [];
}

verify_native_with_sha1_iff_example :
    (verify_native_with_sha1 sha1 salt salt (sha1 secret) ≡ true) ↔ (
      (length salt ≡ 20)
      × (length salt ≡ 20)
      × (length (sha1 secret) ≡ 20)
      × (salt ≡ xor_all (sha1 secret) (native_mask sha1 salt (sha1 secret))))
verify_native_with_sha1_iff_example =
    verify_native_with_sha1_iff sha1 (sum_hash-IsHash 20) salt salt (sha1 secret)
      (replicate-IsByte 20 7 (omega arith)) (replicate-IsByte 20 (sum secret) (sum-IsByte secret))

login-IsLogin : IsLogin login
unfolding no_nul has_flag
login-IsLogin = record {
  capability_bound = omega arith;
  short = omega arith;
  user_text = refl;
  database_text = refl;
  plugin_text = refl;
  no_database = λ e. cc e;
  no_plugin = λ e. cc e;
}

parse_login-write_login_example : parse_login (write_login 1000 login) ≡ ok login
parse_login-write_login_example = parse_login-write_login 1000 login login-IsLogin

admit-client_answer_example :
    (admit sha1
        (set_credentials sha1 sha1 user secret new_auth)
        salt
        true
        login
        (some (native_password_auth sha1 secret salt))
      ≡ ok 2)
    ⊎ (admit sha1
          (set_credentials sha1 sha1 user secret new_auth)
          salt
          true
          login
          (some (native_password_auth sha1 secret salt))
        ≡ ok 4)
unfolding same_bytes
admit-client_answer_example =
    admit-client_answer sha1 sha1 (sum_hash-IsHash 20) new_auth user secret salt refl refl refl true
      login refl

abbrev with_word : Auth
with_word = set_credentials sha1 sha1 user secret new_auth

admit-IsAllowed_example :
    IsAllowed sha1 with_word salt true login (some (native_password_auth sha1 secret salt))
unfolding admit route check_native auth_switch check_reply set_credentials same_bytes codes
    native_password_auth verify_native_with_sha1 xor_all xor_bits sum
admit-IsAllowed_example =
    admit-IsAllowed sha1 with_word salt true login (some (native_password_auth sha1 secret salt)) 4
      refl
