-- ===== src/Handshake.antt =====
-- mysql/server.go and mysql/protocol.go: how the MySQL server lets a connection in. The hashes are
-- arguments; a packet that the server reads is its payload, `none` where it cannot be read.
pub mod Scramble
pub mod Packet
pub mod Admission
mod Runs
use xxldb.Auth.{Auth, is_empty, authenticate}
use xxldb.Base.{
  ℕ, ◌+◌, ◌/◌, ◌%◌, ◌≡◌, Bool, true, false, not, ◌&&◌, ◌||◌, Option, none, some, List, [], ◌∷◌,
  ◌++◌, Result, ok, err, refuse, ◌>>=◌, ◌>>◌, if◌then◌else◌, ltb, leb, ◌==◌, length, take, drop,
  get_or,
}
use xxldb.Base.Text.{codes, same_bytes}
use xxldb.Base.Words.{le_value}
use xxldb.Base.Xor.{xor_all}

module _ (sha1 : List ℕ → List ℕ) where
  -- The mask of mysql_native_password, from the salt and the SHA-1 of the password.
  abbrev pub native_mask : List ℕ → List ℕ → List ℕ
  native_mask salt hash = sha1 (salt ++ sha1 hash)

  unfoldable pub native_password_auth : List ℕ → List ℕ → List ℕ
  native_password_auth password salt =
      if is_empty password then [] else xor_all (sha1 password) (native_mask salt (sha1 password))

  unfoldable pub verify_native_with_sha1 : List ℕ → List ℕ → List ℕ → Bool
  verify_native_with_sha1 response salt hash =
      if not (length response == 20) || not (length salt == 20) || not (length hash == 20)
      then false
      else same_bytes (xor_all response (native_mask salt hash)) hash

  unfoldable pub verify_native : List ℕ → List ℕ → List ℕ → Bool
  verify_native response salt password =
      if not (length response == 20) || not (length salt == 20)
      then false
      else if is_empty password
      then length response == 0
      else same_bytes (xor_all response (native_mask salt (sha1 password))) (sha1 password)

module _ (sha256 : List ℕ → List ℕ) where
  abbrev pub sha2_mask : List ℕ → List ℕ → List ℕ
  sha2_mask salt password = sha256 (sha256 (sha256 password) ++ salt)

  unfoldable pub verify_caching_sha2 : List ℕ → List ℕ → List ℕ → Bool
  verify_caching_sha2 response salt password =
      if not (length response == 32)
      then false
      else if is_empty password
      then length response == 0
      else same_bytes (sha256 (xor_all response (sha2_mask salt password)))
          (sha256 (sha256 password))

  unfoldable pub caching_sha2_token : List ℕ → List ℕ → List ℕ
  caching_sha2_token password salt = xor_all (sha256 password) (sha2_mask salt password)

pub data AuthError : Type 0 where
  too_short no_max_packet_size no_charset no_reserved not_configured access_denied switch_failed
        invalid_password :
      AuthError

-- What handleAuth takes from the packet.
pub record Login : Type 0 where
  pub capability : ℕ
  pub charset : ℕ
  pub username : List ℕ
  pub response : List ℕ
  pub database : List ℕ
  pub plugin : List ℕ

abbrev pub connect_with_db : ℕ
connect_with_db = 8

abbrev pub plugin_auth : ℕ
plugin_auth = 0x80000

unfoldable pub has_flag : ℕ → ℕ → Bool
has_flag capability bit = capability / bit % 2 == 1

-- The bytes up to a NUL, or to the end.
unfoldable pub until_nul : List ℕ → List ℕ
until_nul [] = []
until_nul (b ∷ bs) = if b == 0 then [] else b ∷ until_nul bs

-- A string that ends in a NUL, and where the next field begins.
unfoldable pub null_string : List ℕ → ℕ → List ℕ × ℕ
null_string bytes offset = let s = until_nul (drop offset bytes) in (s, offset + length s + 1)

unfoldable pub optional_string : Bool → List ℕ → ℕ → List ℕ × ℕ
optional_string flag bytes offset =
    if flag && ltb offset (length bytes) then null_string bytes offset else ([], offset)

-- The length of the response, by its first byte, and where the response begins.
unfoldable pub longer_length : List ℕ → ℕ → ℕ → ℕ → ℕ → ℕ × ℕ
longer_length bytes first offset size read =
    if leb (offset + size) (length bytes)
    then (le_value read (drop offset bytes), offset + size)
    else (first, offset)

unfoldable pub response_length : List ℕ → ℕ → ℕ × ℕ
response_length bytes offset =
    let first = get_or bytes offset 0 in
    if first == 0xfc
    then longer_length bytes first (offset + 1) 2 2
    else if first == 0xfd
    then longer_length bytes first (offset + 1) 3 3
    else if first == 0xfe
    then longer_length bytes first (offset + 1) 8 4
    else (first, offset + 1)

unfoldable pub sized_response : List ℕ → ℕ × ℕ → List ℕ × ℕ
sized_response bytes (size, offset) =
    if ltb 0 size && leb (offset + size) (length bytes)
    then (take size (drop offset bytes), offset + size)
    else ([], offset)

unfoldable pub auth_response : List ℕ → ℕ → List ℕ × ℕ
auth_response bytes offset =
    if ltb offset (length bytes)
    then sized_response bytes (response_length bytes offset)
    else ([], offset)

unfoldable pub login_of : List ℕ → Login
login_of bytes =
    let capability = le_value 4 bytes in
    let user = null_string bytes 32 in
    let response = auth_response bytes user.1 in
    let database = optional_string (has_flag capability connect_with_db) bytes response.1 in
    let plugin = optional_string (has_flag capability plugin_auth) bytes database.1 in
    record {
      capability = capability;
      charset = get_or bytes 8 0;
      username = user.0;
      response = response.0;
      database = database.0;
      plugin = plugin.0;
    }

unfoldable pub parse_login : List ℕ → Result AuthError Login
parse_login bytes = do
  refuse (ltb (length bytes) 4) too_short
  refuse (ltb (length bytes) 8) no_max_packet_size
  refuse (ltb (length bytes) 9) no_charset
  refuse (ltb (length bytes) 32) no_reserved
  ok (login_of bytes)

abbrev pub native_plugin : List ℕ
native_plugin = codes "mysql_native_password"

abbrev pub sha2_plugin : List ℕ
sha2_plugin = codes "caching_sha2_password"

abbrev pub wrong_user : Auth → Login → Bool
wrong_user auth login =
    not (is_empty auth.username) && not (same_bytes login.username auth.username)

-- The payload of the request to switch the plugin.
unfoldable pub switch_request : List ℕ → List ℕ
switch_request salt = 0xfe ∷ (native_plugin ++ 0 ∷ (salt ++ 0 ∷ []))

-- On success: the sequence number of the OK packet.
module _ (sha1 : List ℕ → List ℕ) (auth : Auth) (salt : List ℕ) where
  unfoldable pub check_reply : Option (List ℕ) → List ℕ → Result AuthError ℕ
  check_reply none reply = ok 4
  check_reply (some hash) reply =
      if verify_native_with_sha1 sha1 reply salt hash then ok 4 else err invalid_password

  unfoldable pub auth_switch : Login → Option (List ℕ) → Result AuthError ℕ
  auth_switch login none = err switch_failed
  auth_switch login (some reply) =
      if not auth.enabled
      then ok 4
      else if wrong_user auth login
      then err access_denied
      else check_reply auth.mysql_sha1 reply

  unfoldable pub check_native : Login → Option (List ℕ) → Option (List ℕ) → Result AuthError ℕ
  check_native login reply none = ok 2
  check_native login reply (some hash) =
      if verify_native_with_sha1 sha1 login.response salt hash
      then ok 2
      else auth_switch login reply

  unfoldable pub route : Login → Option (List ℕ) → Result AuthError ℕ
  route login reply =
      if same_bytes login.plugin sha2_plugin
      then auth_switch login reply
      else if same_bytes login.plugin native_plugin
      then check_native login reply auth.mysql_sha1
      else auth_switch login reply

  unfoldable pub admit : Bool → Login → Option (List ℕ) → Result AuthError ℕ
  admit require_auth login reply =
      if require_auth && not auth.enabled
      then err not_configured
      else if not auth.enabled
      then ok 2
      else if wrong_user auth login
      then err access_denied
      else route login reply

  unfoldable pub handle_auth : Bool → List ℕ → Option (List ℕ) → Result AuthError ℕ
  handle_auth require_auth bytes reply =
      parse_login bytes >>= λ login. admit require_auth login reply
