-- ===== src/Auth.antt =====
-- auth/auth.go: the credentials of the database. SHA-256 and SHA-1 are arguments, so that what is
-- shown holds for every hash. Strings are lists of bytes.
pub mod Policy
pub mod Config
mod Runs
use xxldb.Base.{
  ℕ, ◌≡◌, Bool, true, false, not, Option, none, some, List, [], ◌∷◌, ◌++◌, if◌then◌else◌,
}
use xxldb.Base.Hex.{hex_encode, hex_decode}
use xxldb.Base.Text.{codes, same_bytes}

pub record Auth : Type 0 where
  pub username : List ℕ
  pub password : List ℕ
  pub mysql_sha1 : Option (List ℕ)
  pub enabled : Bool

unfoldable pub new_auth : Auth
new_auth = record { username = []; password = []; mysql_sha1 = none; enabled = false }

abbrev pub is_empty : List ℕ → Bool
is_empty xs = same_bytes xs []

unfoldable pub enable : Auth → Auth
enable a = record {
  username = a.username;
  password = a.password;
  mysql_sha1 = a.mysql_sha1;
  enabled = true;
}

unfoldable pub disable : Auth → Auth
disable a = record {
  username = a.username;
  password = a.password;
  mysql_sha1 = a.mysql_sha1;
  enabled = false;
}

unfoldable pub clear_credentials : Auth → Auth
clear_credentials a = record { username = []; password = []; mysql_sha1 = none; enabled = false }

module _ (sha256 : List ℕ → List ℕ) where
  unfoldable pub hash_password : List ℕ → List ℕ
  hash_password password = hex_encode (sha256 (codes "xxldb_" ++ password ++ codes "_2026"))

  unfoldable pub authenticate : Auth → List ℕ → List ℕ → Bool
  authenticate a username password =
      if not a.enabled
      then true
      else if not (same_bytes username a.username)
      then false
      else if is_empty a.password
      then true
      else same_bytes a.password (hash_password password)

module _ (sha256 sha1 : List ℕ → List ℕ) where
  unfoldable pub set_credentials : List ℕ → List ℕ → Auth → Auth
  set_credentials username password a = record {
    username = username;
    password = if is_empty password then [] else hash_password sha256 password;
    mysql_sha1 = if is_empty password then none else some (sha1 password);
    enabled = not (is_empty username);
  }

  unfoldable pub set_password : List ℕ → Auth → Auth
  set_password password a = record {
    username = a.username;
    password = hash_password sha256 password;
    mysql_sha1 = some (sha1 password);
    enabled = a.enabled;
  }

  -- What SET USER and SET PASSWORD do.
  unfoldable pub set_user : List ℕ → Auth → Auth
  set_user value a = set_credentials value [] a

  unfoldable pub set_user_password : List ℕ → Auth → Auth
  set_user_password value a = set_credentials a.username value a

-- A map[string]interface{}, with what a type assertion tells apart.
pub data AnyValue : Type 0 where
  text : List ℕ → AnyValue
  flag : Bool → AnyValue
  other : AnyValue

abbrev pub AuthMap : Type 0
AuthMap = List (List ℕ × AnyValue)

unfoldable pub lookup : List ℕ → AuthMap → Option AnyValue
lookup key [] = none
lookup key (e ∷ es) = if same_bytes key e.0 then some e.1 else lookup key es

unfoldable pub text_at : AuthMap → List ℕ → List ℕ → List ℕ
text_at m key default = elim (lookup key m) [ some (text s) ↦ s | _ ↦ default ]

unfoldable pub flag_at : AuthMap → List ℕ → Bool → Bool
flag_at m key default = elim (lookup key m) [ some (flag b) ↦ b | _ ↦ default ]

unfoldable pub sha1_entry : Option (List ℕ) → AuthMap
sha1_entry none = []
sha1_entry (some h) = (codes "mysql_sha1", text (hex_encode h)) ∷ []

unfoldable pub to_map : Auth → AuthMap
to_map a =
    (codes "username", text a.username)
    ∷ (codes "password", text a.password)
    ∷ (codes "enabled", flag a.enabled)
    ∷ sha1_entry a.mysql_sha1

unfoldable pub decoded : Option (List ℕ) → Option (List ℕ) → Option (List ℕ)
decoded none old = old
decoded (some h) old = some h

unfoldable pub sha1_of : Option AnyValue → Option (List ℕ) → Option (List ℕ)
sha1_of (some (text s)) old = decoded (hex_decode s) old
sha1_of _ old = old

unfoldable pub from_map : AuthMap → Auth → Auth
from_map m a = record {
  username = text_at m (codes "username") a.username;
  password = text_at m (codes "password") a.password;
  enabled = flag_at m (codes "enabled") a.enabled;
  mysql_sha1 = sha1_of (lookup (codes "mysql_sha1") m) a.mysql_sha1;
}
