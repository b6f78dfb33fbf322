-- ===== src/Auth/Config.antt =====
-- auth/auth.go: ToMap and FromMap.
use xxldb.Base.{ℕ, ◌≡◌, refl, Option, none, some, List, All}
use xxldb.Base.Hex.{hex_decode-hex_encode}
use xxldb.Base.Text.{codes, same_bytes}
use xxldb.Base.Words.{IsByte}
use xxldb.Auth.{Auth, to_map, from_map, lookup, text_at, flag_at, sha1_entry, sha1_of, decoded}

-- FromMap takes from what ToMap exported the name, the password's hash and whether authentication
-- is on; it takes the SHA-1, where there is one and it is bytes, and else keeps its own.
pub from_map-to_map :
    (a b : Auth)
    → ((h : List ℕ) → a.mysql_sha1 ≡ some h → All IsByte h)
    → from_map (to_map a) b ≡ record {
      username = a.username;
      password = a.password;
      enabled = a.enabled;
      mysql_sha1 = decoded a.mysql_sha1 b.mysql_sha1;
    }
unfolding from_map to_map lookup text_at flag_at sha1_entry sha1_of decoded codes same_bytes
from_map-to_map a b p = go a.mysql_sha1 refl
  where
    go :
        (o : Option (List ℕ))
        → a.mysql_sha1 ≡ o
        → from_map (to_map a) b ≡ record {
          username = a.username;
          password = a.password;
          enabled = a.enabled;
          mysql_sha1 = decoded a.mysql_sha1 b.mysql_sha1;
        }
    go none e = rw e refl
    go (some h) e = rw (e, hex_decode-hex_encode h (p h e)) refl
