-- ===== src/Handshake/Packet.antt =====
-- mysql/server.go: handleAuth reads the login packet of the MySQL protocol.
use xxldb.Base.{
  ℕ, suc, ◌+◌, ◌^◌, ◌<◌, ◌≤◌, ◌≡◌, refl, sym, ap, ◌∙◌, Bool, true, false, not, ◌&&◌, List, [], ◌∷◌,
  ◌++◌, ◌==◌, ltb, leb, length, take, drop, get_or, replicate, append_assoc, length-append,
  length-drop, length-replicate, drop-append, take-append, drop-drop, lt→ltb, get_or-drop, arith,
  ok,
}
use xxldb.Base.Words.{le_bytes, le_value, length-le_bytes, le_value-le_bytes}
use xxldb.Handshake.{
  Login, connect_with_db, plugin_auth, has_flag, until_nul, null_string, optional_string,
  response_length, sized_response, auth_response, login_of, parse_login,
}

-- The client's side: the packet as the protocol lays it out for SECURE_CONNECTION and without
-- CONNECT_ATTRS, with a one-byte length before the response and no attributes behind the plugin.
unfoldable pub flagged : Bool → List ℕ → List ℕ
flagged true s = s ++ 0 ∷ []
flagged false s = []

unfoldable pub login_header : ℕ → Login → List ℕ
login_header max_size l =
    le_bytes 4 l.capability ++ (le_bytes 4 max_size ++ (l.charset ∷ replicate 23 0))

unfoldable pub write_login : ℕ → Login → List ℕ
write_login max_size l =
    login_header max_size l
    ++ (l.username
        ++ 0
          ∷ (length l.response
              ∷ (l.response
                  ++ (flagged (has_flag l.capability connect_with_db) l.database
                      ++ (flagged (has_flag l.capability plugin_auth) l.plugin ++ [])))))

unfoldable pub no_nul : List ℕ → Bool
no_nul [] = true
no_nul (b ∷ bs) = not (b == 0) && no_nul bs

-- A login that the packet can hold, with a response whose length is one byte.
pub record IsLogin (l : Login) : Type 0 where
  pub capability_bound : l.capability < 256 ^ 4
  pub short : length l.response < 0xfb
  pub user_text : no_nul l.username ≡ true
  pub database_text : no_nul l.database ≡ true
  pub plugin_text : no_nul l.plugin ≡ true
  pub no_database : has_flag l.capability connect_with_db ≡ false → l.database ≡ []
  pub no_plugin : has_flag l.capability plugin_auth ≡ false → l.plugin ≡ []

until_nul-text : (s rest : List ℕ) → no_nul s ≡ true → until_nul (s ++ 0 ∷ rest) ≡ s
unfolding until_nul no_nul
until_nul-text [] rest h = refl
until_nul-text (b ∷ bs) rest h = ground (arith, until_nul-text bs rest, h)

-- Behind a part of what is left.
drop-behind :
    (bytes s rest : List ℕ) (at : ℕ) → drop at bytes ≡ s ++ rest → drop (at + length s) bytes ≡ rest
drop-behind bytes s rest at e =
    sym (drop-drop at (length s) bytes) ∙ ap (drop (length s)) e ∙ drop-append s rest

drop-behind_one :
    (bytes rest : List ℕ) (b at : ℕ) → drop at bytes ≡ b ∷ rest → drop (at + 1) bytes ≡ rest
drop-behind_one bytes rest b at e = drop-behind bytes (b ∷ []) rest at e

-- Where something is left.
at-bound :
    (bytes rest : List ℕ) (at : ℕ) → drop at bytes ≡ rest → 0 < length rest → at < length bytes
at-bound bytes rest at e h = omega (arith, ap length e, length-drop at bytes, h)

-- A field is read, and `rest` is left behind it.
abbrev Field : List ℕ → List ℕ × ℕ → List ℕ → List ℕ → Type 0
Field bytes read s rest = (at : ℕ) × (read ≡ (s, at)) × (drop at bytes ≡ rest)

null_string-Field :
    (bytes s rest : List ℕ) (at : ℕ)
    → drop at bytes ≡ s ++ 0 ∷ rest
    → no_nul s ≡ true
    → Field bytes (null_string bytes at) s rest
unfolding null_string
null_string-Field bytes s rest at e h =
    let text : until_nul (drop at bytes) ≡ s = rw e (until_nul-text s rest h) in
    (
      at + length s + 1,
      rw text refl,
      drop-behind_one bytes rest 0 (at + length s) (drop-behind bytes s (0 ∷ rest) at e),
    )

optional_string-Field :
    (flag : Bool) (bytes s rest : List ℕ) (at : ℕ)
    → drop at bytes ≡ flagged flag s ++ rest
    → no_nul s ≡ true
    → (flag ≡ false → s ≡ [])
    → Field bytes (optional_string flag bytes at) s rest
unfolding optional_string flagged
optional_string-Field true bytes s rest at e h n =
    let left = e ∙ append_assoc s (0 ∷ []) rest in
    let inside : ltb at (length bytes) ≡ true =
      lt→ltb at (length bytes)
        (at-bound bytes (s ++ 0 ∷ rest) at left (omega (arith, length-append s (0 ∷ rest)))) in
    rw inside (null_string-Field bytes s rest at left h)
optional_string-Field false bytes s rest at e h n = (at, rw (n refl) refl, e)

response_length-short :
    (bytes : List ℕ) (at n : ℕ)
    → get_or bytes at 0 ≡ n
    → n < 0xfb
    → response_length bytes at ≡ (n, at + 1)
unfolding response_length
response_length-short bytes at n e h = rw e (ground (arith, h))

sized_response-Field :
    (bytes r rest : List ℕ) (at : ℕ)
    → drop at bytes ≡ r ++ rest
    → Field bytes (sized_response bytes (length r, at)) r rest
unfolding sized_response
sized_response-Field bytes [] rest at e = (at, refl, e)
sized_response-Field bytes (x ∷ r) rest at e =
    let size = length (x ∷ r) in
    let fits : at + suc (length r) ≤ length bytes =
      omega (arith, ap length e, length-drop at bytes, length-append (x ∷ r) rest) in
    let inside : (ltb 0 size && leb (at + size) (length bytes)) ≡ true = ground (arith, fits) in
    (
      at + size,
      rw inside (ap (λ s. (s, at + size)) (ap (take size) e ∙ take-append (x ∷ r) rest)),
      drop-behind bytes (x ∷ r) rest at e,
    )

auth_response-Field :
    (bytes r rest : List ℕ) (at : ℕ)
    → drop at bytes ≡ length r ∷ (r ++ rest)
    → length r < 0xfb
    → Field bytes (auth_response bytes at) r rest
unfolding auth_response
auth_response-Field bytes r rest at e h =
    let inside : ltb at (length bytes) ≡ true =
      lt→ltb at (length bytes) (at-bound bytes _ at e (omega arith)) in
    let zeroth : get_or bytes at 0 ≡ get_or bytes (at + 0) 0 =
      ap (λ i. get_or bytes i 0) {x = at} {y = at + 0} (omega arith) in
    let first = zeroth ∙ get_or-drop at bytes 0 0 ∙ ap (λ bs. get_or bs 0 0) e in
    rw (inside, response_length-short bytes at (length r) first h)
      (sized_response-Field bytes r rest (at + 1)
        (drop-behind_one bytes (r ++ rest) (length r) at e))

login_header-length : (max_size : ℕ) (l : Login) → length (login_header max_size l) ≡ 32
unfolding login_header
login_header-length max_size l = omega (
  arith,
  length-append (le_bytes 4 l.capability) (le_bytes 4 max_size ++ (l.charset ∷ replicate 23 0)),
  length-append (le_bytes 4 max_size) (l.charset ∷ replicate 23 0),
  length-le_bytes 4 l.capability,
  length-le_bytes 4 max_size,
  length-replicate {A = ℕ} 23 0,
)

login_header-charset :
    (max_size : ℕ) (l : Login) (rest : List ℕ)
    → get_or (login_header max_size l ++ rest) 8 0 ≡ l.charset
unfolding login_header le_bytes
login_header-charset max_size l rest = refl

login_header-capability :
    (max_size : ℕ) (l : Login) (rest : List ℕ)
    → l.capability < 256 ^ 4
    → le_value 4 (login_header max_size l ++ rest) ≡ l.capability
unfolding login_header
login_header-capability max_size l rest h =
    rw
      (append_assoc (le_bytes 4 l.capability) (le_bytes 4 max_size ++ (l.charset ∷ replicate 23 0))
        rest)
      (le_value-le_bytes 4 l.capability _ h)

login_of-fields :
    (bytes : List ℕ) (l : Login) (user response database plugin : ℕ)
    → le_value 4 bytes ≡ l.capability
    → get_or bytes 8 0 ≡ l.charset
    → null_string bytes 32 ≡ (l.username, user)
    → auth_response bytes user ≡ (l.response, response)
    → optional_string (has_flag l.capability connect_with_db) bytes response
      ≡ (l.database, database)
    → optional_string (has_flag l.capability plugin_auth) bytes database ≡ (l.plugin, plugin)
    → login_of bytes ≡ l
unfolding login_of
login_of-fields bytes l user response database plugin c s u r d p = rw (c, s, u, r, d, p) refl

parse_login-long : (bytes : List ℕ) → 32 ≤ length bytes → parse_login bytes ≡ ok (login_of bytes)
unfolding parse_login
parse_login-long bytes h =
    rw (no 4 (omega arith), no 8 (omega arith), no 9 (omega arith), no 32 (omega arith)) refl
  where
    no : (n : ℕ) → n ≤ 32 → ltb (length bytes) n ≡ false
    no n k = ground (arith, h, k)

module _ (max_size : ℕ) (l : Login) (p : IsLogin l) where
  abbrev bytes : List ℕ
  bytes = write_login max_size l

  abbrev database_flag : Bool
  database_flag = has_flag l.capability connect_with_db

  abbrev plugin_flag : Bool
  plugin_flag = has_flag l.capability plugin_auth

  abbrev behind_user : List ℕ
  behind_user =
      length l.response
      ∷ (l.response ++ (flagged database_flag l.database ++ (flagged plugin_flag l.plugin ++ [])))

  body-behind : drop 32 bytes ≡ l.username ++ 0 ∷ behind_user
  unfolding write_login
  body-behind =
      ap (λ n. drop n bytes) (sym (login_header-length max_size l))
      ∙ drop-append (login_header max_size l) (l.username ++ 0 ∷ behind_user)

  long_enough : 32 ≤ length bytes
  unfolding write_login
  long_enough = omega (
    arith,
    login_header-length max_size l,
    length-append (login_header max_size l) (l.username ++ 0 ∷ behind_user),
  )

  login_of-write_login : login_of bytes ≡ l
  unfolding write_login
  login_of-write_login =
      let user = null_string-Field bytes l.username behind_user 32 body-behind p.user_text in
      let response = auth_response-Field bytes l.response _ user.0 user.2 p.short in
      let database =
        optional_string-Field database_flag bytes l.database _ response.0 response.2 p.database_text
          p.no_database in
      let plugin =
        optional_string-Field plugin_flag bytes l.plugin _ database.0 database.2 p.plugin_text
          p.no_plugin in
      login_of-fields bytes l user.0 response.0 database.0 plugin.0
        (login_header-capability max_size l _ p.capability_bound)
        (login_header-charset max_size l _) user.1 response.1 database.1 plugin.1

  -- handleAuth reads every field back from a login packet with a one-byte response length and without
  -- connection attributes, as the MySQL protocol lays it out for a client with SECURE_CONNECTION and
  -- without CONNECT_ATTRS: one whose capabilities have 32 bits, whose response is shorter than 251
  -- bytes, whose texts hold no NUL, and that has no database and no plugin where their flags are off.
  pub parse_login-write_login : parse_login (write_login max_size l) ≡ ok l
  parse_login-write_login = parse_login-long bytes long_enough ∙ ap ok login_of-write_login
