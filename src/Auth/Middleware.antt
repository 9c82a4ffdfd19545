-- ===== src/Auth/Middleware.antt =====
-- app/auth/middleware.go: the session guard, the CSRF check and the client's address. Parsing of
-- addresses and headers, hex and HMAC-SHA256 belong to Go's library.
pub mod Address
pub mod Guards
use mathlib.Core.List.{reverse}
use mailhook.Common.{
  ℕ, Bool, true, false, not, ◌&&◌, String, List, [], ◌∷◌, Option, none, some, if◌then◌else◌, str_eq,
  any, find,
}
use mailhook.Auth.Sessions.{Store, Session, get, touch}

-- What is used of Go's `net` and `strings`.
pub record Net : Type 1 where
  pub Ip : Type 0
  pub Cidr : Type 0
  pub parse_ip : String → Option Ip
  pub contains : Cidr → Ip → Bool
  -- `strings.Split(s, ",")`, `strings.TrimSpace`, and the host of `net.SplitHostPort`
  pub split : String → List String
  pub trim_space : String → String
  pub host : String → Option String

module _ (net : Net) where
  open net use {Cidr, parse_ip, contains, split, trim_space, host}

  unfoldable pub is_trusted_proxy : List Cidr → String → Bool
  is_trusted_proxy proxies ip = elim (parse_ip ip) [
    | none ↦ false
    | some parsed ↦ any (λ cidr. contains cidr parsed) proxies
  ]

  unfoldable pub extract_remote_ip : String → String
  extract_remote_ip remote_addr = elim (host remote_addr) [ none ↦ remote_addr | some h ↦ h ]

  abbrev is_empty : String → Bool
  is_empty s = str_eq s ""

  -- The loop over the entries, from the right; then the left-most.
  pub forwarded_ip : List Cidr → List String → String
  forwarded_ip proxies parts =
      elim (find (λ part. not (is_trusted_proxy proxies (trim_space part))) (reverse parts)) [
        | some part ↦ trim_space part
        | none ↦ elim parts [ [] ↦ "" | part ∷ _ ↦ trim_space part ]
      ]

  -- `ClientIP`, of the peer's address and the header X-Forwarded-For.
  pub client_ip : List Cidr → String → String → String
  unfolding extract_remote_ip forwarded_ip
  client_ip proxies remote_addr xff =
      let remote_ip = extract_remote_ip remote_addr in
      if not (is_empty xff) && is_trusted_proxy proxies remote_ip
      then forwarded_ip proxies (split xff)
      else remote_ip

-- What is used of hex, HMAC and `strings.SplitN(s, ".", 2)`, which gives two parts or not.
pub record Crypto : Type 0 where
  pub hex_encode : List ℕ → String
  pub hex_decode : String → Option (List ℕ)
  pub hmac : List ℕ → List ℕ → List ℕ
  pub split_dot : String → Option (String × String)

module _ (c : Crypto) (csrf_secret : List ℕ) where
  abbrev pub signature : List ℕ → String
  signature nonce = c.hex_encode (c.hmac csrf_secret nonce)

  -- The token against the two parts of the cookie, and the bytes of the first, if it is hex.
  csrf_nonce : String → String → String → Option (List ℕ) → Bool
  csrf_nonce token nonce sig none = false
  csrf_nonce token nonce sig (some bytes) = str_eq (signature bytes) sig && str_eq token nonce

  csrf_parts : String → Option (String × String) → Bool
  csrf_parts token none = false
  csrf_parts token (some (nonce, sig)) = csrf_nonce token nonce sig (c.hex_decode nonce)

  -- Whether `CSRF` calls the handler: the token is the header's, or the form's if that is empty.
  unfoldable pub csrf : String → String → Option String → Bool
  unfolding csrf_parts csrf_nonce
  csrf header form none = false
  csrf header form (some cookie) =
      csrf_parts (if str_eq header "" then form else header) (c.split_dot cookie)

  -- `SetCSRFCookie`: the cookie's value, and the nonce for the page.
  pub set_csrf_cookie : List ℕ → String × String
  set_csrf_cookie nonce =
      let nonce_hex = c.hex_encode nonce in
      (Prim.Native.String.◌++◌ nonce_hex (Prim.Native.String.◌++◌ "." (signature nonce)), nonce_hex)

-- What `Require` does with a request.
pub data Reply : Type 0 where
  unauthorized : Reply
  -- the stale cookie is cleared too
  stale : Reply
  next : Session → Reply

require_found : ℕ → String → Store → Option Session → Store × Reply
require_found now value s none = (s, stale)
require_found now value s (some sess) =
    (touch now value s, next (record sess { last_seen_at = now }))

pub require : ℕ → Option String → Store → Store × Reply
unfolding require_found
require now none s = (s, unauthorized)
require now (some value) s =
    if str_eq value ""
    then (s, unauthorized)
    else (let (s', found) = get now value s in require_found now value s' found)
