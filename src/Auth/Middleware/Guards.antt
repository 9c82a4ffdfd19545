-- ===== src/Auth/Middleware/Guards.antt =====
-- app/auth/middleware.go: the CSRF check and the session guard.
use native.Mathlib.Nat.{le_refl}
use mailhook.Common.{
  ℕ, true, String, List, Option, none, some, if◌then◌else◌, str_eq, ◌≡◌, ◌≢◌, refl, arith, eq_iff,
  ap, ◌∙◌, Option-cases, inl, inr,
}
use mailhook.Auth.Middleware.{
  Crypto, csrf, set_csrf_cookie, signature, Reply, stale, next, require, require_found,
}
use mailhook.Auth.Sessions.{Session, Store, get}
use mailhook.Auth.Sessions.Lifetime.{view, get-view}

module _ (c : Crypto) (csrf_secret : List ℕ) where
  -- Only a cookie whose second part is the signature of its first, sent with that first part as
  -- the token, gets through.
  pub csrf_sound :
      (header form : String) (cookie : Option String)
      → csrf c csrf_secret header form cookie ≡ true
      → (value nonce : String) × (bytes : List ℕ) × (cookie ≡ some value)
        × (c.split_dot value ≡ some (nonce, signature c csrf_secret bytes))
        × (c.hex_decode nonce ≡ some bytes)
        × ((if str_eq header "" then form else header) ≡ nonce)
  unfolding csrf
  csrf_sound header form none h = cc
  csrf_sound header form (some value) h = elim (Option-cases (c.split_dot value)) [
    | inl e ↦ absurd (ground (arith, rw (e, csrf) at h))
    | inr ((nonce, sig), e) ↦ elim (Option-cases (c.hex_decode nonce)) [
      | inl d ↦ absurd (ground arith)
      | inr (bytes, d) ↦ (
        value,
        nonce,
        bytes,
        refl,
        ground (arith, eq_iff (signature c csrf_secret bytes) sig),
        d,
        ground (arith, eq_iff (if str_eq header "" then form else header) nonce),
      )
    ]
  ]

  -- The page's nonce gets through with the cookie that was set for it, if hex decoding undoes
  -- encoding and the cookie is split at its dot.
  pub csrf-set_csrf_cookie :
      (nonce : List ℕ) (form : String)
      → c.hex_decode (c.hex_encode nonce) ≡ some nonce
      → c.split_dot (set_csrf_cookie c csrf_secret nonce).0
        ≡ some (c.hex_encode nonce, signature c csrf_secret nonce)
      → c.hex_encode nonce ≢ ""
      → csrf c csrf_secret
          (set_csrf_cookie c csrf_secret nonce).1
          form
          (some (set_csrf_cookie c csrf_secret nonce).0)
        ≡ true
  unfolding csrf set_csrf_cookie
  csrf-set_csrf_cookie nonce form d s ne = ground (
    arith,
    eq_iff (c.hex_encode nonce) "",
    eq_iff (signature c csrf_secret nonce) (signature c csrf_secret nonce),
    eq_iff (c.hex_encode nonce) (c.hex_encode nonce),
  )

abbrev pub reply_of : ℕ → Option Session → Reply
reply_of now none = stale
reply_of now (some sess) = next (record sess { last_seen_at = now })

require_found-reply_of :
    (now : ℕ) (token : String) (s : Store) (o : Option Session)
    → (require_found now token s o).1 ≡ reply_of now o
unfolding require_found
require_found-reply_of now token s none = refl
require_found-reply_of now token s (some sess) = refl

-- With a token in the cookie the handler runs exactly if the token stands for a session, and for
-- that session; otherwise the cookie is cleared.
pub require-view :
    (now : ℕ) (token : String) (s : Store)
    → token ≢ ""
    → (require now (some token) s).1 ≡ reply_of now (view now token s)
unfolding require
require-view now token s ne = ground (
  arith,
  eq_iff token "",
  require_found-reply_of now token (get now token s).0 (get now token s).1
      ∙ ap (reply_of now) (get-view now now token token s (le_refl now)).0,
)
