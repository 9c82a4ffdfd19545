-- ===== src/Auth/Middleware/Address.antt =====
-- The client's address cannot be chosen by the client.
use mathlib.Core.List.{reverse, reverse-append, reverse-cons, append_assoc}
use mailhook.Common.{
  Bool, true, false, not, String, List, [], ◌∷◌, ◌++◌, some, find, All, All-reverse, find-append,
  ◌≡◌, ◌≢◌, refl, arith, eq_iff, ap, ◌∙◌,
}
use mailhook.Auth.Middleware.{Net, is_trusted_proxy, extract_remote_ip, forwarded_ip, client_ip}

not-true : (b : Bool) → b ≡ true → not b ≡ false
not-true b h = ground arith

module _ (net : Net) where
  open net use {Cidr, split, trim_space}

  -- A peer that is no trusted proxy is the client itself, whatever the header says.
  pub client_ip_direct :
      (proxies : List Cidr) (remote_addr xff : String)
      → is_trusted_proxy net proxies (extract_remote_ip net remote_addr) ≡ false
      → client_ip net proxies remote_addr xff ≡ extract_remote_ip net remote_addr
  unfolding client_ip
  client_ip_direct proxies remote_addr xff h = ground arith

  abbrev pub IsTrusted : List Cidr → String → Type 0
  IsTrusted proxies part = is_trusted_proxy net proxies (trim_space part) ≡ true

  abbrev untrusted : List Cidr → String → Bool
  untrusted proxies part = not (is_trusted_proxy net proxies (trim_space part))

  All-untrusted :
      (proxies : List Cidr) (hops : List String)
      → All (IsTrusted proxies) hops
      → All (λ part. untrusted proxies part ≡ false) hops
  All-untrusted proxies [] h = tt
  All-untrusted proxies (x ∷ hops) (e, h) = (not-true _ e, All-untrusted proxies hops h)

  find-reverse :
      (proxies : List Cidr) (hops before : List String) (part : String)
      → All (IsTrusted proxies) hops
      → is_trusted_proxy net proxies (trim_space part) ≡ false
      → find (untrusted proxies) (reverse (before ++ part ∷ hops)) ≡ some part
  find-reverse proxies hops before part h e =
      let hidden = All-reverse _ hops (All-untrusted proxies hops h) in
      rw (reverse-append, reverse-cons, append_assoc)
        (find-append (untrusted proxies) (reverse hops) _ hidden ∙ rw (e, find) refl)

  forwarded_ip-append :
      (proxies : List Cidr) (hops before : List String) (part : String)
      → All (IsTrusted proxies) hops
      → is_trusted_proxy net proxies (trim_space part) ≡ false
      → forwarded_ip net proxies (before ++ part ∷ hops) ≡ trim_space part
  unfolding forwarded_ip
  forwarded_ip-append proxies hops before part h e =
      rw (find-reverse proxies hops before part h e, forwarded_ip) refl

  -- Behind a trusted proxy the client is the last entry of the header that is no trusted proxy:
  -- what stands before it, which the client may have written, plays no part.
  pub client_ip_forwarded :
      (proxies : List Cidr) (remote_addr xff part : String) (before hops : List String)
      → is_trusted_proxy net proxies (extract_remote_ip net remote_addr) ≡ true
      → xff ≢ ""
      → split xff ≡ before ++ part ∷ hops
      → is_trusted_proxy net proxies (trim_space part) ≡ false
      → All (IsTrusted proxies) hops
      → client_ip net proxies remote_addr xff ≡ trim_space part
  unfolding client_ip
  client_ip_forwarded proxies remote_addr xff part before hops t ne e u h = ground (
    arith,
    eq_iff xff "",
    ap (forwarded_ip net proxies) e ∙ forwarded_ip-append proxies hops before part h u,
  )
