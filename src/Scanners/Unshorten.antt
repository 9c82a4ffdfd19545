-- ===== src/Scanners/Unshorten.antt =====
-- app/scanners/urlunshorten.go: links are followed to where they lead. URLs belong to Go's library;
-- name servers and web servers may answer differently each time, so their answers are indexed by the
-- number of redirects followed so far, and those of one link make up one `Web`. The requests are kept in the order in which they are made.
pub mod Guard
pub mod Hits
use mailhook.Common.{
  ℕ, zero, suc, Bool, true, false, not, ◌&&◌, ◌||◌, String, List, [], ◌∷◌, ◌++◌, Option, none, some,
  map, filter, if◌then◌else◌, str_eq, any, ltb, leb, ◌==◌,
}
use mailhook.Common.Text.{clip}
use mailhook.Email.{Email}
use mailhook.Feeds.{UrlLib, Manager, lookup_url}
use mailhook.Floats.{Floats}
use mailhook.Scanners.{plain, Limiter}
use mailhook.Util.{Ip, is_public_ip}
use mailhook.Verdict.Collect.{urlunshorten, ScanVerdict, clean, skip, ScanResult}
use mailhook.Verdict.{join}

pub record Web : Type 1 where
  pub Url : Type 0
  pub parse : String → Option Url
  pub hostname : Url → String
  pub resolve_reference : Url → Url → Url
  pub text : Url → String
  -- `http.NewRequestWithContext` accepts the URL.
  pub is_request : String → Bool
  -- `client.Do`: the status and the header "Location", or an error.
  pub head : ℕ → String → Option (ℕ × String)
  -- `net.LookupHost`, or an error, and `net.ParseIP`.
  pub lookup_host : ℕ → String → Option (List String)
  pub parse_ip : String → Option Ip

pub record Followed : Type 0 where
  pub final_url : String
  pub hops : ℕ
  pub blocked : Bool
  pub err : Bool
  pub requests : List String

module _ (web : Web) where
  open web use {
    Url, parse, hostname, resolve_reference, text, is_request, head, lookup_host, parse_ip,
  }

  abbrev pub is_private : Option Ip → Bool
  is_private none = false
  is_private (some ip) = not (is_public_ip ip)

  abbrev pub any_private : Option (List String) → Bool
  any_private none = true
  any_private (some ips) = any (λ s. is_private (parse_ip s)) ips

  -- `isSSRFTarget`
  unfoldable pub is_ssrf_target : ℕ → String → Bool
  is_ssrf_target i host = any_private (lookup_host i host)

  -- The address that `DialContext` connects to.
  abbrev pub first_public : Option (List String) → Option Ip
  first_public none = none
  first_public (some []) = none
  first_public (some (s ∷ _)) = elim (parse_ip s) [
    | none ↦ none
    | some ip ↦ if is_public_ip ip then some ip else none
  ]

  unfoldable pub dial_address : ℕ → String → Option Ip
  dial_address i host = first_public (lookup_host i host)

  abbrev pub stop : String → ℕ → Bool → Bool → Followed
  stop u hops blocked err = record {
    final_url = u;
    hops = hops;
    blocked = blocked;
    err = err;
    requests = [];
  }

  -- Where a response leads: the next URL, or the end of the chain.
  pub data Step : Type 0 where
    next : Url → Step
    end : Bool → Bool → Step

  abbrev pub target_step : ℕ → Option Url → Option Url → Step
  target_step i none target = end false true
  target_step i (some base) none = end false true
  target_step i (some base) (some target) =
      if is_ssrf_target (suc i) (hostname (resolve_reference base target))
      then end true false
      else next (resolve_reference base target)

  abbrev pub response_step : ℕ → String → Option (ℕ × String) → Step
  response_step i current none = end false true
  response_step i current (some (status, location)) =
      if ltb status 300 || leb 400 status || str_eq location ""
      then end false false
      else target_step i (parse current) (parse location)

  -- The body of the loop, after the request is made.
  unfoldable pub step : ℕ → String → Step
  step i current = response_step i current (head i current)

  abbrev pub requested : String → Followed → Followed
  requested u f = record f { requests = u ∷ f.requests }

  -- The loop, with the number of rounds that are left and the number of redirects followed.
  unfoldable pub follow : ℕ → ℕ → String → Followed
  follow zero hops current = stop current hops false false
  follow (suc n) hops current =
      if is_request current
      then requested current (elim (step hops current) [
        | end blocked err ↦ stop current hops blocked err
        | next to ↦ follow n (suc hops) (text to)
      ])
      else stop current hops false true

  abbrev pub blocks_first : Option Url → Bool
  blocks_first none = false
  blocks_first (some u) = not (str_eq (hostname u) "") && is_ssrf_target zero (hostname u)

  -- `followRedirects`
  unfoldable pub follow_redirects : ℕ → String → Followed
  follow_redirects max_hops raw_url =
      if blocks_first (parse raw_url) then stop raw_url 0 true false else follow max_hops 0 raw_url

pub record ResolvedUrlHit : Type 0 where
  pub original_url : String
  pub resolved_url : String
  pub hops : ℕ
  pub blocked : Bool
  pub feed : String
  pub threat_type : String

-- A chain that was not blocked is looked up.
abbrev pub found : UrlLib → Manager → Followed → Option (String × String)
found lib feeds f = if f.blocked then none else lookup_url lib feeds f.final_url

module _ (limiter : Limiter) (webs : ℕ → Web) (lib : UrlLib) (feeds : Manager) (max_hops : ℕ) where
  open limiter use {State, allow}

  -- The variables of the loop.
  pub record Progress : Type 0 where
    pub hits : List ResolvedUrlHit
    pub malicious : Bool
    pub tokens : State

  abbrev hit_of : String → Followed → String → String → ResolvedUrlHit
  hit_of raw_url f feed threat_type = record {
    original_url = raw_url;
    resolved_url = f.final_url;
    hops = f.hops;
    blocked = f.blocked;
    feed = feed;
    threat_type = threat_type;
  }

  abbrev pub add_found : String → Followed → Option (String × String) → Progress → Progress
  add_found raw_url f none p = record p { hits = p.hits ++ hit_of raw_url f "" "" ∷ [] }
  add_found raw_url f (some (feed, threat)) p = record p {
    hits = p.hits ++ hit_of raw_url f feed threat ∷ [];
    malicious = true;
  }

  -- The body of the loop, where the limiter gives a token.
  abbrev pub note : String → Followed → Progress → Progress
  note raw_url f p =
      if f.err || (f.hops == 0 && not f.blocked)
      then p
      else add_found raw_url f (found lib feeds f) p

  unfoldable pub check_links : ℕ → List String → Progress → Progress
  check_links i [] p = p
  check_links i (u ∷ us) p =
      let (allowed, tokens) = allow p.tokens in
      let q = record p { tokens = tokens } in
      check_links (suc i) us
        (if allowed then note u (follow_redirects (webs i) max_hops u) q else q)

  abbrev pub start : State → Progress
  start tokens = record { hits = []; malicious = false; tokens = tokens }

  module _ (fl : Floats) (marshal : List ResolvedUrlHit → List ℕ) where
    open fl use {Float}

    -- The links that matched, cut off.
    abbrev matched : List ResolvedUrlHit → String
    matched hits =
        clip 500 (join ", " (map (λ h. h.resolved_url) (filter (λ h. not (str_eq h.feed "")) hits)))

    abbrev pub report : List ResolvedUrlHit → Bool → ScanResult Float
    report [] bad = plain fl urlunshorten clean ""
    report (h ∷ hs) bad = record (plain fl urlunshorten clean "") {
      verdict = if bad then ScanVerdict.malicious else clean;
      detail = if bad then matched (h ∷ hs) else "";
      matches = marshal (h ∷ hs);
    }

    abbrev pub checked : List String → State → ScanResult Float × State
    checked [] tokens = (plain fl urlunshorten clean "", tokens)
    checked (u ∷ us) tokens =
        let p = check_links 0 (u ∷ us) (start tokens) in (report p.hits p.malicious, p.tokens)

    -- `Scan`: the result, and the limiter's state.
    unfoldable pub scan : Bool → Email → State → ScanResult Float × State
    scan enabled email tokens =
        if enabled
        then checked email.urls tokens
        else (plain fl urlunshorten skip "disabled", tokens)
