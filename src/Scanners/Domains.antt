-- ===== src/Scanners/Domains.antt =====
-- app/scanners/nrdcheck.go: domains that were registered lately. The answers of RDAP are a parameter, and
-- so are the parsing and printing of dates, URLs, the expression for host names, and JSON. A date in the
-- future counts as today's.
pub mod Young
use Prim.Native.Nat.{◌/◌}
use mailhook.Common.{
  ℕ, ◌+◌, ◌-◌, ◌*◌, Bool, true, false, not, ◌&&◌, ◌⧺◌, String, List, [], ◌∷◌, Option, none, some,
  map, if◌then◌else◌, str_eq, ltb, leb, ◌==◌, any,
}
use mailhook.Common.Dict.{lookup, insert}
use mailhook.Common.Int.{pos}
use mailhook.Common.Text.{after_byte, clip, text_length}
use mailhook.Email.Parts.{after_last}
use mailhook.Email.{Email}
use mailhook.Feeds.{UrlLib}
use mailhook.Floats.{Floats}
use mailhook.Scanners.Daemons.{before_suffix}
use mailhook.Scanners.UrlCheck.{extract_url_domain}
use mailhook.Scanners.{plain}
use mailhook.Verdict.Collect.{nrdcheck, suspicious, clean, skip, ScanResult}
use mailhook.Verdict.{join}

-- What RDAP answers: an error of the request, the connection or the reading; a status that is not 200;
-- a body that does not parse; or the events, each an action and a date.
pub data Rdap : Type 0 where
  failed malformed : Rdap
  status : ℕ → Rdap
  events : List (String × String) → Rdap

pub record NrdCache : Type 0 where
  pub registration_date : Option ℕ
  pub lookup_success : Bool
  pub expires_at : ℕ

pub record NrdHit : Type 0 where
  pub domain : String
  pub registration_date : ℕ
  pub age_days : ℕ
  pub source : String

abbrev pub Cache : Type 0
Cache = List (String × NrdCache)

pub record World : Type 0 where
  pub rdap : String → Rdap
  pub saves : String → Bool
  pub now : ℕ
  pub cache_ttl : ℕ
  pub fail_cache_ttl : ℕ
  pub max_age_days : ℕ

pub record NameLib : Type 0 where
  pub is_ldh_domain : String → Bool
  pub trim_space : String → String
  pub equal_fold : String → String → Bool
  -- `parseRDAPDate`'s two layouts: the date, or nothing.
  pub parse_rfc3339 : String → Option ℕ
  pub parse_day : String → Option ℕ
  pub url : UrlLib

abbrev day : ℕ
day = 24 * 3600 * 1000000000

module _ (lib : NameLib) where
  unfoldable pub is_valid_domain : String → Bool
  is_valid_domain d = ltb 0 (text_length d) && leb (text_length d) 253 && lib.is_ldh_domain d

  abbrev or_day : String → Option ℕ → Option ℕ
  or_day s (some t) = some t
  or_day s none = lib.parse_day s

  unfoldable pub parse_rdap_date : String → Option ℕ
  parse_rdap_date s = or_day s (lib.parse_rfc3339 s)

  -- The address inside angle brackets, if there are any.
  abbrev strip_brackets : String → Option String → String
  strip_brackets addr none = addr
  strip_brackets addr (some _) = elim (before_suffix ">" (lib.trim_space (after_last b'<' addr))) [
    | none ↦ lib.trim_space (after_last b'<' addr)
    | some inner ↦ inner
  ]

  abbrev domain_of : String → Option String → String
  domain_of addr none = ""
  domain_of addr (some _) =
      if is_valid_domain (lib.url.to_lower (after_last b'@' addr))
      then lib.url.to_lower (after_last b'@' addr)
      else ""

  abbrev bare : String → String
  bare addr = strip_brackets (lib.trim_space addr) (after_byte b'<' (lib.trim_space addr))

  unfoldable pub extract_email_domain : String → String
  extract_email_domain addr = domain_of (bare addr) (after_byte b'@' (bare addr))

  -- `addDomain` for the links: each domain once, in the order of the message.
  unfoldable pub url_domains : List String → List (String × String) → List (String × String)
  url_domains [] seen = []
  url_domains (u ∷ us) seen =
      let d = extract_url_domain lib.url u in
      let found =
        (lib.url.to_lower d, "url") ∷ url_domains us ((lib.url.to_lower d, "url") ∷ seen) in
      let rest = url_domains us seen in
      if not (str_eq d "") && not (any (λ p. str_eq (lib.url.to_lower d) p.0) seen)
      then found
      else rest

  -- The domain of the sender, and those of the links.
  unfoldable pub domains_of : Email → List (String × String)
  domains_of email =
      let d = extract_email_domain email.from in
      let found =
        (lib.url.to_lower d, "from") ∷ url_domains email.urls ((lib.url.to_lower d, "from") ∷ []) in
      let rest = url_domains email.urls [] in if str_eq d "" then rest else found

  -- The date of the first registration that has one.
  unfoldable pub registration : List (String × String) → Option ℕ
  registration [] = none
  registration ((action, date) ∷ more) =
      let rest = registration more in
      if lib.equal_fold action "registration"
      then elim (parse_rdap_date date) [ some t ↦ some t | none ↦ rest ]
      else rest

  -- An answer: nothing for an error, else the date that was found, if any.
  abbrev pub read_rdap : Rdap → Option (Option ℕ)
  read_rdap failed = none
  read_rdap malformed = some none
  read_rdap (status n) = if n == 404 then some none else if leb 500 n then none else some none
  read_rdap (events es) = some (registration es)

  unfoldable pub rdap_lookup : World → String → Option (Option ℕ)
  rdap_lookup w domain = if is_valid_domain domain then read_rdap (w.rdap domain) else none

  abbrev row_of : World → Option ℕ → NrdCache
  row_of w none = record {
    registration_date = none;
    lookup_success = false;
    expires_at = w.now + w.fail_cache_ttl;
  }
  row_of w (some t) = record {
    registration_date = some t;
    lookup_success = true;
    expires_at = w.now + w.cache_ttl;
  }

  abbrev pub looked_up : World → String → Cache → Option (Option ℕ) → Option (Option ℕ) × Cache
  looked_up w domain cache none = (none, cache)
  looked_up w domain cache (some found) =
      (some found, if w.saves domain then insert domain (row_of w found) cache else cache)

  abbrev pub from_cache : World → String → Cache → Option NrdCache → Option (Option ℕ) × Cache
  from_cache w domain cache none = looked_up w domain cache (rdap_lookup w domain)
  from_cache w domain cache (some row) =
      if ltb w.now row.expires_at
      then (if row.lookup_success then some row.registration_date else some none, cache)
      else looked_up w domain cache (rdap_lookup w domain)

  unfoldable pub check_domain : World → String → Cache → Option (Option ℕ) × Cache
  check_domain w domain cache = from_cache w domain cache (lookup domain cache)

  abbrev pub age_days : World → ℕ → ℕ
  age_days w t = (w.now - t) / day

  abbrev pub add_young : World → String × String → Option (Option ℕ) → List NrdHit → List NrdHit
  add_young w (domain, source) none hits = hits
  add_young w (domain, source) (some none) hits = hits
  add_young w (domain, source) (some (some t)) hits =
      if leb (age_days w t) w.max_age_days
      then record {
        domain = domain;
        registration_date = t;
        age_days = age_days w t;
        source = source;
      }
        ∷ hits
      else hits

  -- The loop over the domains: the hits, and the cache.
  unfoldable pub check_domains : World → List (String × String) → Cache → List NrdHit × Cache
  check_domains w [] cache = ([], cache)
  check_domains w (d ∷ ds) cache =
      let (found, cache') = check_domain w d.0 cache in
      let (hits, cache'') = check_domains w ds cache' in (add_young w d found hits, cache'')

  module _ (fl : Floats) (marshal : List NrdHit → List ℕ) where
    open fl use {Float, decimal, format_int}

    abbrev hit_text : NrdHit → String
    hit_text h = h.domain ⧺ " (" ⧺ format_int (pos h.age_days) ⧺ "d old)"

    abbrev pub report : List NrdHit → ScanResult Float
    report [] = plain fl nrdcheck clean ""
    report (h ∷ hs) = record {
      scanner = nrdcheck;
      verdict = suspicious;
      score = decimal 6 1;
      detail = clip 500 (join ", " (map (λ x. hit_text x) (h ∷ hs)));
      matches = marshal (h ∷ hs);
    }

    -- `Scan`: the result, and the cache.
    unfoldable pub scan : World → Bool → Email → Cache → ScanResult Float × Cache
    scan w enabled email cache =
        let (hits, cache') = check_domains w (domains_of email) cache in
        if enabled then (report hits, cache') else (plain fl nrdcheck skip "disabled", cache)
