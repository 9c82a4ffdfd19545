-- ===== src/Scanners/UrlCheck/Held.antt =====
-- What a listed link does to its message.
use mailhook.Common.{
  ℕ, Bool, true, false, not, ◌&&◌, ◌||◌, String, List, [], ◌∷◌, ◌++◌, Option, none, some, ◌≡◌, refl,
  ◌∙◌, arith, any, any-middle, ap, str_eq, Bool-cases, or_true, inl, inr,
}
use mailhook.Email.{Email}
use mailhook.Feeds.{UrlLib, Manager, normalize_url, host_of}
use mailhook.Feeds.Index.{is_in_feed}
use mailhook.Feeds.Lookup.{is_found, lookup_url-found, lookup_url_exact-found}
use mailhook.Floats.{Floats}
use mailhook.Records.{UrlHit}
use mailhook.Scanners.UrlCheck.{
  is_shared_hosting_domain, extract_url_domain, lookup_link, add_hit, link_hits, report,
  check_links, scan,
}
use mailhook.Verdict.Collect.{
  ScannerName, rspamd, urlcheck, urlunshorten, ScanVerdict, ScanResult, Signals, no_signals, signal,
  observe, collect, is_malicious,
}
use mailhook.Verdict.Pass.{final_signals}
use mailhook.Verdict.{Thresholds, judge, decide}
pub use mailhook.Verdict.Threats.{is_held}

abbrev is_link_scanner : ScannerName → Bool
is_link_scanner urlcheck = true
is_link_scanner urlunshorten = true
is_link_scanner _ = false

module _ (fl : Floats) where
  open fl use {Float}

  abbrev pub names_link : ScanResult Float → Bool
  names_link r = is_link_scanner r.scanner && is_malicious r.verdict

  signal-url_hit :
      (m : ScannerName) (v : ScanVerdict) (x : Float) (d : String) (s : Signals Float)
      → (s.url_hit || (is_link_scanner m && is_malicious v)) ≡ true
      → (signal fl m v x d s).url_hit ≡ true
  unfolding signal
  signal-url_hit rspamd v x d s h = ground arith
  signal-url_hit _ v x d s h = ground arith

  collect-url_hit :
      (s : Signals Float) (rs : List (ScanResult Float))
      → (s.url_hit || any names_link rs) ≡ true
      → (collect fl s rs).url_hit ≡ true
  unfolding collect
  collect-url_hit s [] h = ground arith
  collect-url_hit s (r ∷ rs) h =
      let step = signal-url_hit r.scanner r.verdict r.score r.detail s in
      collect-url_hit (observe fl s r) rs (elim (Bool-cases (any names_link rs)) [
        | inl later ↦ rw later (or_true (observe fl s r).url_hit)
        | inr none_later ↦ rw none_later (unfold observe in ground (arith, step))
      ])

  judge-url_hit :
      (t : Thresholds Float) (email : Email) (s : Signals Float) (rs : List (ScanResult Float))
      → s.url_hit ≡ true
      → is_held (judge fl t email s rs).decision ≡ true
  unfolding judge
  judge-url_hit t email s rs h = ground arith

  -- One malicious result of either link scanner holds the message.
  pub decide_link :
      (t : Thresholds Float) (email : Email) (rs : List (ScanResult Float))
      → any names_link rs ≡ true
      → is_held (decide fl t email rs).decision ≡ true
  unfolding decide
  decide_link t email rs h =
      judge-url_hit t email (final_signals fl rs) rs (collect-url_hit (no_signals fl) rs h)

  module _ (lib : UrlLib) (feeds : Manager) (marshal : List UrlHit → List ℕ) where
    abbrev pub is_listed : String → Bool
    is_listed u = is_found (lookup_link lib feeds u)

    report-add :
        (u : String) (us : List String) (found : Option (String × String))
        → is_malicious (report lib feeds fl marshal (link_hits lib feeds us)).verdict
          ≡ any is_listed us
        → is_malicious
            (report lib feeds fl marshal
              (add_hit lib feeds u found (link_hits lib feeds us))).verdict
          ≡ (is_found found || any is_listed us)
    report-add u us none h = h
    report-add u us (some _) h = refl

    report-any :
        (us : List String)
        → is_malicious (report lib feeds fl marshal (link_hits lib feeds us)).verdict
          ≡ any is_listed us
    unfolding link_hits
    report-any [] = refl
    report-any (u ∷ us) = report-add u us (lookup_link lib feeds u) (report-any us)

    check_links-any :
        (cancelled : Bool) (us : List String)
        → is_malicious (check_links lib feeds fl marshal cancelled us).verdict
          ≡ (not cancelled && any is_listed us)
    check_links-any true [] = refl
    check_links-any false [] = refl
    check_links-any true (u ∷ us) = refl
    check_links-any false (u ∷ us) = report-any (u ∷ us)

    -- The scan is malicious exactly when the scanner is enabled, its context is alive, and some link
    -- is listed.
    pub scan-any :
        (enabled cancelled : Bool) (email : Email)
        → is_malicious (scan lib feeds fl marshal enabled cancelled email).verdict
          ≡ (enabled && not cancelled && any is_listed email.urls)
    unfolding scan
    scan-any true cancelled email = check_links-any cancelled email.urls
    scan-any false cancelled email = refl

    report-scanner : (hits : List UrlHit) → (report lib feeds fl marshal hits).scanner ≡ urlcheck
    report-scanner [] = refl
    report-scanner (_ ∷ _) = refl

    check_links-scanner :
        (cancelled : Bool) (us : List String)
        → (check_links lib feeds fl marshal cancelled us).scanner ≡ urlcheck
    check_links-scanner _ [] = refl
    check_links-scanner true (u ∷ us) = refl
    check_links-scanner false (u ∷ us) = report-scanner (link_hits lib feeds (u ∷ us))

    -- Whether a feed lists the link itself, or, off the platforms that many tenants share, its host.
    abbrev pub in_feeds : String → Bool
    in_feeds u =
        is_in_feed (normalize_url lib u) feeds.feed_urls
        || (not (is_shared_hosting_domain (extract_url_domain lib u))
            && not (str_eq (host_of lib u) "")
            && is_in_feed (host_of lib u) feeds.feed_urls)

    is_listed-in_feeds : (u : String) → is_listed u ≡ in_feeds u
    unfolding lookup_link
    is_listed-in_feeds u = elim (Bool-cases (is_shared_hosting_domain (extract_url_domain lib u))) [
      | inl e ↦ rw e (ground (arith, lookup_url_exact-found lib feeds u))
      | inr e ↦ rw e (ground (arith, lookup_url-found lib feeds u))
    ]

    any-in_feeds : (us : List String) → any is_listed us ≡ any in_feeds us
    any-in_feeds [] = refl
    any-in_feeds (u ∷ us) =
        ap (λ b. b || any is_listed us) (is_listed-in_feeds u)
        ∙ ap (λ b. in_feeds u || b) (any-in_feeds us)

    -- Where a feed lists the URL of some link of the message, or its host and the host is not a
    -- platform that many tenants share, the result of the scanner that is enabled, and whose context
    -- has not ended, makes `Decide` quarantine or delete the message, whatever the other results are
    -- and wherever it stands among them.
    pub decide-scan :
        (t : Thresholds Float) (email : Email) (before after : List (ScanResult Float))
        → any in_feeds email.urls ≡ true
        → is_held
            (decide fl t email
              (before ++ scan lib feeds fl marshal true false email ∷ after)).decision
          ≡ true
    decide-scan t email before after h =
        let r : ScanResult Float = scan lib feeds fl marshal true false email in
        decide_link t email (before ++ r ∷ after) (
          any-middle names_link before r after (
            unfold scan in
            rw (check_links-scanner false email.urls)
              (scan-any true false email ∙ any-in_feeds email.urls ∙ h)))
