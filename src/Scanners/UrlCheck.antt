-- ===== src/Scanners/UrlCheck.antt =====
-- app/scanners/urlcheck.go: the links of a message against the feeds. Parsing a URL and lower case
-- belong to Go's library.
pub mod Held
use mailhook.Common.{
  ℕ, Bool, true, false, ◌||◌, String, List, [], ◌∷◌, Option, none, some, map, if◌then◌else◌, str_eq,
  any,
}
use mailhook.Common.Text.{trim_prefix, after_byte, clip}
use mailhook.Email.{Email}
use mailhook.Feeds.{UrlLib, Manager, lookup_url, lookup_url_exact}
use mailhook.Floats.{Floats}
use mailhook.Records.{UrlHit}
use mailhook.Scanners.{plain}
use mailhook.Verdict.Collect.{urlcheck, malicious, clean, skip, ScanResult}
use mailhook.Verdict.{join}

abbrev shared_hosting_domains : List String
shared_hosting_domains =
    "github.com" ∷ "raw.githubusercontent.com" ∷ "gist.github.com" ∷ "google.com" ∷ "googleapis.com"
    ∷ "googleusercontent.com" ∷ "gstatic.com" ∷ "drive.google.com" ∷ "docs.google.com"
    ∷ "microsoft.com" ∷ "live.com" ∷ "office.com" ∷ "onedrive.live.com" ∷ "sharepoint.com"
    ∷ "apple.com" ∷ "icloud.com" ∷ "amazon.com" ∷ "amazonaws.com" ∷ "cloudfront.net"
    ∷ "cloudflare.com" ∷ "discord.com" ∷ "discordapp.com" ∷ "dropbox.com" ∷ "pastebin.com"
    ∷ "youtube.com" ∷ "youtu.be" ∷ "linkedin.com" ∷ "twitter.com" ∷ "x.com" ∷ "facebook.com"
    ∷ "instagram.com" ∷ "npm.js" ∷ "npmjs.com" ∷ "pypi.org" ∷ "stackoverflow.com" ∷ "gitlab.com"
    ∷ "bitbucket.org" ∷ []

-- The host itself, or what follows its first label.
unfoldable pub is_shared_hosting_domain : String → Bool
is_shared_hosting_domain host =
    any (str_eq host) shared_hosting_domains || (elim (after_byte b'.' host) [
      | none ↦ false
      | some rest ↦ any (str_eq rest) shared_hosting_domains
    ])

module _ (lib : UrlLib) where
  unfoldable pub extract_url_domain : String → String
  extract_url_domain raw_url = elim (lib.parse raw_url) [
    | none ↦ ""
    | some (host, _) ↦ trim_prefix "www." (lib.to_lower host)
  ]

  module _ (feeds : Manager) where
    -- A link on a platform that many tenants share has to match whole.
    unfoldable pub lookup_link : String → Option (String × String)
    lookup_link raw_url =
        if is_shared_hosting_domain (extract_url_domain raw_url)
        then lookup_url_exact lib feeds raw_url
        else lookup_url lib feeds raw_url

    abbrev pub add_hit : String → Option (String × String) → List UrlHit → List UrlHit
    add_hit u none hits = hits
    add_hit u (some (feed, threat)) hits =
        record { url = u; domain = extract_url_domain u; feed = feed; threat_type = threat } ∷ hits

    unfoldable pub link_hits : List String → List UrlHit
    link_hits [] = []
    link_hits (u ∷ us) = add_hit u (lookup_link u) (link_hits us)

    module _ (fl : Floats) (marshal : List UrlHit → List ℕ) where
      open fl use {Float, decimal}

      abbrev pub report : List UrlHit → ScanResult Float
      report [] = plain fl urlcheck clean ""
      report (h ∷ hs) = record {
        scanner = urlcheck;
        verdict = malicious;
        score = decimal 0 0;
        detail = clip 500 (join ", " (map (λ x. x.url) (h ∷ hs)));
        matches = marshal (h ∷ hs);
      }

      -- The links, once the scanner runs.
      abbrev pub check_links : Bool → List String → ScanResult Float
      check_links cancelled [] = plain fl urlcheck clean ""
      check_links cancelled (u ∷ us) =
          if cancelled
          then plain fl urlcheck skip "context cancelled"
          else report (link_hits (u ∷ us))

      -- `Scan`: whether the scanner is enabled, and whether the context has ended.
      unfoldable pub scan : Bool → Bool → Email → ScanResult Float
      scan enabled cancelled email =
          if enabled then check_links cancelled email.urls else plain fl urlcheck skip "disabled"
