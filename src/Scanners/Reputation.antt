-- ===== src/Scanners/Reputation.antt =====
-- app/scanners/ipreputation.go: the sending address against AbuseIPDB, with a cache of its answers.
-- The service's answers are a parameter (its numbers are not negative), as is JSON.
pub mod Weight
use mailhook.Common.{
  ℕ, ◌+◌, Bool, true, false, not, ◌&&◌, ◌||◌, ◌⧺◌, String, List, [], ◌∷◌, ◌++◌, Option, none, some,
  if◌then◌else◌, str_eq, ltb, leb, ◌≡◌, refl, any-middle, arith,
}
use mailhook.Common.Dict.{lookup, insert}
use mailhook.Common.Int.{pos}
use mailhook.Email.{Email}
use mailhook.Floats.{Floats}
use mailhook.Scanners.{plain}
use mailhook.Verdict.Collect.{
  ipreputation, malicious, suspicious, clean, skip, ScanVerdict, ScanResult,
}

pub record IpReputationCache : Type 0 where
  pub abuse_score : ℕ
  pub total_reports : ℕ
  pub country_code : String
  pub isp : String
  pub expires_at : ℕ

pub record IpReputationResult : Type 0 where
  pub ip : String
  pub abuse_score : ℕ
  pub total_reports : ℕ
  pub country_code : String
  pub isp : String
  pub source : String

-- The service at one moment: for an address the score, the reports, the country and the provider, or
-- nothing where the request, its status or the decoding fails; whether a row can be saved; the time;
-- and the time to live.
pub record World : Type 0 where
  pub check : String → Option (ℕ × ℕ × String × String)
  pub saves : String → Bool
  pub now : ℕ
  pub cache_ttl : ℕ

abbrev pub Cache : Type 0
Cache = List (String × IpReputationCache)

abbrev row_of : World → ℕ × ℕ × String × String → IpReputationCache
row_of w (score, reports, country, isp) = record {
  abuse_score = score;
  total_reports = reports;
  country_code = country;
  isp = isp;
  expires_at = w.now + w.cache_ttl;
}

abbrev result_of : String → String → IpReputationCache → IpReputationResult
result_of ip source row = record {
  ip = ip;
  abuse_score = row.abuse_score;
  total_reports = row.total_reports;
  country_code = row.country_code;
  isp = row.isp;
  source = source;
}

abbrev ask :
    World → String → Option (ℕ × ℕ × String × String) → Cache → Option IpReputationResult × Cache
ask w ip none cache = (none, cache)
ask w ip (some answer) cache = (
  some (result_of ip "api" (row_of w answer)),
  if w.saves ip then insert ip (row_of w answer) cache else cache,
)

abbrev from_cache :
    World → String → Option IpReputationCache → Cache → Option IpReputationResult × Cache
from_cache w ip none cache = ask w ip (w.check ip) cache
from_cache w ip (some row) cache =
    if ltb w.now row.expires_at
    then (some (result_of ip "cache" row), cache)
    else ask w ip (w.check ip) cache

-- `lookup`
unfoldable pub lookup_ip : World → String → Cache → Option IpReputationResult × Cache
lookup_ip w ip cache = from_cache w ip (lookup ip cache) cache

unfoldable pub verdict_of : ℕ → ScanVerdict
verdict_of score = if leb 75 score then malicious else if leb 25 score then suspicious else clean

module _ (fl : Floats) (marshal : IpReputationResult → List ℕ) where
  open fl use {Float, decimal, format_int}

  abbrev pub report : Option IpReputationResult → ScanResult Float
  report none = plain fl ipreputation skip "unavailable"
  report (some r) = record {
    scanner = ipreputation;
    verdict = verdict_of r.abuse_score;
    score = decimal r.abuse_score 0;
    detail =
        "IP "
        ⧺ r.ip
        ⧺ " abuse score "
        ⧺ format_int (pos r.abuse_score)
        ⧺ "/100 (source: "
        ⧺ r.source
        ⧺ ")";
    matches = marshal r;
  }

  -- The first of the sending addresses.
  abbrev pub check_first : World → (has_key : Bool) → List String → Cache → ScanResult Float × Cache
  check_first w has_key [] cache = (plain fl ipreputation skip "", cache)
  check_first w false (_ ∷ _) cache = (plain fl ipreputation skip "", cache)
  check_first w true (ip ∷ _) cache =
      let (result, cache') = lookup_ip w ip cache in (report result, cache')

  -- `Scan`: the result, and the cache.
  unfoldable pub scan :
      World → (enabled : Bool) (api_key : String) → Email → Cache → ScanResult Float × Cache
  scan w enabled api_key email cache =
      if enabled
      then check_first w (not (str_eq api_key "")) email.sender_ips cache
      else (plain fl ipreputation skip "disabled", cache)
