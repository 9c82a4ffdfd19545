-- ===== src/Scanners/VirusTotal.antt =====
-- app/scanners/virustotal.go: the hashes of dangerous attachments against VirusTotal, with a cache of
-- its answers. The rate limiter belongs to golang.org/x/time, the answers to the service (its counts
-- are not negative); both are parameters, as is JSON.
pub mod Cache
pub mod Weight
use mailhook.Common.{
  ℕ, ◌+◌, Bool, true, false, not, ◌&&◌, ◌||◌, ◌⧺◌, String, List, [], ◌∷◌, ◌++◌, Option, none, some,
  if◌then◌else◌, str_eq, ltb, leb, ◌==◌,
}
use mailhook.Common.Dict.{lookup, insert}
use mailhook.Common.Int.{pos}
use mailhook.Email.{Attachment, Email}
use mailhook.Floats.{Floats}
use mailhook.Records.{VtResult}
use mailhook.Scanners.{plain, Limiter}
use mailhook.Verdict.Collect.{virustotal, malicious, suspicious, clean, skip, ScanResult}

pub record VtHashCache : Type 0 where
  pub positives : ℕ
  pub total : ℕ
  pub fetched_at : ℕ

-- What a request comes back with: no response, HTTP 404, another status, a body that does not
-- decode, or the numbers of engines.
pub data Reply : Type 0 where
  no_response not_found other_status undecodable : Reply
  stats : ℕ → ℕ → ℕ → ℕ → Reply

-- The service at one moment, whether a row for the hash can be saved then, the time, and the two
-- times to live.
pub record World : Type 0 where
  pub reply : String → Reply
  pub saves : String → Bool
  pub now : ℕ
  pub cache_ttl : ℕ
  pub not_found_cache_ttl : ℕ

pub record Answer : Type 0 where
  pub positives : ℕ
  pub total : ℕ
  pub source : String

abbrev pub Cache : Type 0
Cache = List (String × VtHashCache)

abbrev pub ttl : World → VtHashCache → ℕ
ttl w row = if row.positives == 0 && row.total == 0 then w.not_found_cache_ttl else w.cache_ttl

-- `time.Since(cached.FetchedAt) < ttl`
abbrev pub is_fresh : World → VtHashCache → Bool
is_fresh w row = ltb w.now (row.fetched_at + ttl w row)

abbrev pub save : World → String → ℕ → ℕ → Cache → Cache
save w sha256 positives total cache =
    if w.saves sha256
    then insert sha256 (record { positives = positives; total = total; fetched_at = w.now }) cache
    else cache

-- The call of the service.
abbrev pub ask : World → String → Reply → Cache → Option Answer × Cache
ask w sha256 no_response cache = (none, cache)
ask w sha256 not_found cache =
    (some (record { positives = 0; total = 0; source = "api" }), save w sha256 0 0 cache)
ask w sha256 other_status cache = (none, cache)
ask w sha256 undecodable cache = (none, cache)
ask w sha256 (stats m s u h) cache = (
  some (record { positives = m; total = m + s + u + h; source = "api" }),
  save w sha256 m (m + s + u + h) cache,
)

abbrev pub cached : VtHashCache → Answer
cached row = record { positives = row.positives; total = row.total; source = "cache" }

abbrev pub from_cache : World → String → Option VtHashCache → Cache → Option Answer × Cache
from_cache w sha256 none cache = ask w sha256 (w.reply sha256) cache
from_cache w sha256 (some row) cache =
    if is_fresh w row then (some (cached row), cache) else ask w sha256 (w.reply sha256) cache

-- `lookupHash`
unfoldable pub lookup_hash : World → String → Cache → Option Answer × Cache
lookup_hash w sha256 cache = from_cache w sha256 (lookup sha256 cache) cache

abbrev row_of : Attachment → Answer → VtResult
row_of att a = record {
  sha256 = att.sha256;
  filename = att.filename;
  positives = a.positives;
  total = a.total;
  permalink = "";
  source = a.source;
}

module _ (limiter : Limiter) where
  open limiter use {State, allow}

  -- The variables of the loop.
  pub record Progress : Type 0 where
    pub total_positives : ℕ
    pub vt_results : List VtResult
    pub tokens : State
    pub cache : Cache

  abbrev note : Attachment → Option Answer × Cache → Progress → Progress
  note att (none, cache) p = record p { cache = cache }
  note att (some a, cache) p = record p {
    total_positives = p.total_positives + a.positives;
    vt_results = p.vt_results ++ row_of att a ∷ [];
    cache = cache;
  }

  -- The loop: it gives up where the limiter refuses.
  unfoldable pub check_files : World → List Attachment → Progress → Bool × Progress
  check_files w [] p = (true, p)
  check_files w (att ∷ atts) p =
      let (allowed, tokens) = allow p.tokens in
      let passed_over = check_files w atts p in
      let looked_up =
        check_files w atts
          (note att (lookup_hash w att.sha256 p.cache) (record p { tokens = tokens })) in
      if not att.is_dangerous
      then passed_over
      else if allowed
      then looked_up
      else (false, record p { tokens = tokens })

  abbrev pub start : State → Cache → Progress
  start tokens cache = record {
    total_positives = 0;
    vt_results = [];
    tokens = tokens;
    cache = cache;
  }

  -- `Scan`, where the scanner is enabled and has a key.
  unfoldable pub scan_files : World → List Attachment → State → Cache → Bool × Progress
  scan_files w atts tokens cache = check_files w atts (start tokens cache)

  module _ (fl : Floats) (marshal : List VtResult → List ℕ) where
    open fl use {Float, decimal, format_int}

    -- The result, after the loop.
    abbrev pub report : Bool × Progress → ScanResult Float
    report (finished, p) =
        if not finished
        then plain fl virustotal skip "VT rate limit queue full"
        else if p.total_positives == 0
        then record (plain fl virustotal clean "") { matches = marshal p.vt_results }
        else record {
          scanner = virustotal;
          verdict = if leb 3 p.total_positives then malicious else suspicious;
          score = decimal p.total_positives 0;
          detail =
              "VirusTotal: " ⧺ format_int (pos p.total_positives) ⧺ " engine(s) flagged attachment";
          matches = marshal p.vt_results;
        }

    abbrev has_none : List Attachment → Bool
    has_none [] = true
    has_none (_ ∷ _) = false

    -- `Scan`: the result, the limiter's state and the cache.
    unfoldable pub scan :
        World
        → (enabled : Bool) (api_key : String) → Email
        → State
        → Cache
        → ScanResult Float × State × Cache
    unfolding scan_files
    scan w enabled api_key email tokens cache =
        let done = scan_files w email.attachments tokens cache in
        if not enabled
        then (plain fl virustotal skip "disabled", tokens, cache)
        else if str_eq api_key "" || has_none email.attachments
        then (plain fl virustotal skip "", tokens, cache)
        else (report done, done.1.tokens, done.1.cache)
