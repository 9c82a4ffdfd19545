-- ===== src/Scanners/Tests.antt =====
-- The scanners at concrete answers.
use mailhook.Common.{
  ℕ, zero, suc, true, false, ◌&&◌, String, List, [], ◌∷◌, ◌++◌, Option, none, some, ◌≡◌, ◌≢◌, refl,
  ap, any, length, leb, str_eq, arith,
}
use mailhook.Common.Dict.{lookup}
use mailhook.Common.Text.{after_prefix, trim_prefix, after_byte}
use mailhook.Email.{Email}
use mailhook.Feeds.{UrlLib, Manager, lookup_url, first_feed, normalize_url}
use mailhook.Samples.{hundredths, message, limits, result}
use mailhook.Scanners.Daemons.{
  Reply, no_reply, replied, scan_bytes, read_response, scan_clamav, is_failed, instream,
  before_suffix, after_text,
}
use mailhook.Scanners.Daemons.Closed.{any_infected, decide-infected, decide-unscanned}
use mailhook.Scanners.Daemons.Stream.{read_stream, read_stream-instream}
use mailhook.Scanners.Unshorten.{Web, follow_redirects}
use mailhook.Scanners.Unshorten.Guard.{IsBounded, follow_redirects-IsBounded}
use mailhook.Scanners.Unshorten.Hits.{any_bad, decide-resolved}
use mailhook.Scanners.UrlCheck.Held.{is_held, in_feeds, decide-scan}
use mailhook.Scanners.UrlCheck
use mailhook.Scanners.UrlCheck.{lookup_link}
use mailhook.Scanners.Unshorten
use mailhook.Scanners.VirusTotal
use mailhook.Scanners.VirusTotal.{
  World, Cache, Answer, stats, lookup_hash, scan_files, cached, is_fresh,
}
use mailhook.Scanners.VirusTotal.Cache.{row_at, lookup_hash-again}
use mailhook.Scanners.VirusTotal.Weight.{decide-few_engines}
use mailhook.Scanners.{Limiter}
use mailhook.Util.{v4, is_public_ip}
use mailhook.Verdict.Collect.{rspamd, ScanVerdict, ScanResult}
use mailhook.Verdict.Order.{outcome}
use mailhook.Verdict.{Decision, Verdict, decide}

abbrev lib : UrlLib
lib = record { parse = λ u. some ("evil.example", "/a"); to_lower = λ s. s }

abbrev feeds : Manager
feeds = record {
  index = "evil.example/a" ∷ [];
  feed_urls = ("openphish", "evil.example/a" ∷ []) ∷ [];
  feed_counts = [];
  last_loaded = none;
}

abbrev linked : Email
linked = record message { urls = "http://evil.example/a" ∷ [] }

abbrev mild : List (ScanResult ℕ)
mild = result rspamd ScanVerdict.clean 100 ∷ []

listed : any (in_feeds hundredths lib feeds (λ _. [])) linked.urls ≡ true
unfolding UrlCheck.is_shared_hosting_domain UrlCheck.extract_url_domain normalize_url trim_prefix
    after_byte
listed = refl

decide-scan_example :
    is_held
      (decide hundredths limits linked
        ([] ++ UrlCheck.scan lib feeds hundredths (λ _. []) true false linked ∷ mild)).decision
    ≡ true
decide-scan_example = decide-scan hundredths lib feeds (λ _. []) limits linked [] mild listed

-- One redirect, to a listed link.
abbrev redirected : ℕ → String → Option (ℕ × String)
redirected zero u = some (302, "http://evil.example/a")
redirected (suc i) u = some (200, "")

abbrev web : Web
web = record {
  Url = String;
  parse = λ u. some u;
  hostname = λ u. "evil.example";
  resolve_reference = λ base target. target;
  text = λ u. u;
  is_request = λ u. true;
  head = redirected;
  lookup_host = λ i host. some ("8.8.8.8" ∷ []);
  parse_ip = λ s. some (v4 134744072);
}

abbrev generous : Limiter
generous = record { State = Unit; allow = λ s. (true, s) }

follow_redirects-IsBounded_example :
    IsBounded web 5 0 (follow_redirects web 5 "http://short.example/x")
follow_redirects-IsBounded_example = follow_redirects-IsBounded web 5 "http://short.example/x"

shortened : Email
shortened = record message { urls = "http://short.example/x" ∷ [] }

led : any_bad generous (λ _. web) lib feeds 5 0 shortened.urls ≡ true
unfolding shortened any_bad follow_redirects Unshorten.follow Unshorten.step
    Unshorten.is_ssrf_target is_public_ip lookup_url first_feed normalize_url trim_prefix
led = refl

decide-resolved_example :
    is_held
      (decide hundredths limits shortened (
        []
        ++ (Unshorten.scan generous (λ _. web) lib feeds 5 hundredths (λ _. []) true shortened tt).0
          ∷ mild)).decision
    ≡ true
decide-resolved_example =
    decide-resolved generous (λ _. web) lib feeds 5 hundredths (λ _. []) limits shortened tt [] mild
      (λ _. refl) led

abbrev infected : List ℕ → Reply
infected bytes = replied "stream: Eicar FOUND"

abbrev down : List ℕ → Reply
down bytes = no_reply "refused"

hit : any_infected infected message ≡ true
unfolding scan_bytes read_response before_suffix after_text after_prefix
hit = refl

decide-infected_example :
    ((decide hundredths limits message
        ([] ++ scan_clamav infected hundredths true message ∷ mild)).decision
      ≡ Decision.delete)
    × ((decide hundredths limits message
          ([] ++ scan_clamav infected hundredths true message ∷ mild)).verdict
        ≡ Verdict.malware)
decide-infected_example = decide-infected infected hundredths limits message [] mild hit

unread : is_failed (scan_bytes down message.raw) ≡ true
unfolding scan_bytes
unread = refl

decide-unscanned_example :
    (decide hundredths limits message
      ([] ++ scan_clamav down hundredths true message ∷ mild)).decision
    ≢ Decision.pass
decide-unscanned_example = decide-unscanned down hundredths limits message [] mild unread

abbrev two_bytes : List ℕ
two_bytes = 1 ∷ 2 ∷ []

read_stream-instream_example :
    read_stream (suc (length two_bytes)) (instream two_bytes) ≡ some two_bytes
read_stream-instream_example = read_stream-instream two_bytes

abbrev two_engines : World
two_engines = record {
  reply = λ _. stats 2 0 60 0;
  saves = λ _. true;
  now = 100;
  cache_ttl = 50;
  not_found_cache_ttl = 10;
}

abbrev program : Email
program = record message {
  attachments =
      record {
        filename = "a.exe";
        content_type = "";
        sha256 = "ab";
        extension = ".exe";
        size_bytes = 0;
        is_dangerous = true;
        raw = [];
      }
      ∷ [];
}

few :
    ((scan_files generous two_engines program.attachments tt []).0
      && leb 3 (scan_files generous two_engines program.attachments tt []).1.total_positives)
    ≡ false
unfolding scan_files VirusTotal.check_files lookup_hash lookup
few = refl

decide-few_engines_example :
    outcome hundredths (
      decide hundredths limits program (
        []
        ++ (VirusTotal.scan generous hundredths (λ _. []) two_engines true "key" program tt []).0
          ∷ mild))
    ≡ outcome hundredths (decide hundredths limits program ([] ++ mild))
decide-few_engines_example =
    decide-few_engines generous hundredths (λ _. []) limits two_engines true "key" program tt [] []
      mild few

abbrev engines : Answer
engines = record { positives = 2; total = 62; source = "api" }

asked : (lookup_hash two_engines "ab" []).0 ≡ some engines
unfolding lookup_hash lookup
asked = refl

from_api : engines.source ≢ "cache"
from_api e = ground (arith, ap (str_eq "api") e)

lookup_hash-again_example :
    lookup_hash (record two_engines { now = 120 }) "ab" (lookup_hash two_engines "ab" []).1
    ≡ (some (cached (row_at two_engines engines)), (lookup_hash two_engines "ab" []).1)
lookup_hash-again_example =
    lookup_hash-again two_engines (record two_engines { now = 120 }) "ab" [] engines asked from_api
      refl refl
