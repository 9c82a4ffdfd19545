-- ===== src/Scanners.antt =====
-- app/scanners: what the scanners make of the answers of the services that they ask. The answers
-- are arguments, and JSON is a parameter.
pub mod UrlCheck
pub mod Bazaar
pub mod VirusTotal
pub mod Unshorten
pub mod Daemons
pub mod Reputation
pub mod Domains
pub mod Smuggling
pub mod Hidden
mod Tests
use mailhook.Common.{ℕ, Bool, String, List, []}
use mailhook.Floats.{Floats}
use mailhook.Verdict.Collect.{ScannerName, ScanVerdict, ScanResult}

-- A token of the limiter is taken without waiting, if there is one.
pub record Limiter : Type 1 where
  pub State : Type 0
  pub allow : State → Bool × State

module _ (fl : Floats) where
  open fl use {Float, decimal}

  -- A result with no score and no matches.
  abbrev pub plain : ScannerName → ScanVerdict → String → ScanResult Float
  plain name verdict detail = record {
    scanner = name;
    verdict = verdict;
    score = decimal 0 0;
    detail = detail;
    matches = [];
  }
