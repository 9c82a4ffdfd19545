-- ===== src/Verdict.antt =====
-- app/pipeline/verdict.go: from the scanners' results to the action that the pipeline takes.
-- The strings that `Decide` switches on are data types, with a constructor for all other strings.
pub mod Collect
pub mod Order
pub mod Pass
pub mod Threats
pub mod Extensions
pub mod Mute
mod Tests
use mailhook.Common.{
  ◌⧺◌, ℕ, ◌+◌, Bool, true, false, not, ◌&&◌, ◌||◌, String, List, [], ◌∷◌, ◌++◌, Option, none, some,
  map, if◌then◌else◌, str_eq, ltb, leb, length, find,
}
use mailhook.Common.Int.{at_least}
use mailhook.Email.{Attachment, Email}
use mailhook.Floats.{Floats}
use mailhook.Verdict.Collect.{
  ScanResult, Signals, no_signals, collect, ScannerName, ScanVerdict, is_error, is_critical,
  scanner_text,
}

pub data Decision : Type 0 where
  pass quarantine delete flag : Decision

pub data Verdict : Type 0 where
  clean spam phish malware suspicious : Verdict

-- `strings.Join`
unfoldable pub join : String → List String → String
join sep [] = ""
join sep (s ∷ []) = s
join sep (s ∷ t ∷ ts) = s ⧺ sep ⧺ join sep (t ∷ ts)

pub record VerdictDecision (F : Type 0) : Type 0 where
  pub decision : Decision
  pub reason : String
  pub verdict : Verdict
  pub confidence : F
  pub results : List (ScanResult F)

pub record Thresholds (F : Type 0) : Type 0 where
  pub spam_score : F
  pub reject_score : F

-- A lookup in the map `seen`.
abbrev pub contains : List String → String → Bool
contains [] e = false
contains (x ∷ xs) e = str_eq x e || contains xs e

abbrev pub passes : String → Bool
passes result = str_eq result "pass"

abbrev pub all_auth_fail : Email → Bool
all_auth_fail email =
    not (passes email.spf_result)
    && not (passes email.dkim_result)
    && not (passes email.dmarc_result)

abbrev auth_ok : Email → Bool
auth_ok email = passes email.spf_result || passes email.dkim_result || passes email.dmarc_result

-- `seen` holds the extensions met so far.
executable_extensions_from : List String → List Attachment → List String
executable_extensions_from seen [] = []
executable_extensions_from seen (a ∷ atts) =
    let added = a.extension ∷ executable_extensions_from (a.extension ∷ seen) atts in
    let rest = executable_extensions_from seen atts in
    if a.is_dangerous && not (contains seen a.extension) then added else rest

unfoldable pub executable_extensions : List Attachment → List String
unfolding executable_extensions_from
executable_extensions atts = executable_extensions_from [] atts

module _ (fl : Floats) where
  open fl use {Float, decimal, le, lt, plus, minus, times, quotient, format_float, format_int}

  unfoldable pub scale_confidence : Float → Float → Float → Float
  scale_confidence score low high =
      if le high low
      then decimal 70 2
      else (let ratio = quotient (minus score low) (minus high low) in
          if lt (decimal 1 0) ratio
          then decimal 99 2
          else plus (decimal 70 2) (times (decimal 29 2) ratio))

  abbrev pub decided :
      Decision → Verdict → String → Float → List (ScanResult Float) → VerdictDecision Float
  decided d v why c rs = record {
    decision = d;
    verdict = v;
    reason = why;
    confidence = c;
    results = rs;
  }

  -- `append(reasons, …)` under a condition.
  abbrev reason_if : Bool → String → List String
  reason_if b s = if b then s ∷ [] else []

  -- The list `suspiciousReasons`.
  unfoldable pub suspicious_reasons : Email → Signals Float → List String
  suspicious_reasons email s =
      reason_if (all_auth_fail email) "SPF/DKIM/DMARC all failed"
      ++ reason_if s.ip_suspicious ("IP reputation: " ⧺ s.ip_detail)
      ++ reason_if (at_least 1 s.vt_positives && not (at_least 3 s.vt_positives))
          ("VirusTotal: " ⧺ format_int s.vt_positives ⧺ " engine(s)")
      ++ reason_if s.nrd_hit ("newly registered domain: " ⧺ s.nrd_detail)
      ++ reason_if s.hidden_text_hit ("hidden text/zero-font: " ⧺ s.hidden_text_detail)

  -- The last loop: a critical scanner that failed.
  abbrev pub is_critical_error : ScanResult Float → Bool
  is_critical_error r = is_critical r.scanner && is_error r.verdict

  fail_closed : List (ScanResult Float) → VerdictDecision Float
  fail_closed results = elim (find is_critical_error results) [
    | some r ↦
        decided quarantine suspicious
          (scanner_text r.scanner ⧺ " scan failed or timed out — manual review required")
          (decimal 5 1) results
    | none ↦ decided pass clean "No threats detected" (decimal 1 0) results
  ]

  -- Priority 6 and what follows it.
  weigh : Email → Signals Float → List (ScanResult Float) → List String → VerdictDecision Float
  weigh email s results [] = fail_closed results
  weigh email s results (why ∷ []) = decided flag suspicious why (decimal 40 2) results
  weigh email s results (why ∷ also ∷ more) =
      decided quarantine suspicious (join "; " (why ∷ also ∷ more)) (decimal 60 2) results

  -- Priorities 5 to 5.7.
  judge_content : Email → Signals Float → List (ScanResult Float) → VerdictDecision Float
  judge_content email s results =
      if email.has_executable
      then decided quarantine suspicious
          ("dangerous attachment extension(s): "
            ⧺ join ", " (executable_extensions email.attachments))
          (decimal 70 2) results
      else if s.html_smuggling_hit
      then decided quarantine suspicious s.html_smuggling_detail (decimal 80 2) results
      else if s.onnx_suspicious && (not (auth_ok email) || s.nrd_hit)
      then decided quarantine suspicious ("AI DGA + auth/nrd: " ⧺ s.onnx_detail) (decimal 75 2)
          results
      else weigh email s results (suspicious_reasons email s)

  abbrev score_reason : Float → String → Float → String
  score_reason score what limit = "Rspamd score " ⧺ format_float score ⧺ what ⧺ format_float limit

  -- Priorities 2 to 4.
  judge_score :
      Thresholds Float → Email → Signals Float → List (ScanResult Float) → VerdictDecision Float
  judge_score t email s results =
      if le t.reject_score s.rspamd_score
      then decided delete spam (score_reason s.rspamd_score " ≥ reject threshold " t.reject_score)
          (scale_confidence s.rspamd_score t.spam_score t.reject_score) results
      else if s.url_hit
      then decided quarantine phish ("URL threat feed match: " ⧺ s.url_detail) (decimal 97 2)
          results
      else if s.onnx_malicious
      then decided quarantine phish ("AI phishing URL: " ⧺ s.onnx_detail) (decimal 87 2) results
      else if le t.spam_score s.rspamd_score
      then decided quarantine spam (score_reason s.rspamd_score " ≥ spam threshold " t.spam_score)
          (scale_confidence s.rspamd_score t.spam_score t.reject_score) results
      else judge_content email s results

  -- Priority 1, and all that follows it.
  unfoldable pub judge :
      Thresholds Float → Email → Signals Float → List (ScanResult Float) → VerdictDecision Float
  unfolding judge_score judge_content weigh fail_closed
  judge t email s results =
      if s.clam_hit
      then decided delete malware ("ClamAV: " ⧺ s.clam_detail) (decimal 99 2) results
      else if s.yara_hit
      then decided delete malware ("YARA match: " ⧺ s.yara_detail) (decimal 95 2) results
      else if at_least 3 s.vt_positives
      then decided delete malware s.vt_detail (decimal 90 2) results
      else if s.mb_hit
      then decided delete malware s.mb_detail (decimal 88 2) results
      else if s.ip_malicious
      then decided delete malware ("IP reputation: " ⧺ s.ip_detail) (decimal 85 2) results
      else judge_score t email s results

  unfoldable pub decide : Thresholds Float → Email → List (ScanResult Float) → VerdictDecision Float
  decide t email results = judge t email (collect fl (no_signals fl) results) results
