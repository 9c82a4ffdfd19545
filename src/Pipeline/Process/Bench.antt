-- ===== src/Pipeline/Process/Bench.antt =====
-- app/pipeline/pipeline.go, `RunScan`: the scanners and the verdict on a message that no mailbox
-- holds. The time that it took is left out.
use mailhook.Common.{
  ℕ, ◌*◌, ◌==◌, if◌then◌else◌, Bool, false, String, List, [], ◌∷◌, Option, none, some, true,
}
use mailhook.Email.{Email}
use mailhook.Email.Parse.{ParseLib, parse}
use mailhook.Floats.{Floats}
use mailhook.Pipeline.Env.{Env, Scanner, Ran, returned, panicked}
use mailhook.Verdict.Collect.{ScanResult}
use mailhook.Verdict.{VerdictDecision, decide}

-- The end of the program because a scanner panics, an error of `Parse`, or the verdict with the results.
pub data Bench (F : Type 0) : Type 0 where
  crashed : String → Bench F
  unparseable : Bench F
  scanned : VerdictDecision F → List (ScanResult F) → Bench F

module _ (fl : Floats) where
  open fl use {Float}

  -- The goroutines have no recovery of their own: a panic ends the program.
  unfoldable pub gather : Email → List (Scanner Float) → Option (List (ScanResult Float))
  gather email [] = some []
  gather email (s ∷ ss) =
      let rest = gather email ss in
      elim (s.scan email) [
        | panicked ↦ none
        | returned r ↦ (elim rest [ none ↦ none | some rs ↦ some (r ∷ rs) ])
      ]

  -- The limit on the bytes of the attachments: 100 MB where none is configured.
  abbrev pub scan_limit : ℕ → ℕ
  scan_limit max_email_size_mb =
      if max_email_size_mb * 1024 * 1024 == 0
      then 100 * 1024 * 1024
      else max_email_size_mb * 1024 * 1024

  module _ (env : Env fl) (lib : ParseLib) where
    abbrev judged : Email → Option (List (ScanResult Float)) → Bench Float
    judged email none = crashed "scanner panic"
    judged email (some rs) = scanned (decide fl env.thresholds email rs) rs

    abbrev scan_parsed : Option Email → Bench Float
    scan_parsed none = unparseable
    scan_parsed (some email) = judged email (gather email env.scanners)

    -- `RunScan`, for the configured size, the trusted server and the message.
    pub run_scan : ℕ → String → List ℕ → Bench Float
    run_scan max_email_size_mb trusted raw =
        scan_parsed (parse lib raw "scan" 0 "INBOX" (scan_limit max_email_size_mb) trusted)

  abbrev has_panicked : Ran Float → Bool
  has_panicked panicked = true
  has_panicked (returned r) = false

  abbrev pub panics : Email → Scanner Float → Bool
  panics email s = has_panicked (s.scan email)
