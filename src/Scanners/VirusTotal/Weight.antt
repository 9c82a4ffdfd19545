-- ===== src/Scanners/VirusTotal/Weight.antt =====
-- What the answers of VirusTotal weigh in `Decide`.
use mailhook.Common.{ℕ, Bool, true, false, ◌&&◌, String, List, ◌∷◌, ◌++◌, ◌≡◌, leb, arith}
use mailhook.Email.{Email}
use mailhook.Floats.{Floats}
use mailhook.Records.{VtResult}
use mailhook.Scanners.{Limiter}
use mailhook.Scanners.VirusTotal.{World, Cache, Progress, report, scan_files, scan}
use mailhook.Verdict.Collect.{ScanResult}
use mailhook.Verdict.Mute.{is_mute, decide-mute}
use mailhook.Verdict.Order.{outcome}
use mailhook.Verdict.{Thresholds, decide}

module _ (limiter : Limiter) (fl : Floats) (marshal : List VtResult → List ℕ) where
  open limiter use {State}
  open fl use {Float}

  is_mute-report :
      (done : Bool × Progress limiter)
      → (done.0 && leb 3 done.1.total_positives) ≡ false
      → is_mute fl (report limiter fl marshal done) ≡ true
  is_mute-report done h = ground arith

  is_mute-scan :
      (w : World) (enabled : Bool) (api_key : String) (email : Email) (tokens : State)
      (cache : Cache)
      → ((scan_files limiter w email.attachments tokens cache).0
          && leb 3 (scan_files limiter w email.attachments tokens cache).1.total_positives)
        ≡ false
      → is_mute fl (scan limiter fl marshal w enabled api_key email tokens cache).0 ≡ true
  unfolding scan
  is_mute-scan w enabled api_key email tokens cache h =
      ground (arith, is_mute-report (scan_files limiter w email.attachments tokens cache) h)

  -- Unless the loop over the attachments reached its end with three or more positives, VirusTotal
  -- leaves the action, the verdict and the confidence as they would be without it: one or two engines
  -- count for nothing, and so do any number once the limiter has refused a token.
  pub decide-few_engines :
      (t : Thresholds Float) (w : World) (enabled : Bool) (api_key : String) (email : Email)
      (tokens : State) (cache : Cache) (before after : List (ScanResult Float))
      → ((scan_files limiter w email.attachments tokens cache).0
          && leb 3 (scan_files limiter w email.attachments tokens cache).1.total_positives)
        ≡ false
      → outcome fl (
          decide fl t email
            (before ++ (scan limiter fl marshal w enabled api_key email tokens cache).0 ∷ after))
        ≡ outcome fl (decide fl t email (before ++ after))
  decide-few_engines t w enabled api_key email tokens cache before after h =
      decide-mute fl t email before after
        (scan limiter fl marshal w enabled api_key email tokens cache).0
        (is_mute-scan w enabled api_key email tokens cache h)
