-- ===== src/Verdict/Mute.antt =====
-- The results that `Decide` does not react to.
use mailhook.Common.{
  Bool, true, false, not, ◌&&◌, ◌||◌, String, List, [], ◌∷◌, ◌++◌, ◌≡◌, refl, ap, ◌∙◌, arith, any,
  or_false,
}
use mailhook.Email.{Email}
use mailhook.Floats.{Floats}
use mailhook.Verdict.Collect.{
  ScannerName, rspamd, clamav, yara, urlcheck, urlunshorten, nrdcheck, htmlsmuggling,
  hiddentextdetect, virustotal, malwarebazaar, ipreputation, onnx, other_scanner, ScanVerdict,
  ScanResult, Signals, no_signals, signal, observe, collect, is_malicious, is_suspicious,
}
use mailhook.Verdict.Order.{outcome, judge-any}
use mailhook.Verdict.{Thresholds, judge, decide, is_critical_error}

-- Whether the scanner's case of the switch reads anything out of a result with this verdict.
abbrev pub hears : ScannerName → ScanVerdict → Bool
hears rspamd v = true
hears clamav v = is_malicious v
hears yara v = is_malicious v
hears urlcheck v = is_malicious v || is_suspicious v
hears urlunshorten v = is_malicious v
hears nrdcheck v = is_suspicious v
hears htmlsmuggling v = is_suspicious v
hears hiddentextdetect v = is_suspicious v
hears virustotal v = is_malicious v
hears malwarebazaar v = is_malicious v
hears ipreputation v = is_malicious v || is_suspicious v
hears onnx v = is_malicious v || is_suspicious v
hears (other_scanner _) v = false

module _ (fl : Floats) where
  open fl use {Float}

  abbrev pub is_mute : ScanResult Float → Bool
  is_mute r = not (hears r.scanner r.verdict) && not (is_critical_error fl r)

  signal-mute :
      (m : ScannerName) (v : ScanVerdict) (x : Float) (d : String) (s : Signals Float)
      → hears m v ≡ false
      → signal fl m v x d s ≡ s
  unfolding signal
  signal-mute rspamd v x d s h = ground arith
  signal-mute urlcheck v x d s h = rw h refl
  signal-mute ipreputation v x d s h =
      let (bad, odd) = or_false (is_malicious v) (is_suspicious v) h in rw (bad, odd) refl
  signal-mute onnx v x d s h =
      let (bad, odd) = or_false (is_malicious v) (is_suspicious v) h in rw (bad, odd) refl
  signal-mute (other_scanner _) v x d s h = refl
  signal-mute _ v x d s h = rw h refl

  collect-mute :
      (s : Signals Float) (before : List (ScanResult Float)) (r : ScanResult Float)
      (after : List (ScanResult Float))
      → hears r.scanner r.verdict ≡ false
      → collect fl s (before ++ r ∷ after) ≡ collect fl s (before ++ after)
  unfolding collect observe
  collect-mute s [] r after h =
      ap (λ u. collect fl u after) (signal-mute r.scanner r.verdict r.score r.detail s h)
  collect-mute s (b ∷ before) r after h = collect-mute (observe fl s b) before r after h

  any-drop :
      (p : ScanResult Float → Bool) (before : List (ScanResult Float)) (r : ScanResult Float)
      (after : List (ScanResult Float))
      → p r ≡ false
      → any p (before ++ r ∷ after) ≡ any p (before ++ after)
  any-drop p [] r after h = ground (arith, h)
  any-drop p (b ∷ before) r after h = ap (λ q. p b || q) (any-drop p before r after h)

  -- A result that `Decide` does not react to (a scanner that is skipped or finds nothing, the error
  -- of a scanner that is not critical, "suspicious" of VirusTotal and other scanners whose case only
  -- reads "malicious") changes neither the action nor the verdict nor the confidence, wherever it
  -- stands.
  pub decide-mute :
      (t : Thresholds Float) (email : Email) (before after : List (ScanResult Float))
      (r : ScanResult Float)
      → is_mute r ≡ true
      → outcome fl (decide fl t email (before ++ r ∷ after))
        ≡ outcome fl (decide fl t email (before ++ after))
  unfolding decide
  decide-mute t email before after r h =
      let quiet : hears r.scanner r.verdict ≡ false = ground (arith, h) in
      let fine : is_critical_error fl r ≡ false = ground (arith, h) in
      ap (λ s. outcome fl (judge fl t email s (before ++ r ∷ after)))
        (collect-mute (no_signals fl) before r after quiet)
      ∙ judge-any fl t email _ (before ++ r ∷ after) (before ++ after)
          (any-drop (is_critical_error fl) before r after fine)
