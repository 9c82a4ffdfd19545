-- ===== src/Verdict/Pass.antt =====
-- When `Decide` lets a message pass, and what a failed critical scanner does to the decision.
use mailhook.Common.{
  false, not, ◌&&◌, String, List, [], ◌∷◌, ◌≡◌, refl, arith, any, All, find-cases, inl, inr,
  or_false, ◌++◌, ◌≢◌, All-middle,
}
use mailhook.Common.Int.{at_least, at_least_3-false}
use mailhook.Email.{Email}
use mailhook.Floats.{Floats}
use mailhook.Verdict.Collect.{
  ScannerName, rspamd, clamav, yara, urlcheck, urlunshorten, nrdcheck, htmlsmuggling,
  hiddentextdetect, virustotal, malwarebazaar, ipreputation, onnx, other_scanner, ScanVerdict,
  ScanResult, Signals, no_signals, signal, observe, collect, is_malicious, is_suspicious, is_error,
}
use mailhook.Verdict.{
  Decision, Verdict, Thresholds, judge, suspicious_reasons, decide, is_critical_error, fail_closed,
  weigh, all_auth_fail,
}

-- No signal that alone, or with one more, changes the decision.
pub record IsQuiet {F : Type 0} (s : Signals F) : Type 0 where
  pub clam : s.clam_hit ≡ false
  pub yara : s.yara_hit ≡ false
  pub url : s.url_hit ≡ false
  pub mb : s.mb_hit ≡ false
  pub ip_mal : s.ip_malicious ≡ false
  pub ip_sus : s.ip_suspicious ≡ false
  pub nrd : s.nrd_hit ≡ false
  pub html : s.html_smuggling_hit ≡ false
  pub hidden : s.hidden_text_hit ≡ false
  pub onnx_mal : s.onnx_malicious ≡ false

-- What a passed message's result of the scanner is not.
abbrev pub Harmless : ScannerName → ScanVerdict → Type 0
Harmless rspamd v = is_error v ≡ false
Harmless clamav v = (is_malicious v ≡ false) × (is_error v ≡ false)
Harmless yara v = (is_malicious v ≡ false) × (is_error v ≡ false)
Harmless urlcheck v = (is_malicious v ≡ false) × (is_suspicious v ≡ false)
Harmless urlunshorten v = is_malicious v ≡ false
Harmless nrdcheck v = is_suspicious v ≡ false
Harmless htmlsmuggling v = is_suspicious v ≡ false
Harmless hiddentextdetect v = is_suspicious v ≡ false
Harmless virustotal v = Unit
Harmless malwarebazaar v = is_malicious v ≡ false
Harmless ipreputation v = (is_malicious v ≡ false) × (is_suspicious v ≡ false)
Harmless onnx v = is_malicious v ≡ false
Harmless (other_scanner _) v = Unit

module _ (fl : Floats) where
  open fl use {Float, le}

  signal-IsQuiet :
      (m : ScannerName) (v : ScanVerdict) (x : Float) (d : String) (s : Signals Float)
      → IsQuiet (signal fl m v x d s)
      → ((is_critical_error fl
            (record { scanner = m; verdict = v; score = x; detail = d; matches = [] }))
          ≡ false)
      → IsQuiet s × Harmless m v
  unfolding signal
  signal-IsQuiet rspamd v x d s q e = ground arith
  signal-IsQuiet _ v x d s q e = ground arith

  collect-IsQuiet :
      (s : Signals Float) (rs : List (ScanResult Float))
      → IsQuiet (collect fl s rs)
      → any (is_critical_error fl) rs ≡ false
      → IsQuiet s × All (λ r. Harmless r.scanner r.verdict) rs
  unfolding collect
  collect-IsQuiet s [] q e = (q, tt)
  collect-IsQuiet s (r ∷ rs) q e =
      let (now, later) = or_false (is_critical_error fl r) _ e in
      let (q', rest) = collect-IsQuiet (observe fl s r) rs q later in
      let (q'', this) = signal-IsQuiet r.scanner r.verdict r.score r.detail s q' now in
      (q'', (this, rest))

  weigh-pass :
      (email : Email) (s : Signals Float) (rs : List (ScanResult Float)) (why : List String)
      → (weigh fl email s rs why).decision ≡ Decision.pass
      → (why ≡ [])
        × (any (is_critical_error fl) rs ≡ false)
        × ((weigh fl email s rs why).verdict ≡ Verdict.clean)
  unfolding weigh fail_closed
  weigh-pass email s rs [] h = elim (find-cases (is_critical_error fl) rs) [
    | inl (r, e, f) ↦ absurd (ground arith)
    | inr (f, e) ↦ (refl, e, rw (f, fail_closed))
  ]
  weigh-pass email s rs (_ ∷ []) h = cc
  weigh-pass email s rs (_ ∷ _ ∷ _) h = cc

  no_reasons :
      (email : Email) (s : Signals Float)
      → suspicious_reasons fl email s ≡ []
      → (all_auth_fail email ≡ false)
        × (s.ip_suspicious ≡ false)
        × (s.nrd_hit ≡ false)
        × (s.hidden_text_hit ≡ false)
        × (at_least 1 s.vt_positives && not (at_least 3 s.vt_positives) ≡ false)
  unfolding suspicious_reasons
  no_reasons email s h = ground arith

  judge-pass :
      (t : Thresholds Float) (email : Email) (s : Signals Float) (rs : List (ScanResult Float))
      → (judge fl t email s rs).decision ≡ Decision.pass
      → ((judge fl t email s rs).verdict ≡ Verdict.clean)
        × IsQuiet s
        × (any (is_critical_error fl) rs ≡ false)
        × (email.has_executable ≡ false)
        × (all_auth_fail email ≡ false)
        × (le t.reject_score s.rspamd_score ≡ false)
        × (le t.spam_score s.rspamd_score ≡ false)
        × (at_least 1 s.vt_positives ≡ false)
  unfolding judge
  judge-pass t email s rs h = ground (
    arith,
    weigh-pass email s rs (suspicious_reasons fl email s),
    no_reasons email s,
    at_least_3-false s.vt_positives,
  )

  -- The score that `Decide` compares: that of the last result of rspamd.
  abbrev pub final_signals : List (ScanResult Float) → Signals Float
  final_signals rs = collect fl (no_signals fl) rs

  -- A message that `Decide` lets pass has the verdict CLEAN. Of its results, none of ClamAV, YARA,
  -- the URL check, the unshortener, MalwareBazaar, the IP reputation or the ONNX model is malicious,
  -- none of the URL check, the IP reputation, the new domains, the HTML smuggling or the hidden text
  -- is suspicious, and none of ClamAV, YARA or Rspamd is an error. The message has no executable, SPF,
  -- DKIM and DMARC do not all fail, and the score is below both thresholds. The count of engines that
  -- `Decide` takes from VirusTotal is below one. Of a suspicious result of the ONNX
  -- model or the unshortener nothing is said.
  pub decide-pass :
      (t : Thresholds Float) (email : Email) (rs : List (ScanResult Float))
      → (decide fl t email rs).decision ≡ Decision.pass
      → ((decide fl t email rs).verdict ≡ Verdict.clean)
        × All (λ r. Harmless r.scanner r.verdict) rs
        × (email.has_executable ≡ false)
        × (all_auth_fail email ≡ false)
        × (le t.reject_score (final_signals rs).rspamd_score ≡ false)
        × (le t.spam_score (final_signals rs).rspamd_score ≡ false)
        × (at_least 1 (final_signals rs).vt_positives ≡ false)
  unfolding decide
  decide-pass t email rs h =
      let (v, q, e, x, a, rej, sp, vt) = judge-pass t email (final_signals rs) rs h in
      (v, (collect-IsQuiet (no_signals fl) rs q e).1, x, a, rej, sp, vt)

  -- One harmful result, wherever it stands, keeps a message from passing.
  pub decide-harmful :
      (t : Thresholds Float) (email : Email) (before : List (ScanResult Float))
      (r : ScanResult Float) (after : List (ScanResult Float))
      → (Harmless r.scanner r.verdict → ⊥)
      → (decide fl t email (before ++ r ∷ after)).decision ≢ Decision.pass
  decide-harmful t email before r after harmful passed =
      harmful (All-middle _ before r after (decide-pass t email (before ++ r ∷ after) passed).1)

  signal-clean :
      (m : ScannerName) (v : ScanVerdict) (x : Float) (d : String) (s : Signals Float)
      → v ≡ ScanVerdict.clean
      → signal fl m v x d s ≡ record s { rspamd_score = (signal fl m v x d s).rspamd_score }
  unfolding signal
  signal-clean rspamd v x d s e = refl
  signal-clean _ v x d s e = rw e

  collect-clean :
      (s : Signals Float) (rs : List (ScanResult Float))
      → All (λ r. r.verdict ≡ ScanVerdict.clean) rs
      → (collect fl s rs ≡ record s { rspamd_score = (collect fl s rs).rspamd_score })
        × (any (is_critical_error fl) rs ≡ false)
  unfolding collect observe
  collect-clean s [] h = (refl, refl)
  collect-clean s (r ∷ rs) (e, h) =
      let now = signal-clean r.scanner r.verdict r.score r.detail s e in
      let (later, failed) = collect-clean (observe fl s r) rs h in
      (ground (arith, now, later), rw e (ground (arith, failed)))

  judge-clean :
      (t : Thresholds Float) (email : Email) (rs : List (ScanResult Float)) (score : Float)
      → any (is_critical_error fl) rs ≡ false
      → email.has_executable ≡ false
      → all_auth_fail email ≡ false
      → le t.reject_score score ≡ false
      → le t.spam_score score ≡ false
      → let vd = judge fl t email (record (no_signals fl) { rspamd_score = score }) rs in
        (vd.decision ≡ Decision.pass) × (vd.verdict ≡ Verdict.clean)
  unfolding judge suspicious_reasons
  judge-clean t email rs score f x a rej sp = ground (arith, find-cases (is_critical_error fl) rs)

  -- A message in which every scanner found nothing passes, with the verdict CLEAN, if its score is
  -- below both thresholds, it has no executable, and SPF, DKIM or DMARC passes.
  pub decide_clean :
      (t : Thresholds Float) (email : Email) (rs : List (ScanResult Float))
      → All (λ r. r.verdict ≡ ScanVerdict.clean) rs
      → email.has_executable ≡ false
      → all_auth_fail email ≡ false
      → le t.reject_score (final_signals rs).rspamd_score ≡ false
      → le t.spam_score (final_signals rs).rspamd_score ≡ false
      → ((decide fl t email rs).decision ≡ Decision.pass)
        × ((decide fl t email rs).verdict ≡ Verdict.clean)
  unfolding decide
  decide_clean t email rs h x a rej sp =
      let (e, f) = collect-clean (no_signals fl) rs h in
      rw e (judge-clean t email rs _ f x a rej sp)
