-- ===== src/Verdict/Threats.antt =====
-- Definite malware, and a critical scanner that failed.
use mailhook.Common.{
  Bool, true, false, ◌&&◌, ◌||◌, String, List, [], ◌∷◌, ◌≡◌, arith, any, find-cases, All, refl,
  false, Bool-cases, or_true, inl, inr,
}
use mailhook.Email.{Email}
use mailhook.Floats.{Floats}
use mailhook.Verdict.Collect.{
  ScannerName, rspamd, clamav, yara, malwarebazaar, ipreputation, ScanVerdict, ScanResult, Signals,
  no_signals, signal, observe, collect, is_malicious, is_suspicious,
}
use mailhook.Verdict.Pass.{final_signals}
use mailhook.Verdict.{
  Decision, Verdict, Thresholds, judge, suspicious_reasons, decide, is_critical_error,
  all_auth_fail,
}

-- The scanners whose word alone is enough.
abbrev pub is_definite : ScannerName → Bool
is_definite clamav = true
is_definite yara = true
is_definite malwarebazaar = true
is_definite ipreputation = true
is_definite _ = false

-- The message does not stay in the inbox.
abbrev pub is_held : Decision → Bool
is_held Decision.quarantine = true
is_held Decision.delete = true
is_held _ = false

module _ (fl : Floats) where
  open fl use {Float, le}

  abbrev pub names_malware : ScanResult Float → Bool
  names_malware r = is_definite r.scanner && is_malicious r.verdict

  abbrev has_malware : Signals Float → Bool
  has_malware s = s.clam_hit || s.yara_hit || s.mb_hit || s.ip_malicious

  signal-has_malware :
      (m : ScannerName) (v : ScanVerdict) (x : Float) (d : String) (s : Signals Float)
      → (has_malware s || (is_definite m && is_malicious v)) ≡ true
      → has_malware (signal fl m v x d s) ≡ true
  unfolding signal
  signal-has_malware rspamd v x d s h = ground arith
  signal-has_malware _ v x d s h = ground arith

  -- A hit is never taken back by a later result.
  collect-has_malware :
      (s : Signals Float) (rs : List (ScanResult Float))
      → (has_malware s || any names_malware rs) ≡ true
      → has_malware (collect fl s rs) ≡ true
  unfolding collect
  collect-has_malware s [] h = ground arith
  collect-has_malware s (r ∷ rs) h =
      let step = signal-has_malware r.scanner r.verdict r.score r.detail s in
      collect-has_malware (observe fl s r) rs (elim (Bool-cases (any names_malware rs)) [
        | inl later ↦ rw later (or_true (has_malware (observe fl s r)))
        | inr none_later ↦ rw none_later (unfold observe in ground (arith, step))
      ])

  judge-has_malware :
      (t : Thresholds Float) (email : Email) (s : Signals Float) (rs : List (ScanResult Float))
      → has_malware s ≡ true
      → ((judge fl t email s rs).decision ≡ Decision.delete)
        × ((judge fl t email s rs).verdict ≡ Verdict.malware)
  unfolding judge
  judge-has_malware t email s rs h = ground arith

  -- One malicious result of ClamAV, YARA, MalwareBazaar or the IP reputation deletes the message
  -- with the verdict MALWARE, wherever it stands and whatever the other scanners say.
  pub decide_malware :
      (t : Thresholds Float) (email : Email) (rs : List (ScanResult Float))
      → any names_malware rs ≡ true
      → ((decide fl t email rs).decision ≡ Decision.delete)
        × ((decide fl t email rs).verdict ≡ Verdict.malware)
  unfolding decide
  decide_malware t email rs h =
      judge-has_malware t email (final_signals fl rs) rs (collect-has_malware (no_signals fl) rs h)

  -- Neither malicious nor suspicious; it may be an error.
  abbrev pub Unremarkable : ScanResult Float → Type 0
  Unremarkable r = (is_malicious r.verdict ≡ false) × (is_suspicious r.verdict ≡ false)

  -- The signals that such results leave behind.
  abbrev scored : Float → Signals Float → Signals Float
  scored score s = record s { rspamd_score = score }

  signal-Unremarkable :
      (m : ScannerName) (v : ScanVerdict) (x : Float) (d : String) (s : Signals Float)
      → is_malicious v ≡ false
      → is_suspicious v ≡ false
      → signal fl m v x d s ≡ scored (signal fl m v x d s).rspamd_score s
  unfolding signal
  signal-Unremarkable rspamd v x d s h k = refl
  signal-Unremarkable _ v x d s h k = ground arith

  collect-Unremarkable :
      (s : Signals Float) (rs : List (ScanResult Float))
      → All Unremarkable rs
      → collect fl s rs ≡ scored (collect fl s rs).rspamd_score s
  unfolding collect observe
  collect-Unremarkable s [] h = refl
  collect-Unremarkable s (r ∷ rs) ((h, k), more) =
      let now = signal-Unremarkable r.scanner r.verdict r.score r.detail s h k in
      ground (arith, now, collect-Unremarkable (observe fl s r) rs more)

  judge-unavailable :
      (t : Thresholds Float) (email : Email) (score : Float) (rs : List (ScanResult Float))
      → any (is_critical_error fl) rs ≡ true
      → all_auth_fail email ≡ false
      → is_held (judge fl t email (scored score (no_signals fl)) rs).decision ≡ true
  unfolding judge suspicious_reasons
  judge-unavailable t email score rs f a = ground (arith, find-cases (is_critical_error fl) rs)

  -- Where ClamAV, YARA or Rspamd is in error, no result is malicious or suspicious, and one of SPF,
  -- DKIM and DMARC passes, the message is quarantined or deleted, whatever its score and its
  -- attachments are.
  pub decide-unavailable :
      (t : Thresholds Float) (email : Email) (rs : List (ScanResult Float))
      → any (is_critical_error fl) rs ≡ true
      → All Unremarkable rs
      → all_auth_fail email ≡ false
      → is_held (decide fl t email rs).decision ≡ true
  unfolding decide
  decide-unavailable t email rs f h a =
      rw (collect-Unremarkable (no_signals fl) rs h)
        (judge-unavailable t email (final_signals fl rs).rspamd_score rs f a)
