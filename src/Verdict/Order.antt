-- ===== src/Verdict/Order.antt =====
-- The scanners run as goroutines, so their results reach `Decide` in any order.
use mathlib.Core.List.{Nodup, Nodup-cons, mem-cons, Permᴰ}
use mathlib.Core.List.Perm
use mathlib.Core.Logic.Or
use mailhook.Common.{
  Bool, true, false, ◌||◌, String, List, [], ◌∷◌, map, ◌≡◌, ◌≢◌, refl, sym, ap, ap₂, ◌∙◌, arith,
  if◌then◌else◌, any, find-cases, inl, inr,
}
use mailhook.Email.{Email}
use mailhook.Floats.{Floats}
use mailhook.Verdict.Collect.{
  ScannerName, rspamd, clamav, yara, urlcheck, urlunshorten, nrdcheck, htmlsmuggling,
  hiddentextdetect, virustotal, malwarebazaar, ipreputation, onnx, ScanVerdict, ScanResult, Signals,
  no_signals, signal, observe, collect,
}
use mailhook.Verdict.{
  Decision, Verdict, VerdictDecision, Thresholds, judge, suspicious_reasons, decide,
  is_critical_error, fail_closed, weigh,
}

-- The source of a URL hit is the one variable that two scanners write.
abbrev forget : {F : Type 0} → Signals F → Signals F
forget s = record s { url_detail = "" }

or_swap :
    (p q h : Bool)
    → (if p then true else if q then true else h) ≡ (if q then true else if p then true else h)
or_swap p q h = ground arith

or_left_comm : (p q h : Bool) → (p || (q || h)) ≡ (q || (p || h))
or_left_comm p q h = ground arith

module _ (fl : Floats) where
  open fl use {Float, decimal}

  abbrev pub Results : Type 0
  Results = List (ScanResult Float)

  signal-forget :
      (m : ScannerName) (v : ScanVerdict) (x : Float) (d : String) (s : Signals Float)
      → forget (signal fl m v x d s) ≡ forget (signal fl m v x d (forget s))
  unfolding signal
  signal-forget rspamd v x d s = refl
  signal-forget _ v x d s = refl

  -- Signals of different scanners are set independently.
  signal_comm :
      (m n : ScannerName) (v w : ScanVerdict) (x y : Float) (d e : String) (s : Signals Float)
      → m ≢ n
      → forget (signal fl n w y e (signal fl m v x d s))
        ≡ forget (signal fl m v x d (signal fl n w y e s))
  unfolding signal
  signal_comm rspamd rspamd v w x y d e s ne = absurd (ne refl)
  signal_comm clamav clamav v w x y d e s ne = absurd (ne refl)
  signal_comm yara yara v w x y d e s ne = absurd (ne refl)
  signal_comm urlcheck urlcheck v w x y d e s ne = absurd (ne refl)
  signal_comm urlunshorten urlunshorten v w x y d e s ne = absurd (ne refl)
  signal_comm nrdcheck nrdcheck v w x y d e s ne = absurd (ne refl)
  signal_comm htmlsmuggling htmlsmuggling v w x y d e s ne = absurd (ne refl)
  signal_comm hiddentextdetect hiddentextdetect v w x y d e s ne = absurd (ne refl)
  signal_comm virustotal virustotal v w x y d e s ne = absurd (ne refl)
  signal_comm malwarebazaar malwarebazaar v w x y d e s ne = absurd (ne refl)
  signal_comm ipreputation ipreputation v w x y d e s ne = absurd (ne refl)
  signal_comm onnx onnx v w x y d e s ne = absurd (ne refl)
  signal_comm urlcheck urlunshorten v w x y d e s ne =
      ap (λ b. record s { url_hit = b; url_detail = "" }) (or_swap _ _ s.url_hit)
  signal_comm urlunshorten urlcheck v w x y d e s ne =
      ap (λ b. record s { url_hit = b; url_detail = "" }) (or_swap _ _ s.url_hit)
  signal_comm _ _ v w x y d e s ne = refl

  observe-forget :
      (s s' : Signals Float) (r : ScanResult Float)
      → forget s ≡ forget s'
      → forget (observe fl s r) ≡ forget (observe fl s' r)
  unfolding observe
  observe-forget s s' r e =
      signal-forget r.scanner _ _ _ s
      ∙ ap (λ u. forget (signal fl r.scanner r.verdict r.score r.detail u)) e
      ∙ sym (signal-forget r.scanner _ _ _ s')

  collect-forget :
      (s s' : Signals Float) (rs : Results)
      → forget s ≡ forget s'
      → forget (collect fl s rs) ≡ forget (collect fl s' rs)
  unfolding collect
  collect-forget s s' [] e = e
  collect-forget s s' (r ∷ rs) e =
      collect-forget (observe fl s r) (observe fl s' r) rs (observe-forget s s' r e)

  abbrev scanners : Results → List ScannerName
  scanners rs = map (λ r. r.scanner) rs

  collect-perm :
      {rs rs' : Results}
      → Permᴰ rs rs'
      → Nodup (scanners rs)
      → (s : Signals Float) → forget (collect fl s rs) ≡ forget (collect fl s rs')
  unfolding collect
  collect-perm Permᴰ.nil nd s = refl
  collect-perm (Permᴰ.cons {l₁ = l} e p) nd s =
      collect-forget _ _ l (ap (λ r. forget (observe fl s r)) e)
      ∙ collect-perm p (Nodup-cons.0 nd).1 _
  collect-perm (Permᴰ.swap {a = a} {b} {a'} {b'} {l} e e') nd s =
      collect-forget (observe fl (observe fl s a) b) (observe fl (observe fl s a') b') l (
        signal_comm a.scanner b.scanner _ _ _ _ _ _ s
          (λ same. (Nodup-cons.0 nd).0 (mem-cons.1 (Or.inl same)))
        ∙ ap₂ (λ x y. forget (observe fl (observe fl s x) y)) e' e)
  collect-perm (Permᴰ.trans p q) nd s =
      collect-perm p nd s ∙ collect-perm q (Perm.nodup (Perm.map (λ r. r.scanner) ∣ p ∣₁) nd) s

  any-perm : {rs rs' : Results} (p : ScanResult Float → Bool) → Permᴰ rs rs' → any p rs ≡ any p rs'
  any-perm p Permᴰ.nil = refl
  any-perm p (Permᴰ.cons e h) = ap₂ (λ x y. p x || y) e (any-perm p h)
  any-perm p (Permᴰ.swap {a = a} {b} {l = l} e e') =
      or_left_comm (p a) (p b) (any p l) ∙ ap₂ (λ x y. p x || (p y || any p l)) e' e
  any-perm p (Permᴰ.trans h k) = any-perm p h ∙ any-perm p k

  -- What the pipeline acts on: all but the text of the reason.
  abbrev pub Outcome : Type 0
  Outcome = Decision × Verdict × Float

  abbrev pub outcome : VerdictDecision Float → Outcome
  outcome vd = (vd.decision, vd.verdict, vd.confidence)

  closed_outcome : Bool → Outcome
  closed_outcome true = (Decision.quarantine, Verdict.suspicious, decimal 5 1)
  closed_outcome false = (Decision.pass, Verdict.clean, decimal 1 0)

  fail_closed-outcome :
      (rs : Results) → outcome (fail_closed fl rs) ≡ closed_outcome (any (is_critical_error fl) rs)
  unfolding fail_closed closed_outcome
  fail_closed-outcome rs = elim (find-cases (is_critical_error fl) rs) [
    | inl (r, e, f) ↦ rw (e, f, fail_closed)
    | inr (f, e) ↦ rw (e, f, fail_closed)
  ]

  fail_closed-any :
      (rs rs' : Results)
      → any (is_critical_error fl) rs ≡ any (is_critical_error fl) rs'
      → outcome (fail_closed fl rs) ≡ outcome (fail_closed fl rs')
  fail_closed-any rs rs' e =
      fail_closed-outcome rs ∙ ap closed_outcome e ∙ sym (fail_closed-outcome rs')

  suspicious_reasons-forget :
      (email : Email) (s : Signals Float)
      → suspicious_reasons fl email (forget s) ≡ suspicious_reasons fl email s
  unfolding suspicious_reasons
  suspicious_reasons-forget email s = refl

  weigh-perm :
      (email : Email) (s : Signals Float) (rs rs' : Results) (why : List String)
      → outcome (fail_closed fl rs) ≡ outcome (fail_closed fl rs')
      → outcome (weigh fl email s rs why) ≡ outcome (weigh fl email (forget s) rs' why)
  unfolding weigh
  weigh-perm email s rs rs' [] e = e
  weigh-perm email s rs rs' (_ ∷ []) e = refl
  weigh-perm email s rs rs' (_ ∷ _ ∷ _) e = refl

  judge-forget :
      (t : Thresholds Float) (email : Email) (s : Signals Float) (rs rs' : Results)
      → outcome (fail_closed fl rs) ≡ outcome (fail_closed fl rs')
      → outcome (judge fl t email s rs) ≡ outcome (judge fl t email (forget s) rs')
  unfolding judge
  judge-forget t email s rs rs' e = ground (
    arith,
    weigh-perm email s rs rs' (suspicious_reasons fl email s),
    suspicious_reasons-forget email s,
  )

  -- Of the results themselves, the outcome only reads whether a critical scanner failed.
  pub judge-any :
      (t : Thresholds Float) (email : Email) (s : Signals Float) (rs rs' : Results)
      → any (is_critical_error fl) rs ≡ any (is_critical_error fl) rs'
      → outcome (judge fl t email s rs) ≡ outcome (judge fl t email s rs')
  judge-any t email s rs rs' e =
      judge-forget t email s rs rs' (fail_closed-any rs rs' e)
      ∙ sym (judge-forget t email s rs' rs' refl)

  -- `Decide` takes the same action, with the same verdict and confidence, in whatever order the
  -- results of different scanners arrive.
  pub decide-perm :
      (t : Thresholds Float) (email : Email) {rs rs' : List (ScanResult Float)}
      → Permᴰ rs rs'
      → Nodup (map (λ (r : ScanResult Float). r.scanner) rs)
      → ((decide fl t email rs).decision ≡ (decide fl t email rs').decision)
        × ((decide fl t email rs).verdict ≡ (decide fl t email rs').verdict)
        × ((decide fl t email rs).confidence ≡ (decide fl t email rs').confidence)
  unfolding decide
  decide-perm t email {rs} {rs'} p nd =
      let same : outcome (decide fl t email rs) ≡ outcome (decide fl t email rs') =
        judge-forget t email _ rs rs' (fail_closed-any rs rs' (any-perm (is_critical_error fl) p))
        ∙ ap (λ s. outcome (judge fl t email s rs')) (collect-perm p nd (no_signals fl))
        ∙ sym (judge-forget t email _ rs' rs' refl) in
      (ap (λ o. o.0) same, ap (λ o. o.1) same, ap (λ o. o.2) same)
