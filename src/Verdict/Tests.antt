-- ===== src/Verdict/Tests.antt =====
-- `Decide` at concrete results.
use mathlib.Core.List.{Nodup, Nodup-nil, Nodup-cons, mem-cons, not-mem-nil, Permᴰ}
use mathlib.Core.Logic.Or
use mailhook.Common.{◌≡◌, refl, List, [], ◌∷◌, All, false, true, ℕ}
use mailhook.Common.Int.{at_least}
use mailhook.Email.{Attachment, Email}
use mailhook.Samples.{hundredths, message, limits, result}
use mailhook.Verdict.Collect.{
  rspamd, clamav, yara, ScanVerdict, malicious, error, skip, ScanResult, collect,
}
use mailhook.Verdict.Order.{decide-perm}
use mailhook.Verdict.Pass.{decide-pass, decide_clean, Harmless, final_signals}
use mailhook.Verdict.Threats.{decide_malware, is_held, decide-unavailable}
use mailhook.Verdict.{all_auth_fail, Decision, Verdict, decide, judge, suspicious_reasons}

abbrev decision_of : Email → List (ScanResult ℕ) → Decision
decision_of email rs = (decide hundredths limits email rs).decision

abbrev unsigned : Email
unsigned = record message { spf_result = "fail"; dkim_result = "none" }

abbrev spam_results : List (ScanResult ℕ)
spam_results = result rspamd ScanVerdict.clean 700 ∷ result clamav ScanVerdict.clean 0 ∷ []

abbrev good_results : List (ScanResult ℕ)
good_results = result rspamd ScanVerdict.clean 100 ∷ result clamav ScanVerdict.clean 0 ∷ []

abbrev failed_results : List (ScanResult ℕ)
failed_results = result clamav error 0 ∷ result yara skip 0 ∷ []

decisions :
    (decision_of message spam_results ≡ Decision.quarantine)
    × (decision_of message good_results ≡ Decision.pass)
    × (decision_of message failed_results ≡ Decision.quarantine)
    × (decision_of unsigned failed_results ≡ Decision.flag)
unfolding decide judge collect suspicious_reasons
decisions = (refl, refl, refl, refl)

abbrev turned : List (ScanResult ℕ)
turned = result clamav ScanVerdict.clean 0 ∷ result rspamd ScanVerdict.clean 700 ∷ []

two_scanners : Nodup (rspamd ∷ clamav ∷ [])
two_scanners = Nodup-cons.1 (
  (λ m. Or.elim (hlevel) (mem-cons.0 m) (λ e. cc e) not-mem-nil),
  Nodup-cons.1 (not-mem-nil, Nodup-nil),
)

decide-perm_example :
    (decision_of message spam_results ≡ decision_of message turned)
    × ((decide hundredths limits message spam_results).verdict
        ≡ (decide hundredths limits message turned).verdict)
    × ((decide hundredths limits message spam_results).confidence
        ≡ (decide hundredths limits message turned).confidence)
decide-perm_example = decide-perm hundredths limits message (Permᴰ.swap refl refl) two_scanners

decide-pass_example :
    ((decide hundredths limits message good_results).verdict ≡ Verdict.clean)
    × All (λ r. Harmless r.scanner r.verdict) good_results
    × (message.has_executable ≡ false)
    × (all_auth_fail message ≡ false)
    × (hundredths.le 1500 (final_signals hundredths good_results).rspamd_score ≡ false)
    × (hundredths.le 500 (final_signals hundredths good_results).rspamd_score ≡ false)
    × (at_least 1 (final_signals hundredths good_results).vt_positives ≡ false)
unfolding decide judge collect suspicious_reasons
decide-pass_example = decide-pass hundredths limits message good_results refl

decide_clean_example :
    (decision_of message good_results ≡ Decision.pass)
    × ((decide hundredths limits message good_results).verdict ≡ Verdict.clean)
unfolding collect
decide_clean_example =
    decide_clean hundredths limits message good_results (refl, (refl, tt)) refl refl refl refl

abbrev infected : List (ScanResult ℕ)
infected = result rspamd ScanVerdict.clean 0 ∷ result clamav malicious 0 ∷ []

decide_malware_example :
    (decision_of message infected ≡ Decision.delete)
    × ((decide hundredths limits message infected).verdict ≡ Verdict.malware)
decide_malware_example = decide_malware hundredths limits message infected refl

decide-unavailable_example : is_held (decision_of message failed_results) ≡ true
decide-unavailable_example =
    decide-unavailable hundredths limits message failed_results refl
      ((refl, refl), ((refl, refl), tt)) refl

abbrev tool : Attachment
tool = record {
  filename = "a.exe";
  content_type = "x";
  sha256 = "h";
  extension = ".exe";
  size_bytes = 1;
  is_dangerous = true;
  raw = [];
}
