-- ===== src/Scanners/Reputation/Weight.antt =====
-- What the score of the sending address does to a message.
use mailhook.Common.{
  ℕ, true, false, String, List, ◌∷◌, ◌++◌, Option, none, some, str_eq, leb, ◌≡◌, ◌∙◌, any-middle,
  arith,
}
use mailhook.Email.{Email}
use mailhook.Floats.{Floats}
use mailhook.Scanners.Reputation.{
  IpReputationResult, World, Cache, lookup_ip, verdict_of, report, check_first, scan,
}
use mailhook.Verdict.Collect.{ScanResult}
use mailhook.Verdict.Threats.{names_malware, decide_malware}
use mailhook.Verdict.{Decision, Verdict, Thresholds, decide}

-- The score that a lookup gives, or 0 where it fails.
abbrev pub score_of : Option IpReputationResult → ℕ
score_of none = 0
score_of (some r) = r.abuse_score

module _ (fl : Floats) (marshal : IpReputationResult → List ℕ) where
  open fl use {Float}

  report-names :
      (o : Option IpReputationResult) → names_malware fl (report fl marshal o) ≡ leb 75 (score_of o)
  unfolding verdict_of
  report-names none = ground arith
  report-names (some r) = ground arith

  check_first-names :
      (w : World) (ips : List String) (ip : String) (more : List String) (cache : Cache)
      → ips ≡ ip ∷ more
      → names_malware fl (check_first fl marshal w true ips cache).0
        ≡ leb 75 (score_of (lookup_ip w ip cache).0)
  check_first-names w ips ip more cache e = rw e (report-names (lookup_ip w ip cache).0)

  -- Where the first sending address has a score of 75 or more, from the cache or from the service, the
  -- result of the scanner, enabled and with a key, makes `Decide` delete the message as malware,
  -- whatever the other results are.
  pub decide-abusive :
      (t : Thresholds Float) (w : World) (api_key : String) (email : Email) (cache : Cache)
      (ip : String) (more : List String) (before after : List (ScanResult Float))
      → str_eq api_key "" ≡ false
      → email.sender_ips ≡ ip ∷ more
      → leb 75 (score_of (lookup_ip w ip cache).0) ≡ true
      → ((decide fl t email
            (before ++ (scan fl marshal w true api_key email cache).0 ∷ after)).decision
          ≡ Decision.delete)
        × ((decide fl t email
              (before ++ (scan fl marshal w true api_key email cache).0 ∷ after)).verdict
            ≡ Verdict.malware)
  decide-abusive t w api_key email cache ip more before after key first high =
      let r : ScanResult Float = (scan fl marshal w true api_key email cache).0 in
      decide_malware fl t email (before ++ r ∷ after) (
        any-middle (names_malware fl) before r after (
          unfold scan in
          rw (key) (check_first-names w email.sender_ips ip more cache first ∙ high)))
