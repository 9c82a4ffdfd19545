-- ===== src/Scanners/Bazaar.antt =====
-- app/scanners/malwarebazaar.go: the attachments against the hashes that the feed lists.
use mailhook.Common.{
  ℕ, Bool, true, false, ◌&&◌, ◌||◌, ◌⧺◌, String, List, [], ◌∷◌, ◌++◌, Option, none, some,
  if◌then◌else◌, ◌≡◌, refl, ◌∙◌, any, any-middle, length,
}
use mailhook.Common.Int.{pos}
use mailhook.Email.{Attachment, Email}
use mailhook.Feeds.Lookup.{is_found}
use mailhook.Floats.{Floats}
use mailhook.Scanners.{plain}
use mailhook.Verdict.Collect.{malwarebazaar, malicious, clean, skip, ScanResult, is_malicious}
use mailhook.Verdict.Threats.{names_malware, decide_malware}
use mailhook.Verdict.{Decision, Verdict, Thresholds, decide}

pub record MbScanMatch : Type 0 where
  pub sha256 : String
  pub filename : String
  pub signature : String
  pub source : String

-- `LookupHash` is a query of the database: the signature of a listed hash.
module _ (lookup_hash : String → Option String) where
  abbrev add_match : Attachment → Option String → List MbScanMatch → List MbScanMatch
  add_match att none hits = hits
  add_match att (some signature) hits =
      record {
        sha256 = att.sha256;
        filename = att.filename;
        signature = signature;
        source = "feed";
      }
      ∷ hits

  unfoldable pub file_matches : List Attachment → List MbScanMatch
  file_matches [] = []
  file_matches (att ∷ atts) =
      let rest = file_matches atts in
      if att.is_dangerous then add_match att (lookup_hash att.sha256) rest else rest

  module _ (fl : Floats) (marshal : List MbScanMatch → List ℕ) where
    open fl use {Float, decimal, format_int}

    abbrev pub report : List MbScanMatch → ScanResult Float
    report [] = plain fl malwarebazaar clean ""
    report (h ∷ hs) = record {
      scanner = malwarebazaar;
      verdict = malicious;
      score = decimal 1 0;
      detail =
          "MalwareBazaar: " ⧺ format_int (pos (length (h ∷ hs))) ⧺ " attachment(s) matched feed";
      matches = marshal (h ∷ hs);
    }

    abbrev pub check_files : List Attachment → ScanResult Float
    check_files [] = plain fl malwarebazaar skip "no attachments"
    check_files (att ∷ atts) = report (file_matches (att ∷ atts))

    -- `Scan`
    unfoldable pub scan : Bool → Email → ScanResult Float
    scan enabled email =
        if enabled then check_files email.attachments else plain fl malwarebazaar skip "disabled"

    abbrev pub is_listed_file : Attachment → Bool
    is_listed_file att = att.is_dangerous && is_found (lookup_hash att.sha256)

    report-add :
        (att : Attachment) (atts : List Attachment) (found : Option String) (dangerous : Bool)
        → is_malicious (report (file_matches atts)).verdict ≡ any is_listed_file atts
        → is_malicious
            (report (
              if dangerous
              then add_match att found (file_matches atts)
              else file_matches atts)).verdict
          ≡ ((dangerous && is_found found) || any is_listed_file atts)
    report-add att atts found false h = h
    report-add att atts none true h = h
    report-add att atts (some _) true h = refl

    report-any :
        (atts : List Attachment)
        → is_malicious (report (file_matches atts)).verdict ≡ any is_listed_file atts
    unfolding file_matches
    report-any [] = refl
    report-any (att ∷ atts) =
        report-add att atts (lookup_hash att.sha256) att.is_dangerous (report-any atts)

    check_files-any :
        (atts : List Attachment) → is_malicious (check_files atts).verdict ≡ any is_listed_file atts
    check_files-any [] = refl
    check_files-any (att ∷ atts) = report-any (att ∷ atts)

    report-scanner : (hits : List MbScanMatch) → (report hits).scanner ≡ malwarebazaar
    report-scanner [] = refl
    report-scanner (_ ∷ _) = refl

    check_files-scanner : (atts : List Attachment) → (check_files atts).scanner ≡ malwarebazaar
    check_files-scanner [] = refl
    check_files-scanner (att ∷ atts) = report-scanner (file_matches (att ∷ atts))

    -- Where some attachment of a dangerous type has a hash that the feed lists, the enabled scanner's
    -- result makes `Decide` delete the message as malware, whatever the other results are.
    pub decide-scan_files :
        (t : Thresholds Float) (email : Email) (before after : List (ScanResult Float))
        → any is_listed_file email.attachments ≡ true
        → ((decide fl t email (before ++ scan true email ∷ after)).decision ≡ Decision.delete)
          × ((decide fl t email (before ++ scan true email ∷ after)).verdict ≡ Verdict.malware)
    decide-scan_files t email before after h =
        decide_malware fl t email (before ++ scan true email ∷ after) (
          any-middle (names_malware fl) before (scan true email) after (
            unfold scan in
            rw (check_files-scanner email.attachments) (check_files-any email.attachments ∙ h)))
