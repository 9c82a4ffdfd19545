-- ===== src/Pipeline/Build.antt =====
-- app/pipeline/pipeline.go, `buildScanRecord`: the row of a message. JSON and the decimal notation
-- belong to Go's library.
use mailhook.Common.{
  ℕ, not, ◌&&◌, ◌⧺◌, String, List, [], ◌∷◌, Option, none, some, map, if◌then◌else◌, str_eq, length,
}
use mailhook.Common.Dict.{lookup, insert}
use mailhook.Email.{Attachment, Email}
use mailhook.Floats.{Floats}
use mailhook.Records.{
  Status, inbox, quarantined, deleted, live, Scan, AttachmentInfo, VtResult, MbResult,
}
use mailhook.Verdict.Collect.{
  ScannerName, rspamd, clamav, yara, urlcheck, urlunshorten, nrdcheck, htmlsmuggling,
  hiddentextdetect, virustotal, malwarebazaar, ipreputation, ScanVerdict, malicious, error, skip,
  ScanResult,
}
use mailhook.Verdict.{Decision, quarantine, delete, VerdictDecision}

pub record Encoding : Type 0 where
  pub unmarshal_vt : List ℕ → Option (List VtResult)
  pub unmarshal_mb : List ℕ → Option (List MbResult)
  pub marshal_attachments : List AttachmentInfo → Option (List ℕ)
  pub marshal_urls : List String → Option (List ℕ)
  -- the verb `%d`
  pub decimal_text : ℕ → String

-- app/db/models.go, `MakeAccountUID`
pub make_account_uid : Encoding → String → String → ℕ → String
make_account_uid enc account mailbox uid = account ⧺ ":" ⧺ mailbox ⧺ ":" ⧺ enc.decimal_text uid

abbrev pub status_of : Decision → Status
status_of delete = deleted
status_of quarantine = quarantined
status_of _ = inbox

-- An assignment if the payload is not empty.
abbrev if_any : List ℕ → List ℕ → List ℕ
if_any [] old = old
if_any (x ∷ xs) old = x ∷ xs

abbrev clam_status : ScanVerdict → String → String
clam_status malicious detail = detail
clam_status error detail = "ERROR"
clam_status skip detail = "UNAVAILABLE"
clam_status _ detail = "CLEAN"

-- The results of the hash look-ups, by SHA-256.
pub record ByHash : Type 0 where
  pub vt : List (String × VtResult)
  pub mb : List (String × MbResult)

add_vt : List VtResult → List (String × VtResult) → List (String × VtResult)
add_vt [] m = m
add_vt (v ∷ vs) m = add_vt vs (insert v.sha256 v m)

add_mb : List MbResult → List (String × MbResult) → List (String × MbResult)
add_mb [] m = m
add_mb (v ∷ vs) m = add_mb vs (insert v.sha256 v m)

abbrev or_empty {ℓ} : {A : Type ℓ} → Option (List A) → List A
or_empty none = []
or_empty (some xs) = xs

note_hashes : Encoding → ScannerName → List ℕ → ByHash → ByHash
unfolding add_vt add_mb
note_hashes enc m [] h = h
note_hashes enc virustotal (b ∷ bs) h = record h {
  vt = add_vt (or_empty (enc.unmarshal_vt (b ∷ bs))) h.vt;
}
note_hashes enc malwarebazaar (b ∷ bs) h = record h {
  mb = add_mb (or_empty (enc.unmarshal_mb (b ∷ bs))) h.mb;
}
note_hashes enc _ (b ∷ bs) h = h

module _ {F : Type 0} where
  -- One round of the loop over the results: the columns of the scanner.
  set_columns : ScannerName → ScanResult F → Scan F → Scan F
  set_columns rspamd r s = record s {
    rspamd_score = r.score;
    rspamd_action = r.detail;
    rspamd_symbols = if_any r.matches s.rspamd_symbols;
  }
  set_columns clamav r s = record s { clam_av_status = clam_status r.verdict r.detail }
  set_columns yara r s = record s { yara_matches = if_any r.matches s.yara_matches }
  set_columns urlcheck r s = record s { url_hits = if_any r.matches s.url_hits }
  set_columns urlunshorten r s = record s {
    resolved_url_hits = if_any r.matches s.resolved_url_hits;
  }
  set_columns nrdcheck r s = record s { nrd_hits = if_any r.matches s.nrd_hits }
  set_columns htmlsmuggling r s = record s {
    html_smuggling_hits = if_any r.matches s.html_smuggling_hits;
  }
  set_columns hiddentextdetect r s = record s {
    hidden_text_hits = if_any r.matches s.hidden_text_hits;
  }
  set_columns ipreputation r s = record s { ip_reputation = if_any r.matches s.ip_reputation }
  set_columns virustotal r s = record s { vt_results = if_any r.matches s.vt_results }
  set_columns malwarebazaar r s = record s { mb_results = if_any r.matches s.mb_results }
  set_columns _ r s = s

  map_results : Encoding → List (ScanResult F) → Scan F → ByHash → Scan F × ByHash
  unfolding set_columns note_hashes
  map_results enc [] s h = (s, h)
  map_results enc (r ∷ rs) s h =
      map_results enc rs (set_columns r.scanner r s) (note_hashes enc r.scanner r.matches h)

abbrev vt_positives_of : Option VtResult → ℕ
vt_positives_of none = 0
vt_positives_of (some v) = v.positives

abbrev vt_total_of : Option VtResult → ℕ
vt_total_of none = 0
vt_total_of (some v) = v.total

abbrev signature_of : Option MbResult → String
signature_of none = ""
signature_of (some m) = m.signature

attachment_info : ByHash → Attachment → AttachmentInfo
attachment_info h a = record {
  filename = a.filename;
  content_type = a.content_type;
  size_bytes = a.size_bytes;
  sha256 = a.sha256;
  extension = a.extension;
  is_dangerous = a.is_dangerous;
  vt_positives = vt_positives_of (lookup a.sha256 h.vt);
  vt_total = vt_total_of (lookup a.sha256 h.vt);
  mb_signature = signature_of (lookup a.sha256 h.mb);
}

-- An encoding of a list, if it is not empty and can be encoded.
abbrev encoded {ℓ} : {A : Type ℓ} → (List A → Option (List ℕ)) → List A → List ℕ
encoded f [] = []
encoded f (x ∷ xs) = or_empty (f (x ∷ xs))

abbrev first_ip : List String → String
first_ip [] = ""
first_ip (ip ∷ _) = ip

abbrev incomplete : String
incomplete = "MIME parse incomplete (some parts skipped)"

reason_of : Email → String → String
reason_of email reason =
    if email.had_mime_errors && not (str_eq reason "")
    then reason ⧺ "; " ⧺ incomplete
    else if email.had_mime_errors
    then incomplete
    else reason

module _ (fl : Floats) where
  open fl use {Float, decimal}

  -- The row before the results are mapped. Its ID is drawn by the database, and its source is the
  -- zero value.
  blank_record : Encoding → ℕ → Email → VerdictDecision Float → String → Scan Float
  unfolding make_account_uid reason_of
  blank_record enc now email vd eml_path = record {
    id = 0;
    created_at = now;
    account_name = email.account_name;
    imap_mailbox = email.imap_mailbox;
    imap_uid = email.imap_uid;
    account_uid = make_account_uid enc email.account_name email.imap_mailbox email.imap_uid;
    message_id = email.message_id;
    subject = email.subject;
    from = email.from;
    to = email.to;
    date = email.date;
    size_bytes = email.size_bytes;
    eml_path = eml_path;
    spf_result = email.spf_result;
    dkim_result = email.dkim_result;
    dmarc_result = email.dmarc_result;
    sending_ip = first_ip email.sender_ips;
    rspamd_score = decimal 0 0;
    rspamd_action = "";
    rspamd_symbols = [];
    clam_av_status = "";
    yara_matches = [];
    url_hits = [];
    resolved_url_hits = [];
    attachment_count = length email.attachments;
    attachments = [];
    ip_reputation = [];
    vt_results = [];
    mb_results = [];
    nrd_hits = [];
    html_smuggling_hits = [];
    hidden_text_hits = [];
    scanned_urls = [];
    verdict = vd.verdict;
    verdict_reason = reason_of email vd.reason;
    confidence = vd.confidence;
    status = inbox;
    actioned_by = "auto";
    actioned_at = none;
    source = live;
  }

  pub build_scan_record : Encoding → ℕ → Email → VerdictDecision Float → String → Scan Float
  unfolding blank_record map_results attachment_info
  build_scan_record enc now email vd eml_path =
      let (s, hashes) =
        map_results enc vd.results (blank_record enc now email vd eml_path)
          (record { vt = []; mb = [] }) in
      record s {
        status = status_of vd.decision;
        actioned_at = some now;
        attachments =
            encoded enc.marshal_attachments (map (attachment_info hashes) email.attachments);
        scanned_urls = encoded enc.marshal_urls email.urls;
      }
