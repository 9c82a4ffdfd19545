-- ===== src/Records.antt =====
-- app/db/models.go: the rows that the pipeline writes. JSON columns are lists of
-- bytes. The time of a row's last update and that of an audit entry are left out.
use mailhook.Common.{ℕ, Bool, String, List, Option}
use mailhook.Verdict.{Verdict}

pub data Status : Type 0 where
  inbox quarantined released deleted learned_ham learned_spam : Status

-- `Scan.Source`: "" is live.
pub data Source : Type 0 where
  live backfill : Source

pub data Action : Type 0 where
  quarantine_action backfill_action release_action delete_action learn_ham_action : Action
  learn_spam_action rescan_action retro_quarantine_action : Action
  -- "PASS", "IMAP_FAIL" and "QUAR_DESYNC", which the pipeline writes out
  pass_action imap_fail_action quar_desync_action : Action
  -- The text of a status, which the web actions write.
  status_action : Status → Action

pub record Scan (F : Type 0) : Type 0 where
  pub id : ℕ
  pub created_at : ℕ
  pub account_name : String
  pub imap_mailbox : String
  pub imap_uid : ℕ
  pub account_uid : String
  pub message_id : String
  pub subject : String
  pub from : String
  pub to : String
  pub date : ℕ
  pub size_bytes : ℕ
  pub eml_path : String
  pub spf_result : String
  pub dkim_result : String
  pub dmarc_result : String
  pub sending_ip : String
  pub rspamd_score : F
  pub rspamd_action : String
  pub rspamd_symbols : List ℕ
  pub clam_av_status : String
  pub yara_matches : List ℕ
  pub url_hits : List ℕ
  pub resolved_url_hits : List ℕ
  pub attachment_count : ℕ
  pub attachments : List ℕ
  pub ip_reputation : List ℕ
  pub vt_results : List ℕ
  pub mb_results : List ℕ
  pub nrd_hits : List ℕ
  pub html_smuggling_hits : List ℕ
  pub hidden_text_hits : List ℕ
  pub scanned_urls : List ℕ
  pub verdict : Verdict
  pub verdict_reason : String
  pub confidence : F
  pub status : Status
  pub actioned_by : String
  pub actioned_at : Option ℕ
  pub source : Source

pub record AuditLog : Type 0 where
  pub scan_id : ℕ
  pub action : Action
  pub actor : String
  pub note : String

pub record AttachmentInfo : Type 0 where
  pub filename : String
  pub content_type : String
  pub size_bytes : ℕ
  pub sha256 : String
  pub extension : String
  pub is_dangerous : Bool
  pub vt_positives : ℕ
  pub vt_total : ℕ
  pub mb_signature : String

pub record VtResult : Type 0 where
  pub sha256 : String
  pub filename : String
  pub positives : ℕ
  pub total : ℕ
  pub permalink : String
  pub source : String

pub record MbResult : Type 0 where
  pub sha256 : String
  pub filename : String
  pub signature : String
  pub source : String

pub record DailyStat : Type 0 where
  pub total : ℕ
  pub clean : ℕ
  pub spam : ℕ
  pub phish : ℕ
  pub malware : ℕ
  pub suspicious : ℕ

pub record UrlHit : Type 0 where
  pub url : String
  pub domain : String
  pub feed : String
  pub threat_type : String
