-- ===== src/Email.antt =====
-- app/pipeline/email.go: the message as `Parse` (Email/Parse.antt) makes it and the pipeline hands it on. Times are nanoseconds, addresses
-- are their text, and byte slices are lists of bytes.
pub mod SafeLinks
pub mod Urls
pub mod Parts
pub mod Auth
pub mod Qr
pub mod Parse
mod Tests
use mailhook.Common.{ℕ, Bool, String, List}

pub record Attachment : Type 0 where
  pub filename : String
  pub content_type : String
  pub sha256 : String
  pub extension : String
  pub size_bytes : ℕ
  pub is_dangerous : Bool
  pub raw : List ℕ

pub record Email : Type 0 where
  pub account_name : String
  pub imap_uid : ℕ
  pub imap_mailbox : String
  pub raw : List ℕ
  pub message_id : String
  pub subject : String
  pub from : String
  pub to : String
  pub date : ℕ
  pub size_bytes : ℕ
  pub spf_result : String
  pub dkim_result : String
  pub dmarc_result : String
  pub text_body : String
  pub html_body : String
  pub urls : List String
  pub attachments : List Attachment
  pub sender_ips : List String
  pub has_executable : Bool
  pub whitelist_entry : String
  pub had_mime_errors : Bool
