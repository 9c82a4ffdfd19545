-- ===== src/Email/Parse.antt =====
-- app/pipeline/email.go, `Parse`: the message from its headers and parts. The reader of go-message gives
-- both, or fails; the links of the text and of the HTML are found by libraries.
pub mod Executable
use mailhook.Common.{ℕ, String, List, [], ◌∷◌, Option, none, some, length}
use mailhook.Email.{Email}
use mailhook.Email.Auth.{TextLib, extract_auth_result}
use mailhook.Email.Parts.{Part, Content, no_content, add_parts}
use mailhook.Email.Qr.{QrLib, extract_qr_urls}
use mailhook.Email.SafeLinks.{LinkLib}
use mailhook.Email.Urls.{UrlText, extract_urls, merge_qr}
use mailhook.Util.{Ip, IpLib, MimeLib, extract_sending_ip}
use mailhook.Verdict.{join}

-- The header of a message: an address list or a date that does not parse is nothing.
pub record Header : Type 0 where
  pub message_id : String
  pub subject : String
  pub from : Option (List String)
  pub to : Option (List String)
  pub date : Option ℕ
  pub received : List String
  pub authentication_results : List String

-- What `Parse` calls.
pub record ParseLib : Type 1 where
  pub read_message : List ℕ → Option (Header × List Part)
  pub mime : MimeLib
  pub ip : IpLib
  pub ip_text : Ip → String
  pub auth : TextLib
  pub url_text : UrlText
  pub links : LinkLib
  pub sha256_hex : List ℕ → String
  pub text : List ℕ → String
  pub text_matches : String → List String
  pub html_attributes : String → List String
  pub qr : QrLib

abbrev first_address : Option (List String) → String
first_address none = ""
first_address (some []) = ""
first_address (some (a ∷ _)) = a

abbrev all_addresses : Option (List String) → String
all_addresses none = ""
all_addresses (some addresses) = join ", " addresses

-- The zero time where there is no date.
abbrev date_or_zero : Option ℕ → ℕ
date_or_zero none = 0
date_or_zero (some t) = t

module _ (lib : ParseLib) where
  abbrev ips_of : Option Ip → List String
  ips_of none = []
  ips_of (some ip) = lib.ip_text ip ∷ []

  abbrev pub content_of : ℕ → List Part → Content
  content_of max_attachment_bytes parts =
      add_parts lib.mime lib.sha256_hex lib.text max_attachment_bytes parts no_content

  unfoldable pub email_of : List ℕ → String → ℕ → String → String → Header → Content → Email
  email_of raw account uid mailbox trusted header content = record {
    account_name = account;
    imap_uid = uid;
    imap_mailbox = mailbox;
    raw = raw;
    message_id = header.message_id;
    subject = header.subject;
    from = first_address header.from;
    to = all_addresses header.to;
    date = date_or_zero header.date;
    size_bytes = length raw;
    spf_result = extract_auth_result lib.auth "spf" trusted header.authentication_results;
    dkim_result = extract_auth_result lib.auth "dkim" trusted header.authentication_results;
    dmarc_result = extract_auth_result lib.auth "dmarc" trusted header.authentication_results;
    text_body = content.text_body;
    html_body = content.html_body;
    urls = merge_qr (extract_qr_urls lib.qr lib.url_text content.attachments) (
        extract_urls lib.url_text lib.links (lib.text_matches content.text_body)
          (lib.html_attributes content.html_body));
    attachments = content.attachments;
    sender_ips = ips_of (extract_sending_ip lib.ip header.received);
    has_executable = content.has_executable;
    whitelist_entry = "";
    had_mime_errors = content.had_mime_errors;
  }

  abbrev pub parsed :
      List ℕ → String → ℕ → String → ℕ → String → Option (Header × List Part) → Option Email
  parsed raw account uid mailbox max_attachment_bytes trusted none = none
  parsed raw account uid mailbox max_attachment_bytes trusted (some (header, parts)) =
      some (email_of raw account uid mailbox trusted header (content_of max_attachment_bytes parts))

  unfoldable pub parse : List ℕ → String → ℕ → String → ℕ → String → Option Email
  parse raw account uid mailbox max_attachment_bytes trusted =
      parsed raw account uid mailbox max_attachment_bytes trusted (lib.read_message raw)
