-- ===== src/Samples.antt =====
-- Concrete values for the tests: scores in hundredths, and a small message.
pub mod Mail
use Prim.Native.Nat.{◌/◌}
use mailhook.Common.{ℕ, ◌+◌, ◌-◌, ◌*◌, ◌^◌, false, [], ltb, leb}
use mailhook.Common.Int.{pos}
use mailhook.Email.{Email}
use mailhook.Floats.{Floats}
use mailhook.Verdict.Collect.{ScanResult, ScannerName, ScanVerdict}
use mailhook.Verdict.{Thresholds}

abbrev pub hundredths : Floats
hundredths = record {
  Float = ℕ;
  decimal = λ n k. n * 100 / 10 ^ k;
  le = leb;
  lt = ltb;
  plus = λ x y. x + y;
  minus = λ x y. x - y;
  times = λ x y. x * y / 100;
  quotient = λ x y. x * 100 / y;
  to_int = λ x. pos (x / 100);
  format_float = λ _. "x";
  format_int = λ _. "n";
}

abbrev pub message : Email
message = record {
  account_name = "main";
  imap_uid = 7;
  imap_mailbox = "INBOX";
  raw = [];
  message_id = "<1@example.org>";
  subject = "hello";
  from = "ann@example.org";
  to = "bob@example.org";
  date = 0;
  size_bytes = 0;
  spf_result = "pass";
  dkim_result = "pass";
  dmarc_result = "none";
  text_body = "";
  html_body = "";
  urls = [];
  attachments = [];
  sender_ips = [];
  has_executable = false;
  whitelist_entry = "";
  had_mime_errors = false;
}

abbrev pub limits : Thresholds ℕ
limits = record { spam_score = 500; reject_score = 1500 }

abbrev pub result : ScannerName → ScanVerdict → ℕ → ScanResult ℕ
result m v x = record { scanner = m; verdict = v; score = x; detail = "d"; matches = [] }
