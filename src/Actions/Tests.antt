-- ===== src/Actions/Tests.antt =====
-- The user's actions at a concrete row.
use mailhook.Common.{ℕ, [], ◌∷◌, true, none}
use mailhook.Actions.Outcome.{Agrees, handle-Agrees}
use mailhook.Actions.{ActionsEnv, handle, quarantine}
use mailhook.Pipeline.Effects.{World, done}
use mailhook.Records.{Scan, inbox, backfill}
use mailhook.Verdict.{Verdict}

abbrev env : ActionsEnv
env = record {
  now = 30;
  actor = "ann";
  account_known = λ _. true;
  account_uid = λ _ _ _. "main:Quarantine:3";
  learn_spam_works = true;
}

abbrev scan : Scan ℕ
scan = record {
  id = 4;
  created_at = 0;
  account_name = "main";
  imap_mailbox = "INBOX";
  imap_uid = 7;
  account_uid = "main:INBOX:7";
  message_id = "";
  subject = "";
  from = "";
  to = "";
  date = 0;
  size_bytes = 0;
  eml_path = "";
  spf_result = "";
  dkim_result = "";
  dmarc_result = "";
  sending_ip = "";
  rspamd_score = 0;
  rspamd_action = "";
  rspamd_symbols = [];
  clam_av_status = "";
  yara_matches = [];
  url_hits = [];
  resolved_url_hits = [];
  attachment_count = 0;
  attachments = [];
  ip_reputation = [];
  vt_results = [];
  mb_results = [];
  nrd_hits = [];
  html_smuggling_hits = [];
  hidden_text_hits = [];
  scanned_urls = [];
  verdict = Verdict.suspicious;
  verdict_reason = "";
  confidence = 0;
  status = inbox;
  actioned_by = "auto";
  actioned_at = none;
  source = backfill;
}

abbrev world : World ℕ
world = record {
  scans = scan ∷ [];
  audits = [];
  stats = [];
  next_id = 5;
  emls = [];
  imap_calls = [];
  sent = [];
  engines_down = [];
  broadcast = [];
  db_fails = [];
  imap_replies = done 3 "Quarantine" ∷ [];
  cancels = [];
}

handle-Agrees_example : Agrees env quarantine 4 world (handle env quarantine 4 world)
handle-Agrees_example = handle-Agrees env quarantine 4 world
