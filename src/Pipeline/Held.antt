-- ===== src/Pipeline/Held.antt =====
-- app/pipeline/pipeline.go, `process`: the messages that no scanner sees. They could not be read, or
-- their sender is on a list.
pub mod Calls
pub mod Unsaved
use mailhook.Common.{
  ℕ, true, false, not, ◌&&◌, ◌⧺◌, String, List, [], Option, none, some, if◌then◌else◌,
}
use mailhook.Common.Dict.{insert, remove}
use mailhook.Email.{Email}
use mailhook.Floats.{Floats}
use mailhook.Pipeline.Build.{make_account_uid, build_scan_record}
use mailhook.Pipeline.Effects.{World, create_scan}
use mailhook.Pipeline.Imap.{take_imap_action, after_quarantine}
use mailhook.Pipeline.Stats.{increment_daily_stat}
use mailhook.Records.{inbox, quarantined, Source, Scan}
use mailhook.Verdict.{Decision, Verdict, VerdictDecision, decided}
use mailhook.Pipeline.Env.{Env, is_backfill, is_set}

module _ (fl : Floats) where
  open fl use {Float, decimal}

  module _ (env : Env fl) where
    pub uid_of : String → String → ℕ → String
    uid_of = make_account_uid env.encoding

    -- The row of a message that could not be read.
    unfoldable pub unread_record : Source → String → ℕ → String → String → Scan Float
    unread_record source account uid mailbox reason = record {
      id = 0;
      created_at = env.now;
      account_name = account;
      imap_mailbox = mailbox;
      imap_uid = uid;
      account_uid = uid_of account mailbox uid;
      message_id = "";
      subject = "";
      from = "";
      to = "";
      date = 0;
      size_bytes = 0;
      eml_path = "";
      spf_result = "";
      dkim_result = "";
      dmarc_result = "";
      sending_ip = "";
      rspamd_score = decimal 0 0;
      rspamd_action = "";
      rspamd_symbols = [];
      clam_av_status = "";
      yara_matches = [];
      url_hits = [];
      resolved_url_hits = [];
      attachment_count = 0;
      attachments = [];
      ip_reputation = [];
      vt_results = [];
      mb_results = [];
      nrd_hits = [];
      html_smuggling_hits = [];
      hidden_text_hits = [];
      scanned_urls = [];
      verdict = Verdict.suspicious;
      verdict_reason = reason;
      confidence = decimal 1 0;
      status = if is_backfill source then inbox else quarantined;
      actioned_by = "auto";
      actioned_at = some env.now;
      source = source;
    }

    -- What follows the creation of that row: nothing if it failed, or for a backfill.
    unread_created : Source → String → ℕ → String → String → World Float × Option ℕ → World Float
    unread_created source account uid mailbox note (w, none) = w
    unread_created source account uid mailbox note (w, some id) =
        if is_backfill source
        then w
        else after_quarantine uid_of true id account note
            (take_imap_action Decision.quarantine mailbox uid w)

    -- `Parse` failed.
    pub on_parse_error : Source → String → ℕ → String → String → World Float → World Float
    on_parse_error source account uid mailbox err w =
        unread_created source account uid mailbox "parse-failure quarantine failed: "
          (create_scan (unread_record source account uid mailbox ("unparseable message: " ⧺ err)) w)

    -- The deferred recovery: a fresh context, which no shutdown ends.
    pub on_panic : Source → String → ℕ → String → String → World Float → World Float
    on_panic source account uid mailbox why w =
        unread_created source account uid mailbox "panic-recovery quarantine failed: " (
          create_scan (unread_record source account uid mailbox ("process panic: " ⧺ why))
            (record w { cancels = [] }))

    -- `Store.Write`: the path, which is empty if it failed.
    pub store_write : Email → List ℕ → World Float → World Float × String
    store_write email raw w =
        elim (env.store_path email.account_name email.message_id email.imap_uid) [
          | none ↦ (w, "")
          | some path ↦ (record w { emls = insert path raw w.emls }, path)
        ]

    -- `Store.Delete`
    pub discard : String → World Float → World Float
    discard path w = if env.store_delete path then record w { emls = remove path w.emls } else w

    -- The row of a decision, for a message from the source.
    pub row_of : Source → Email → VerdictDecision Float → String → Scan Float
    row_of source email vd path =
        let rec = build_scan_record fl env.encoding env.now email vd path in
        record rec { status = if is_backfill source then inbox else rec.status; source = source }

    blocked_created : Source → Email → ℕ → String → World Float × Option ℕ → World Float
    blocked_created source email uid mailbox (w, none) = w
    blocked_created source email uid mailbox (w, some id) =
        increment_daily_stat env.today Verdict.spam (
          if is_backfill source
          then w
          else after_quarantine uid_of false id email.account_name "imap quarantine failed: "
              (take_imap_action Decision.quarantine mailbox uid w))

    abbrev pub blocklist_decision : String → VerdictDecision Float
    blocklist_decision entry =
        decided fl Decision.quarantine Verdict.spam ("blocklisted: " ⧺ entry) (decimal 1 0) []

    -- The sender is on the blocklist.
    pub on_blocklisted : Source → Email → ℕ → String → List ℕ → String → World Float → World Float
    on_blocklisted source email uid mailbox raw entry w =
        let vd = blocklist_decision entry in
        let (w', path) = store_write email raw w in
        blocked_created source email uid mailbox (create_scan (row_of source email vd path) w')

    -- The sender is on the whitelist with `bypass_scan`. The outcome of the insertion is ignored,
    -- and the row keeps the zero value of the source.
    pub on_bypass : Email → List ℕ → String → World Float → World Float
    on_bypass email raw entry w =
        let vd =
          decided fl Decision.pass Verdict.clean ("whitelisted (bypass): " ⧺ entry) (decimal 1 0)
            [] in
        let (w', path) = store_write email raw w in
        let drop = not env.eml_clean_retain && is_set path in
        let w'' = if drop then discard path w' else w' in
        let rec = build_scan_record fl env.encoding env.now email vd (if drop then "" else path) in
        increment_daily_stat env.today Verdict.clean (create_scan rec w'').0
