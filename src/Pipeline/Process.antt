-- ===== src/Pipeline/Process.antt =====
-- app/pipeline/pipeline.go, `process`: one message from its arrival to its audit entry.
pub mod Safety
pub mod Unsaved
pub mod Bench
pub mod Outcome
use mailhook.Common.{
  ℕ, Bool, true, false, not, ◌&&◌, ◌||◌, ◌⧺◌, String, List, [], ◌∷◌, ◌++◌, Option, none, some, map,
  if◌then◌else◌, str_eq, find,
}
use mailhook.Common.Dict.{insert, remove}
use mailhook.Email.{Email}
use mailhook.Floats.{Floats}
use mailhook.Pipeline.Build.{Encoding, make_account_uid, build_scan_record}
use mailhook.Pipeline.Effects.{
  World, write, create_scan, update_scan, add_audit, same_key, pop_bool,
}
use mailhook.Pipeline.Imap.{take_imap_action, after_quarantine, revert_to_inbox, is_done}
use mailhook.Pipeline.Lists.{Text, Whitelist, match_whitelist, match_blocklist, sender_auth_aligned}
use mailhook.Pipeline.Stats.{increment_daily_stat, mask_entry}
use mailhook.Records.{
  Status, inbox, quarantined, Source, live, backfill, Action, delete_action, quarantine_action,
  pass_action, backfill_action, Scan,
}
use mailhook.Verdict.Collect.{ScannerName, ScanVerdict, ScanResult, scanner_text, is_error}
use mailhook.Verdict.{Decision, Verdict, VerdictDecision, Thresholds, decide, decided}
use mailhook.Pipeline.Env.{
  Env, Scanner, Ran, returned, panicked, Parsed, parse_panicked, parse_failed, parsed, is_backfill,
  is_quarantine, is_pass, is_clean, verdict_to_action, decision_text, is_set,
}
use mailhook.Pipeline.Held.{
  uid_of, store_write, discard, row_of, on_parse_error, on_panic, on_blocklisted, on_bypass,
}

module _ (fl : Floats) where
  open fl use {Float, decimal}

  module _ (env : Env fl) where
    -- One goroutine of the fan-out: a panic is an error, and an error is reported.
    pub run_scanner : Email → Scanner Float → ScanResult Float
    run_scanner email s = elim (s.scan email) [
      | returned r ↦ r
      | panicked ↦ record {
        scanner = s.name;
        verdict = ScanVerdict.error;
        score = decimal 0 0;
        detail = "panic recovered";
        matches = [];
      }
    ]

    abbrev reported : Email → Scanner Float → List String
    reported email s = elim (s.scan email) [
      | returned r ↦ if is_error r.verdict && env.has_notifier then scanner_text s.name ∷ [] else []
      | panicked ↦ []
    ]

    reports : Email → List (Scanner Float) → List String
    reports email [] = []
    reports email (s ∷ ss) = reported email s ++ reports email ss

    pub fan_out : Email → List (ScanResult Float)
    unfolding run_scanner
    fan_out email = map (run_scanner email) env.scanners

    -- `Decide`, and the override for a sender on the whitelist.
    pub judge_email : Email → VerdictDecision Float
    judge_email email =
        let vd = decide fl env.thresholds email (fan_out email) in
        if is_set email.whitelist_entry
        then record vd {
          decision = Decision.pass;
          reason = "whitelisted (scan-and-release): " ⧺ mask_entry email.whitelist_entry;
        }
        else vd

    -- The upsert of the row: its ID, or nothing where the transaction fails. An existing row keeps
    -- the columns that the clause does not name.
    abbrev pub merge : Scan Float → Scan Float → Scan Float
    merge new old = record old {
      verdict = new.verdict;
      verdict_reason = new.verdict_reason;
      confidence = new.confidence;
      rspamd_score = new.rspamd_score;
      rspamd_action = new.rspamd_action;
      rspamd_symbols = new.rspamd_symbols;
      spf_result = new.spf_result;
      dkim_result = new.dkim_result;
      dmarc_result = new.dmarc_result;
      clam_av_status = new.clam_av_status;
      url_hits = new.url_hits;
      resolved_url_hits = new.resolved_url_hits;
      nrd_hits = new.nrd_hits;
      status = new.status;
      eml_path = new.eml_path;
    }

    abbrev pub upserted : Scan Float → World Float → Option (Scan Float) → World Float × Option ℕ
    upserted r w none = create_scan r w
    upserted r w (some old) =
        let (w', committed) = write (update_scan old.id (merge r)) w in
        (w', if committed then some old.id else none)

    pub upsert_scan : Scan Float → World Float → World Float × Option ℕ
    upsert_scan r w = upserted r w (find (same_key r) w.scans)

    -- The action on the mailbox, and what is recorded of it.
    pub act_on : Source → String → ℕ → String → Decision → ℕ → World Float → World Float
    act_on source account uid mailbox d id w =
        if is_backfill source
        then w
        else (let (w', reply) = take_imap_action d mailbox uid w in
            if not (is_done reply) || is_quarantine d
            then after_quarantine (uid_of fl env) true id account
                ("imap " ⧺ decision_text d ⧺ " failed: ") (w', reply)
            else w')

    -- The notification and the broadcast.
    notify : Source → VerdictDecision Float → ℕ → World Float → World Float
    notify source vd id w =
        let send =
          env.has_notifier
          && (if is_backfill source
              then not (is_clean vd.verdict)
              else not (is_pass vd.decision)) in
        let reason = if is_backfill source then "[Historical scan] " ⧺ vd.reason else vd.reason in
        record w {
          sent = if send then reason ∷ w.sent else w.sent;
          broadcast = if env.has_hub then id ∷ w.broadcast else w.broadcast;
        }

    -- What follows the upsert.
    finish :
        Source → String → ℕ → String → VerdictDecision Float → World Float × Option ℕ → World Float
    unfolding notify
    finish source account uid mailbox vd (w, none) = w
    finish source account uid mailbox vd (w, some id) =
        let acted = act_on source account uid mailbox vd.decision id w in
        let action =
          if is_backfill source then backfill_action else verdict_to_action vd.decision in
        let audited = write (add_audit id action vd.reason) (notify source vd id acted) in
        increment_daily_stat env.today vd.verdict audited.0

    -- The message is stored, scanned and judged; a clean one is not kept unless configured.
    pub scan_email : Source → Email → ℕ → String → List ℕ → World Float → World Float
    scan_email source email uid mailbox raw w =
        let (w', path) = store_write fl env email raw w in
        let scanned : World Float = record w' {
          engines_down = reports email env.scanners ++ w'.engines_down;
        } in
        let vd = judge_email email in
        let drop = not env.eml_clean_retain && is_clean vd.verdict && is_set path in
        let kept = if drop then discard fl env path scanned else scanned in
        let path' = if drop && env.store_delete path then "" else path in
        finish source email.account_name uid mailbox vd
          (upsert_scan (row_of fl env source email vd path') kept)

    -- The whitelist, for a sender that the blocklist does not name.
    on_whitelisted :
        Source → Email → ℕ → String → List ℕ → Option Whitelist → World Float → World Float
    on_whitelisted source email uid mailbox raw none w = scan_email source email uid mailbox raw w
    on_whitelisted source email uid mailbox raw (some entry) w =
        if entry.bypass_scan && sender_auth_aligned email
        then on_bypass fl env email raw entry.entry w
        else scan_email source (record email { whitelist_entry = entry.entry }) uid mailbox raw w

    on_unblocked : Source → Email → ℕ → String → List ℕ → Option String → World Float → World Float
    on_unblocked source email uid mailbox raw (some entry) w =
        on_blocklisted fl env source email uid mailbox raw entry w
    on_unblocked source email uid mailbox raw none w =
        on_whitelisted source email uid mailbox raw (match_whitelist env.text env.whitelist email) w

    -- `process`: the flag is that the message got a slot before the shutdown.
    pub process : Bool → Source → String → ℕ → String → List ℕ → Parsed → World Float → World Float
    unfolding on_unblocked on_whitelisted
    process false source account uid mailbox raw p w = w
    process true source account uid mailbox raw (parse_panicked why) w =
        on_panic fl env source account uid mailbox why w
    process true source account uid mailbox raw (parse_failed err) w =
        on_parse_error fl env source account uid mailbox err w
    process true source account uid mailbox raw (parsed email) w =
        on_unblocked source email uid mailbox raw (match_blocklist env.text env.blocklist email) w
