-- ===== src/Pipeline/Process/Outcome.antt =====
-- Whether the row of a live message agrees with what happened in the mailbox.
use mailhook.Common.{
  ℕ, true, false, ◌⧺◌, String, [], ◌∷◌, Option, none, some, ◌≡◌, arith, ap, ◌∙◌, All, str_eq, ltb,
}
use mailhook.Floats.{Floats}
use mailhook.Pipeline.Effects.{World, ImapReply, done, failed}
use mailhook.Pipeline.Env.{Env, decision_text}
use mailhook.Pipeline.Held.{uid_of}
use mailhook.Pipeline.Imap.Outcome.{IsInInbox, after_quarantine_failed, IsAt, after_quarantine_done}
use mailhook.Pipeline.Imap.Retries.{take_imap_action-rounds}
use mailhook.Pipeline.Imap.{take_imap_action}
use mailhook.Pipeline.Process.{act_on}
use mailhook.Records.{AuditLog, live, imap_fail_action}
use mailhook.Verdict.{Decision, quarantine}

-- The text of the error, if the action failed.
abbrev pub error_of : ImapReply → Option String
error_of (done uid mailbox) = none
error_of (failed e) = some e

is_failed : (reply : ImapReply) (e : String) → error_of reply ≡ some e → reply ≡ failed e
is_failed (done uid mailbox) e h = ground arith
is_failed (failed e') e h = cc h

-- The entry of the audit log for a failed action.
abbrev pub failure : ℕ → Decision → String → AuditLog
failure id d e = record {
  scan_id = id;
  action = imap_fail_action;
  actor = "auto";
  note = ("imap " ⧺ decision_text d ⧺ " failed: ") ⧺ e;
}

module _ (fl : Floats) where
  open fl use {Float}

  module _ (env : Env fl) where
    -- Where the action on a live message fails for good and the database works, the message's row is
    -- in the inbox, and the first entry of the audit log gives the error.
    pub act_on_failed :
        (account : String) (uid : ℕ) (mailbox : String) (d : Decision) (id : ℕ) (e : String)
        (w : World Float)
        → w.db_fails ≡ []
        → error_of (take_imap_action d mailbox uid w).1 ≡ some e
        → All (IsInInbox id) (act_on fl env live account uid mailbox d id w).scans
          × ((act_on fl env live account uid mailbox d id w).audits ≡ failure id d e ∷ w.audits)
    unfolding act_on
    act_on_failed account uid mailbox d id e w h k =
        let acted = take_imap_action d mailbox uid w in
        let (_, _, _, (_, audits, _, fails, _, _)) = take_imap_action-rounds d mailbox uid w in
        let (rows, log) =
          after_quarantine_failed (uid_of fl env) true id account
            ("imap " ⧺ decision_text d ⧺ " failed: ") e acted.0 (fails ∙ h) in
        rw (is_failed acted.1 e k) (rows, log ∙ ap (◌∷◌ (failure id d e)) audits)

    -- Where a live message was quarantined, the server gave its new folder and UID, and the database
    -- works, the message's row names that folder and that UID, and nothing was audited.
    pub act_on_done :
        (account : String) (uid : ℕ) (mailbox : String) (id : ℕ) (folder : String) (new_uid : ℕ)
        (w : World Float)
        → w.db_fails ≡ []
        → (take_imap_action quarantine mailbox uid w).1 ≡ done new_uid folder
        → str_eq folder "" ≡ false
        → ltb 0 new_uid ≡ true
        → All
            (IsAt id new_uid folder)
            (act_on fl env live account uid mailbox quarantine id w).scans
          × ((act_on fl env live account uid mailbox quarantine id w).audits ≡ w.audits)
    unfolding act_on
    act_on_done account uid mailbox id folder new_uid w h k named fresh =
        let acted = take_imap_action quarantine mailbox uid w in
        let (_, _, _, (_, audits, _, fails, _, _)) =
          take_imap_action-rounds quarantine mailbox uid w in
        let (rows, log) =
          after_quarantine_done (uid_of fl env) true id account
            ("imap " ⧺ decision_text quarantine ⧺ " failed: ") new_uid folder acted.0 (fails ∙ h)
            named fresh in
        rw k (rows, log ∙ audits)
