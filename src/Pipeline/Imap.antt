-- ===== src/Pipeline/Imap.antt =====
-- app/pipeline/pipeline.go: the action on the mailbox, its retries, and what is recorded of it.
pub mod Retries
pub mod Calls
pub mod Outcome
use mailhook.Common.{
  ◌⧺◌, ℕ, Bool, true, false, String, List, [], ◌∷◌, Option, none, some, if◌then◌else◌, str_eq, ltb,
}
use mailhook.Pipeline.Effects.{
  ImapCall, move_to_quarantine, delete_message, flag_message, ImapReply, done, failed, World, write,
  update_scan, add_audit, wait, call,
}
use mailhook.Records.{Scan, inbox, imap_fail_action, quar_desync_action}
use mailhook.Verdict.{Decision, pass, quarantine, delete, flag}

-- The waits before the four attempts, in seconds.
abbrev pub delays : List ℕ
delays = 0 ∷ 1 ∷ 2 ∷ 4 ∷ []

abbrev pub is_done : ImapReply → Bool
is_done (done _ _) = true
is_done (failed _) = false

module _ {F : Type 0} where
  -- The loop over `delays`. A context that ends during a wait stops it.
  unfoldable pub attempts : ImapCall → List ℕ → ImapReply → World F → World F × ImapReply
  attempts c [] last w = (w, last)
  attempts c (d ∷ ds) last w =
      let (w', cancelled) = wait d w in
      let (w'', reply) = call c w' in
      let retry = attempts c ds reply w'' in
      if cancelled
      then (w', failed "context canceled")
      else if is_done reply
      then (w'', reply)
      else retry

  -- The new UID counts for a quarantine alone.
  drop_uid : World F × ImapReply → World F × ImapReply
  drop_uid (w, done _ _) = (w, done 0 "")
  drop_uid (w, failed e) = (w, failed e)

  -- `takeIMAPAction`; its nil error is `done`.
  unfoldable pub take_imap_action : Decision → String → ℕ → World F → World F × ImapReply
  unfolding attempts drop_uid
  take_imap_action delete mailbox uid w =
      drop_uid (attempts (delete_message mailbox uid) delays (done 0 "") w)
  take_imap_action quarantine mailbox uid w =
      attempts (move_to_quarantine mailbox uid) delays (done 0 "") w
  take_imap_action flag mailbox uid w =
      drop_uid (attempts (flag_message mailbox uid) delays (done 0 "") w)
  take_imap_action pass mailbox uid w = (w, done 0 "")

  -- `updateQuarantineUID`, of the row with the ID; `make_account_uid` is `MakeAccountUID`.
  pub update_quarantine_uid :
      (String → String → ℕ → String) → ℕ → String → ℕ → String → World F → World F × Bool
  update_quarantine_uid make_account_uid id account new_uid new_mailbox w =
      if str_eq new_mailbox ""
      then (w, true)
      else write
          (update_scan id (λ r.
            if ltb 0 new_uid
            then record r {
              imap_mailbox = new_mailbox;
              imap_uid = new_uid;
              account_uid = make_account_uid account new_mailbox new_uid;
            }
            else record r { imap_mailbox = new_mailbox }))
          w

  -- `auditQuarantineDesync`; the flag is that the update was committed. The text of the
  -- error is left out of the note.
  pub audit_quarantine_desync : ℕ → Bool → World F → World F
  audit_quarantine_desync id committed w =
      if committed
      then w
      else (write (add_audit id quar_desync_action "quarantine UID persist failed") w).0

  -- The transaction after a failed action: the row goes back to INBOX, with an audit entry.
  pub revert_to_inbox : ℕ → String → World F → World F
  revert_to_inbox id note w =
      (write
        (λ w'.
          add_audit id imap_fail_action note (update_scan id (λ r. record r { status = inbox }) w'))
        w).0

  -- What follows a quarantine: the row is brought into line with the mailbox, or reverted. The
  -- flag says whether a failed update is audited.
  pub after_quarantine :
      (String → String → ℕ → String) → Bool → ℕ → String → String → World F × ImapReply → World F
  unfolding update_quarantine_uid audit_quarantine_desync revert_to_inbox
  after_quarantine make_account_uid audited id account note (w, failed e) =
      revert_to_inbox id (note ⧺ e) w
  after_quarantine make_account_uid audited id account note (w, done new_uid new_mailbox) =
      let (w', committed) =
        update_quarantine_uid make_account_uid id account new_uid new_mailbox w in
      if audited then audit_quarantine_desync id committed w' else w'
