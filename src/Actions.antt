-- ===== src/Actions.antt =====
-- app/web/handlers/actions.go: what a user does with a scanned message. What Rspamd learns is left
-- out, and so is the bulk action.
pub mod Outcome
pub mod Rescan
mod Tests
use mailhook.Common.{
  ℕ, Bool, true, false, ◌==◌, String, List, ◌∷◌, Option, none, some, if◌then◌else◌, find, str_eq,
  ltb,
}
use mailhook.Common.Dict.{lookup}
use mailhook.Pipeline.Effects.{
  World, ImapReply, done, failed, move_to_quarantine, delete_message, release_to_inbox, call, write,
  update_scan,
}
use mailhook.Records.{
  Status, quarantined, released, deleted, learned_ham, learned_spam, Scan, AuditLog, Action,
  quarantine_action, status_action,
}

pub data UserAction : Type 0 where
  release release_and_learn delete quarantine learn_spam : UserAction

pub data Response : Type 0 where
  not_found bad_request server_error : Response
  ok : Response

-- The request's time and user, the registry, and whether Rspamd takes the message.
pub record ActionsEnv : Type 0 where
  pub now : ℕ
  pub actor : String
  pub account_known : String → Bool
  pub account_uid : String → String → ℕ → String
  pub learn_spam_works : Bool

module _ (env : ActionsEnv) where
  abbrev pub entry : ℕ → Action → String → AuditLog
  entry id action note = record { scan_id = id; action = action; actor = env.actor; note = note }

module _ (env : ActionsEnv) {F : Type 0} where
  abbrev add_entry : ℕ → Action → String → World F → World F
  add_entry id action note w = record w { audits = entry env id action note ∷ w.audits }

  abbrev set_status : Status → Scan F → Scan F
  set_status s r = record r { status = s; actioned_by = env.actor; actioned_at = some env.now }

  -- `updateStatus`, and the answer to its outcome.
  update_status : Status → Scan F → World F → World F × Bool
  update_status s scan =
      write (λ w. add_entry scan.id (status_action s) "" (update_scan scan.id (set_status s) w))

  abbrev respond : World F × Bool → World F × Response
  respond (w, committed) = (w, if committed then ok else server_error)

  -- What follows the call on the mailbox.
  acted : Status → Scan F → World F × ImapReply → World F × Response
  unfolding update_status
  acted s scan (w, failed err) = (w, server_error)
  acted s scan (w, done _ _) = respond (update_status s scan w)

  -- The columns of a message that the user quarantines.
  quarantined_row : Scan F → ℕ → String → Scan F → Scan F
  quarantined_row scan new_uid new_mailbox r =
      let r' : Scan F = record (set_status quarantined r) { imap_mailbox = new_mailbox } in
      if ltb 0 new_uid
      then record r' {
        imap_uid = new_uid;
        account_uid = env.account_uid scan.account_name new_mailbox new_uid;
      }
      else r'

  moved : Scan F → World F × ImapReply → World F × Response
  unfolding quarantined_row
  moved scan (w, failed err) = (w, server_error)
  moved scan (w, done new_uid new_mailbox) = respond (
      write
        (λ w'.
          add_entry scan.id quarantine_action "user-triggered quarantine"
            (update_scan scan.id (quarantined_row scan new_uid new_mailbox) w'))
        w)

  learned : Scan F → Option (List ℕ) → World F → World F × Response
  unfolding update_status
  learned scan none w = (w, server_error)
  learned scan (some raw) w =
      if env.learn_spam_works
      then respond (update_status learned_spam scan w)
      else (w, server_error)

  if_known : Scan F → World F × Response → World F → World F × Response
  if_known scan answer w = if env.account_known scan.account_name then answer else (w, bad_request)

  -- The handlers, on the loaded row.
  on_scan : UserAction → Scan F → World F → World F × Response
  unfolding acted moved learned if_known
  on_scan release scan w =
      if_known scan (acted released scan (call (release_to_inbox scan.imap_uid) w)) w
  on_scan release_and_learn scan w =
      if_known scan (acted learned_ham scan (call (release_to_inbox scan.imap_uid) w)) w
  on_scan delete scan w =
      if_known scan (acted deleted scan (call (delete_message scan.imap_mailbox scan.imap_uid) w)) w
  on_scan quarantine scan w =
      if_known scan (moved scan (call (move_to_quarantine scan.imap_mailbox scan.imap_uid) w)) w
  on_scan learn_spam scan w =
      if str_eq scan.eml_path ""
      then (w, bad_request)
      else learned scan (lookup scan.eml_path w.emls) w

  -- `withScan`: the row with the ID of the request.
  on_found : UserAction → Option (Scan F) → World F → World F × Response
  unfolding on_scan
  on_found action none w = (w, not_found)
  on_found action (some scan) w = on_scan action scan w

  pub handle : UserAction → ℕ → World F → World F × Response
  unfolding on_found
  handle action id w = on_found action (find (λ r. r.id == id) w.scans) w
