-- ===== src/Pipeline/Process/Safety.antt =====
-- The calls on the mailbox for a message, whatever fails on the way.
use mailhook.Common.{
  ℕ, subst, Bool, true, false, not, ◌&&◌, ◌||◌, ◌⧺◌, ◌++◌, String, List, Option, none, some,
  if◌then◌else◌, ◌≡◌, refl, ◌∙◌, Bool-cases, inl, inr, find,
}
use mailhook.Email.{Email}
use mailhook.Floats.{Floats}
use mailhook.Pipeline.Effects.{World, write, update_scan, add_audit, same_key}
use mailhook.Pipeline.Env.{
  Env, Parsed, parse_panicked, parse_failed, parsed, is_backfill, is_quarantine, is_clean, is_set,
  verdict_to_action, decision_text,
}
use mailhook.Pipeline.Held.Calls.{
  increment_daily_stat-imap_calls, on_parse_error-Performs, on_panic-Performs,
  store_write-imap_calls, discard_if-imap_calls, on_blocklisted-Performs, on_bypass-imap_calls,
}
use mailhook.Pipeline.Held.{uid_of, store_write, discard, row_of}
use mailhook.Pipeline.Imap.Calls.{
  Performs, Performs-none, Performs-around, take_imap_action-Performs, create_scan-imap_calls,
  after_quarantine-imap_calls, write-imap_calls,
}
use mailhook.Pipeline.Imap.{take_imap_action, is_done}
use mailhook.Pipeline.Lists.{Whitelist, match_whitelist, match_blocklist, sender_auth_aligned}
use mailhook.Pipeline.Process.{
  fan_out, reports, judge_email, merge, upserted, upsert_scan, act_on, notify, finish, scan_email,
  on_whitelisted, on_unblocked, process,
}
use mailhook.Records.{Source, live, backfill, Scan, backfill_action}
use mailhook.Verdict.{Decision, VerdictDecision, decide, pass, quarantine}

-- A historical message stays where it is.
abbrev pub applied : Source → Decision → Decision
applied live d = d
applied backfill d = pass

module _ (fl : Floats) where
  open fl use {Float}

  module _ (env : Env fl) where
    -- What the scanners' results call for, unless the sender is on the whitelist.
    abbrev pub scanned : Email → Decision
    scanned email =
        if is_set email.whitelist_entry
        then pass
        else (decide fl env.thresholds email (fan_out fl env email)).decision

    abbrev pub unblocked : Email → Option Whitelist → Decision
    unblocked email none = scanned email
    unblocked email (some entry) =
        if entry.bypass_scan && sender_auth_aligned email
        then pass
        else scanned (record email { whitelist_entry = entry.entry })

    abbrev pub listed : Email → Option String → Decision
    listed email (some entry) = quarantine
    listed email none = unblocked email (match_whitelist env.text env.whitelist email)

    -- What is done with a message that arrived, from the lists and the scanners.
    abbrev pub planned : Parsed → Decision
    planned (parse_panicked why) = quarantine
    planned (parse_failed err) = quarantine
    planned (parsed email) = listed email (match_blocklist env.text env.blocklist email)

    judge_email-scanned : (email : Email) → (judge_email fl env email).decision ≡ scanned email
    unfolding judge_email
    judge_email-scanned email = elim (Bool-cases (is_set email.whitelist_entry)) [
      | inl e ↦ rw e refl
      | inr e ↦ rw e refl
    ]

    upsert_scan-imap_calls :
        (r : Scan Float) (w : World Float) → (upsert_scan fl env r w).0.imap_calls ≡ w.imap_calls
    unfolding upsert_scan
    upsert_scan-imap_calls r w = upserted-imap_calls (find (same_key r) w.scans)
      where
        upserted-imap_calls :
            (o : Option (Scan Float)) → (upserted fl env r w o).0.imap_calls ≡ w.imap_calls
        upserted-imap_calls none = create_scan-imap_calls r w
        upserted-imap_calls (some old) =
            write-imap_calls (update_scan old.id (merge fl env r)) w
              (λ u. unfold update_scan in refl)

    act_on-Performs :
        (source : Source) (account : String) (uid : ℕ) (mailbox : String) (d : Decision) (id : ℕ)
        (w : World Float)
        → Performs
            (applied source d)
            mailbox
            uid
            w.imap_calls
            (act_on fl env source account uid mailbox d id w).imap_calls
    unfolding act_on
    act_on-Performs backfill account uid mailbox d id w = Performs-none pass mailbox uid refl
    act_on-Performs live account uid mailbox d id w =
        let acted = take_imap_action d mailbox uid w in
        elim (Bool-cases (not (is_done acted.1) || is_quarantine d)) [
          | inl e ↦ rw e (
              Performs-around d mailbox uid refl (take_imap_action-Performs d mailbox uid w) (
                after_quarantine-imap_calls (uid_of fl env) true id account
                  ("imap " ⧺ decision_text d ⧺ " failed: ") acted))
          | inr e ↦ rw e (take_imap_action-Performs d mailbox uid w)
        ]

    finish-Performs :
        (source : Source) (account : String) (uid : ℕ) (mailbox : String)
        (vd : VerdictDecision Float) (p : World Float × Option ℕ)
        → Performs
            (applied source vd.decision)
            mailbox
            uid
            p.0.imap_calls
            (finish fl env source account uid mailbox vd p).imap_calls
    unfolding finish notify
    finish-Performs source account uid mailbox vd (w, none) =
        Performs-none (applied source vd.decision) mailbox uid refl
    finish-Performs source account uid mailbox vd (w, some id) =
        let acted = act_on fl env source account uid mailbox vd.decision id w in
        let action =
          if is_backfill source then backfill_action else verdict_to_action vd.decision in
        let told = notify fl env source vd id acted in
        Performs-around (applied source vd.decision) mailbox uid refl
          (act_on-Performs source account uid mailbox vd.decision id w)
          (increment_daily_stat-imap_calls env.today vd.verdict
              (write (add_audit id action vd.reason) told).0
            ∙ write-imap_calls (add_audit id action vd.reason) told (λ u. unfold add_audit in refl))

    scan_email-Performs :
        (source : Source) (email : Email) (uid : ℕ) (mailbox : String) (raw : List ℕ)
        (w : World Float)
        → Performs
            (applied source (scanned email))
            mailbox
            uid
            w.imap_calls
            (scan_email fl env source email uid mailbox raw w).imap_calls
    unfolding scan_email
    scan_email-Performs source email uid mailbox raw w =
        let stored = store_write fl env email raw w in
        let vd = judge_email fl env email in
        let told : World Float = record stored.0 {
          engines_down = reports fl env email env.scanners ++ stored.0.engines_down;
        } in
        let drop = not env.eml_clean_retain && is_clean vd.verdict && is_set stored.1 in
        let kept = if drop then discard fl env stored.1 told else told in
        let path = if drop && env.store_delete stored.1 then "" else stored.1 in
        let row = row_of fl env source email vd path in
        Performs-around (applied source (scanned email)) mailbox uid
          (upsert_scan-imap_calls row kept
            ∙ discard_if-imap_calls fl env drop stored.1 told
            ∙ store_write-imap_calls fl env email raw w)
          (subst
            (λ d.
              Performs (applied source d) mailbox uid (upsert_scan fl env row kept).0.imap_calls
                (finish fl env source email.account_name uid mailbox vd
                  (upsert_scan fl env row kept)).imap_calls)
            (judge_email-scanned email)
            (finish-Performs source email.account_name uid mailbox vd
              (upsert_scan fl env row kept)))
          refl

    on_whitelisted-Performs :
        (source : Source) (email : Email) (uid : ℕ) (mailbox : String) (raw : List ℕ)
        (o : Option Whitelist) (w : World Float)
        → Performs
            (applied source (unblocked email o))
            mailbox
            uid
            w.imap_calls
            (on_whitelisted fl env source email uid mailbox raw o w).imap_calls
    unfolding on_whitelisted
    on_whitelisted-Performs source email uid mailbox raw none w =
        scan_email-Performs source email uid mailbox raw w
    on_whitelisted-Performs source email uid mailbox raw (some entry) w =
        elim (Bool-cases (entry.bypass_scan && sender_auth_aligned email)) [
          | inl e ↦ rw e (
              Performs-none (applied source pass) mailbox uid
                (on_bypass-imap_calls fl env email raw entry.entry w))
          | inr e ↦ rw e (
              scan_email-Performs source (record email { whitelist_entry = entry.entry }) uid
                mailbox raw w)
        ]

    on_unblocked-Performs :
        (source : Source) (email : Email) (uid : ℕ) (mailbox : String) (raw : List ℕ)
        (o : Option String) (w : World Float)
        → Performs
            (applied source (listed email o))
            mailbox
            uid
            w.imap_calls
            (on_unblocked fl env source email uid mailbox raw o w).imap_calls
    unfolding on_unblocked
    on_unblocked-Performs source email uid mailbox raw none w =
        on_whitelisted-Performs source email uid mailbox raw
          (match_whitelist env.text env.whitelist email) w
    on_unblocked-Performs live email uid mailbox raw (some entry) w =
        on_blocklisted-Performs fl env live email uid mailbox raw entry w
    on_unblocked-Performs backfill email uid mailbox raw (some entry) w =
        on_blocklisted-Performs fl env backfill email uid mailbox raw entry w

    -- Whatever fails on the way, and whether or not the message got a slot, the only call that
    -- processing makes on the mailbox is the one of the planned decision, for this message and four
    -- times at most. For a backfill it makes none.
    pub process-Performs :
        (slot : Bool) (source : Source) (account : String) (uid : ℕ) (mailbox : String)
        (raw : List ℕ) (p : Parsed) (w : World Float)
        → Performs
            (applied source (planned p))
            mailbox
            uid
            w.imap_calls
            (process fl env slot source account uid mailbox raw p w).imap_calls
    unfolding process
    process-Performs false source account uid mailbox raw p w =
        Performs-none (applied source (planned p)) mailbox uid refl
    process-Performs true live account uid mailbox raw (parse_panicked why) w =
        on_panic-Performs fl env live account uid mailbox why w
    process-Performs true backfill account uid mailbox raw (parse_panicked why) w =
        on_panic-Performs fl env backfill account uid mailbox why w
    process-Performs true live account uid mailbox raw (parse_failed err) w =
        on_parse_error-Performs fl env live account uid mailbox err w
    process-Performs true backfill account uid mailbox raw (parse_failed err) w =
        on_parse_error-Performs fl env backfill account uid mailbox err w
    process-Performs true source account uid mailbox raw (parsed email) w =
        on_unblocked-Performs source email uid mailbox raw
          (match_blocklist env.text env.blocklist email) w
