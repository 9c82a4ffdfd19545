-- ===== src/Pipeline/Process/Unsaved.antt =====
-- A message whose row could not be written.
use mailhook.Common.{
  ℕ, Bool, true, false, not, ◌&&◌, ◌++◌, String, List, Option, none, some, if◌then◌else◌, ◌≡◌, refl,
  arith, ap, ◌∙◌, Bool-cases, inl, inr, find,
}
use mailhook.Email.{Email}
use mailhook.Floats.{Floats}
use mailhook.Pipeline.Effects.{World, write, same_key, pop_bool}
use mailhook.Pipeline.Env.{Env, Parsed, parse_panicked, parse_failed, parsed, is_clean, is_set}
use mailhook.Pipeline.Held.Calls.{on_bypass-imap_calls}
use mailhook.Pipeline.Held.Unsaved.{
  Lost, create_scan-Lost, store_write-Same, discard_if-Same, on_blocklisted-unsaved,
  on_panic-unsaved, on_parse_error-unsaved,
}
use mailhook.Pipeline.Held.{store_write, discard, row_of}
use mailhook.Pipeline.Lists.{Whitelist, match_whitelist, match_blocklist, sender_auth_aligned}
use mailhook.Pipeline.Process.{
  reports, judge_email, upserted, upsert_scan, finish, scan_email, on_whitelisted, on_unblocked,
  process,
}
use mailhook.Records.{Source, Scan}
use mailhook.Verdict.{VerdictDecision}

module _ (fl : Floats) where
  open fl use {Float}

  module _ (env : Env fl) where
    upserted-Lost :
        (r : Scan Float) (w : World Float) (o : Option (Scan Float))
        → (pop_bool w.db_fails).0 ≡ true
        → Lost fl w (upserted fl env r w o)
    unfolding write
    upserted-Lost r w none h = create_scan-Lost fl r w h
    upserted-Lost r w (some old) h = rw h (refl, refl)

    finish-Lost :
        (source : Source) (account : String) (uid : ℕ) (mailbox : String)
        (vd : VerdictDecision Float) (p : World Float × Option ℕ) (w : World Float)
        → Lost fl w p
        → (finish fl env source account uid mailbox vd p).imap_calls ≡ w.imap_calls
    unfolding finish
    finish-Lost source account uid mailbox vd (w', none) w (e, h) = h
    finish-Lost source account uid mailbox vd (w', some id) w (e, h) = ground arith

    scan_email-unsaved :
        (source : Source) (email : Email) (uid : ℕ) (mailbox : String) (raw : List ℕ)
        (w : World Float)
        → (pop_bool w.db_fails).0 ≡ true
        → (scan_email fl env source email uid mailbox raw w).imap_calls ≡ w.imap_calls
    unfolding scan_email upsert_scan
    scan_email-unsaved source email uid mailbox raw w h =
        let stored = store_write fl env email raw w in
        let vd = judge_email fl env email in
        let told : World Float = record stored.0 {
          engines_down = reports fl env email env.scanners ++ stored.0.engines_down;
        } in
        let drop = not env.eml_clean_retain && is_clean vd.verdict && is_set stored.1 in
        let kept = if drop then discard fl env stored.1 told else told in
        let path = if drop && env.store_delete stored.1 then "" else stored.1 in
        let row = row_of fl env source email vd path in
        let (calls, fails) = store_write-Same fl env email raw w in
        let (calls', fails') = discard_if-Same fl env drop stored.1 told in
        finish-Lost source email.account_name uid mailbox vd (upsert_scan fl env row kept) kept (
          upserted-Lost row kept (find (same_key row) kept.scans)
            (ap (λ fs. (pop_bool fs).0) (fails' ∙ fails) ∙ h))
        ∙ calls'
        ∙ calls

    on_whitelisted-unsaved :
        (source : Source) (email : Email) (uid : ℕ) (mailbox : String) (raw : List ℕ)
        (o : Option Whitelist) (w : World Float)
        → (pop_bool w.db_fails).0 ≡ true
        → (on_whitelisted fl env source email uid mailbox raw o w).imap_calls ≡ w.imap_calls
    unfolding on_whitelisted
    on_whitelisted-unsaved source email uid mailbox raw none w h =
        scan_email-unsaved source email uid mailbox raw w h
    on_whitelisted-unsaved source email uid mailbox raw (some entry) w h =
        elim (Bool-cases (entry.bypass_scan && sender_auth_aligned email)) [
          | inl e ↦ rw e (on_bypass-imap_calls fl env email raw entry.entry w)
          | inr e ↦ rw e (
              scan_email-unsaved source (record email { whitelist_entry = entry.entry }) uid mailbox
                raw w h)
        ]

    on_unblocked-unsaved :
        (source : Source) (email : Email) (uid : ℕ) (mailbox : String) (raw : List ℕ)
        (o : Option String) (w : World Float)
        → (pop_bool w.db_fails).0 ≡ true
        → (on_unblocked fl env source email uid mailbox raw o w).imap_calls ≡ w.imap_calls
    unfolding on_unblocked
    on_unblocked-unsaved source email uid mailbox raw none w h =
        on_whitelisted-unsaved source email uid mailbox raw
          (match_whitelist env.text env.whitelist email) w h
    on_unblocked-unsaved source email uid mailbox raw (some entry) w h =
        on_blocklisted-unsaved fl env source email uid mailbox raw entry w h

    -- Where the first transaction fails, which is the one that writes the message's row, processing
    -- the message makes no call on the mailbox.
    pub process-unsaved :
        (slot : Bool) (source : Source) (account : String) (uid : ℕ) (mailbox : String)
        (raw : List ℕ) (p : Parsed) (w : World Float)
        → (pop_bool w.db_fails).0 ≡ true
        → (process fl env slot source account uid mailbox raw p w).imap_calls ≡ w.imap_calls
    unfolding process
    process-unsaved false source account uid mailbox raw p w h = refl
    process-unsaved true source account uid mailbox raw (parse_panicked why) w h =
        on_panic-unsaved fl env source account uid mailbox why w h
    process-unsaved true source account uid mailbox raw (parse_failed err) w h =
        on_parse_error-unsaved fl env source account uid mailbox err w h
    process-unsaved true source account uid mailbox raw (parsed email) w h =
        on_unblocked-unsaved source email uid mailbox raw
          (match_blocklist env.text env.blocklist email) w h
