-- ===== src/Pipeline/Held/Calls.antt =====
-- The calls on the mailbox for a message that no scanner sees.
use mailhook.Common.{
  ℕ, Bool, true, false, not, ◌&&◌, ◌⧺◌, String, List, [], Option, none, some, if◌then◌else◌, ◌≡◌,
  refl, arith, ◌∙◌,
}
use mailhook.Email.{Email}
use mailhook.Floats.{Floats}
use mailhook.Pipeline.Effects.{World, create_scan}
use mailhook.Pipeline.Env.{Env, is_set}
use mailhook.Pipeline.Held.{
  uid_of, unread_record, unread_created, on_parse_error, on_panic, store_write, discard, row_of,
  blocked_created, blocklist_decision, on_blocklisted, on_bypass,
}
use mailhook.Pipeline.Imap.Calls.{
  Performs, Performs-none, Performs-around, take_imap_action-Performs, create_scan-imap_calls,
  after_quarantine-imap_calls, write-imap_calls,
}
use mailhook.Pipeline.Imap.{take_imap_action, after_quarantine}
use mailhook.Pipeline.Build.{build_scan_record}
use mailhook.Pipeline.Stats.{increment_daily_stat}
use mailhook.Records.{Source, live, backfill}
use mailhook.Verdict.{Decision, Verdict, pass, quarantine, decided}

-- What is done with a held message.
abbrev pub held : Source → Decision
held live = quarantine
held backfill = pass

pub increment_daily_stat-imap_calls :
    {F : Type 0} (today : String) (v : Verdict) (w : World F)
    → (increment_daily_stat today v w).imap_calls ≡ w.imap_calls
unfolding increment_daily_stat
increment_daily_stat-imap_calls today v w = write-imap_calls _ w (λ u. refl)

module _ (fl : Floats) where
  open fl use {Float, decimal}

  module _ (env : Env fl) where
    pub quarantine-Performs :
        (audited : Bool) (id : ℕ) (account mailbox note : String) (uid : ℕ) (w : World Float)
        → Performs quarantine mailbox uid w.imap_calls
            (after_quarantine
              (uid_of fl env)
              audited
              id
              account
              note
              (take_imap_action quarantine mailbox uid w)).imap_calls
    quarantine-Performs audited id account mailbox note uid w =
        Performs-around quarantine mailbox uid refl
          (take_imap_action-Performs quarantine mailbox uid w)
          (after_quarantine-imap_calls (uid_of fl env) audited id account note
            (take_imap_action quarantine mailbox uid w))

    unread_created-Performs :
        (source : Source) (account : String) (uid : ℕ) (mailbox note : String)
        (p : World Float × Option ℕ)
        → Performs
            (held source)
            mailbox
            uid
            p.0.imap_calls
            (unread_created fl env source account uid mailbox note p).imap_calls
    unfolding unread_created
    unread_created-Performs source account uid mailbox note (w, none) =
        Performs-none (held source) mailbox uid refl
    unread_created-Performs backfill account uid mailbox note (w, some id) =
        Performs-none pass mailbox uid refl
    unread_created-Performs live account uid mailbox note (w, some id) =
        quarantine-Performs true id account mailbox note uid w

    pub on_parse_error-Performs :
        (source : Source) (account : String) (uid : ℕ) (mailbox err : String) (w : World Float)
        → Performs
            (held source)
            mailbox
            uid
            w.imap_calls
            (on_parse_error fl env source account uid mailbox err w).imap_calls
    unfolding on_parse_error
    on_parse_error-Performs source account uid mailbox err w =
        let row = unread_record fl env source account uid mailbox ("unparseable message: " ⧺ err) in
        Performs-around (held source) mailbox uid (create_scan-imap_calls row w)
          (unread_created-Performs source account uid mailbox _ (create_scan row w)) refl

    pub on_panic-Performs :
        (source : Source) (account : String) (uid : ℕ) (mailbox why : String) (w : World Float)
        → Performs
            (held source)
            mailbox
            uid
            w.imap_calls
            (on_panic fl env source account uid mailbox why w).imap_calls
    unfolding on_panic
    on_panic-Performs source account uid mailbox why w =
        let row = unread_record fl env source account uid mailbox ("process panic: " ⧺ why) in
        let fresh : World Float = record w { cancels = [] } in
        Performs-around (held source) mailbox uid (create_scan-imap_calls row fresh)
          (unread_created-Performs source account uid mailbox _ (create_scan row fresh)) refl

    pub store_write-imap_calls :
        (email : Email) (raw : List ℕ) (w : World Float)
        → (store_write fl env email raw w).0.imap_calls ≡ w.imap_calls
    unfolding store_write
    store_write-imap_calls email raw w = ground arith

    pub discard_if-imap_calls :
        (drop : Bool) (path : String) (w : World Float)
        → (if drop then discard fl env path w else w).imap_calls ≡ w.imap_calls
    unfolding discard
    discard_if-imap_calls drop path w = ground arith

    blocked_created-Performs :
        (source : Source) (email : Email) (uid : ℕ) (mailbox : String) (p : World Float × Option ℕ)
        → Performs
            (held source)
            mailbox
            uid
            p.0.imap_calls
            (blocked_created fl env source email uid mailbox p).imap_calls
    unfolding blocked_created
    blocked_created-Performs source email uid mailbox (w, none) =
        Performs-none (held source) mailbox uid refl
    blocked_created-Performs backfill email uid mailbox (w, some id) =
        Performs-none pass mailbox uid (increment_daily_stat-imap_calls env.today Verdict.spam w)
    blocked_created-Performs live email uid mailbox (w, some id) =
        Performs-around quarantine mailbox uid refl
          (quarantine-Performs false id email.account_name mailbox "imap quarantine failed: " uid w)
          (increment_daily_stat-imap_calls env.today Verdict.spam (
            after_quarantine (uid_of fl env) false id email.account_name "imap quarantine failed: "
              (take_imap_action quarantine mailbox uid w)))

    pub on_blocklisted-Performs :
        (source : Source) (email : Email) (uid : ℕ) (mailbox : String) (raw : List ℕ)
        (entry : String) (w : World Float)
        → Performs
            (held source)
            mailbox
            uid
            w.imap_calls
            (on_blocklisted fl env source email uid mailbox raw entry w).imap_calls
    unfolding on_blocklisted
    on_blocklisted-Performs source email uid mailbox raw entry w =
        let vd = blocklist_decision fl env entry in
        let stored = store_write fl env email raw w in
        let row = row_of fl env source email vd stored.1 in
        Performs-around (held source) mailbox uid
          (create_scan-imap_calls row stored.0 ∙ store_write-imap_calls email raw w)
          (blocked_created-Performs source email uid mailbox (create_scan row stored.0)) refl

    pub on_bypass-imap_calls :
        (email : Email) (raw : List ℕ) (entry : String) (w : World Float)
        → (on_bypass fl env email raw entry w).imap_calls ≡ w.imap_calls
    unfolding on_bypass
    on_bypass-imap_calls email raw entry w =
        let stored = store_write fl env email raw w in
        let drop = not env.eml_clean_retain && is_set stored.1 in
        let vd =
          decided fl Decision.pass Verdict.clean ("whitelisted (bypass): " ⧺ entry) (decimal 1 0)
            [] in
        let row =
          build_scan_record fl env.encoding env.now email vd (if drop then "" else stored.1) in
        let kept = if drop then discard fl env stored.1 stored.0 else stored.0 in
        increment_daily_stat-imap_calls env.today Verdict.clean (create_scan row kept).0
        ∙ create_scan-imap_calls row (if drop then discard fl env stored.1 stored.0 else stored.0)
        ∙ discard_if-imap_calls drop stored.1 stored.0
        ∙ store_write-imap_calls email raw w
