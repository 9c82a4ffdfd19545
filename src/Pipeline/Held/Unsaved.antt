-- ===== src/Pipeline/Held/Unsaved.antt =====
-- A message that no scanner sees, and whose row could not be written.
use mailhook.Common.{
  ℕ, Bool, true, ◌⧺◌, String, List, [], Option, none, some, if◌then◌else◌, ◌≡◌, refl, arith, ap,
  ◌∙◌,
}
use mailhook.Email.{Email}
use mailhook.Floats.{Floats}
use mailhook.Pipeline.Effects.{World, create_scan, pop_bool}
use mailhook.Pipeline.Env.{Env}
use mailhook.Pipeline.Held.{
  unread_record, unread_created, on_parse_error, on_panic, store_write, discard, row_of,
  blocklist_decision, blocked_created, on_blocklisted,
}
use mailhook.Records.{Source, Scan}

module _ (fl : Floats) where
  open fl use {Float}

  -- The same calls, and the next transaction fails still.
  abbrev pub Same : World Float → World Float → Type 0
  Same w w' = (w'.imap_calls ≡ w.imap_calls) × (w'.db_fails ≡ w.db_fails)

  abbrev pub Lost : World Float → World Float × Option ℕ → Type 0
  Lost w p = (p.1 ≡ none) × (p.0.imap_calls ≡ w.imap_calls)

  pub create_scan-Lost :
      (r : Scan Float) (w : World Float) → (pop_bool w.db_fails).0 ≡ true → Lost w (create_scan r w)
  unfolding create_scan
  create_scan-Lost r w h = rw h (refl, refl)

  module _ (env : Env fl) where
    pub store_write-Same :
        (email : Email) (raw : List ℕ) (w : World Float) → Same w (store_write fl env email raw w).0
    unfolding store_write
    store_write-Same email raw w = ground arith

    pub discard_if-Same :
        (drop : Bool) (path : String) (w : World Float)
        → Same w (if drop then discard fl env path w else w)
    unfolding discard
    discard_if-Same drop path w = ground arith

    unread-Lost :
        (source : Source) (account : String) (uid : ℕ) (mailbox note : String)
        (p : World Float × Option ℕ) (w : World Float)
        → Lost w p
        → (unread_created fl env source account uid mailbox note p).imap_calls ≡ w.imap_calls
    unfolding unread_created
    unread-Lost source account uid mailbox note (w', none) w (e, h) = h
    unread-Lost source account uid mailbox note (w', some id) w (e, h) = ground arith

    blocked-Lost :
        (source : Source) (email : Email) (uid : ℕ) (mailbox : String) (p : World Float × Option ℕ)
        (w : World Float)
        → Lost w p
        → (blocked_created fl env source email uid mailbox p).imap_calls ≡ w.imap_calls
    unfolding blocked_created
    blocked-Lost source email uid mailbox (w', none) w (e, h) = h
    blocked-Lost source email uid mailbox (w', some id) w (e, h) = ground arith

    pub on_blocklisted-unsaved :
        (source : Source) (email : Email) (uid : ℕ) (mailbox : String) (raw : List ℕ)
        (entry : String) (w : World Float)
        → (pop_bool w.db_fails).0 ≡ true
        → (on_blocklisted fl env source email uid mailbox raw entry w).imap_calls ≡ w.imap_calls
    unfolding on_blocklisted
    on_blocklisted-unsaved source email uid mailbox raw entry w h =
        let stored = store_write fl env email raw w in
        let (calls, fails) = store_write-Same email raw w in
        let row = row_of fl env source email (blocklist_decision fl env entry) stored.1 in
        blocked-Lost source email uid mailbox (create_scan row stored.0) stored.0
          (create_scan-Lost row stored.0 (ap (λ fs. (pop_bool fs).0) fails ∙ h))
        ∙ calls

    pub on_panic-unsaved :
        (source : Source) (account : String) (uid : ℕ) (mailbox why : String) (w : World Float)
        → (pop_bool w.db_fails).0 ≡ true
        → (on_panic fl env source account uid mailbox why w).imap_calls ≡ w.imap_calls
    unfolding on_panic
    on_panic-unsaved source account uid mailbox why w h =
        let row = unread_record fl env source account uid mailbox ("process panic: " ⧺ why) in
        let fresh : World Float = record w { cancels = [] } in
        unread-Lost source account uid mailbox "panic-recovery quarantine failed: "
          (create_scan row fresh) fresh (create_scan-Lost row fresh h)

    pub on_parse_error-unsaved :
        (source : Source) (account : String) (uid : ℕ) (mailbox err : String) (w : World Float)
        → (pop_bool w.db_fails).0 ≡ true
        → (on_parse_error fl env source account uid mailbox err w).imap_calls ≡ w.imap_calls
    unfolding on_parse_error
    on_parse_error-unsaved source account uid mailbox err w h =
        let row = unread_record fl env source account uid mailbox ("unparseable message: " ⧺ err) in
        unread-Lost source account uid mailbox "parse-failure quarantine failed: "
          (create_scan row w) w (create_scan-Lost row w h)
