-- ===== src/Pipeline/Imap/Outcome.antt =====
-- The row of a message after its action on the mailbox.
use mailhook.Common.{
  ℕ, Bool, true, false, ◌==◌, ◌⧺◌, String, List, [], ◌∷◌, ◌≡◌, ◌⊎◌, refl, Bool-cases, inl, inr, All,
  str_eq, ltb,
}
use mailhook.Pipeline.Effects.{World, done, failed, write, update_row, update_scan, add_audit}
use mailhook.Pipeline.Imap.{
  after_quarantine, update_quarantine_uid, revert_to_inbox, audit_quarantine_desync,
}
use mailhook.Records.{Scan, inbox, imap_fail_action}

module _ {F : Type 0} where
  -- An update leaves a property of the rows with the ID, and no other row is looked at.
  pub update_row-All :
      (P : Scan F → Type 0) (id : ℕ) (f : Scan F → Scan F) (rs : List (Scan F))
      → ((r : Scan F) → P (f r))
      → ((r : Scan F) → (r.id == id) ≡ false → P r)
      → All P (update_row id f rs)
  unfolding update_row
  update_row-All P id f [] h k = tt
  update_row-All P id f (r ∷ rs) h k = elim (Bool-cases (r.id == id)) [
    | inl e ↦ rw e (h r, update_row-All P id f rs h k)
    | inr e ↦ rw e (k r e, update_row-All P id f rs h k)
  ]

  -- The row, if it has the ID, is in the inbox.
  abbrev pub IsInInbox : ℕ → Scan F → Type 0
  IsInInbox id r = ((r.id == id) ≡ false) ⊎ (r.status ≡ inbox)

  pub after_quarantine_failed :
      (mk : String → String → ℕ → String) (audited : Bool) (id : ℕ) (account note e : String)
      (w : World F)
      → w.db_fails ≡ []
      → All (IsInInbox id) (after_quarantine mk audited id account note (w, failed e)).scans
        × ((after_quarantine mk audited id account note (w, failed e)).audits
            ≡ record { scan_id = id; action = imap_fail_action; actor = "auto"; note = note ⧺ e }
              ∷ w.audits)
  unfolding after_quarantine revert_to_inbox write add_audit update_scan
  after_quarantine_failed mk audited id account note e w h = rw h (
    update_row-All (IsInInbox id) id (λ r. record r { status = inbox }) w.scans (λ r. inr refl)
        (λ r k. inl k),
    refl,
  )

  -- The row, if it has the ID, names the place.
  abbrev pub IsAt : ℕ → ℕ → String → Scan F → Type 0
  IsAt id uid mailbox r = ((r.id == id) ≡ false) ⊎ ((r.imap_mailbox ≡ mailbox) × (r.imap_uid ≡ uid))

  pub after_quarantine_done :
      (mk : String → String → ℕ → String) (audited : Bool) (id : ℕ) (account note : String)
      (uid : ℕ) (mailbox : String) (w : World F)
      → w.db_fails ≡ []
      → str_eq mailbox "" ≡ false
      → ltb 0 uid ≡ true
      → All
          (IsAt id uid mailbox)
          (after_quarantine mk audited id account note (w, done uid mailbox)).scans
        × ((after_quarantine mk audited id account note (w, done uid mailbox)).audits ≡ w.audits)
  unfolding after_quarantine update_quarantine_uid audit_quarantine_desync write update_scan
  after_quarantine_done mk audited id account note uid mailbox w h named fresh =
      let rows =
        update_row-All (IsAt id uid mailbox) id
          (λ r. record r {
            imap_mailbox = mailbox;
            imap_uid = uid;
            account_uid = mk account mailbox uid;
          })
          w.scans (λ r. inr (refl, refl)) (λ r k. inl k) in
      elim (Bool-cases audited) [
        | inl e ↦ rw (h, named, fresh, e) (rows, refl)
        | inr e ↦ rw (h, named, fresh, e) (rows, refl)
      ]
