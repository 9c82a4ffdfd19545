-- ===== src/Pipeline/Imap/Calls.antt =====
-- Recording what happened makes no call on the mailbox.
use mailhook.Common.{
  ℕ, ◌≤◌, Bool, true, false, String, List, ◌++◌, Option, none, some, str_eq, ◌≡◌, refl, arith, ap,
  ◌∙◌, sym, Bool-cases, inl, inr,
}
use mailhook.Pipeline.Effects.{
  ImapCall, ImapReply, done, failed, World, write, create_scan, update_scan, add_audit, pop_bool,
}
use mailhook.Pipeline.Imap.{
  take_imap_action, after_quarantine, update_quarantine_uid, audit_quarantine_desync,
  revert_to_inbox,
}
use mailhook.Pipeline.Imap.Retries.{rounds, call_of, take_imap_action-rounds}
use mailhook.Verdict.{Decision}
use mailhook.Records.{Scan}

rounds-zero : (c : Option ImapCall) (cs : List ImapCall) → rounds 0 c ++ cs ≡ cs
rounds-zero none cs = refl
rounds-zero (some c) cs = refl

module _ {F : Type 0} where
  -- A transaction that leaves the calls alone does so as it is committed or rolled back.
  pub write-imap_calls :
      (tx : World F → World F) (w : World F)
      → ((u : World F) → (tx u).imap_calls ≡ u.imap_calls)
      → (write tx w).0.imap_calls ≡ w.imap_calls
  unfolding write
  write-imap_calls tx w h = elim (Bool-cases (pop_bool w.db_fails).0) [
    | inl e ↦ rw e refl
    | inr e ↦ rw e (h (record w { db_fails = (pop_bool w.db_fails).1 }))
  ]

  pub create_scan-imap_calls :
      (r : Scan F) (w : World F) → (create_scan r w).0.imap_calls ≡ w.imap_calls
  unfolding create_scan
  create_scan-imap_calls r w = ground arith

  update_quarantine_uid-imap_calls :
      (mk : String → String → ℕ → String) (id uid : ℕ) (account mailbox : String) (w : World F)
      → (update_quarantine_uid mk id account uid mailbox w).0.imap_calls ≡ w.imap_calls
  unfolding update_quarantine_uid
  update_quarantine_uid-imap_calls mk id uid account mailbox w =
      elim (Bool-cases (str_eq mailbox "")) [
        | inl e ↦ rw e refl
        | inr e ↦ rw e (write-imap_calls _ w (λ u. unfold update_scan in refl))
      ]

  audit_quarantine_desync-imap_calls :
      (id : ℕ) (ok : Bool) (w : World F)
      → (audit_quarantine_desync id ok w).imap_calls ≡ w.imap_calls
  unfolding audit_quarantine_desync
  audit_quarantine_desync-imap_calls id true w = refl
  audit_quarantine_desync-imap_calls id false w =
      write-imap_calls _ w (λ u. unfold add_audit in refl)

  pub after_quarantine-imap_calls :
      (mk : String → String → ℕ → String) (audited : Bool) (id : ℕ) (account note : String)
      (p : World F × ImapReply)
      → (after_quarantine mk audited id account note p).imap_calls ≡ p.0.imap_calls
  unfolding after_quarantine revert_to_inbox
  after_quarantine-imap_calls mk audited id account note (w, failed e) =
      write-imap_calls _ w (λ u. unfold add_audit update_scan in refl)
  after_quarantine-imap_calls mk true id account note (w, done uid mailbox) =
      audit_quarantine_desync-imap_calls id _ _
      ∙ update_quarantine_uid-imap_calls mk id uid account mailbox w
  after_quarantine-imap_calls mk false id account note (w, done uid mailbox) =
      update_quarantine_uid-imap_calls mk id uid account mailbox w

-- From the first calls to the second the call of the decision was added, four times at most, and no
-- other.
abbrev pub Performs : Decision → String → ℕ → List ImapCall → List ImapCall → Type 0
Performs d mailbox uid cs cs' = (n : ℕ) × (n ≤ 4) × (cs' ≡ rounds n (call_of d mailbox uid) ++ cs)

pub Performs-none :
    (d : Decision) (mailbox : String) (uid : ℕ) {cs cs' : List ImapCall}
    → cs' ≡ cs
    → Performs d mailbox uid cs cs'
Performs-none d mailbox uid {cs} e =
    (0, omega arith, e ∙ sym (rounds-zero (call_of d mailbox uid) cs))

-- What makes no call may come before and after.
pub Performs-around :
    (d : Decision) (mailbox : String) (uid : ℕ) {cs us vs cs' : List ImapCall}
    → us ≡ cs
    → Performs d mailbox uid us vs
    → cs' ≡ vs
    → Performs d mailbox uid cs cs'
Performs-around d mailbox uid before (n, le, e) after =
    (n, le, after ∙ e ∙ ap (◌++◌ (rounds n (call_of d mailbox uid))) before)

pub take_imap_action-Performs :
    {F : Type 0} (d : Decision) (mailbox : String) (uid : ℕ) (w : World F)
    → Performs d mailbox uid w.imap_calls (take_imap_action d mailbox uid w).0.imap_calls
take_imap_action-Performs d mailbox uid w =
    let (n, le, e, _) = take_imap_action-rounds d mailbox uid w in (n, le, e)
