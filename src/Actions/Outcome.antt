-- ===== src/Actions/Outcome.antt =====
-- What the user is told and what was recorded agree.
use mailhook.Common.{
  ℕ, false, ◌==◌, String, List, [], ◌∷◌, Option, none, some, find, str_eq, ◌≡◌, ◌⊎◌, refl, arith,
  subst, ap, Bool-cases, Option-cases, inl, inr, All,
}
use mailhook.Common.Dict.{lookup}
use mailhook.Actions.{
  UserAction, release, release_and_learn, delete, quarantine, learn_spam, Response, not_found,
  bad_request, server_error, ok, ActionsEnv, entry, add_entry, set_status, update_status, respond,
  acted, quarantined_row, moved, learned, if_known, on_scan, on_found, handle,
}
use mailhook.Pipeline.Effects.{World, ImapReply, done, failed, call, write, update_scan, pop_bool}
use mailhook.Pipeline.Imap.Outcome.{update_row-All}
use mailhook.Records.{
  Status, quarantined, released, deleted, learned_ham, learned_spam, Scan, Action,
  quarantine_action, status_action,
}

abbrev pub status_after : UserAction → Status
status_after release = released
status_after release_and_learn = learned_ham
status_after delete = deleted
status_after quarantine = quarantined
status_after learn_spam = learned_spam

abbrev pub audited : UserAction → Action × String
audited quarantine = (quarantine_action, "user-triggered quarantine")
audited action = (status_action (status_after action), "")

module _ (env : ActionsEnv) {F : Type 0} where
  -- The row, if it has the ID, has the status.
  abbrev pub HasStatus : ℕ → Status → Scan F → Type 0
  HasStatus id s r = ((r.id == id) ≡ false) ⊎ (r.status ≡ s)

  abbrev Recorded : UserAction → ℕ → World F → World F → Type 0
  Recorded action id w w' =
      All (HasStatus id (status_after action)) w'.scans
      × (w'.audits ≡ entry env id (audited action).0 (audited action).1 ∷ w.audits)

  abbrev Unchanged : World F → World F → Type 0
  Unchanged w w' = (w'.scans ≡ w.scans) × (w'.audits ≡ w.audits)

  abbrev pub Agrees : UserAction → ℕ → World F → World F × Response → Type 0
  Agrees action id w (w', ok) = Recorded action id w w'
  Agrees action id w (w', not_found) = Unchanged w w'
  Agrees action id w (w', bad_request) = Unchanged w w'
  Agrees action id w (w', server_error) = Unchanged w w'

  -- A transaction that updates the row and adds the entry.
  respond-Agrees :
      (action : UserAction) (id : ℕ) (f : Scan F → Scan F) (w w' : World F)
      → Unchanged w w'
      → ((r : Scan F) → (f r).status ≡ status_after action)
      → Agrees action id w (
          respond env (
            write
              (λ u. add_entry env id (audited action).0 (audited action).1 (update_scan id f u))
              w'))
  unfolding write update_scan
  respond-Agrees action id f w w' (scans, audits) h = elim (Bool-cases (pop_bool w'.db_fails).0) [
    | inl e ↦ rw e (scans, audits)
    | inr e ↦ rw e (
      update_row-All (HasStatus id (status_after action)) id f w'.scans (λ r. inr (h r))
          (λ r k. inl k),
      ap (◌∷◌ (entry env id (audited action).0 (audited action).1)) audits,
    )
  ]

  update_status-Agrees :
      (action : UserAction) (scan : Scan F) (w w' : World F)
      → audited action ≡ (status_action (status_after action), "")
      → Unchanged w w'
      → Agrees action scan.id w (respond env (update_status env (status_after action) scan w'))
  unfolding update_status
  update_status-Agrees release scan w w' h u =
      respond-Agrees release scan.id (set_status env released) w w' u (λ r. refl)
  update_status-Agrees release_and_learn scan w w' h u =
      respond-Agrees release_and_learn scan.id (set_status env learned_ham) w w' u (λ r. refl)
  update_status-Agrees delete scan w w' h u =
      respond-Agrees delete scan.id (set_status env deleted) w w' u (λ r. refl)
  update_status-Agrees learn_spam scan w w' h u =
      respond-Agrees learn_spam scan.id (set_status env learned_spam) w w' u (λ r. refl)
  update_status-Agrees quarantine scan w w' h u = ground arith

  acted-Agrees :
      (action : UserAction) (scan : Scan F) (w : World F) (p : World F × ImapReply)
      → audited action ≡ (status_action (status_after action), "")
      → Unchanged w p.0
      → Agrees action scan.id w (acted env (status_after action) scan p)
  unfolding acted
  acted-Agrees action scan w (w', failed err) h u = u
  acted-Agrees action scan w (w', done _ _) h u = update_status-Agrees action scan w w' h u

  quarantined_row-status :
      (scan : Scan F) (uid : ℕ) (mailbox : String) (r : Scan F)
      → (quarantined_row env scan uid mailbox r).status ≡ quarantined
  unfolding quarantined_row
  quarantined_row-status scan uid mailbox r = ground arith

  moved-Agrees :
      (scan : Scan F) (w : World F) (p : World F × ImapReply)
      → Unchanged w p.0
      → Agrees quarantine scan.id w (moved env scan p)
  unfolding moved
  moved-Agrees scan w (w', failed err) u = u
  moved-Agrees scan w (w', done uid mailbox) u =
      respond-Agrees quarantine scan.id (quarantined_row env scan uid mailbox) w w' u
        (quarantined_row-status scan uid mailbox)

  learned-Agrees :
      (scan : Scan F) (o : Option (List ℕ)) (w : World F)
      → Agrees learn_spam scan.id w (learned env scan o w)
  unfolding learned
  learned-Agrees scan none w = (refl, refl)
  learned-Agrees scan (some raw) w = elim (Bool-cases env.learn_spam_works) [
    | inl e ↦ rw e (update_status-Agrees learn_spam scan w w refl (refl, refl))
    | inr e ↦ rw e (refl, refl)
  ]

  if_known-Agrees :
      (action : UserAction) (scan : Scan F) (w : World F) (answer : World F × Response)
      → Agrees action scan.id w answer
      → Agrees action scan.id w (if_known env scan answer w)
  unfolding if_known
  if_known-Agrees action scan w answer h = elim (Bool-cases (env.account_known scan.account_name)) [
    | inl e ↦ rw e h
    | inr e ↦ rw e (refl, refl)
  ]

  on_scan-Agrees :
      (action : UserAction) (scan : Scan F) (w : World F)
      → Agrees action scan.id w (on_scan env action scan w)
  unfolding on_scan call
  on_scan-Agrees release scan w =
      if_known-Agrees release scan w _ (acted-Agrees release scan w _ refl (refl, refl))
  on_scan-Agrees release_and_learn scan w =
      if_known-Agrees release_and_learn scan w _
        (acted-Agrees release_and_learn scan w _ refl (refl, refl))
  on_scan-Agrees delete scan w =
      if_known-Agrees delete scan w _ (acted-Agrees delete scan w _ refl (refl, refl))
  on_scan-Agrees quarantine scan w =
      if_known-Agrees quarantine scan w _ (moved-Agrees scan w _ (refl, refl))
  on_scan-Agrees learn_spam scan w = elim (Bool-cases (str_eq scan.eml_path "")) [
    | inl e ↦ rw e (refl, refl)
    | inr e ↦ rw e (learned-Agrees scan (lookup scan.eml_path w.emls) w)
  ]

  find_holds :
      (id : ℕ) (rs : List (Scan F)) (scan : Scan F)
      → find (λ r. r.id == id) rs ≡ some scan
      → scan.id ≡ id
  find_holds id [] scan h = ground arith
  find_holds id (r ∷ rs) scan h = elim (Bool-cases (r.id == id)) [
    | inl e ↦ ground arith
    | inr e ↦ ground (arith, find_holds id rs scan)
  ]

  -- Whatever the user does with a message: told that it worked, its row has the status of the action
  -- and the audit log begins with an entry of that user for it; told anything else, no row and no
  -- audit entry has changed.
  pub handle-Agrees :
      (action : UserAction) (id : ℕ) (w : World F) → Agrees action id w (handle env action id w)
  unfolding handle on_found
  handle-Agrees action id w = elim (Option-cases (find (λ r. r.id == id) w.scans)) [
    | inl e ↦ rw e (refl, refl)
    | inr (scan, e) ↦ rw e (
        subst (λ i. Agrees action i w (on_scan env action scan w)) (find_holds id w.scans scan e)
          (on_scan-Agrees action scan w))
  ]
