-- ===== src/Pipeline/Imap/Retries.antt =====
-- What the retries call, and when they give up.
use mailhook.Common.{
  ℕ, zero, ◌≤◌, suc, String, List, [], ◌∷◌, ◌++◌, Option, none, some, length, ◌≡◌, refl, arith, ap,
  ◌∙◌, sym, subst, Bool-cases, inl, inr, ◌⊎◌,
}
use mailhook.Pipeline.Effects.{
  ImapCall, move_to_quarantine, delete_message, flag_message, ImapReply, done, failed, World, wait,
  call,
}
use mailhook.Pipeline.Imap.{delays, attempts, is_done, take_imap_action, drop_uid}
use mailhook.Verdict.{Decision, pass, quarantine, delete, flag}

-- n times the same call.
abbrev pub repeat : ℕ → ImapCall → List ImapCall
repeat zero c = []
repeat (suc n) c = c ∷ repeat n c

repeat-cons :
    (n : ℕ) (c : ImapCall) (cs : List ImapCall) → repeat n c ++ c ∷ cs ≡ c ∷ (repeat n c ++ cs)
repeat-cons zero c cs = refl
repeat-cons (suc n) c cs = ap (◌∷◌ c) (repeat-cons n c cs)

-- The call of a decision, if it has one.
abbrev pub call_of : Decision → String → ℕ → Option ImapCall
call_of delete mailbox uid = some (delete_message mailbox uid)
call_of quarantine mailbox uid = some (move_to_quarantine mailbox uid)
call_of flag mailbox uid = some (flag_message mailbox uid)
call_of pass mailbox uid = none

-- The calls of n rounds of an action.
abbrev pub rounds : ℕ → Option ImapCall → List ImapCall
rounds n none = []
rounds n (some c) = repeat n c

module _ {F : Type 0} where
  -- The database is as it was, apart from nothing.
  abbrev pub SameDb : World F → World F → Type 0
  SameDb w w' =
      (w'.scans ≡ w.scans)
      × (w'.audits ≡ w.audits)
      × (w'.stats ≡ w.stats)
      × (w'.db_fails ≡ w.db_fails)
      × (w'.next_id ≡ w.next_id)
      × (w'.emls ≡ w.emls)

  SameDb-trans : (u v w : World F) → SameDb u v → SameDb v w → SameDb u w
  SameDb-trans u v w (a, b, c, d, e, f) (a', b', c', d', e', f') =
      (a' ∙ a, b' ∙ b, c' ∙ c, d' ∙ d, e' ∙ e, f' ∙ f)

  -- At most n calls were made since, all of them c.
  abbrev Calls : ImapCall → ℕ → World F → World F × ImapReply → Type 0
  Calls c most w p =
      (n : ℕ) × (n ≤ most) × (p.0.imap_calls ≡ repeat n c ++ w.imap_calls) × SameDb w p.0

  wait-same :
      (d : ℕ) (w : World F)
      → ((wait d w).0.imap_calls ≡ w.imap_calls)
        × ((wait d w).0.imap_replies ≡ w.imap_replies)
        × SameDb w (wait d w).0
  unfolding wait
  wait-same d w = ground arith

  attempts-cases :
      (c : ImapCall) (d : ℕ) (ds : List ℕ) (last : ImapReply) (w : World F)
      → let after = call c (wait d w).0 in
        (attempts c (d ∷ ds) last w ≡ ((wait d w).0, failed "context canceled"))
        ⊎ ((attempts c (d ∷ ds) last w ≡ after)
            ⊎ (attempts c (d ∷ ds) last w ≡ attempts c ds after.1 after.0))
  unfolding attempts
  attempts-cases c d ds last w = elim (Bool-cases (wait d w).1) [
    | inl stop ↦ inl (rw (stop, attempts) refl)
    | inr on ↦ elim (Bool-cases (is_done (call c (wait d w).0).1)) [
      | inl ok ↦ inr (inl (rw (on, ok, attempts) refl))
      | inr bad ↦ inr (inr (rw (on, bad, attempts) refl))
    ]
  ]

  attempts-Calls :
      (c : ImapCall) (ds : List ℕ) (last : ImapReply) (w : World F)
      → Calls c (length ds) w (attempts c ds last w)
  unfolding attempts call
  attempts-Calls c [] last w = (0, omega arith, refl, (refl, refl, refl, refl, refl, refl))
  attempts-Calls c (d ∷ ds) last w =
      let (calls, _, same) = wait-same d w in
      elim (attempts-cases c d ds last w) [
        | inl e ↦ subst (Calls c _ w) (sym e) (0, omega arith, calls, same)
        | inr (inl e) ↦ subst (Calls c _ w) (sym e) (1, omega arith, ap (◌∷◌ c) calls, same)
        | inr (inr e) ↦
            let (n, le, more, same') =
              attempts-Calls c ds (call c (wait d w).0).1 (call c (wait d w).0).0 in
            subst (Calls c _ w) (sym e) (
              suc n,
              omega arith,
              more ∙ repeat-cons n c (wait d w).0.imap_calls ∙ ap (◌++◌ (repeat (suc n) c)) calls,
              SameDb-trans w (wait d w).0
                  (attempts c ds (call c (wait d w).0).1 (call c (wait d w).0).0).0 same same',
            )
      ]

  drop_uid-Calls :
      (c : ImapCall) (most : ℕ) (w : World F) (p : World F × ImapReply)
      → Calls c most w p
      → Calls c most w (drop_uid p)
  unfolding drop_uid
  drop_uid-Calls c most w (w', done _ _) h = h
  drop_uid-Calls c most w (w', failed _) h = h

  -- The action of a decision makes its own call alone, four times at most, none where the message
  -- passes, and leaves the database as it is.
  pub take_imap_action-rounds :
      (d : Decision) (mailbox : String) (uid : ℕ) (w : World F)
      → (n : ℕ) × (n ≤ 4)
        × ((take_imap_action d mailbox uid w).0.imap_calls
            ≡ rounds n (call_of d mailbox uid) ++ w.imap_calls)
        × SameDb w (take_imap_action d mailbox uid w).0
  unfolding take_imap_action
  take_imap_action-rounds delete mailbox uid w =
      drop_uid-Calls _ 4 w _ (attempts-Calls (delete_message mailbox uid) delays (done 0 "") w)
  take_imap_action-rounds quarantine mailbox uid w =
      attempts-Calls (move_to_quarantine mailbox uid) delays (done 0 "") w
  take_imap_action-rounds flag mailbox uid w =
      drop_uid-Calls _ 4 w _ (attempts-Calls (flag_message mailbox uid) delays (done 0 "") w)
  take_imap_action-rounds pass mailbox uid w =
      (0, omega arith, refl, (refl, refl, refl, refl, refl, refl))
