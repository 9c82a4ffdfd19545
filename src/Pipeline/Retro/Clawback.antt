-- ===== src/Pipeline/Retro/Clawback.antt =====
-- What taking a message back changes.
use mailhook.Common.{
  ℕ, Bool, true, false, not, ◌&&◌, ◌==◌, ◌⧺◌, String, List, [], ◌∷◌, Option, none, some,
  if◌then◌else◌, ◌≡◌, ◌⊎◌, refl, arith, ap, ◌∙◌, Bool-cases, inl, inr, any, filter, All, str_eq,
}
use mailhook.Floats.{Floats}
use mailhook.Pipeline.Effects.{
  World, ImapReply, done, failed, move_to_quarantine, call, write, update_scan, update_row,
  add_audit, pop_bool,
}
use mailhook.Pipeline.Retro.{
  RetroEnv, is_inbox, lookup_hit, hits_of, urls_of, quarantined_row, if_inbox, record_clawback,
  clawback, evaluate,
}
use mailhook.Records.{UrlHit, Scan, retro_quarantine_action}
use mailhook.Verdict.{Verdict}

abbrev is_found : Option (String × String) → Bool
is_found none = false
is_found (some p) = true

module _ (env : RetroEnv) where
  -- Whether a feed lists the link now.
  abbrev pub is_listed : String → Bool
  is_listed u = is_found (lookup_hit env u)

  abbrev some_hits : List UrlHit → Bool
  some_hits [] = false
  some_hits (h ∷ hs) = true

  module _ (fl : Floats) where
    open fl use {Float}

    abbrev pub other : ℕ → Scan Float → Bool
    other id r = not (r.id == id)

    -- An update that keeps the ID of a row leaves the other rows alone.
    update_row-other :
        (id : ℕ) (f : Scan Float → Scan Float) (rs : List (Scan Float))
        → ((r : Scan Float) → (f r).id ≡ r.id)
        → filter (other id) (update_row id f rs) ≡ filter (other id) rs
    unfolding update_row filter
    update_row-other id f [] h = refl
    update_row-other id f (r ∷ rs) h = elim (Bool-cases (r.id == id)) [
      | inl e ↦ rw (e, h r, e) (update_row-other id f rs h)
      | inr e ↦ rw (e, e) (ap (◌∷◌ r) (update_row-other id f rs h))
    ]

    abbrev pub IsActedOn : ℕ → Scan Float → Type 0
    IsActedOn id r = (r.id == id && is_inbox r.status) ≡ false

    update_row-acted :
        (id : ℕ) (f : Scan Float → Scan Float) (rs : List (Scan Float))
        → All (IsActedOn id) rs
        → update_row id (if_inbox env fl f) rs ≡ rs
    unfolding update_row
    update_row-acted id f [] h = refl
    update_row-acted id f (r ∷ rs) (h, hs) = elim (Bool-cases (r.id == id)) [
      | inl e ↦ elim (Bool-cases (is_inbox r.status)) [
        | inl k ↦ ground arith
        | inr k ↦ rw (e, k) (ap (◌∷◌ r) (update_row-acted id f rs hs))
      ]
      | inr e ↦ rw e (ap (◌∷◌ r) (update_row-acted id f rs hs))
    ]

    pub quarantined_row-id :
        (hits : List UrlHit) (v : Verdict) (reason account : String) (uid : ℕ) (mailbox : String)
        (r : Scan Float)
        → (if_inbox env fl (quarantined_row env fl hits v reason account uid mailbox) r).id ≡ r.id
    unfolding quarantined_row
    quarantined_row-id hits v reason account uid mailbox r = ground arith

    -- The rows of a transaction that changes them by an update.
    write-scans :
        (tx : World Float → World Float) (w : World Float) (rs : List (Scan Float))
        → ((u : World Float) → u.scans ≡ w.scans → (tx u).scans ≡ rs)
        → ((write tx w).0.scans ≡ w.scans) ⊎ ((write tx w).0.scans ≡ rs)
    unfolding write
    write-scans tx w rs h = elim (Bool-cases (pop_bool w.db_fails).0) [
      | inl e ↦ inl (rw e refl)
      | inr e ↦ inr (rw e (h (record w { db_fails = (pop_bool w.db_fails).1 }) refl))
    ]

    -- The rows are left alone, or the message's row in the inbox is updated.
    abbrev pub Updates : Scan Float → World Float → World Float → Type 0
    Updates scan w w' =
        (w'.scans ≡ w.scans)
        ⊎ ((hits : List UrlHit) × (uid : ℕ) × (mailbox : String) × (reason : String) × (v : Verdict)
            × (w'.scans
                ≡ update_row scan.id
                    (if_inbox env fl
                      (quarantined_row env fl hits v reason scan.account_name uid mailbox))
                    w.scans))

    record_clawback-scans :
        (scan : Scan Float) (first : UrlHit) (rest : List UrlHit) (p : World Float × ImapReply)
        → Updates scan p.0 (record_clawback env fl scan first rest p)
    unfolding record_clawback
    record_clawback-scans scan first rest (w, failed err) = inl refl
    record_clawback-scans scan first rest (w, done uid mailbox) =
        let hits = first ∷ rest in
        let verdict =
          if any (λ h. str_eq h.threat_type "malware") hits
          then Verdict.malware
          else Verdict.phish in
        let reason =
          "retrospective: " ⧺ first.url ⧺ " now in " ⧺ first.feed ⧺ " (" ⧺ first.threat_type
          ⧺ ")" in
        let f =
          if_inbox env fl
            (quarantined_row env fl hits verdict reason scan.account_name uid mailbox) in
        elim (write-scans
          (λ u. add_audit scan.id retro_quarantine_action reason (update_scan scan.id f u)) w
          (update_row scan.id f w.scans)
          (λ u h. unfold add_audit update_scan in ap (update_row scan.id f) h)) [
            | inl e ↦ inl e
            | inr e ↦ inr (hits, uid, mailbox, reason, verdict, e)
          ]

    clawback-scans :
        (scan : Scan Float) (hits : List UrlHit) (w : World Float)
        → Updates scan w (clawback env fl scan hits w)
    unfolding clawback call
    clawback-scans scan [] w = inl refl
    clawback-scans scan (first ∷ rest) w = elim (Bool-cases (env.account_known scan.account_name)) [
      | inl e ↦ rw e (
          record_clawback-scans scan first rest
            (call (move_to_quarantine scan.imap_mailbox scan.imap_uid) w))
      | inr e ↦ rw e (inl refl)
    ]

    pub evaluate-scans :
        (scan : Scan Float) (w : World Float) → Updates scan w (evaluate env fl scan w)
    unfolding evaluate
    evaluate-scans scan w =
        clawback-scans scan (hits_of env (urls_of env (env.unmarshal_urls scan.scanned_urls))) w

    -- Evaluating a message changes no row but its own.
    pub evaluate-others :
        (scan : Scan Float) (w : World Float)
        → filter (other scan.id) (evaluate env fl scan w).scans ≡ filter (other scan.id) w.scans
    unfolding evaluate
    evaluate-others scan w =
        let hits = hits_of env (urls_of env (env.unmarshal_urls scan.scanned_urls)) in
        elim (clawback-scans scan hits w) [
          | inl e ↦ ap (filter (other scan.id)) e
          | inr (first, uid, mailbox, reason, v, e) ↦
              ap (filter (other scan.id)) e
              ∙ update_row-other scan.id
                  (if_inbox env fl
                    (quarantined_row env fl first v reason scan.account_name uid mailbox))
                  w.scans (quarantined_row-id first v reason scan.account_name uid mailbox)
        ]

    -- Where every row of a message has left the inbox, evaluating the message changes no row.
    pub evaluate-acted :
        (scan : Scan Float) (w : World Float)
        → All (IsActedOn scan.id) w.scans
        → (evaluate env fl scan w).scans ≡ w.scans
    unfolding evaluate
    evaluate-acted scan w h =
        let hits = hits_of env (urls_of env (env.unmarshal_urls scan.scanned_urls)) in
        elim (clawback-scans scan hits w) [
          | inl e ↦ e
          | inr (first, uid, mailbox, reason, v, e) ↦
              e
              ∙ update_row-acted scan.id
                  (quarantined_row env fl first v reason scan.account_name uid mailbox) w.scans h
        ]
