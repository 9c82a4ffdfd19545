-- ===== src/Pipeline/Effects.antt =====
-- What the pipeline changes: the database, the mailbox, the stored messages and the notifications.
-- The outcomes of what lies outside are queues: a transaction that fails, a reply of the IMAP
-- server, a wait that is cut short. An empty queue stands for success.
use mailhook.Common.{
  ℕ, ◌+◌, Bool, true, false, ◌&&◌, String, List, [], ◌∷◌, Option, none, some, if◌then◌else◌, str_eq,
  ◌==◌, ltb, any,
}
use mailhook.Records.{Action, Scan, AuditLog, DailyStat}

pub data ImapCall : Type 0 where
  move_to_quarantine delete_message flag_message : String → ℕ → ImapCall
  -- The web actions' call: from the quarantine folder to the inbox.
  release_to_inbox : ℕ → ImapCall

-- A reply: the new UID and folder of a move, or the text of an error.
pub data ImapReply : Type 0 where
  done : ℕ → String → ImapReply
  failed : String → ImapReply

pub record World (F : Type 0) : Type 0 where
  pub scans : List (Scan F)
  pub audits : List AuditLog
  pub stats : List (String × DailyStat)
  pub next_id : ℕ
  pub emls : List (String × List ℕ)
  pub imap_calls : List ImapCall
  -- The sent notifications' reasons, the scanners reported as down, and the broadcast scans.
  pub sent : List String
  pub engines_down : List String
  pub broadcast : List ℕ
  pub db_fails : List Bool
  pub imap_replies : List ImapReply
  pub cancels : List Bool

abbrev pub pop_bool : List Bool → Bool × List Bool
pop_bool [] = (false, [])
pop_bool (b ∷ bs) = (b, bs)

abbrev pub pop_reply : List ImapReply → ImapReply × List ImapReply
pop_reply [] = (done 0 "", [])
pop_reply (r ∷ rs) = (r, rs)

module _ {F : Type 0} where
  -- `gdb.Write`: the transaction, unless it fails, and whether it was committed.
  unfoldable pub write : (World F → World F) → World F → World F × Bool
  write tx w =
      let (fails, later) = pop_bool w.db_fails in
      let w' : World F = record w { db_fails = later } in
      if fails then (w', false) else (tx w', true)

  -- The unique index on `account_uid` and `imap_uid`.
  abbrev pub same_key : Scan F → Scan F → Bool
  same_key r s = str_eq r.account_uid s.account_uid && r.imap_uid == s.imap_uid

  -- A plain insertion: the row's ID, or nothing where the transaction fails or the row exists.
  unfoldable pub create_scan : Scan F → World F → World F × Option ℕ
  create_scan r w =
      let (fails, later) = pop_bool w.db_fails in
      let w' : World F = record w { db_fails = later } in
      if fails then (w', none) else if any (same_key r) w.scans then (w', none) else (
        record w' { scans = record r { id = w.next_id } ∷ w.scans; next_id = w.next_id + 1 },
        some w.next_id,
      )

  -- `tx.Model(rec).Updates(…)`, on the row with the ID.
  unfoldable pub update_row : ℕ → (Scan F → Scan F) → List (Scan F) → List (Scan F)
  update_row id f [] = []
  update_row id f (r ∷ rs) = (if r.id == id then f r else r) ∷ update_row id f rs

  unfoldable pub update_scan : ℕ → (Scan F → Scan F) → World F → World F
  unfolding update_row
  update_scan id f w = record w { scans = update_row id f w.scans }

  unfoldable pub add_audit : ℕ → Action → String → World F → World F
  add_audit id action note w = record w {
    audits = record { scan_id = id; action = action; actor = "auto"; note = note } ∷ w.audits;
  }

  -- A wait before a retry: whether the context ended first.
  unfoldable pub wait : ℕ → World F → World F × Bool
  wait delay w =
      let (cancelled, later) = pop_bool w.cancels in
      if ltb 0 delay then (record w { cancels = later }, cancelled) else (w, false)

  unfoldable pub call : ImapCall → World F → World F × ImapReply
  call c w =
      let (reply, later) = pop_reply w.imap_replies in
      (record w { imap_calls = c ∷ w.imap_calls; imap_replies = later }, reply)
