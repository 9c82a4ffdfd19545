-- ===== src/Actions/Rescan.antt =====
-- app/web/handlers/actions.go, `Rescan`: the stored message goes through the pipeline again. The run in
-- the background is joined to the request, and the slot of the pipeline is free.
use mailhook.Common.{
  ℕ, Bool, true, false, ◌==◌, String, List, Option, none, some, if◌then◌else◌, find, str_eq, ◌≡◌,
  refl,
}
use mailhook.Common.Dict.{lookup}
use mailhook.Actions.{ActionsEnv, add_entry}
use mailhook.Floats.{Floats}
use mailhook.Pipeline.Effects.{World, write}
use mailhook.Pipeline.Env.{Env, Parsed}
use mailhook.Pipeline.Imap.Calls.{Performs, Performs-none, Performs-around, write-imap_calls}
use mailhook.Pipeline.Process.{process}
use mailhook.Pipeline.Process.Safety.{planned, process-Performs}
use mailhook.Records.{Scan, live, rescan_action}

pub data RescanReply : Type 0 where
  not_found bad_request server_error accepted : RescanReply

module _ (env : ActionsEnv) (has_processor : String → Bool) (fl : Floats) (pipeline : Env fl) where
  open fl use {Float}

  module _ (parse : List ℕ → Parsed) where
    abbrev on_raw : Scan Float → Option (List ℕ) → World Float → World Float × RescanReply
    on_raw scan none w = (w, server_error)
    on_raw scan (some raw) w = (
      process fl pipeline true live scan.account_name scan.imap_uid scan.imap_mailbox raw
          (parse raw) (write (add_entry env scan.id rescan_action "") w).0,
      accepted,
    )

    abbrev on_scan : Scan Float → World Float → World Float × RescanReply
    on_scan scan w =
        if str_eq scan.eml_path ""
        then (w, bad_request)
        else if has_processor scan.account_name
        then on_raw scan (lookup scan.eml_path w.emls) w
        else (w, bad_request)

    abbrev on_found : Option (Scan Float) → World Float → World Float × RescanReply
    on_found none w = (w, not_found)
    on_found (some scan) w = on_scan scan w

    unfoldable pub rescan : ℕ → World Float → World Float × RescanReply
    rescan id w = on_found (find (λ r. r.id == id) w.scans) w

    choice-Performs :
        (scan : Scan Float) (b : Bool) (w : World Float) (x y : World Float × RescanReply)
        (raw : List ℕ)
        → Performs
            (planned fl pipeline (parse raw))
            scan.imap_mailbox
            scan.imap_uid
            w.imap_calls
            x.0.imap_calls
        → Performs
            (planned fl pipeline (parse raw))
            scan.imap_mailbox
            scan.imap_uid
            w.imap_calls
            y.0.imap_calls
        → Performs
            (planned fl pipeline (parse raw))
            scan.imap_mailbox
            scan.imap_uid
            w.imap_calls
            (if b then x else y).0.imap_calls
    choice-Performs scan true w x y raw h k = h
    choice-Performs scan false w x y raw h k = k

    -- A rescan makes no other call on the mailbox than the one that the stored message's results call
    -- for, four times at most, for the folder and the UID of the row.
    pub rescan-Performs :
        (id : ℕ) (w : World Float) (scan : Scan Float) (raw : List ℕ)
        → find (λ r. r.id == id) w.scans ≡ some scan
        → lookup scan.eml_path w.emls ≡ some raw
        → Performs
            (planned fl pipeline (parse raw))
            scan.imap_mailbox
            scan.imap_uid
            w.imap_calls
            (rescan id w).0.imap_calls
    unfolding rescan
    rescan-Performs id w scan raw e stored =
        let d = planned fl pipeline (parse raw) in
        let none_made = Performs-none d scan.imap_mailbox scan.imap_uid {cs = w.imap_calls} refl in
        let before = write-imap_calls (add_entry env scan.id rescan_action "") w (λ u. refl) in
        rw (e, stored)
          (choice-Performs scan (str_eq scan.eml_path "") w _ _ raw none_made (
            choice-Performs scan (has_processor scan.account_name) w _ _ raw
              (Performs-around d scan.imap_mailbox scan.imap_uid before
                (process-Performs fl pipeline true live scan.account_name scan.imap_uid
                  scan.imap_mailbox raw (parse raw)
                  (write (add_entry env scan.id rescan_action "") w).0)
                refl)
              none_made))
