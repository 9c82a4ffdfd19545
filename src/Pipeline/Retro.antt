-- ===== src/Pipeline/Retro.antt =====
-- app/pipeline/retro.go: a clean message is taken back when one of its links is listed later. The
-- settings of the connection are left out.
pub mod Clawback
pub mod Sweep
use mailhook.Common.{
  ℕ, Bool, true, false, ◌&&◌, ◌||◌, ◌⧺◌, ◌==◌, String, List, [], ◌∷◌, Option, none, some,
  if◌then◌else◌, str_eq, any, ltb,
}
use mailhook.Common.Text.{trim_prefix, after_byte}
use mailhook.Floats.{Floats}
use mailhook.Pipeline.Effects.{
  World, ImapReply, done, failed, move_to_quarantine, call, write, update_scan, add_audit,
}
use mailhook.Records.{UrlHit, Status, inbox, quarantined, Scan, retro_quarantine_action}
use mailhook.Verdict.{Verdict}

-- What the scanner calls. Both lookups give a feed and a type of threat.
pub record RetroEnv : Type 0 where
  pub now : ℕ
  pub lookup_url : String → Option (String × String)
  pub lookup_url_exact : String → Option (String × String)
  pub account_known : String → Bool
  pub hostname : String → Option String
  pub to_lower : String → String
  pub unmarshal_urls : List ℕ → Option (List String)
  pub marshal_hits : List UrlHit → List ℕ
  pub account_uid : String → String → ℕ → String
  pub has_notifier : Bool
  pub has_hub : Bool

abbrev shared_hosting_domains : List String
shared_hosting_domains =
    "github.com" ∷ "githubusercontent.com" ∷ "github.io" ∷ "gitlab.com" ∷ "bitbucket.org"
    ∷ "drive.google.com" ∷ "docs.google.com" ∷ "storage.googleapis.com" ∷ "sharepoint.com"
    ∷ "onedrive.live.com" ∷ "1drv.ms" ∷ "dropbox.com" ∷ "box.com" ∷ "s3.amazonaws.com"
    ∷ "s3-us-west-2.amazonaws.com" ∷ "blob.core.windows.net" ∷ "cloudfront.net" ∷ "pages.dev"
    ∷ "workers.dev" ∷ "netlify.app" ∷ "vercel.app" ∷ "herokuapp.com" ∷ "azurewebsites.net"
    ∷ "web.app" ∷ "firebaseapp.com" ∷ "wordpress.com" ∷ "blogspot.com" ∷ "tumblr.com" ∷ "medium.com"
    ∷ "substack.com" ∷ "wixsite.com" ∷ []

pub is_shared_hosting_domain : String → Bool
is_shared_hosting_domain host =
    any (str_eq host) shared_hosting_domains || (elim (after_byte b'.' host) [
      | none ↦ false
      | some rest ↦ any (str_eq rest) shared_hosting_domains
    ])

abbrev pub is_inbox : Status → Bool
is_inbox inbox = true
is_inbox _ = false

module _ (env : RetroEnv) where
  pub extract_domain : String → String
  extract_domain raw_url = elim (env.hostname raw_url) [
    | none ↦ ""
    | some host ↦ trim_prefix "www." (env.to_lower host)
  ]

  -- A link on a platform that many tenants share is looked up whole.
  unfoldable pub lookup_hit : String → Option (String × String)
  lookup_hit u =
      if is_shared_hosting_domain (extract_domain u)
      then env.lookup_url_exact u
      else env.lookup_url u

  abbrev pub add_hit : String → Option (String × String) → List UrlHit → List UrlHit
  add_hit u none hits = hits
  add_hit u (some (feed, threat)) hits =
      record { url = u; domain = ""; feed = feed; threat_type = threat } ∷ hits

  unfoldable pub hits_of : List String → List UrlHit
  hits_of [] = []
  hits_of (u ∷ us) = add_hit u (lookup_hit u) (hits_of us)

  -- The links of a message, and none where the column does not parse.
  abbrev pub urls_of : Option (List String) → List String
  urls_of none = []
  urls_of (some us) = us

  module _ (fl : Floats) where
    open fl use {Float}

    -- The columns of a message that was taken back.
    pub quarantined_row :
        List UrlHit → Verdict → String → String → ℕ → String → Scan Float → Scan Float
    quarantined_row hits verdict reason account uid mailbox r =
        let r' : Scan Float = record r {
          verdict = verdict;
          verdict_reason = reason;
          status = quarantined;
          url_hits = env.marshal_hits hits;
          actioned_by = "retro";
          actioned_at = some env.now;
          imap_mailbox = mailbox;
        } in
        if ltb 0 uid
        then record r' { imap_uid = uid; account_uid = env.account_uid account mailbox uid }
        else r'

    abbrev pub if_inbox : (Scan Float → Scan Float) → Scan Float → Scan Float
    if_inbox f r = if is_inbox r.status then f r else r

    -- What is recorded of a move, and who is told. The failure of the transaction is only logged.
    pub record_clawback : Scan Float → UrlHit → List UrlHit → World Float × ImapReply → World Float
    record_clawback scan first rest (w, failed err) = w
    record_clawback scan first rest (w, done uid mailbox) =
        let hits = first ∷ rest in
        let verdict =
          if any (λ h. str_eq h.threat_type "malware") hits
          then Verdict.malware
          else Verdict.phish in
        let reason =
          "retrospective: " ⧺ first.url ⧺ " now in " ⧺ first.feed ⧺ " (" ⧺ first.threat_type
          ⧺ ")" in
        let (w', _) =
          write
            (λ u. add_audit scan.id retro_quarantine_action reason (
              update_scan scan.id
                (if_inbox (quarantined_row hits verdict reason scan.account_name uid mailbox)) u))
            w in
        record w' {
          sent = if env.has_notifier then reason ∷ w'.sent else w'.sent;
          broadcast =
              if env.has_hub && any (λ r. r.id == scan.id) w'.scans
              then scan.id ∷ w'.broadcast
              else w'.broadcast;
        }

    unfoldable pub clawback : Scan Float → List UrlHit → World Float → World Float
    clawback scan [] w = w
    clawback scan (first ∷ rest) w =
        if env.account_known scan.account_name
        then record_clawback scan first rest
            (call (move_to_quarantine scan.imap_mailbox scan.imap_uid) w)
        else w

    pub evaluate : Scan Float → World Float → World Float
    evaluate scan w = clawback scan (hits_of (urls_of (env.unmarshal_urls scan.scanned_urls))) w
