-- ===== src/Scanners/Daemons/Closed.antt =====
-- What the answers of clamd and Rspamd, and their failures, do to a message.
use mailhook.Common.{
  ℕ, Bool, true, false, not, ◌&&◌, ◌||◌, List, [], ◌∷◌, ◌++◌, ◌≡◌, ◌≢◌, refl, ◌∙◌, any, any-middle,
  arith,
}
use mailhook.Email.{Attachment, Email}
use mailhook.Floats.{Floats}
use mailhook.Scanners.Daemons.{
  Found, failed, found, Reply, scan_bytes, is_hit, is_failed, has_bytes, after_file, scan_files,
  after_message, scan_clamav, Rspamd, response, rspamd_result, scan_rspamd,
}
use mailhook.Verdict.Collect.{ScanResult}
use mailhook.Verdict.Pass.{Harmless, decide-harmful}
use mailhook.Verdict.Threats.{names_malware, decide_malware}
use mailhook.Verdict.{Decision, Verdict, Thresholds, decide}

module _ (clamd : List ℕ → Reply) where
  abbrev pub is_infected : Attachment → Bool
  is_infected att = has_bytes att.raw && is_hit (scan_bytes clamd att.raw)

  -- clamd names a signature for the message, or for an attachment of a message that it could read.
  abbrev pub any_infected : Email → Bool
  any_infected email =
      is_hit (scan_bytes clamd email.raw)
      || (not (is_failed (scan_bytes clamd email.raw)) && any is_infected email.attachments)

  module _ (fl : Floats) where
    open fl use {Float}

    after_file-names :
        (att : Attachment) (f : Found) (rest : ScanResult Float) (b : Bool)
        → names_malware fl rest ≡ b
        → names_malware fl (after_file clamd fl att f rest) ≡ (is_hit f || b)
    after_file-names att (failed _) rest b h = h
    after_file-names att (found s) rest b h = ground (arith, h)

    scan_files-names :
        (atts : List Attachment)
        → names_malware fl (scan_files clamd fl atts) ≡ any is_infected atts
    unfolding scan_files
    scan_files-names [] = refl
    scan_files-names (att ∷ atts) =
        let now =
          after_file-names att (scan_bytes clamd att.raw) (scan_files clamd fl atts) _
            (scan_files-names atts) in
        ground (arith, now, scan_files-names atts)

    after_message-names :
        (f : Found) (rest : ScanResult Float) (b : Bool)
        → names_malware fl rest ≡ b
        → names_malware fl (after_message clamd fl f rest) ≡ (is_hit f || (not (is_failed f) && b))
    after_message-names (failed _) rest b h = refl
    after_message-names (found s) rest b h = ground (arith, h)

    -- Where clamd names a signature for the message, or could read it and names one for an attachment,
    -- the enabled scanner's result makes `Decide` delete the message as malware, whatever the other
    -- results are and even where clamd failed on other attachments.
    pub decide-infected :
        (t : Thresholds Float) (email : Email) (before after : List (ScanResult Float))
        → any_infected email ≡ true
        → let rs = before ++ scan_clamav clamd fl true email ∷ after in
          ((decide fl t email rs).decision ≡ Decision.delete)
          × ((decide fl t email rs).verdict ≡ Verdict.malware)
    decide-infected t email before after h =
        let r : ScanResult Float = scan_clamav clamd fl true email in
        decide_malware fl t email (before ++ r ∷ after) (
          any-middle (names_malware fl) before r after (
            unfold scan_clamav in
            after_message-names (scan_bytes clamd email.raw) _ _
              (scan_files-names email.attachments)
            ∙ h))

    after_message-failed :
        (f : Found) (rest : ScanResult Float)
        → is_failed f ≡ true
        → Harmless (after_message clamd fl f rest).scanner (after_message clamd fl f rest).verdict
        → ⊥
    after_message-failed (failed e) rest h (calm, fine) = ground (arith, fine)
    after_message-failed (found s) rest h k = ground (arith, h)

    -- Where clamd fails on the message itself, the enabled scanner's result keeps `Decide` from letting
    -- the message pass, whatever the other results are.
    pub decide-unscanned :
        (t : Thresholds Float) (email : Email) (before after : List (ScanResult Float))
        → is_failed (scan_bytes clamd email.raw) ≡ true
        → (decide fl t email (before ++ scan_clamav clamd fl true email ∷ after)).decision
          ≢ Decision.pass
    decide-unscanned t email before after h =
        decide-harmful fl t email before (scan_clamav clamd fl true email) after (
          unfold scan_clamav in
          after_message-failed (scan_bytes clamd email.raw) (scan_files clamd fl email.attachments)
            h)

module _ (fl : Floats) where
  open fl use {Float}

  abbrev pub is_response : Rspamd Float → Bool
  is_response (response _) = true
  is_response _ = false

  rspamd_result-failed :
      (a : Rspamd Float)
      → is_response a ≡ false
      → Harmless (rspamd_result fl a).scanner (rspamd_result fl a).verdict
      → ⊥
  rspamd_result-failed (response _) h k = ground (arith, h)
  rspamd_result-failed _ h k = ground (arith, k)

  -- Where Rspamd gives no response that decodes, the enabled scanner's result keeps `Decide` from
  -- letting the message pass, whatever the other results are.
  pub decide-unrated :
      (t : Thresholds Float) (email : Email) (service : List ℕ → Rspamd Float)
      (before after : List (ScanResult Float))
      → is_response (service email.raw) ≡ false
      → (decide fl t email (before ++ scan_rspamd fl service true email ∷ after)).decision
        ≢ Decision.pass
  decide-unrated t email service before after h =
      decide-harmful fl t email before (scan_rspamd fl service true email) after
        (unfold scan_rspamd in rspamd_result-failed (service email.raw) h)
