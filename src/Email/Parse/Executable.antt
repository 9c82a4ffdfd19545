-- ===== src/Email/Parse/Executable.antt =====
-- A dangerous attachment, from the parts of the message to the decision.
use mailhook.Common.{
  ℕ, Bool, true, false, ◌&&◌, ◌||◌, String, List, [], ◌∷◌, ◌++◌, Option, none, some, ◌≡◌, ◌≢◌, refl,
  sym, ◌∙◌, ap, arith, leb, ltb, if◌then◌else◌,
}
use mailhook.Email.Parse.{ParseLib, Header, email_of, parsed, parse, content_of}
use mailhook.Email.Parts.{
  Part, part_error, inline, attachment, other_part, Body, AttachmentHeader, Content, no_content,
  attachment_name, attachment_of, build_attachment, add_attachment, add_part, add_parts,
}
use mailhook.Email.{Attachment, Email}
use mailhook.Floats.{Floats}
use mailhook.Util.{MimeLib, dangerous_extension, is_executable}
use mailhook.Verdict.Collect.{ScanResult}
use mailhook.Verdict.Pass.{decide-pass}
use mailhook.Verdict.{Decision, Thresholds, decide}

module _ (lib : MimeLib) (sha256_hex : List ℕ → String) (text : List ℕ → String) where
  add_attachment-keeps :
      (att : Option Attachment) (c : Content)
      → c.has_executable ≡ true
      → (add_attachment att c).has_executable ≡ true
  add_attachment-keeps none c h = h
  add_attachment-keeps (some att) c h = ground arith

  choice-keeps :
      (b : Bool) (c d : Content)
      → c.has_executable ≡ true
      → d.has_executable ≡ true
      → (if b then c else d).has_executable ≡ true
  choice-keeps true c d h k = h
  choice-keeps false c d h k = k

  add_part-keeps :
      (max : ℕ) (p : Part) (c : Content)
      → c.has_executable ≡ true
      → (add_part lib sha256_hex text max p c).has_executable ≡ true
  unfolding add_part
  add_part-keeps max part_error c h = h
  add_part-keeps max other_part c h = h
  add_part-keeps max (inline content_type body) c h = choice-keeps _ c _ h h
  add_part-keeps max (attachment header body) c h =
      choice-keeps _ c _ h (add_attachment-keeps _ c h)

  -- No later part takes the mark back.
  add_parts-keeps :
      (max : ℕ) (ps : List Part) (c : Content)
      → c.has_executable ≡ true
      → (add_parts lib sha256_hex text max ps c).has_executable ≡ true
  unfolding add_parts
  add_parts-keeps max [] c h = h
  add_parts-keeps max (p ∷ ps) c h = add_parts-keeps max ps _ (add_part-keeps max p c h)

  add_part-marks :
      (max : ℕ) (header : AttachmentHeader) (body : Body) (c : Content)
      → body.fails ≡ false
      → (ltb 0 max && leb max c.total_attachment_bytes) ≡ false
      → (dangerous_extension lib (attachment_name lib sha256_hex text header)
          || is_executable lib header.content_type)
        ≡ true
      → (add_part lib sha256_hex text max (attachment header body) c).has_executable ≡ true
  unfolding add_part build_attachment attachment_of
  add_part-marks max header body c read room danger = rw (room, read, danger) refl

  add_parts-marks :
      (max : ℕ) (before : List Part) (header : AttachmentHeader) (body : Body) (after : List Part)
      (c : Content)
      → body.fails ≡ false
      → (ltb 0 max && leb max (add_parts lib sha256_hex text max before c).total_attachment_bytes)
        ≡ false
      → (dangerous_extension lib (attachment_name lib sha256_hex text header)
          || is_executable lib header.content_type)
        ≡ true
      → (add_parts lib sha256_hex text max
          (before ++ attachment header body ∷ after)
          c).has_executable
        ≡ true
  unfolding add_parts
  add_parts-marks max [] header body after c read room danger =
      add_parts-keeps max after _ (add_part-marks max header body c read room danger)
  add_parts-marks max (p ∷ before) header body after c read room danger =
      add_parts-marks max before header body after _ read room danger

module _ (lib : ParseLib) where
  -- The file name of the attachment has a dangerous extension, or its content type is that of an
  -- executable.
  abbrev pub is_harmful : AttachmentHeader → Bool
  is_harmful header =
      dangerous_extension lib.mime (attachment_name lib.mime lib.sha256_hex lib.text header)
      || is_executable lib.mime header.content_type

  -- Where the reader finds an attachment, whose name has a dangerous extension or whose content type
  -- is that of an executable, whose body can be read, and before which the attachments have not used
  -- up the configured number of bytes, the message that is parsed from it is not let pass, whatever
  -- the other parts are and whatever the scanners say.
  pub parse-executable :
      (fl : Floats) (t : Thresholds fl.Float) (rs : List (ScanResult fl.Float)) (raw : List ℕ)
      (account : String) (uid : ℕ) (mailbox : String) (max : ℕ) (trusted : String) (h : Header)
      (before : List Part) (header : AttachmentHeader) (body : Body) (after : List Part)
      → lib.read_message raw ≡ some (h, before ++ attachment header body ∷ after)
      → body.fails ≡ false
      → (ltb 0 max && leb max (content_of lib max before).total_attachment_bytes) ≡ false
      → is_harmful header ≡ true
      → (email : Email) × (parse lib raw account uid mailbox max trusted ≡ some email)
        × ((decide fl t email rs).decision ≢ Decision.pass)
  unfolding parse email_of
  parse-executable fl t rs raw account uid mailbox max trusted h before header body after e read
        room danger =
      let parts = before ++ attachment header body ∷ after in
      let email = email_of lib raw account uid mailbox trusted h (content_of lib max parts) in
      let marked =
        add_parts-marks lib.mime lib.sha256_hex lib.text max before header body after no_content
          read room danger in
      (
        email,
        ap (parsed lib raw account uid mailbox max trusted) e,
        λ passed.
            let unmarked = (decide-pass fl t email rs passed).2 in
            ground (arith, sym marked ∙ unmarked),
      )
