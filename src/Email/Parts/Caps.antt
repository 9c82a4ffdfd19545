-- ===== src/Email/Parts/Caps.antt =====
-- What holds of the content, whatever the parts are.
use mailhook.Common.{
  ℕ, ◌+◌, ◌-◌, ◌≤◌, Bool, true, false, ◌&&◌, ◌||◌, String, List, [], ◌∷◌, ◌++◌, some, if◌then◌else◌,
  leb, ltb, length, any, ◌≡◌, refl, arith, Bool-cases, inl, inr, All, All-append, take, length-take,
}
use mailhook.Email.{Attachment}
use mailhook.Email.Parts.{
  Body, AttachmentHeader, Part, part_error, inline, attachment, other_part, Content, no_content,
  megabytes, smaller, attachment_of, build_attachment, budget, add_attachment, add_text, add_part,
  add_parts,
}
use mailhook.Common.Text.{text_length, text_length-append}
use mailhook.Util.{MimeLib}

unfoldable pub sizes : List Attachment → ℕ
sizes [] = 0
sizes (a ∷ atts) = length a.raw + sizes atts

sizes-snoc :
    (atts : List Attachment) (a : Attachment) → sizes (atts ++ a ∷ []) ≡ sizes atts + length a.raw
unfolding sizes
sizes-snoc [] a = ground arith
sizes-snoc (b ∷ atts) a = ground (arith, sizes-snoc atts a)

any-snoc :
    (p : Attachment → Bool) (atts : List Attachment) (a : Attachment)
    → any p (atts ++ a ∷ []) ≡ (any p atts || p a)
any-snoc p [] a = ground arith
any-snoc p (b ∷ atts) a = ground (arith, any-snoc p atts a)

-- The content of a message with this maximum for its attachments.
pub record IsContent (max_attachment_bytes : ℕ) (c : Content) : Type 0 where
  -- There is a dangerous attachment exactly when the message is said to have one.
  pub danger : c.has_executable ≡ any (λ a. a.is_dangerous) c.attachments
  -- The total is that of the attachments, and each one's size is that of its bytes.
  pub total : c.total_attachment_bytes ≡ sizes c.attachments
  pub size : All (λ a. (a.size_bytes ≡ length a.raw) × (length a.raw ≤ megabytes 50)) c.attachments
  -- The caps.
  pub attachment_cap :
      (leb max_attachment_bytes 0 || leb (sizes c.attachments) max_attachment_bytes) ≡ true
  pub bodies : text_length c.text_body + text_length c.html_body ≤ c.total_body_bytes
  pub body_bound : c.total_body_bytes ≤ megabytes 20
  pub body_cap : text_length c.text_body + text_length c.html_body ≤ megabytes 20

module _ (lib : MimeLib) (sha256_hex : List ℕ → String) (text : List ℕ → String)
    (decodes : (bytes : List ℕ) → text_length (text bytes) ≤ length bytes) where
  attachment-IsContent :
      (max : ℕ) (h : AttachmentHeader) (raw : List ℕ) (c : Content)
      → IsContent max c
      → length raw ≤ megabytes 50
      → (leb max 0 || leb (sizes c.attachments + length raw) max) ≡ true
      → IsContent max (add_attachment (some (attachment_of lib sha256_hex text h raw)) c)
  unfolding attachment_of
  attachment-IsContent max h raw c k small fits = record {
    danger = ground (
      arith,
      k.danger,
      any-snoc (λ a. a.is_dangerous) c.attachments (attachment_of lib sha256_hex text h raw),
    );
    total =
        ground (arith, k.total, sizes-snoc c.attachments (attachment_of lib sha256_hex text h raw));
    size = All-append _ c.attachments _ k.size ((refl, small), tt);
    attachment_cap =
        ground (arith, fits, sizes-snoc c.attachments (attachment_of lib sha256_hex text h raw));
    bodies = k.bodies;
    body_bound = k.body_bound;
    body_cap = k.body_cap;
  }

  some-IsContent :
      (max : ℕ) (h : AttachmentHeader) (body : Body) (n : ℕ) (c : Content)
      → IsContent max c
      → n ≤ megabytes 50
      → (leb max 0 || leb (sizes c.attachments + n) max) ≡ true
      → IsContent max (add_attachment (build_attachment lib sha256_hex text h body n) c)
  unfolding build_attachment
  some-IsContent max h body n c k small fits =
      elim (Bool-cases (body.fails && ltb (length body.bytes) n)) [
        | inl e ↦ rw (e, if◌then◌else◌) k
        | inr e ↦
            rw (e, if◌then◌else◌)
              (attachment-IsContent max h (take n body.bytes) c k
                (ground (arith, length-take n body.bytes, small))
                (ground (arith, length-take n body.bytes, fits)))
      ]

  text-IsContent :
      (max : ℕ) (content_type : String) (bytes : List ℕ) (c : Content)
      → IsContent max c
      → c.total_body_bytes + length bytes ≤ megabytes 20
      → IsContent max (add_text lib sha256_hex text content_type bytes c)
  text-IsContent max content_type bytes c k fits =
      let longer : text_length (add_text lib sha256_hex text content_type bytes c).text_body
            + text_length (add_text lib sha256_hex text content_type bytes c).html_body
          ≤ c.total_body_bytes + length bytes =
        ground (
          arith,
          k.bodies,
          decodes bytes,
          text_length-append c.text_body (text bytes),
          text_length-append c.html_body (text bytes),
        ) in
      record {
        danger = k.danger;
        total = k.total;
        size = k.size;
        attachment_cap = k.attachment_cap;
        bodies = longer;
        body_bound = fits;
        body_cap = omega (arith, longer, fits);
      }

  choice-IsContent :
      (max : ℕ) (b : Bool) (c d : Content)
      → IsContent max c
      → (b ≡ false → IsContent max d)
      → IsContent max (if b then c else d)
  choice-IsContent max true c d h k = h
  choice-IsContent max false c d h k = k refl

  add_part-IsContent :
      (max : ℕ) (p : Part) (c : Content)
      → IsContent max c
      → IsContent max (add_part lib sha256_hex text max p c)
  unfolding add_part
  add_part-IsContent max part_error c k = record {
    danger = k.danger;
    total = k.total;
    size = k.size;
    attachment_cap = k.attachment_cap;
    bodies = k.bodies;
    body_bound = k.body_bound;
    body_cap = k.body_cap;
  }
  add_part-IsContent max other_part c k = k
  add_part-IsContent max (inline content_type body) c k =
      choice-IsContent max (leb (megabytes 20) c.total_body_bytes) c _ k (λ e.
        let n = smaller (megabytes 10) (megabytes 20 - c.total_body_bytes) in
        text-IsContent max content_type (take n body.bytes) c k
          (ground (arith, e, length-take n body.bytes)))
  add_part-IsContent max (attachment h body) c k =
      choice-IsContent max (ltb 0 max && leb max c.total_attachment_bytes) c _ k (λ e.
        some-IsContent max h body (budget max c.total_attachment_bytes) c k (ground arith)
          (ground (arith, e, k.total, k.attachment_cap)))

  add_parts-IsContent :
      (max : ℕ) (ps : List Part) (c : Content)
      → IsContent max c
      → IsContent max (add_parts lib sha256_hex text max ps c)
  unfolding add_parts
  add_parts-IsContent max [] c k = k
  add_parts-IsContent max (p ∷ ps) c k = add_parts-IsContent max ps _ (add_part-IsContent max p c k)

  -- Whatever parts a message has, it is said to have an executable exactly when one of its attachments
  -- is dangerous, each attachment has at most 50 MB and the size of its bytes, all of them together
  -- have at most the configured number of bytes (where one is configured), and the
  -- text and the HTML that are kept of its inline bodies have at most 20 MB together, if decoding
  -- bytes into a text makes it no longer than they are.
  pub parts-IsContent :
      (max : ℕ) (ps : List Part) → IsContent max (add_parts lib sha256_hex text max ps no_content)
  unfolding sizes text_length
  parts-IsContent max ps = add_parts-IsContent max ps no_content (record {
    danger = refl;
    total = refl;
    size = tt;
    attachment_cap = ground arith;
    bodies = ground arith;
    body_bound = ground arith;
    body_cap = ground arith;
  })
