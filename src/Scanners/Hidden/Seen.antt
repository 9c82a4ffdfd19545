-- ===== src/Scanners/Hidden/Seen.antt =====
-- What hidden text does to its message.
use mailhook.Common.{
  ℕ, Bool, true, false, not, ◌&&◌, ◌||◌, String, List, [], ◌∷◌, ◌++◌, some, if◌then◌else◌, str_eq,
  any, ◌≡◌, ◌≢◌, refl, ap, ◌∙◌, arith, Bool-cases, Option-cases, inl, inr,
}
use mailhook.Common.Dict.{lookup, insert}
use mailhook.Email.{Email}
use mailhook.Floats.{Floats}
use mailhook.Scanners.Hidden.{
  Element, Document, HiddenTextHit, StyleLib, Counts, is_color_match, record_if, has_text,
  check_style, check_styled, is_tiny, check_fonts, check_document, report, scan,
}
use mailhook.Verdict.Collect.{ScanResult}
use mailhook.Verdict.Pass.{Harmless, decide-harmful}
use mailhook.Verdict.{Decision, Thresholds, decide}

abbrev is_nonempty : Counts → Bool
is_nonempty [] = false
is_nonempty (_ ∷ _) = true

nonempty-insert : (k : String) (v : ℕ × String) (cs : Counts) → is_nonempty (insert k v cs) ≡ true
unfolding insert
nonempty-insert k v [] = refl
nonempty-insert k v (c ∷ cs) = elim (Bool-cases (str_eq c.0 k)) [
  | inl e ↦ rw (e, if◌then◌else◌) refl
  | inr e ↦ rw (e, if◌then◌else◌) refl
]

or_assoc : (a b c : Bool) → ((a || b) || c) ≡ (a || (b || c))
or_assoc a b c = ground arith

or_last : (n a b c d e : Bool) → (n || a || b || c || d || e) ≡ (n || (a || b || c || d || e))
or_last n a b c d e = ground arith

module _ (lib : StyleLib) where
  nonempty-record_if :
      (b : Bool) (technique text : String) (cs : Counts)
      → is_nonempty (record_if lib b technique text cs) ≡ (is_nonempty cs || b)
  nonempty-record_if false technique text cs = ground arith
  nonempty-record_if true technique text cs = elim (Option-cases (lookup technique cs)) [
    | inl e ↦ rw e (nonempty-insert technique _ cs ∙ ground arith)
    | inr ((n, sample), e) ↦ rw e (nonempty-insert technique _ cs ∙ ground arith)
  ]

  -- Whether a style hides what it is put on.
  abbrev pub hides : String → Bool
  hides style =
      lib.zero_font style
      || lib.display_none style
      || lib.visibility_hidden style
      || lib.opacity_zero style
      || is_color_match lib style

  nonempty-check_style :
      (style text : String) (cs : Counts)
      → is_nonempty (check_style lib style text cs) ≡ (is_nonempty cs || hides style)
  nonempty-check_style style text cs =
      nonempty-record_if (is_color_match lib style) "color_match" text _
      ∙ ap (λ q. q || is_color_match lib style)
          (nonempty-record_if (lib.opacity_zero style) "opacity_zero" text _
            ∙ ap (λ q. q || lib.opacity_zero style)
                (nonempty-record_if (lib.visibility_hidden style) "visibility_hidden" text _
                  ∙ ap (λ q. q || lib.visibility_hidden style)
                      (nonempty-record_if (lib.display_none style) "display_none" text _
                        ∙ ap (λ q. q || lib.display_none style)
                            (nonempty-record_if (lib.zero_font style) "zero_font" text cs))))
      ∙ or_last (is_nonempty cs) _ _ _ _ _

  abbrev pub is_hidden : Element → Bool
  is_hidden e = not (str_eq e.attribute "") && has_text lib e && hides e.attribute

  abbrev pub is_tiny_font : Element → Bool
  is_tiny_font e = has_text lib e && is_tiny lib e.attribute

  choice-nonempty :
      (b h : Bool) (cs ds : Counts)
      → is_nonempty cs ≡ (is_nonempty ds || h)
      → is_nonempty (if b then cs else ds) ≡ (is_nonempty ds || (b && h))
  choice-nonempty true h cs ds e = e
  choice-nonempty false h cs ds e = ground arith

  nonempty-check_styled :
      (es : List Element) (cs : Counts)
      → is_nonempty (check_styled lib es cs) ≡ (is_nonempty cs || any is_hidden es)
  unfolding check_styled
  nonempty-check_styled [] cs = ground arith
  nonempty-check_styled (e ∷ es) cs =
      nonempty-check_styled es _
      ∙ ap (λ q. q || any is_hidden es)
          (choice-nonempty (not (str_eq e.attribute "") && has_text lib e) (hides e.attribute) _ cs
            (nonempty-check_style e.attribute (lib.trim_space e.text) cs))
      ∙ or_assoc (is_nonempty cs) _ _

  nonempty-check_fonts :
      (es : List Element) (cs : Counts)
      → is_nonempty (check_fonts lib es cs) ≡ (is_nonempty cs || any is_tiny_font es)
  unfolding check_fonts
  nonempty-check_fonts [] cs = ground arith
  nonempty-check_fonts (e ∷ es) cs =
      nonempty-check_fonts es _
      ∙ ap (λ q. q || any is_tiny_font es)
          (nonempty-record_if (has_text lib e && is_tiny lib e.attribute) "zero_font"
            (lib.trim_space e.text) cs)
      ∙ or_assoc (is_nonempty cs) _ _

  -- Some text of the document is hidden by a style or a font size.
  abbrev pub hides_text : Document → Bool
  hides_text doc = any is_hidden doc.styled || any is_tiny_font doc.fonts

  module _ (fl : Floats) (marshal : List HiddenTextHit → List ℕ) where
    open fl use {Float}

    report-open :
        (cs : Counts)
        → is_nonempty cs ≡ true
        → Harmless (report lib fl marshal cs).scanner (report lib fl marshal cs).verdict
        → ⊥
    report-open [] h k = ground (arith, h)
    report-open (_ ∷ _) h k = ground (arith, k)

    -- Where a style or a font size hides some text of the document, the enabled scanner's result keeps
    -- `Decide` from letting the message pass, whatever the other results are.
    pub decide-hidden :
        (t : Thresholds Float) (email : Email) (doc : Document)
        (before after : List (ScanResult Float))
        → str_eq email.html_body "" ≡ false
        → lib.parse_html email.html_body ≡ some doc
        → hides_text doc ≡ true
        → (decide fl t email (before ++ scan lib fl marshal true false email ∷ after)).decision
          ≢ Decision.pass
    decide-hidden t email doc before after body parsed h =
        decide-harmful fl t email before (scan lib fl marshal true false email) after (
          unfold scan in
          rw (body, parsed)
            (report-open (check_document lib doc) (
              nonempty-check_fonts doc.fonts (check_styled lib doc.styled [])
              ∙ ap (λ q. q || any is_tiny_font doc.fonts) (nonempty-check_styled doc.styled [])
              ∙ h)))
