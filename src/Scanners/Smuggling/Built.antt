-- ===== src/Scanners/Smuggling/Built.antt =====
-- What a smuggled file does to its message.
use mailhook.Common.{
  ℕ, Bool, true, false, not, ◌&&◌, ◌||◌, String, List, [], ◌∷◌, ◌++◌, if◌then◌else◌, ltb, ◌==◌, any,
  filter, ◌≡◌, ◌≢◌, refl, ap₂, ◌∙◌, arith, Bool-cases, inl, inr,
}
use mailhook.Email.{Email}
use mailhook.Floats.{Floats}
use mailhook.Scanners.Smuggling.{
  blob_apis, Source, HtmlSmugglingHit, HtmlLib, largest, largest_base64_chunk, sources_of,
  matched_apis, add_source, check_sources, report, b64_min_chars, scan,
}
use mailhook.Verdict.Collect.{ScanResult, is_suspicious}
use mailhook.Verdict.Pass.{Harmless, decide-harmful}
use mailhook.Verdict.{Decision, Thresholds, decide}

abbrev is_nonempty : List String → Bool
is_nonempty [] = false
is_nonempty (_ ∷ _) = true

nonempty-filter : (p : String → Bool) (xs : List String) → is_nonempty (filter p xs) ≡ any p xs
unfolding filter
nonempty-filter p [] = refl
nonempty-filter p (x ∷ xs) = elim (Bool-cases (p x)) [
  | inl e ↦ rw (e, if◌then◌else◌) refl
  | inr e ↦ rw (e, if◌then◌else◌) (nonempty-filter p xs)
]

module _ (lib : HtmlLib) where
  -- A run of base64 that is long enough, and a call that makes a file.
  abbrev pub is_smuggling : ℕ → Source → Bool
  is_smuggling min_chars src =
      not (ltb (largest (lib.b64_chunks src.content)) min_chars)
      && not (largest (lib.b64_chunks src.content) == 0)
      && any (λ api. lib.uses_api api src.content) blob_apis

  module _ (fl : Floats) (marshal : List HtmlSmugglingHit → List ℕ) where
    open fl use {Float}

    report-add :
        (src : Source) (found : ℕ × ℕ) (apis : List String) (hits : List HtmlSmugglingHit)
        → is_suspicious (report lib fl marshal (add_source lib src found apis hits)).verdict ≡ (
            (not (found.0 == 0) && is_nonempty apis)
            || is_suspicious (report lib fl marshal hits).verdict)
    report-add src found [] hits = ground arith
    report-add src found (api ∷ apis) hits = elim (Bool-cases (found.0 == 0)) [
      | inl e ↦ rw (e, if◌then◌else◌) refl
      | inr e ↦ rw (e, if◌then◌else◌) refl
    ]

    chunk-long :
        (content : List ℕ) (min_chars : ℕ)
        → not ((largest_base64_chunk lib content min_chars).0 == 0) ≡ (
            not (ltb (largest (lib.b64_chunks content)) min_chars)
            && not (largest (lib.b64_chunks content) == 0))
    unfolding largest_base64_chunk
    chunk-long content min_chars = ground arith

    report-any :
        (min_chars : ℕ) (srcs : List Source)
        → is_suspicious (report lib fl marshal (check_sources lib min_chars srcs)).verdict
          ≡ any (is_smuggling min_chars) srcs
    unfolding check_sources
    report-any min_chars [] = refl
    report-any min_chars (src ∷ srcs) =
        report-add src (largest_base64_chunk lib src.content min_chars) (matched_apis lib src) _
        ∙ ap₂ (λ b c. b || c)
            (ap₂ (λ b c. b && c) (chunk-long src.content min_chars)
              (nonempty-filter (λ api. lib.uses_api api src.content) blob_apis))
            (report-any min_chars srcs)

    report-open :
        (hits : List HtmlSmugglingHit)
        → is_suspicious (report lib fl marshal hits).verdict ≡ true
        → Harmless (report lib fl marshal hits).scanner (report lib fl marshal hits).verdict
        → ⊥
    report-open [] h k = ground (arith, h)
    report-open (_ ∷ _) h k = ground (arith, k)

    -- Where the HTML body or an HTML attachment has a run of base64 of the configured length and calls
    -- one of the functions that make a file, the enabled scanner's result keeps `Decide` from letting
    -- the message pass, whatever the other results are.
    pub decide-smuggled :
        (t : Thresholds Float) (min_b64_kb : ℕ) (email : Email)
        (before after : List (ScanResult Float))
        → any (is_smuggling (b64_min_chars lib fl marshal min_b64_kb)) (sources_of lib email) ≡ true
        → (decide fl t email
            (before ++ scan lib fl marshal min_b64_kb true false email ∷ after)).decision
          ≢ Decision.pass
    decide-smuggled t min_b64_kb email before after h =
        let min_chars = b64_min_chars lib fl marshal min_b64_kb in
        decide-harmful fl t email before (scan lib fl marshal min_b64_kb true false email) after (
          unfold scan in
          report-open (check_sources lib min_chars (sources_of lib email))
            (report-any min_chars (sources_of lib email) ∙ h))
