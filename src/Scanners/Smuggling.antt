-- ===== src/Scanners/Smuggling.antt =====
-- app/scanners/htmlsmuggling.go: HTML that builds a file out of a long text in base64. The runs that the
-- expression for base64 matches, by their lengths, and the matches of the other expressions are
-- parameters, as are JSON and lower case.
pub mod Built
use Prim.Native.Nat.{◌/◌}
use mailhook.Common.{
  ℕ, ◌*◌, Bool, true, false, not, ◌&&◌, ◌||◌, ◌⧺◌, String, List, [], ◌∷◌, ◌++◌, map, filter,
  if◌then◌else◌, str_eq, ltb, ◌==◌,
}
use mailhook.Common.Text.{has_prefix, clip}
use mailhook.Email.{Attachment, Email}
use mailhook.Floats.{Floats}
use mailhook.Scanners.{plain}
use mailhook.Verdict.Collect.{htmlsmuggling, suspicious, clean, skip, ScanResult}
use mailhook.Verdict.{join}

abbrev pub blob_apis : List String
blob_apis = "new Blob(" ∷ "msSaveOrOpenBlob" ∷ "createObjectURL" ∷ "saveAs(" ∷ []

pub record Source : Type 0 where
  pub label : String
  pub content : List ℕ

pub record HtmlSmugglingHit : Type 0 where
  pub source : String
  pub blob_apis : List String
  pub b64_size_kb : ℕ

pub record HtmlLib : Type 0 where
  pub to_lower : String → String
  pub bytes : String → List ℕ
  -- The lengths of the matches of `b64ChunkRe`.
  pub b64_chunks : List ℕ → List ℕ
  -- Whether the expression of the API with this name matches.
  pub uses_api : String → List ℕ → Bool

unfoldable pub largest : List ℕ → ℕ
largest [] = 0
largest (n ∷ ns) = let rest = largest ns in if ltb rest n then n else rest

-- The size in KB, at least 1.
abbrev size_kb : ℕ → ℕ
size_kb chars = if chars * 3 / 4 / 1024 == 0 then 1 else chars * 3 / 4 / 1024

module _ (lib : HtmlLib) where
  -- `largestBase64Chunk`: the length, or 0 below the minimum, and the size.
  unfoldable pub largest_base64_chunk : List ℕ → ℕ → ℕ × ℕ
  largest_base64_chunk content min_chars =
      let chars = largest (lib.b64_chunks content) in
      if ltb chars min_chars then (0, 0) else (chars, size_kb chars)

  unfoldable pub is_html_attachment : Attachment → Bool
  is_html_attachment att =
      has_prefix "text/html" att.content_type
      || str_eq (lib.to_lower att.extension) ".html"
      || str_eq (lib.to_lower att.extension) ".htm"

  unfoldable pub attachment_sources : List Attachment → List Source
  attachment_sources [] = []
  attachment_sources (att ∷ atts) =
      let rest = attachment_sources atts in
      if is_html_attachment att
      then record { label = "attachment:" ⧺ att.filename; content = att.raw } ∷ rest
      else rest

  -- The HTML body, and the HTML attachments.
  unfoldable pub sources_of : Email → List Source
  sources_of email =
      let attached = attachment_sources email.attachments in
      if str_eq email.html_body ""
      then attached
      else record { label = "body"; content = lib.bytes email.html_body } ∷ attached

  abbrev pub matched_apis : Source → List String
  matched_apis src = filter (λ api. lib.uses_api api src.content) blob_apis

  abbrev pub add_source :
      Source → ℕ × ℕ → List String → List HtmlSmugglingHit → List HtmlSmugglingHit
  add_source src (chars, kb) [] hits = hits
  add_source src (chars, kb) (api ∷ apis) hits =
      if chars == 0
      then hits
      else record { source = src.label; blob_apis = api ∷ apis; b64_size_kb = kb } ∷ hits

  -- The loop over the sources.
  unfoldable pub check_sources : ℕ → List Source → List HtmlSmugglingHit
  check_sources min_chars [] = []
  check_sources min_chars (src ∷ srcs) =
      add_source src (largest_base64_chunk src.content min_chars) (matched_apis src)
        (check_sources min_chars srcs)

  module _ (fl : Floats) (marshal : List HtmlSmugglingHit → List ℕ) where
    open fl use {Float, decimal}

    abbrev hit_text : HtmlSmugglingHit → String
    hit_text hit = hit.source ⧺ ": " ⧺ join ", " hit.blob_apis

    abbrev pub report : List HtmlSmugglingHit → ScanResult Float
    report [] = plain fl htmlsmuggling clean ""
    report (h ∷ hs) = record {
      scanner = htmlsmuggling;
      verdict = suspicious;
      score = decimal 80 2;
      detail = clip 500 ("HTML smuggling: " ⧺ join "; " (map (λ x. hit_text x) (h ∷ hs)));
      matches = marshal (h ∷ hs);
    }

    -- The least number of characters in base64 for so many KB.
    abbrev pub b64_min_chars : ℕ → ℕ
    b64_min_chars min_b64_kb = min_b64_kb * 1024 * 4 / 3

    -- `Scan`
    unfoldable pub scan : (min_b64_kb : ℕ) (enabled cancelled : Bool) → Email → ScanResult Float
    scan min_b64_kb enabled cancelled email =
        if not enabled
        then plain fl htmlsmuggling skip "disabled"
        else if cancelled
        then plain fl htmlsmuggling skip "context cancelled"
        else report (check_sources (b64_min_chars min_b64_kb) (sources_of email))
