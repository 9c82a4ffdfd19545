-- ===== src/Scanners/Hidden.antt =====
-- app/scanners/hiddentextdetect.go: text that a reader of the HTML does not see. The elements of the
-- document, in its order, and the matches of the expressions are parameters; the techniques are listed in
-- the order in which they are first met, where the order of Go's map varies.
pub mod Seen
use mailhook.Common.{
  ℕ, suc, Bool, true, false, not, ◌&&◌, ◌||◌, ◌⧺◌, String, List, [], ◌∷◌, ◌++◌, Option, none, some,
  map, filter, if◌then◌else◌, str_eq, ◌==◌,
}
use Prim.Native.String
use mailhook.Common.Dict.{lookup, insert}
use mailhook.Common.Text.{has_prefix, trim_prefix, text_take}
use mailhook.Email.{Email}
use mailhook.Floats.{Floats}
use mailhook.Scanners.{plain}
use mailhook.Verdict.Collect.{hiddentextdetect, suspicious, clean, skip, ScanResult}
use mailhook.Verdict.{join}

-- An element with a style, or a font element with a size, and the text in it.
pub record Element : Type 0 where
  pub attribute : String
  pub text : String

pub record Document : Type 0 where
  pub styled : List Element
  pub fonts : List Element

pub record HiddenTextHit : Type 0 where
  pub technique : String
  pub count : ℕ
  pub sample : String

pub record StyleLib : Type 0 where
  pub parse_html : String → Option Document
  pub trim_space : String → String
  pub to_lower : String → String
  pub equal_fold : String → String → Bool
  pub without_space : String → String
  -- `htZeroFontRe`, `htDisplayNoneRe`, `htVisibilityHiddenRe`, `htOpacityZeroRe`
  pub zero_font : String → Bool
  pub display_none : String → Bool
  pub visibility_hidden : String → Bool
  pub opacity_zero : String → Bool
  -- The first groups of the expressions for the colour of the text, and for that behind it.
  pub color_hex : String → Option String
  pub color_rgb : String → Option String
  pub color_named : String → Option String
  pub background_hex : String → Option String
  pub background_rgb : String → Option String
  pub background_named : String → Option String

abbrev pub named_color_hex : List (String × String)
named_color_hex =
    ("white", "ffffff")
    ∷ ("black", "000000")
    ∷ ("red", "ff0000")
    ∷ ("green", "008000")
    ∷ ("blue", "0000ff")
    ∷ ("yellow", "ffff00")
    ∷ ("orange", "ffa500")
    ∷ ("purple", "800080")
    ∷ ("gray", "808080")
    ∷ ("grey", "808080")
    ∷ ("silver", "c0c0c0")
    ∷ ("transparent", "transparent")
    ∷ []

-- Three digits are doubled.
unfoldable pub expand_hex : String → String
expand_hex (String.◌∷◌ a (String.◌∷◌ b (String.◌∷◌ c String.[]))) =
    String.◌∷◌ a (String.◌∷◌ a (String.◌∷◌ b (String.◌∷◌ b (String.◌∷◌ c (String.◌∷◌ c "")))))
expand_hex s = s

abbrev pub Counts : Type 0
Counts = List (String × (ℕ × String))

module _ (lib : StyleLib) where
  unfoldable pub normalize_hex : String → String
  normalize_hex hex = expand_hex (lib.to_lower (trim_prefix "#" hex))

  abbrev known_or : String → Option String → String
  known_or c (some hex) = hex
  known_or c none = if has_prefix "#" c then normalize_hex c else lib.without_space c

  unfoldable pub normalize_color : String → String
  normalize_color color =
      known_or (lib.to_lower color) (lookup (lib.to_lower color) named_color_hex)

  -- `extractColorValue`, for what the three expressions match.
  unfoldable pub extract_color_value : Option String → Option String → Option String → String
  extract_color_value (some hex) rgb named = hex
  extract_color_value none (some rgb) named = rgb
  extract_color_value none none (some name) = lib.to_lower name
  extract_color_value none none none = ""

  abbrev pub foreground : String → String
  foreground style =
      extract_color_value (lib.color_hex style) (lib.color_rgb style) (lib.color_named style)

  abbrev pub background : String → String
  background style =
      extract_color_value (lib.background_hex style) (lib.background_rgb style)
        (lib.background_named style)

  unfoldable pub is_color_match : String → Bool
  is_color_match style =
      not (str_eq (foreground style) "")
      && not (str_eq (background style) "")
      && lib.equal_fold (normalize_color (foreground style)) (normalize_color (background style))

  -- `record`
  abbrev note : Option (ℕ × String) → String → String → Counts → Counts
  note none technique text counts = insert technique (1, text_take 80 (lib.trim_space text)) counts
  note (some (count, sample)) technique text counts = insert technique (suc count, sample) counts

  abbrev pub record_if : Bool → String → String → Counts → Counts
  record_if b technique text counts =
      if b then note (lookup technique counts) technique text counts else counts

  abbrev pub has_text : Element → Bool
  has_text e = not (str_eq (lib.trim_space e.text) "")

  abbrev pub check_style : String → String → Counts → Counts
  check_style style text counts = record_if (is_color_match style) "color_match" text (
      record_if (lib.opacity_zero style) "opacity_zero" text (
        record_if (lib.visibility_hidden style) "visibility_hidden" text (
          record_if (lib.display_none style) "display_none" text
            (record_if (lib.zero_font style) "zero_font" text counts))))

  -- The loop over the elements with a style.
  unfoldable pub check_styled : List Element → Counts → Counts
  check_styled [] counts = counts
  check_styled (e ∷ es) counts = check_styled es (
      if not (str_eq e.attribute "") && has_text e
      then check_style e.attribute (lib.trim_space e.text) counts
      else counts)

  abbrev pub is_tiny : String → Bool
  is_tiny size = str_eq (lib.trim_space size) "0" || str_eq (lib.trim_space size) "1"

  -- The loop over the font elements.
  unfoldable pub check_fonts : List Element → Counts → Counts
  check_fonts [] counts = counts
  check_fonts (e ∷ es) counts =
      check_fonts es
        (record_if (has_text e && is_tiny e.attribute) "zero_font" (lib.trim_space e.text) counts)

  abbrev pub check_document : Document → Counts
  check_document doc = check_fonts doc.fonts (check_styled doc.styled [])

  abbrev hit_of : String × (ℕ × String) → HiddenTextHit
  hit_of (technique, (count, sample)) = record {
    technique = technique;
    count = count;
    sample = sample;
  }

  module _ (fl : Floats) (marshal : List HiddenTextHit → List ℕ) where
    open fl use {Float, decimal}

    abbrev pub report : Counts → ScanResult Float
    report [] = plain fl hiddentextdetect clean ""
    report (c ∷ cs) = record {
      scanner = hiddentextdetect;
      verdict = suspicious;
      score = decimal 50 2;
      detail = "hidden text: " ⧺ join ", " (map (λ x. x.0) (c ∷ cs));
      matches = marshal (map (λ x. hit_of x) (c ∷ cs));
    }

    abbrev pub check_html : Option Document → ScanResult Float
    check_html none = plain fl hiddentextdetect clean ""
    check_html (some doc) = report (check_document doc)

    -- `Scan`
    unfoldable pub scan : (enabled cancelled : Bool) → Email → ScanResult Float
    scan enabled cancelled email =
        if not enabled
        then plain fl hiddentextdetect skip "disabled"
        else if str_eq email.html_body ""
        then plain fl hiddentextdetect skip "no HTML body"
        else if cancelled
        then plain fl hiddentextdetect skip "context cancelled"
        else check_html (lib.parse_html email.html_body)
