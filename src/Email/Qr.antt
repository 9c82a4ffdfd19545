-- ===== src/Email/Qr.antt =====
-- app/pipeline/email.go, `extractQRURLs`: the links in the QR codes of attached images. The decoding of
-- images and of QR codes belongs to libraries.
use mailhook.Common.{
  ℕ, ◌*◌, Bool, true, false, ◌&&◌, String, List, [], ◌∷◌, Option, none, some, if◌then◌else◌, str_eq,
  leb, any,
}
use mailhook.Common.Text.{before_byte}
use mailhook.Email.SafeLinks.{is_web}
use mailhook.Email.Urls.{UrlText, normalize_url}
use mailhook.Email.{Attachment}

pub record QrLib : Type 0 where
  pub to_lower : String → String
  pub trim_space : String → String
  -- The width and the height of an image, and the text of the QR code in it.
  pub decode_config : List ℕ → Option (ℕ × ℕ)
  pub decode_qr : List ℕ → Option String

abbrev pub qr_max_image_bytes : ℕ
qr_max_image_bytes = 2 * 1024 * 1024

abbrev pub max_image_dimension : ℕ
max_image_dimension = 4096

abbrev pub qr_image_mimes : List String
qr_image_mimes = "image/png" ∷ "image/jpeg" ∷ "image/jpg" ∷ "image/gif" ∷ []

module _ (lib : QrLib) (url_text : UrlText) where
  abbrev media : Attachment → String
  media att = lib.trim_space (before_byte b';' (lib.to_lower (lib.trim_space att.content_type)))

  abbrev has_bytes : List ℕ → Bool
  has_bytes [] = false
  has_bytes (_ ∷ _) = true

  -- The images that are looked at.
  unfoldable pub is_qr_image : Attachment → Bool
  is_qr_image att =
      any (str_eq (media att)) qr_image_mimes
      && leb att.size_bytes qr_max_image_bytes
      && has_bytes att.raw

  abbrev fits : Option (ℕ × ℕ) → Bool
  fits none = false
  fits (some (width, height)) = leb width max_image_dimension && leb height max_image_dimension

  abbrev link_text : Option String → String
  link_text none = ""
  link_text (some text) =
      if is_web (lib.trim_space text) then normalize_url url_text (lib.trim_space text) else ""

  -- The link of one attachment, or "".
  unfoldable pub qr_link : Attachment → String
  qr_link att =
      let link = link_text (lib.decode_qr att.raw) in
      if is_qr_image att && fits (lib.decode_config att.raw) then link else ""

  unfoldable pub extract_qr_urls : List Attachment → List String
  extract_qr_urls [] = []
  extract_qr_urls (att ∷ atts) =
      let rest = extract_qr_urls atts in
      if str_eq (qr_link att) "" then rest else qr_link att ∷ rest
