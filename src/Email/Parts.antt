-- ===== src/Email/Parts.antt =====
-- app/pipeline/email.go: the MIME parts of a message, with the caps on their sizes. Reading the message
-- into parts belongs to go-message, whose list of parts and headers are arguments; a body is the bytes
-- that it gives before its end or its error.
pub mod Caps
use Prim.Native.Char.{code}
use Prim.Native.String
use mailhook.Common.{
  ℕ, zero, suc, ◌+◌, ◌-◌, ◌*◌, Bool, true, false, ◌&&◌, ◌||◌, ◌⧺◌, String, List, [], ◌∷◌, ◌++◌,
  Option, none, some, if◌then◌else◌, str_eq, leb, ltb, length, take, ◌==◌,
}
use mailhook.Common.Text.{◌⊹◌, has_prefix, after_byte}
use mailhook.Email.{Attachment}
use mailhook.Util.{MimeLib, dangerous_extension, is_executable, safe_content_type}

pub record Body : Type 0 where
  pub bytes : List ℕ
  pub fails : Bool

-- The file name of a header, the parameter "name" of its content type, and that type.
pub record AttachmentHeader : Type 0 where
  pub file_name : String
  pub name_param : String
  pub content_type : String

pub data Part : Type 0 where
  part_error : Part
  inline : String → Body → Part
  attachment : AttachmentHeader → Body → Part
  other_part : Part

-- What `Parse` reads into.
pub record Content : Type 0 where
  pub text_body : String
  pub html_body : String
  pub attachments : List Attachment
  pub has_executable : Bool
  pub had_mime_errors : Bool
  pub total_attachment_bytes : ℕ
  pub total_body_bytes : ℕ

abbrev pub no_content : Content
no_content = record {
  text_body = "";
  html_body = "";
  attachments = [];
  has_executable = false;
  had_mime_errors = false;
  total_attachment_bytes = 0;
  total_body_bytes = 0;
}

abbrev pub megabytes : ℕ → ℕ
megabytes n = n * 1024 * 1024

abbrev pub smaller : ℕ → ℕ → ℕ
smaller a b = if leb a b then a else b

-- What follows the last such byte, or the whole.
unfoldable pub after_last : ℕ → String → String
after_last b String.[] = ""
after_last b (String.◌∷◌ c s) = elim (after_byte b s) [
  | some _ ↦ after_last b s
  | none ↦ if code c == b then s else String.◌∷◌ c s
]

-- `fileExt`
unfoldable pub file_ext : String → String
file_ext String.[] = ""
file_ext (String.◌∷◌ c s) = elim (after_byte b'.' s) [
  | some _ ↦ file_ext s
  | none ↦ if code c == b'.' then String.◌∷◌ c s else ""
]

-- The bytes of one attachment that may be read; a maximum of 0 stands for no maximum.
abbrev pub budget : ℕ → ℕ → ℕ
budget max_attachment_bytes total =
    if ltb 0 max_attachment_bytes
    then smaller (max_attachment_bytes - total) (megabytes 50)
    else megabytes 50

abbrev pub add_attachment : Option Attachment → Content → Content
add_attachment none c = c
add_attachment (some att) c = record c {
  total_attachment_bytes = c.total_attachment_bytes + att.size_bytes;
  attachments = c.attachments ++ att ∷ [];
  has_executable = if att.is_dangerous then true else c.has_executable;
}

module _ (lib : MimeLib) (sha256_hex : List ℕ → String) (text : List ℕ → String) where
  unfoldable pub attachment_name : AttachmentHeader → String
  attachment_name h =
      if str_eq h.file_name ""
      then if str_eq h.name_param ""
        then "attachment." ⧺ after_last b'/' h.content_type
        else h.name_param
      else h.file_name

  -- `buildAttachment`, for the bytes that were read.
  unfoldable pub attachment_of : AttachmentHeader → List ℕ → Attachment
  attachment_of h raw = record {
    filename = attachment_name h;
    content_type = safe_content_type lib h.content_type;
    sha256 = sha256_hex raw;
    extension = lib.lower (file_ext (attachment_name h));
    size_bytes = length raw;
    is_dangerous = dangerous_extension lib (attachment_name h) || is_executable lib h.content_type;
    raw = raw;
  }

  -- `buildAttachment`: nothing where the body ends in an error before the limit.
  unfoldable pub build_attachment : AttachmentHeader → Body → ℕ → Option Attachment
  build_attachment h body max_bytes =
      if body.fails && ltb (length body.bytes) max_bytes
      then none
      else some (attachment_of h (take max_bytes body.bytes))

  abbrev pub add_text : String → List ℕ → Content → Content
  add_text content_type bytes c = record c {
    total_body_bytes = c.total_body_bytes + length bytes;
    text_body =
        if has_prefix "text/plain" content_type then c.text_body ⊹ text bytes else c.text_body;
    html_body =
        if has_prefix "text/plain" content_type
        then c.html_body
        else if has_prefix "text/html" content_type
        then c.html_body ⊹ text bytes
        else c.html_body;
  }

  -- One round of the loop.
  unfoldable pub add_part : ℕ → Part → Content → Content
  add_part max_attachment_bytes part_error c = record c { had_mime_errors = true }
  add_part max_attachment_bytes other_part c = c
  add_part max_attachment_bytes (inline content_type body) c =
      if leb (megabytes 20) c.total_body_bytes
      then c
      else add_text content_type
          (take (smaller (megabytes 10) (megabytes 20 - c.total_body_bytes)) body.bytes) c
  add_part max_attachment_bytes (attachment h body) c =
      if ltb 0 max_attachment_bytes && leb max_attachment_bytes c.total_attachment_bytes
      then c
      else add_attachment
          (build_attachment h body (budget max_attachment_bytes c.total_attachment_bytes)) c

  unfoldable pub add_parts : ℕ → List Part → Content → Content
  add_parts max_attachment_bytes [] c = c
  add_parts max_attachment_bytes (p ∷ ps) c =
      add_parts max_attachment_bytes ps (add_part max_attachment_bytes p c)
