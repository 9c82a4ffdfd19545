-- ===== src/Samples/Mail.antt =====
-- A library that reads every message as the same parts.
use mailhook.Common.{ℕ, ◌++◌, ◌≤◌, arith, length, String, List, [], ◌∷◌, false, none, some, str_eq}
use mailhook.Common.Text.{text_length}
use mailhook.Email.Auth.{TextLib}
use mailhook.Email.Parse.{ParseLib, Header}
use mailhook.Email.Parts.{Part, part_error, inline, attachment}
use mailhook.Email.SafeLinks.{LinkLib}
use mailhook.Email.Urls.{UrlText}
use mailhook.Util.{MimeLib}

abbrev pub mime : MimeLib
mime = record { ext = λ s. ".exe"; lower = λ s. s; parse_media_type = λ s. some s }

abbrev pub text_part : List Part
text_part = inline "text/plain" (record { bytes = 104 ∷ 105 ∷ []; fails = false }) ∷ []

abbrev pub parts : List Part
parts =
    text_part
    ++ attachment (record { file_name = "a.exe"; name_param = ""; content_type = "image/png" })
        (record { bytes = 77 ∷ 90 ∷ []; fails = false })
      ∷ part_error
      ∷ []

-- A letter for each byte.
abbrev pub letters : List ℕ → String
letters [] = ""
letters (_ ∷ bytes) = String.◌∷◌ "x" (letters bytes)

pub letters-short : (bytes : List ℕ) → text_length (letters bytes) ≤ length bytes
unfolding text_length
letters-short [] = omega arith
letters-short (_ ∷ bytes) = omega (arith, letters-short bytes)

abbrev pub url_text : UrlText
url_text = record { lower_host = λ s. some s; equal_fold = str_eq }

abbrev pub links : LinkLib
links = record {
  Url = String;
  parse = λ s. some s;
  hostname = λ s. "safelinks.protection.outlook.com";
  path = λ s. "/";
  query = λ s key. "https://b.example/";
  query_unescape = λ s. some s;
  to_lower = λ s. s;
}

abbrev pub text_lib : TextLib
text_lib = record { to_lower = λ s. s; equal_fold = str_eq; trim_space = λ s. s }

abbrev pub rest : List String
rest = "mx.example; spf=fail" ∷ []

abbrev pub headers : List String
headers = "evil.example; spf=pass" ∷ rest

abbrev pub header : Header
header = record {
  message_id = "<1@example.org>";
  subject = "hello";
  from = some ("ann@example.org" ∷ []);
  to = none;
  date = none;
  received = [];
  authentication_results = headers;
}

abbrev pub parse_lib : ParseLib
parse_lib = record {
  read_message = λ raw. some (header, parts);
  mime = mime;
  ip = record { received_ipv4 = λ s. none; parse_ip = λ s. none };
  ip_text = λ ip. "";
  auth = text_lib;
  url_text = url_text;
  links = links;
  sha256_hex = λ _. "ab";
  text = letters;
  text_matches = λ _. [];
  html_attributes = λ _. [];
  qr = record {
    to_lower = λ s. s;
    trim_space = λ s. s;
    decode_config = λ bytes. none;
    decode_qr = λ bytes. none;
  };
}
