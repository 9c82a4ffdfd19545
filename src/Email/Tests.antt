-- ===== src/Email/Tests.antt =====
-- The parser at concrete parts.
use mailhook.Common.{
  ◌++◌, ltb, leb, ◌&&◌, String, List, [], ◌∷◌, ◌≡◌, ◌≢◌, refl, true, false, some, filter,
}
use mailhook.Common.Text.{
  has_prefix, has_suffix, after_prefix, before_byte, after_byte, text_length, text_drop,
}
use mailhook.Email.Auth.{
  is_trusted, extract_auth_result, result_in, first_token, before_char, index_of,
}
use mailhook.Email.Auth.Trusted.{extract_auth_result-other}
use mailhook.Email.Parse.{content_of, parse}
use mailhook.Email.Parse.Executable.{is_harmful, parse-executable}
use mailhook.Email.{Email}
use mailhook.Samples.{hundredths, limits}
use mailhook.Email.Parts.{
  add_part, attachment_name, part_error, AttachmentHeader, no_content, add_parts,
}
use mailhook.Email.Parts.Caps.{IsContent, parts-IsContent}
use mailhook.Email.SafeLinks.{
  decode_safe_link, decode_at, microsoft, proofpoint_v2, proofpoint_v3, mimecast, is_web, only_if,
}
use mailhook.Email.Urls.{
  extract_urls, add_all, add_url, normalize_url, trim_punctuation, split_params,
}
use mailhook.Email.Urls.Found.{IsCapped, extract_urls-IsCapped}
use mailhook.Util.{dangerous_extension}
use mailhook.Verdict.{join, Decision, decide}
use mailhook.Samples.Mail.{
  mime, text_part, parts, letters, letters-short, url_text, links, text_lib, rest, headers, header,
  parse_lib,
}

parts-IsContent_example : IsContent 1000 (add_parts mime (λ _. "ab") letters 1000 parts no_content)
parts-IsContent_example = parts-IsContent mime (λ _. "ab") letters letters-short 1000 parts

abbrev matches : List String
matches = "https://a.example/?gclid=1" ∷ "https://a.example/" ∷ []

extract_urls-IsCapped_example : IsCapped 100 (extract_urls url_text links matches [])
extract_urls-IsCapped_example = extract_urls-IsCapped url_text links matches []

found : extract_urls url_text links matches [] ≡ "https://a.example/" ∷ "https://b.example/" ∷ []
unfolding extract_urls add_all add_url normalize_url decode_safe_link decode_at microsoft
    proofpoint_v2 proofpoint_v3 mimecast is_web filter has_prefix after_prefix before_byte
    after_byte trim_punctuation split_params join only_if has_suffix
found = refl

extract_auth_result-other_example :
    extract_auth_result text_lib "spf" "mx.example" ([] ++ "evil.example; spf=pass" ∷ rest)
    ≡ extract_auth_result text_lib "spf" "mx.example" ([] ++ rest)
unfolding first_token before_char
extract_auth_result-other_example =
    extract_auth_result-other text_lib "spf" "mx.example" [] "evil.example; spf=pass" rest refl refl

spf : extract_auth_result text_lib "spf" "mx.example" headers ≡ "fail"
unfolding extract_auth_result is_trusted result_in first_token before_char index_of has_prefix
    after_prefix text_length text_drop
spf = refl

abbrev tool : AttachmentHeader
tool = record { file_name = "a.exe"; name_param = ""; content_type = "image/png" }

-- A text before the attachment, and a part that does not parse after it.
room : (ltb 0 1000 && leb 1000 (content_of parse_lib 1000 text_part).total_attachment_bytes) ≡ false
unfolding add_parts add_part
room = refl

harmful : is_harmful parse_lib tool ≡ true
unfolding dangerous_extension attachment_name
harmful = refl

parse-executable_example :
    (email : Email) × (parse parse_lib [] "main" 7 "INBOX" 1000 "mx.example" ≡ some email)
    × ((decide hundredths limits email []).decision ≢ Decision.pass)
parse-executable_example =
    parse-executable parse_lib hundredths limits [] [] "main" 7 "INBOX" 1000 "mx.example" header
      text_part tool (record { bytes = 77 ∷ 90 ∷ []; fails = false }) (part_error ∷ []) refl refl
      room harmful
