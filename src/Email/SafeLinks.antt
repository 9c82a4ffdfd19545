-- ===== src/Email/SafeLinks.antt =====
-- app/pipeline/safelinks.go: the link inside a link that a mail gateway has wrapped. The parts of a
-- URL, and the decoding of percent signs, belong to Go's library.
pub mod Scheme
use Prim.Native.Char.{Char, code}
use Prim.Native.String
use mailhook.Common.{
  ℕ, Bool, true, false, not, ◌&&◌, ◌||◌, ◌⧺◌, String, Option, none, some, ◌==◌, if◌then◌else◌,
  str_eq, leb,
}
use mailhook.Common.Text.{after_prefix, has_prefix, has_suffix}

-- `url.URL` of a link: `Hostname`, `Path` and `Query().Get`; `url.Parse`; `url.QueryUnescape`;
-- `strings.ToLower`.
pub record LinkLib : Type 1 where
  pub Url : Type 0
  pub parse : String → Option Url
  pub hostname : Url → String
  pub path : Url → String
  pub query : Url → String → String
  pub query_unescape : String → Option String
  pub to_lower : String → String

unfoldable pub is_web : String → Bool
unfolding has_prefix
is_web s = has_prefix "http://" s || has_prefix "https://" s

-- A text that may be "", for nothing.
abbrev pub web_only : String → String
web_only s = if is_web s then s else ""

abbrev is_hex : Char → Bool
is_hex c =
    (leb b'0' (code c) && leb (code c) b'9')
    || (leb b'A' (code c) && leb (code c) b'F')
    || (leb b'a' (code c) && leb (code c) b'f')

-- The marker of an encoded character becomes a percent sign where two hex digits follow it.
unfoldable pub replace_hex : ℕ → String → String
replace_hex marker String.[] = ""
replace_hex marker (String.◌∷◌ c String.[]) = String.◌∷◌ c ""
replace_hex marker (String.◌∷◌ c (String.◌∷◌ d String.[])) = String.◌∷◌ c (String.◌∷◌ d "")
replace_hex marker (String.◌∷◌ c (String.◌∷◌ d (String.◌∷◌ e s))) =
    let rest = replace_hex marker s in
    let kept = replace_hex marker (String.◌∷◌ d (String.◌∷◌ e s)) in
    if code c == marker && is_hex d && is_hex e
    then "%" ⧺ String.◌∷◌ d (String.◌∷◌ e rest)
    else String.◌∷◌ c kept

-- `strings.ReplaceAll(s, "__", "//")`, then single underscores.
unfoldable pub replace_pairs : String → String
replace_pairs String.[] = ""
replace_pairs (String.◌∷◌ c String.[]) = String.◌∷◌ c ""
replace_pairs (String.◌∷◌ c (String.◌∷◌ d s)) =
    let rest = replace_pairs s in
    let kept = replace_pairs (String.◌∷◌ d s) in
    if code c == b'_' && code d == b'_' then "//" ⧺ rest else String.◌∷◌ c kept

unfoldable pub replace_singles : String → String
replace_singles String.[] = ""
replace_singles (String.◌∷◌ c s) =
    let rest = replace_singles s in if code c == b'_' then "/" ⧺ rest else String.◌∷◌ c rest

-- Whether the text goes on with the end of an embedded URL: "__;", or "__" at the end.
abbrev ends_here : String → Bool
ends_here s = str_eq s "__" || has_prefix "__;" s

-- The shortest text before such an end; nothing where there is none.
unfoldable pub before_boundary : String → Option String
before_boundary String.[] = none
before_boundary (String.◌∷◌ c s) =
    if ends_here (String.◌∷◌ c s)
    then some ""
    else elim (before_boundary s) [ none ↦ none | some t ↦ some (String.◌∷◌ c t) ]

-- The expression asks for one character at least.
abbrev embedded : Option String → Option String
embedded none = none
embedded (some String.[]) = none
embedded (some (String.◌∷◌ c s)) = elim (before_boundary s) [
  | none ↦ none
  | some t ↦ some (String.◌∷◌ c t)
]

unfoldable pub only_if : Bool → String → String
only_if applies decoded = if applies then decoded else ""

-- A case that decodes something ends the function.
abbrev pub or_else : String → String → String
or_else decoded next = if str_eq decoded "" then next else decoded

module _ (lib : LinkLib) where
  open lib use {Url, parse, hostname, path, query, query_unescape, to_lower}

  abbrev text_or : String → Option String → String
  text_or other none = other
  text_or other (some s) = s

  unfoldable pub decode_proofpoint_v2_underscore_variant : String → String
  decode_proofpoint_v2_underscore_variant encoded =
      let decoded = replace_hex b'-' encoded in
      web_only (replace_singles (replace_pairs (text_or decoded (query_unescape decoded))))

  abbrev pub v2_result : String → Option String → String
  v2_result encoded none = ""
  v2_result encoded (some result) =
      if is_web result then result else decode_proofpoint_v2_underscore_variant encoded

  unfoldable pub decode_proofpoint_v2 : String → String
  decode_proofpoint_v2 encoded = v2_result encoded (query_unescape (replace_hex b'-' encoded))

  abbrev pub v3_result : Option String → String
  v3_result none = ""
  v3_result (some encoded) = web_only (text_or "" (query_unescape (replace_hex b'*' encoded)))

  unfoldable pub decode_proofpoint_v3 : String → String
  decode_proofpoint_v3 p = v3_result (embedded (after_prefix "/v3/__" p))

  abbrev mimecast_path : String → String
  mimecast_path p = if str_eq p "" then "" else text_or p (query_unescape p)

  unfoldable pub decode_mimecast : Url → String
  decode_mimecast u =
      let scheme = if str_eq (query u "s") "0" then "http" else "https" in
      if str_eq (query u "domain") ""
      then ""
      else web_only (scheme ⧺ "://" ⧺ query u "domain" ⧺ mimecast_path (query u "p"))

  -- The four cases, for a lowered host; "" where one does not apply or decodes nothing.
  unfoldable pub microsoft : String → Url → String
  microsoft host u =
      only_if
        (has_suffix ".safelinks.protection.outlook.com" host
          || str_eq host "safelinks.protection.outlook.com")
        (web_only (query u "url"))

  unfoldable pub proofpoint_v2 : String → Url → String
  proofpoint_v2 host u =
      only_if
        (str_eq host "urldefense.proofpoint.com"
          && has_prefix "/v2/url" (path u)
          && not (str_eq (query u "u") ""))
        (decode_proofpoint_v2 (query u "u"))

  unfoldable pub proofpoint_v3 : String → Url → String
  proofpoint_v3 host u =
      only_if
        ((str_eq host "urldefense.com" || str_eq host "urldefense.proofpoint.com")
          && has_prefix "/v3/__" (path u))
        (decode_proofpoint_v3 (path u))

  unfoldable pub mimecast : String → Url → String
  mimecast host u =
      only_if (has_suffix ".mimecastprotect.com" host || str_eq host "mimecastprotect.com")
        (decode_mimecast u)

  unfoldable pub decode_at : String → Url → String
  decode_at host u =
      or_else (microsoft host u)
        (or_else (proofpoint_v2 host u) (or_else (proofpoint_v3 host u) (mimecast host u)))

  abbrev pub decode_parsed : Option Url → String
  decode_parsed none = ""
  decode_parsed (some u) = decode_at (to_lower (hostname u)) u

  -- `decodeSafeLink`: "" where nothing is decoded, since a decoding is never "".
  unfoldable pub decode_safe_link : String → String
  decode_safe_link raw_url = decode_parsed (parse raw_url)
