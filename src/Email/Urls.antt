-- ===== src/Email/Urls.antt =====
-- app/pipeline/email.go: the links of a message. The matches of the regular expression and the attributes
-- of the HTML are arguments; the text of a URL with its scheme and host in
-- lower case, and the comparison without case, belong to Go's library.
pub mod Found
use Prim.Native.Char.{Char, code}
use Prim.Native.String
use mailhook.Common.{
  ℕ, Bool, true, false, not, ◌&&◌, ◌||◌, ◌⧺◌, String, List, [], ◌∷◌, ◌++◌, Option, none, some, ◌==◌,
  if◌then◌else◌, str_eq, leb, ltb, any, length, filter,
}
use mailhook.Common.Text.{after_byte, before_byte, has_prefix}
use mailhook.Email.SafeLinks.{LinkLib, decode_safe_link}
use mailhook.Verdict.{join}

abbrev pub tracking_params : List String
tracking_params =
    "utm_source" ∷ "utm_medium" ∷ "utm_campaign" ∷ "utm_content" ∷ "utm_term" ∷ "fbclid" ∷ "gclid"
    ∷ "mc_eid" ∷ "yclid" ∷ "twclid" ∷ []

-- `strings.TrimRight(s, ".,;:!?\"'")`
abbrev is_trailing : Char → Bool
is_trailing c =
    code c == b'.'
    || code c == b','
    || code c == b';'
    || code c == b':'
    || code c == b'!'
    || code c == b'?'
    || code c == 34
    || code c == 39

unfoldable pub trim_punctuation : String → String
trim_punctuation String.[] = ""
trim_punctuation (String.◌∷◌ c s) =
    let rest = trim_punctuation s in
    if is_trailing c && str_eq rest "" then "" else String.◌∷◌ c rest

-- `strings.Split(s, "&")`
abbrev start_part : Char → List String → List String
start_part c [] = String.◌∷◌ c "" ∷ []
start_part c (p ∷ ps) = String.◌∷◌ c p ∷ ps

unfoldable pub split_params : String → List String
split_params String.[] = "" ∷ []
split_params (String.◌∷◌ c s) =
    let rest = split_params s in if code c == b'&' then "" ∷ rest else start_part c rest

pub record UrlText : Type 0 where
  -- The URL with its scheme and host in lower case, or nothing where it does not parse.
  pub lower_host : String → Option String
  pub equal_fold : String → String → Bool

abbrev pub max_urls_per_email : ℕ
max_urls_per_email = 100

-- The set `seen` holds just the URLs of the list.
abbrev pub is_new : String → List String → Bool
is_new u urls = not (str_eq u "") && not (any (str_eq u) urls)

abbrev pub add_new : String → List String → List String
add_new u urls = if is_new u urls then urls ++ u ∷ [] else urls

module _ (lib : UrlText) where
  abbrev pub is_tracking : String → Bool
  is_tracking part = any (lib.equal_fold (before_byte b'=' part)) tracking_params

  abbrev with_params : String → List String → String
  with_params base [] = base
  with_params base (p ∷ ps) = base ⧺ "?" ⧺ join "&" (p ∷ ps)

  abbrev strip_params : String → Option String → String
  strip_params u none = u
  strip_params u (some query) =
      with_params (before_byte b'?' u) (filter (λ p. not (is_tracking p)) (split_params query))

  abbrev url_or : String → Option String → String
  url_or u none = u
  url_or u (some v) = v

  abbrev without_tracking : String → String
  without_tracking u = strip_params u (after_byte b'?' u)

  -- `normalizeURL`
  unfoldable pub normalize_url : String → String
  normalize_url raw_url =
      without_tracking
        (url_or (trim_punctuation raw_url) (lib.lower_host (trim_punctuation raw_url)))

  -- The second half of `addURL`, for what a gateway has wrapped.
  abbrev pub add_decoded : String → List String → Bool × List String
  add_decoded decoded urls =
      if not (str_eq decoded "") && is_new (normalize_url decoded) urls
      then if leb max_urls_per_email (length urls)
        then (false, urls)
        else (true, urls ++ normalize_url decoded ∷ [])
      else (true, urls)

  module _ (links : LinkLib) where
    -- `addURL`: whether to go on, and the URLs.
    unfoldable pub add_url : String → List String → Bool × List String
    add_url raw urls =
        if leb max_urls_per_email (length urls)
        then (false, urls)
        else add_decoded (decode_safe_link links raw) (add_new (normalize_url raw) urls)

    -- A loop over matches, which stops where `addURL` says so.
    unfoldable pub add_all : List String → List String → List String
    add_all [] urls = urls
    add_all (raw ∷ raws) urls =
        let more = add_all raws (add_url raw urls).1 in
        if (add_url raw urls).0 then more else (add_url raw urls).1

    -- `extractURLs`, for the matches in the text and the attributes that start with "http".
    unfoldable pub extract_urls : List String → List String → List String
    extract_urls matches attributes =
        let from_text = add_all matches [] in
        let from_both = add_all (filter (has_prefix "http") attributes) from_text in
        if ltb (length from_text) max_urls_per_email then from_both else from_text

-- The links of QR codes, which `Parse` adds.
unfoldable pub merge_qr : List String → List String → List String
merge_qr [] urls = urls
merge_qr (u ∷ us) urls = merge_qr us (if any (str_eq u) urls then urls else urls ++ u ∷ [])
