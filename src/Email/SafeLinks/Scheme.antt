-- ===== src/Email/SafeLinks/Scheme.antt =====
-- Where an unwrapped link can lead.
use mailhook.Common.{
  Bool, true, false, String, Option, none, some, if◌then◌else◌, ◌≡◌, ◌⊎◌, inl, inr, refl,
}
use mailhook.Email.SafeLinks.{
  LinkLib, is_web, web_only, decode_proofpoint_v2_underscore_variant, v2_result,
  decode_proofpoint_v2, v3_result, decode_proofpoint_v3, decode_mimecast, microsoft, proofpoint_v2,
  proofpoint_v3, mimecast, only_if, or_else, decode_at, decode_parsed, decode_safe_link,
}

-- Nothing, or a link with the scheme http or https.
pub IsWebOrNone : String → Type 0
IsWebOrNone s = (s ≡ "") ⊎ (is_web s ≡ true)

nothing : IsWebOrNone ""
unfolding IsWebOrNone
nothing = inl refl

choice-IsWeb :
    (b : Bool) (s t : String)
    → (b ≡ true → IsWebOrNone s)
    → IsWebOrNone t
    → IsWebOrNone (if b then s else t)
choice-IsWeb true s t h k = h refl
choice-IsWeb false s t h k = k

web : (s : String) → is_web s ≡ true → IsWebOrNone s
unfolding IsWebOrNone
web s h = inr h

web_only-IsWeb : (s : String) → IsWebOrNone (web_only s)
web_only-IsWeb s = choice-IsWeb (is_web s) s "" (web s) nothing

module _ (lib : LinkLib) where
  open lib use {Url, parse, hostname, to_lower}

  v2_result-IsWeb : (encoded : String) (o : Option String) → IsWebOrNone (v2_result lib encoded o)
  unfolding decode_proofpoint_v2_underscore_variant
  v2_result-IsWeb encoded none = nothing
  v2_result-IsWeb encoded (some s) = choice-IsWeb (is_web s) s _ (web s) (web_only-IsWeb _)

  v3_result-IsWeb : (o : Option String) → IsWebOrNone (v3_result lib o)
  v3_result-IsWeb none = nothing
  v3_result-IsWeb (some s) = web_only-IsWeb _

  decode_mimecast-IsWeb : (u : Url) → IsWebOrNone (decode_mimecast lib u)
  unfolding decode_mimecast
  decode_mimecast-IsWeb u = choice-IsWeb _ _ _ (λ e. nothing) (web_only-IsWeb _)

  only_if-IsWeb :
      (applies : Bool) (decoded : String)
      → IsWebOrNone decoded
      → IsWebOrNone (only_if applies decoded)
  unfolding only_if
  only_if-IsWeb applies decoded h = choice-IsWeb applies decoded "" (λ e. h) nothing

  microsoft-IsWeb : (host : String) (u : Url) → IsWebOrNone (microsoft lib host u)
  unfolding microsoft
  microsoft-IsWeb host u = only_if-IsWeb _ _ (web_only-IsWeb _)

  proofpoint_v2-IsWeb : (host : String) (u : Url) → IsWebOrNone (proofpoint_v2 lib host u)
  unfolding proofpoint_v2 decode_proofpoint_v2
  proofpoint_v2-IsWeb host u = only_if-IsWeb _ _ (v2_result-IsWeb _ _)

  proofpoint_v3-IsWeb : (host : String) (u : Url) → IsWebOrNone (proofpoint_v3 lib host u)
  unfolding proofpoint_v3 decode_proofpoint_v3
  proofpoint_v3-IsWeb host u = only_if-IsWeb _ _ (v3_result-IsWeb _)

  mimecast-IsWeb : (host : String) (u : Url) → IsWebOrNone (mimecast lib host u)
  unfolding mimecast
  mimecast-IsWeb host u = only_if-IsWeb _ _ (decode_mimecast-IsWeb u)

  or_else-IsWeb :
      (decoded next : String)
      → IsWebOrNone decoded
      → IsWebOrNone next
      → IsWebOrNone (or_else decoded next)
  or_else-IsWeb decoded next h k = choice-IsWeb _ next decoded (λ e. k) h

  decode_at-IsWeb : (host : String) (u : Url) → IsWebOrNone (decode_at lib host u)
  unfolding decode_at
  decode_at-IsWeb host u = or_else-IsWeb (microsoft lib host u) _ (microsoft-IsWeb host u) (
      or_else-IsWeb (proofpoint_v2 lib host u) _ (proofpoint_v2-IsWeb host u) (
        or_else-IsWeb (proofpoint_v3 lib host u) _ (proofpoint_v3-IsWeb host u)
          (mimecast-IsWeb host u)))

  decode_parsed-IsWeb : (o : Option Url) → IsWebOrNone (decode_parsed lib o)
  decode_parsed-IsWeb none = nothing
  decode_parsed-IsWeb (some u) = decode_at-IsWeb (to_lower (hostname u)) u

  -- What is unwrapped from a link, whichever gateway wrapped it, has the scheme http or https.
  pub decode_safe_link-IsWebOrNone : (raw_url : String) → IsWebOrNone (decode_safe_link lib raw_url)
  unfolding decode_safe_link
  decode_safe_link-IsWebOrNone raw_url = decode_parsed-IsWeb (parse raw_url)
