-- ===== src/Util/Defang.antt =====
-- app/util/defang.go: addresses that a report shows without becoming links.
use Prim.Native.Char.{Char, code}
use mailhook.Common.{
  ℕ, zero, suc, ◌||◌, String, Option, none, some, ◌==◌, if◌then◌else◌, ◌≡◌, refl, ap, Bool-cases,
  inl, inr,
}
use mailhook.Common.Text.{◌⊹◌, has_prefix, before_byte, text_length, text_take, text_drop}

-- `DefangIP`: `strings.ReplaceAll(ip, ".", "[.]")`, where the byte that is kept is the dot.
unfoldable pub defang_ip : String → String
unfolding ◌⊹◌
defang_ip String.[] = ""
defang_ip (String.◌∷◌ c s) =
    let rest = defang_ip s in
    if code c == b'.' then "[" ⊹ String.◌∷◌ c ("]" ⊹ rest) else String.◌∷◌ c rest

-- What is written for the scheme or the byte at a position, and how many more bytes it takes.
abbrev scheme_at : Char → String → String × ℕ
scheme_at c s =
    if has_prefix "https://" (String.◌∷◌ c s)
    then ("hxxps://", 7)
    else if has_prefix "http://" (String.◌∷◌ c s)
    then ("hxxp://", 6)
    else if has_prefix "ftp://" (String.◌∷◌ c s)
    then ("fxp://", 5)
    else (String.◌∷◌ c "", 0)

-- The replacer of `DefangURL`, after the first so many bytes, which the last match has taken.
unfoldable pub replace_schemes : ℕ → String → String
unfolding has_prefix ◌⊹◌
replace_schemes n String.[] = ""
replace_schemes zero (String.◌∷◌ c s) =
    let (text, taken) = scheme_at c s in text ⊹ replace_schemes taken s
replace_schemes (suc n) (String.◌∷◌ c s) = replace_schemes n s

-- What follows "://": the host ends before the next slash.
unfoldable defang_host : String → String
unfolding before_byte text_length text_drop defang_ip ◌⊹◌
defang_host s = let host = before_byte b'/' s in defang_ip host ⊹ text_drop (text_length host) s

abbrev prepend : Char → Option String → Option String
prepend c none = none
prepend c (some s) = some (String.◌∷◌ c s)

-- The text with its host defanged, if "://" stands in it.
unfoldable defang_found : String → Option String
unfolding has_prefix text_take text_drop defang_host ◌⊹◌
defang_found String.[] = none
defang_found (String.◌∷◌ c s) =
    let later = prepend c (defang_found s) in
    if has_prefix "://" (String.◌∷◌ c s)
    then some (text_take 3 (String.◌∷◌ c s) ⊹ defang_host (text_drop 3 (String.◌∷◌ c s)))
    else later

abbrev found_or : Option String → String → String
found_or none other = other
found_or (some s) other = s

unfoldable pub defang_url : String → String
unfolding replace_schemes defang_found defang_ip ◌⊹◌
defang_url raw = let u = replace_schemes 0 raw in found_or (defang_found u) (defang_ip u)

-- The text without its brackets.
unfoldable pub unbracket : String → String
unbracket String.[] = ""
unbracket (String.◌∷◌ c s) =
    let rest = unbracket s in if code c == b'[' || code c == b']' then rest else String.◌∷◌ c rest

unbracket-cons :
    (c : Char) (s t : String)
    → unbracket s ≡ unbracket t
    → unbracket (String.◌∷◌ c s) ≡ unbracket (String.◌∷◌ c t)
unfolding unbracket ◌⊹◌
unbracket-cons c s t = ap (λ u. if code c == b'[' || code c == b']' then u else String.◌∷◌ c u)

-- A defanged address differs from the address in brackets only.
pub unbracket-defang_ip : (s : String) → unbracket (defang_ip s) ≡ unbracket s
unfolding unbracket defang_ip ◌⊹◌
unbracket-defang_ip String.[] = refl
unbracket-defang_ip (String.◌∷◌ c s) =
    let h = unbracket-defang_ip s in
    elim (Bool-cases (code c == b'.')) [
      | inl e ↦ rw e (unbracket-cons c ("]" ⊹ defang_ip s) s h)
      | inr e ↦ rw e (unbracket-cons c (defang_ip s) s h)
    ]

-- The example in the comment on `DefangURL`.
defanged : defang_url "https://evil.com/path" ≡ "hxxps://evil[.]com/path"
unfolding defang_url
defanged = refl
