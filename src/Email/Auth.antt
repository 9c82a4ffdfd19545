-- ===== src/Email/Auth.antt =====
-- app/pipeline/email.go, `extractAuthResult`: the result of SPF, DKIM or DMARC in the headers
-- "Authentication-Results". Lower case, comparison without case and the trimming of spaces belong to
-- Go's library.
pub mod Trusted
use Prim.Native.Char.{Char, code}
use Prim.Native.String
use mailhook.Common.{
  ℕ, zero, suc, ◌+◌, Bool, true, false, not, ◌&&◌, ◌||◌, ◌⧺◌, String, List, [], ◌∷◌, Option, none,
  some, ◌==◌, if◌then◌else◌, str_eq,
}
use mailhook.Common.Text.{has_prefix, text_length, text_drop}

pub record TextLib : Type 0 where
  pub to_lower : String → String
  pub equal_fold : String → String → Bool
  pub trim_space : String → String

abbrev is_separator : Char → Bool
is_separator c = code c == b' ' || code c == 9 || code c == b';'

-- The text up to a character of the test.
unfoldable pub before_char : (Char → Bool) → String → String
before_char p String.[] = ""
before_char p (String.◌∷◌ c s) = let rest = before_char p s in if p c then "" else String.◌∷◌ c rest

-- `strings.FieldsFunc`: the first field, or "" where there is none.
unfoldable pub first_token : String → String
first_token String.[] = ""
first_token (String.◌∷◌ c s) =
    let rest = first_token s in
    if is_separator c then rest else before_char is_separator (String.◌∷◌ c s)

-- `strings.Index`
unfoldable pub index_of : String → String → Option ℕ
index_of sub String.[] = if str_eq sub "" then some 0 else none
index_of sub (String.◌∷◌ c s) =
    if has_prefix sub (String.◌∷◌ c s)
    then some 0
    else elim (index_of sub s) [ none ↦ none | some i ↦ some (suc i) ]

abbrev is_end : Char → Bool
is_end c = code c == b' ' || code c == 9 || code c == 13 || code c == 10 || code c == b';'

module _ (lib : TextLib) where
  -- Whether a header is read: any that is not "" where no server is trusted, and else those of the
  -- trusted server.
  unfoldable pub is_trusted : String → String → Bool
  is_trusted trusted header =
      not (str_eq header "")
      && (str_eq trusted ""
          || (not (str_eq (first_token header) "") && lib.equal_fold (first_token header) trusted))

  abbrev result_at : String → String → Option ℕ → Option String
  result_at mechanism header none = none
  result_at mechanism header (some i) = some (
      lib.to_lower
        (lib.trim_space (before_char is_end (text_drop (i + text_length mechanism + 1) header))))

  -- The result in one header.
  unfoldable pub result_in : String → String → Option String
  result_in mechanism header =
      result_at mechanism header (index_of (mechanism ⧺ "=") (lib.to_lower header))

  abbrev pub or_rest : Option String → String → String
  or_rest none rest = rest
  or_rest (some result) rest = result

  -- `extractAuthResult`
  unfoldable pub extract_auth_result : String → String → List String → String
  extract_auth_result mechanism trusted [] = "none"
  extract_auth_result mechanism trusted (header ∷ headers) =
      let rest = extract_auth_result mechanism trusted headers in
      if is_trusted trusted header then or_rest (result_in mechanism header) rest else rest
