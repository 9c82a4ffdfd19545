-- ===== src/Email/Auth/Trusted.antt =====
-- Whose headers the results are taken from.
use mailhook.Common.{
  String, List, [], ◌∷◌, ◌++◌, false, ◌≡◌, refl, arith, ap, if◌then◌else◌, str_eq,
}
use mailhook.Email.Auth.{TextLib, first_token, is_trusted, result_in, or_rest, extract_auth_result}

module _ (lib : TextLib) where
  is_trusted-other :
      (trusted header : String)
      → str_eq trusted "" ≡ false
      → lib.equal_fold (first_token header) trusted ≡ false
      → is_trusted lib trusted header ≡ false
  unfolding is_trusted
  is_trusted-other trusted header set other = ground arith

  -- Where a server is trusted, a header whose first field names another one has no part in the
  -- result, wherever it stands among the headers: the result is the same without it.
  pub extract_auth_result-other :
      (mechanism trusted : String) (before : List String) (header : String) (after : List String)
      → str_eq trusted "" ≡ false
      → lib.equal_fold (first_token header) trusted ≡ false
      → extract_auth_result lib mechanism trusted (before ++ header ∷ after)
        ≡ extract_auth_result lib mechanism trusted (before ++ after)
  unfolding extract_auth_result
  extract_auth_result-other mechanism trusted [] header after set other =
      rw (is_trusted-other trusted header set other) refl
  extract_auth_result-other mechanism trusted (h ∷ before) header after set other =
      ap
        (λ rest.
          if is_trusted lib trusted h then or_rest lib (result_in lib mechanism h) rest else rest)
        (extract_auth_result-other mechanism trusted before header after set other)
