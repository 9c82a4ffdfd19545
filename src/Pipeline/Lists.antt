-- ===== src/Pipeline/Lists.antt =====
-- app/pipeline/pipeline.go: the whitelist and the blocklist. Parsing an address, trimming and
-- lower case belong to Go's library, and the tables' queries may fail.
pub mod Matching
use mailhook.Common.{
  Bool, true, false, ◌&&◌, ◌||◌, String, List, [], ◌∷◌, Option, none, some, if◌then◌else◌, str_eq,
  find, filter,
}
use mailhook.Email.{Email}
use mailhook.Verdict.{passes}

-- app/db/models.go: the columns of `Whitelist` that the pipeline reads; those of `Blocklist` are
-- the entry alone.
pub record Whitelist : Type 0 where
  pub entry : String
  pub bypass_scan : Bool

pub record Text : Type 0 where
  -- The address of `mail.ParseAddress`, or none.
  pub parse_address : String → Option String
  -- `strings.ToLower(strings.TrimSpace(s))`
  pub normalize : String → String
  -- The rest of the text from its last "@", if it has one.
  pub from_last_at : String → Option String

abbrev pub sender_auth_aligned : Email → Bool
sender_auth_aligned email =
    passes email.spf_result && (passes email.dkim_result || passes email.dmarc_result)

module _ (text : Text) where
  abbrev bare_address : Email → String
  bare_address email = elim (text.parse_address email.from) [
    | none ↦ text.normalize email.from
    | some address ↦ text.normalize address
  ]

  pub list_candidates : Email → List String
  list_candidates email = elim (text.from_last_at (bare_address email)) [
    | none ↦ bare_address email ∷ []
    | some domain ↦ bare_address email ∷ domain ∷ []
  ]

-- `entry IN ?`
abbrev is_one_of : List String → String → Bool
is_one_of [] e = false
is_one_of (c ∷ cs) e = str_eq c e || is_one_of cs e

module _ {A : Type 0} (entry_of : A → String) where
  -- The two loops: the first candidate that has a row, in the candidates' order.
  pub most_specific : List String → List A → Option A
  most_specific [] rows = none
  most_specific (c ∷ cs) rows = elim (find (λ x. str_eq (entry_of x) c) rows) [
    | some x ↦ some x
    | none ↦ most_specific cs rows
  ]

  -- The loops, and the first row where they find none.
  abbrev first_row : Option A → List A → Option A
  first_row (some x) rows = some x
  first_row none [] = none
  first_row none (x ∷ rows) = some x

  -- The query and the choice; a query that failed is a table that is not there.
  pub match_list : List String → Option (List A) → Option A
  unfolding most_specific
  match_list cs none = none
  match_list cs (some table) =
      let rows = filter (λ x. is_one_of cs (entry_of x)) table in
      first_row (most_specific cs rows) rows

-- `matchWhitelist` and `matchBlocklist`
pub match_whitelist : Text → Option (List Whitelist) → Email → Option Whitelist
unfolding match_list list_candidates
match_whitelist text table email = match_list (λ w. w.entry) (list_candidates text email) table

pub match_blocklist : Text → Option (List String) → Email → Option String
unfolding match_list list_candidates
match_blocklist text table email = match_list (λ e. e) (list_candidates text email) table
