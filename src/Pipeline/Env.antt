-- ===== src/Pipeline/Env.antt =====
-- app/pipeline/pipeline.go: the `Pipeline` that processes messages, with the outcomes of what it
-- calls. `Parse` and the scanners are arguments: what parsing gave, and what each scanner returns.
use mailhook.Common.{ℕ, Bool, true, false, not, String, List, Option, str_eq}
use mailhook.Email.{Email}
use mailhook.Floats.{Floats}
use mailhook.Pipeline.Build.{Encoding}
use mailhook.Pipeline.Lists.{Text, Whitelist}
use mailhook.Records.{Source, live, backfill, Action, delete_action, quarantine_action, pass_action}
use mailhook.Verdict.Collect.{ScannerName, ScanResult}
use mailhook.Verdict.{Decision, Verdict, Thresholds}

-- What a scanner's goroutine does.
pub data Ran (F : Type 0) : Type 0 where
  returned : ScanResult F → Ran F
  panicked : Ran F

pub record Scanner (F : Type 0) : Type 0 where
  pub name : ScannerName
  pub scan : Email → Ran F

pub data Parsed : Type 0 where
  parse_panicked parse_failed : String → Parsed
  parsed : Email → Parsed

-- The fields of `Pipeline`, its configuration, and the outcomes of what it calls.
pub record Env (fl : Floats) : Type 0 where
  pub text : Text
  pub encoding : Encoding
  pub now : ℕ
  pub today : String
  pub eml_clean_retain : Bool
  pub thresholds : Thresholds fl.Float
  -- The tables, or nothing where the query fails.
  pub whitelist : Option (List Whitelist)
  pub blocklist : Option (List String)
  -- The path under which `Store.Write` stores a message, if it can; whether `Store.Delete` works.
  pub store_path : String → String → ℕ → Option String
  pub store_delete : String → Bool
  pub scanners : List (Scanner fl.Float)
  pub has_notifier : Bool
  pub has_hub : Bool

abbrev pub is_backfill : Source → Bool
is_backfill backfill = true
is_backfill live = false

abbrev pub is_quarantine : Decision → Bool
is_quarantine Decision.quarantine = true
is_quarantine _ = false

abbrev pub is_pass : Decision → Bool
is_pass Decision.pass = true
is_pass _ = false

abbrev pub is_clean : Verdict → Bool
is_clean Verdict.clean = true
is_clean _ = false

abbrev pub verdict_to_action : Decision → Action
verdict_to_action Decision.delete = delete_action
verdict_to_action Decision.quarantine = quarantine_action
verdict_to_action _ = pass_action

abbrev pub decision_text : Decision → String
decision_text Decision.pass = "pass"
decision_text Decision.quarantine = "quarantine"
decision_text Decision.delete = "delete"
decision_text Decision.flag = "flag"

abbrev pub is_set : String → Bool
is_set s = not (str_eq s "")
