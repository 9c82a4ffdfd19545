-- ===== src/Pipeline/Tests.antt =====
-- The pipeline at concrete messages and outcomes.
use mailhook.Common.{
  All, suc, length, ℕ, ◌+◌, ◌≤◌, Bool, true, false, String, List, [], ◌∷◌, ◌++◌, Option, none, some,
  ◌≡◌, refl,
}
use mailhook.Common.Dict.{lookup}
use mailhook.Email.{Email}
use mailhook.Pipeline.Build.{Encoding}
use mailhook.Pipeline.Effects.{World, failed, done, ImapReply, wait, call}
use mailhook.Pipeline.Env.{Env, returned, parsed}
use mailhook.Pipeline.Held.{unread_record}
use mailhook.Pipeline.Imap.Calls.{Performs}
use mailhook.Pipeline.Imap.Retries.{take_imap_action-rounds, rounds, call_of, SameDb}
use mailhook.Pipeline.Imap.{take_imap_action, attempts}
use mailhook.Pipeline.Imap.Outcome.{IsInInbox, IsAt}
use mailhook.Pipeline.Process.Outcome.{error_of, failure, act_on_failed, act_on_done}
use mailhook.Pipeline.Lists.{Text, Whitelist}
use mailhook.Pipeline.Process.Safety.{applied, planned, process-Performs}
use mailhook.Pipeline.Process.Unsaved.{process-unsaved}
use mailhook.Pipeline.Process.{process, act_on}
use mailhook.Pipeline.Retro.{RetroEnv}
use mailhook.Pipeline.Retro.Sweep.{Sweep, sweep}
use mailhook.Pipeline.Retro.Sweep.Ends.{sweep-ends}
use mailhook.Pipeline.Stats.Totals.{IsTotal, IsTotalled, total_of, increment_daily_stat-IsTotal}
use mailhook.Pipeline.Stats.{increment_daily_stat}
use mailhook.Records.{live, backfill, Scan, DailyStat}
use mailhook.Samples.{hundredths, message, limits, result}
use mailhook.Verdict.Collect.{clamav, malicious}
use mailhook.Verdict.{quarantine, Verdict}

abbrev encoding : Encoding
encoding = record {
  unmarshal_vt = λ _. none;
  unmarshal_mb = λ _. none;
  marshal_attachments = λ _. none;
  marshal_urls = λ _. none;
  decimal_text = λ _. "n";
}

abbrev domain_after : String → Option String
domain_after _ = some "@example.org"

abbrev text : Text
text = record { parse_address = λ s. some s; normalize = λ s. s; from_last_at = domain_after }

-- The scanner finds malware, the sender's domain is blocked if told so.
abbrev env : List String → Env hundredths
env blocked = record {
  text = text;
  encoding = encoding;
  now = 10;
  today = "2024-01-01";
  eml_clean_retain = false;
  thresholds = limits;
  whitelist = some [];
  blocklist = some blocked;
  store_path = λ _ _ _. some "a.eml";
  store_delete = λ _. true;
  scanners = record { name = clamav; scan = λ _. returned (result clamav malicious 0) } ∷ [];
  has_notifier = true;
  has_hub = true;
}

abbrev first_stats : List (String × DailyStat)
first_stats =
    (
      "2024-01-01",
      record { total = 2; clean = 1; spam = 1; phish = 0; malware = 0; suspicious = 0 },
    )
    ∷ []

-- The mailbox refuses its first call; the database fails if told so.
abbrev world : Bool → World ℕ
world fails = record {
  scans = [];
  audits = [];
  stats = first_stats;
  next_id = 1;
  emls = [];
  imap_calls = [];
  sent = [];
  engines_down = [];
  broadcast = [];
  db_fails = fails ∷ [];
  imap_replies = failed "busy" ∷ [];
  cancels = [];
}

take_imap_action-rounds_example :
    (n : ℕ) × (n ≤ 4)
    × ((take_imap_action quarantine "INBOX" 7 (world false)).0.imap_calls
        ≡ rounds n (call_of quarantine "INBOX" 7) ++ [])
    × SameDb (world false) (take_imap_action quarantine "INBOX" 7 (world false)).0
take_imap_action-rounds_example = take_imap_action-rounds quarantine "INBOX" 7 (world false)

abbrev entries : List Whitelist
entries =
    record { entry = "@example.org"; bypass_scan = true }
    ∷ record { entry = "ann@example.org"; bypass_scan = false }
    ∷ []

process-Performs_example :
    Performs
      (applied live (planned hundredths (env ("@example.org" ∷ [])) (parsed message)))
      "INBOX"
      7
      []
      (process hundredths
        (env ("@example.org" ∷ []))
        true
        live
        "main"
        7
        "INBOX"
        []
        (parsed message)
        (world false)).imap_calls
process-Performs_example =
    process-Performs hundredths (env ("@example.org" ∷ [])) true live "main" 7 "INBOX" []
      (parsed message) (world false)

process-unsaved_example :
    (process hundredths
      (env [])
      true
      live
      "main"
      7
      "INBOX"
      []
      (parsed message)
      (world true)).imap_calls
    ≡ []
process-unsaved_example =
    process-unsaved hundredths (env []) true live "main" 7 "INBOX" [] (parsed message) (world true)
      refl

totalled : IsTotalled (lookup "2024-01-01" first_stats)
unfolding lookup IsTotal
totalled = refl

increment_daily_stat-IsTotal_example :
    IsTotalled
      (lookup "2024-01-01" (increment_daily_stat "2024-01-01" Verdict.spam (world false)).stats)
    × (total_of
          (lookup "2024-01-01" (increment_daily_stat "2024-01-01" Verdict.spam (world false)).stats)
        ≡ total_of (lookup "2024-01-01" first_stats) + 1)
increment_daily_stat-IsTotal_example =
    increment_daily_stat-IsTotal "2024-01-01" Verdict.spam (world false) totalled

abbrev retro : RetroEnv
retro = record {
  now = 20;
  lookup_url = λ _. some ("urlhaus", "malware");
  lookup_url_exact = λ _. none;
  account_known = λ _. true;
  hostname = λ _. some "www.evil.example";
  to_lower = λ s. s;
  unmarshal_urls = λ _. some ("http://www.evil.example/a" ∷ []);
  marshal_hits = λ _. [];
  account_uid = λ _ _ _. "main:Quarantine:1";
  has_notifier = true;
  has_hub = true;
}

-- A row in the inbox, and the same row after a user has taken it out.
abbrev row : Scan ℕ
row = unread_record hundredths (env []) backfill "main" 7 "INBOX" "x"

abbrev taken : Scan ℕ
taken = unread_record hundredths (env []) live "main" 7 "INBOX" "x"

abbrev holding : List (Scan ℕ) → World ℕ
holding rows = record (world false) { scans = rows }

-- The first query fails after the sweep has started.
abbrev swept : Sweep retro 72 hundredths
swept = record { world = holding (row ∷ row ∷ []); cancels = []; find_fails = false ∷ true ∷ [] }

sweep-ends_example :
    (z : Sweep retro 72 hundredths) × (sweep retro 72 hundredths
        (suc (length swept.world.scans))
        (false, swept)
      ≡ some (false, z))
sweep-ends_example = sweep-ends retro 72 hundredths false swept

-- The database works; the server refuses every call, or moves the message.
abbrev working : List ImapReply → World ℕ
working replies = record (holding (row ∷ [])) { db_fails = []; imap_replies = replies }

abbrev refusing : World ℕ
refusing = working (failed "busy" ∷ failed "busy" ∷ failed "busy" ∷ failed "gone" ∷ [])

abbrev moving : World ℕ
moving = working (failed "busy" ∷ done 3 "Quarantine" ∷ [])

refused : error_of (take_imap_action quarantine "INBOX" 7 refusing).1 ≡ some "gone"
unfolding take_imap_action attempts wait call
refused = refl

moved : (take_imap_action quarantine "INBOX" 7 moving).1 ≡ done 3 "Quarantine"
unfolding take_imap_action attempts wait call
moved = refl

act_on_failed_example :
    All (IsInInbox 0) (act_on hundredths (env []) live "main" 7 "INBOX" quarantine 0 refusing).scans
    × ((act_on hundredths (env []) live "main" 7 "INBOX" quarantine 0 refusing).audits
        ≡ failure 0 quarantine "gone" ∷ [])
act_on_failed_example =
    act_on_failed hundredths (env []) "main" 7 "INBOX" quarantine 0 "gone" refusing refl refused

act_on_done_example :
    All
      (IsAt 0 3 "Quarantine")
      (act_on hundredths (env []) live "main" 7 "INBOX" quarantine 0 moving).scans
    × ((act_on hundredths (env []) live "main" 7 "INBOX" quarantine 0 moving).audits ≡ [])
act_on_done_example =
    act_on_done hundredths (env []) "main" 7 "INBOX" 0 "Quarantine" 3 moving refl moved refl refl
