-- ===== src/Notify.antt =====
-- app/notify/ntfy.go: `NotifyEngineDown`, which reports a scanner that fails. Posting the alert is
-- left out: the flag says whether it is posted.
pub mod Debounce
mod Tests
use mailhook.Common.{
  ℕ, ◌-◌, Bool, true, false, String, List, [], Option, none, some, if◌then◌else◌, ltb,
}
use mailhook.Common.Dict.{lookup, insert}

abbrev pub hour : ℕ
hour = 3_600_000_000_000

-- Less than an hour has passed since the last alert.
abbrev pub is_recent : ℕ → Option ℕ → Bool
is_recent now none = false
is_recent now (some last) = ltb (now - last) hour

-- The last alert of each component; whether a URL is configured.
pub notify_engine_down : Bool → ℕ → String → List (String × ℕ) → List (String × ℕ) × Bool
notify_engine_down configured now component last =
    if configured
    then (if is_recent now (lookup component last)
        then (last, false)
        else (insert component now last, true))
    else (last, false)
