-- ===== src/Auth/RateLimit.antt =====
-- app/auth/ratelimit.go: failed logins for each client address. The zero time of `lockedUntil` is
-- `none`.
pub mod Lockout
pub mod Attempts
mod Tests
use mailhook.Common.{
  ℕ, ◌+◌, ◌-◌, ◌*◌, Bool, true, false, not, ◌&&◌, ◌||◌, String, List, [], ◌∷◌, Option, none, some,
  if◌then◌else◌, ltb, leb,
}
use mailhook.Common.Dict.{lookup, insert, retain}

pub record Bucket : Type 0 where
  pub count : ℕ
  pub window_start : ℕ
  pub locked_until : Option ℕ

abbrev pub Buckets : Type 0
Buckets = List (String × Bucket)

abbrev pub minute : ℕ
minute = 60_000_000_000

pub new_login_rate_limiter : Buckets
new_login_rate_limiter = []

-- `!b.lockedUntil.IsZero() && time.Now().Before(b.lockedUntil)`
abbrev pub is_locked : ℕ → Option ℕ → Bool
is_locked now none = false
is_locked now (some until) = ltb now until

abbrev time_until : ℕ → Option ℕ → ℕ
time_until now none = 0
time_until now (some until) = until - now

-- A new window after five minutes.
pub reset_window : ℕ → Bucket → Bucket
reset_window now b =
    if ltb (5 * minute) (now - b.window_start)
    then record { count = 0; window_start = now; locked_until = none }
    else b

-- `Allow` on a bucket: the bucket after it, the answer and the time to wait.
pub allow_bucket : ℕ → Bucket → Bucket × (Bool × ℕ)
unfolding reset_window
allow_bucket now b =
    if is_locked now b.locked_until
    then (b, (false, time_until now b.locked_until))
    else (let b' = reset_window now b in
        if leb 5 b'.count
        then (record b' { locked_until = some (now + 15 * minute) }, (false, 15 * minute))
        else (b', (true, 0)))

-- The entry of the client, or a new one. Its bucket is changed in place.
pub allow_entry : ℕ → Option Bucket → Bucket × (Bool × ℕ)
unfolding allow_bucket
allow_entry now none = (record { count = 0; window_start = now; locked_until = none }, (true, 0))
allow_entry now (some b) = allow_bucket now b

pub allow : ℕ → String → Buckets → Buckets × (Bool × ℕ)
allow now ip m = let entry = allow_entry now (lookup ip m) in (insert ip entry.0 m, entry.1)

pub record_entry : ℕ → Option Bucket → Bucket
record_entry now none = record { count = 1; window_start = now; locked_until = none }
record_entry now (some b) = record b { count = b.count + 1 }

pub record_failure : ℕ → String → Buckets → Buckets
record_failure now ip m = insert ip (record_entry now (lookup ip m)) m

-- The condition under which `Sweep` deletes a bucket.
pub is_stale : ℕ → Bucket → Bool
is_stale now b = elim b.locked_until [
  | none ↦ ltb (30 * minute) (now - b.window_start)
  | some until ↦ ltb (until + 30 * minute) now
]

pub sweep : ℕ → Buckets → Buckets
sweep now m = retain (λ b. not (is_stale now b)) m

-- app/web/handlers/auth.go, `PostLogin`, for one client that has no right password. The handler takes
-- the mutex for `Allow` and again for `Record`, and compares the hash between the two, so that
-- requests overlap: `asks` is the first part of one at a time, and `fails` the last part of one that
-- has its credentials looked at. The steps of other clients change other buckets.
pub data LoginStep : Type 0 where
  asks fails : ℕ → LoginStep

-- The limiter, the requests between the two parts, and the counts of those that had their credentials
-- looked at and of those that were turned away.
pub record Logins : Type 0 where
  pub buckets : Buckets
  pub in_flight : ℕ
  pub tried : ℕ
  pub refused : ℕ

abbrev pub asked : Logins → Buckets × (Bool × ℕ) → Logins
asked s (m, (allowed, _)) =
    if allowed
    then record s { buckets = m; in_flight = s.in_flight + 1; tried = s.tried + 1 }
    else record s { buckets = m; refused = s.refused + 1 }

-- The server has no limit of its own: `limit` stands for the most requests of the client that are
-- between the parts at once, and a further one comes later. A request ends only if there is one.
pub login_step : ℕ → String → LoginStep → Logins → Logins
login_step limit ip (asks now) s =
    if ltb s.in_flight limit then asked s (allow now ip s.buckets) else s
login_step limit ip (fails now) s =
    if ltb 0 s.in_flight
    then record s { buckets = record_failure now ip s.buckets; in_flight = s.in_flight - 1 }
    else s

pub login_steps : ℕ → String → List LoginStep → Logins → Logins
login_steps limit ip [] s = s
login_steps limit ip (step ∷ steps) s = login_steps limit ip steps (login_step limit ip step s)
