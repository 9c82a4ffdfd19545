-- ===== src/Auth/RateLimit/Lockout.antt =====
-- A lockout lasts, whatever is called in between.
use mailhook.Common.{ℕ, ◌-◌, ◌<◌, false, not, String, List, [], ◌∷◌, Option, none, some, ◌≡◌, arith}
use mailhook.Common.Dict.{
  lookup, keep, IsMap, lookup-insert_elim, lookup-retain, insert-IsMap, retain-IsMap,
}
use mailhook.Auth.RateLimit.{
  Bucket, Buckets, allow_entry, record_entry, allow, record_failure, is_stale, sweep,
}

-- A call on the limiter.
pub data Call : Type 0 where
  allow_call record_call : String → Call
  sweep_call : Call

pub perform : ℕ → Call → Buckets → Buckets
perform now (allow_call ip) m = (allow now ip m).0
perform now (record_call ip) m = record_failure now ip m
perform now sweep_call m = sweep now m

-- The calls of the list, each at its time.
pub perform_all : List (ℕ × Call) → Buckets → Buckets
perform_all [] m = m
perform_all ((now, c) ∷ cs) m = perform_all cs (perform now c m)

-- No call comes at or after the time.
abbrev pub AllBefore : ℕ → List (ℕ × Call) → Type 0
AllBefore until [] = Unit
AllBefore until ((now, c) ∷ cs) = (now < until) × AllBefore until cs

abbrev pub IsLockedUntil : ℕ → Option Bucket → Type 0
IsLockedUntil until none = ⊥
IsLockedUntil until (some b) = b.locked_until ≡ some until

pub perform-IsMap : (now : ℕ) (c : Call) (m : Buckets) → IsMap m → IsMap (perform now c m)
unfolding perform allow record_failure sweep
perform-IsMap now (allow_call ip) m u = insert-IsMap ip _ m u
perform-IsMap now (record_call ip) m u = insert-IsMap ip _ m u
perform-IsMap now sweep_call m u = retain-IsMap _ m u

allow_entry-IsLockedUntil :
    (now until : ℕ) (o : Option Bucket)
    → now < until
    → IsLockedUntil until o
    → IsLockedUntil until (some (allow_entry now o).0)
      × ((allow_entry now o).1 ≡ (false, until - now))
unfolding allow_entry
allow_entry-IsLockedUntil now until none h l = absurd l
allow_entry-IsLockedUntil now until (some b) h l = ground arith

record_entry-IsLockedUntil :
    (now until : ℕ) (o : Option Bucket)
    → IsLockedUntil until o
    → IsLockedUntil until (some (record_entry now o))
unfolding record_entry
record_entry-IsLockedUntil now until none l = absurd l
record_entry-IsLockedUntil now until (some b) l = l

keep-IsLockedUntil :
    (now until : ℕ) (o : Option Bucket)
    → now < until
    → IsLockedUntil until o
    → IsLockedUntil until (keep (λ b. not (is_stale now b)) o)
unfolding is_stale
keep-IsLockedUntil now until none h l = l
keep-IsLockedUntil now until (some b) h l = ground arith

perform-IsLockedUntil :
    (now until : ℕ) (ip : String) (c : Call) (m : Buckets)
    → IsMap m
    → now < until
    → IsLockedUntil until (lookup ip m)
    → IsLockedUntil until (lookup ip (perform now c m))
unfolding perform allow record_failure sweep
perform-IsLockedUntil now until ip (allow_call ip') m u h l =
    lookup-insert_elim (IsLockedUntil until) ip' ip _ m l
      (λ e. (allow_entry-IsLockedUntil now until (lookup ip' m) h (rw e l)).0)
perform-IsLockedUntil now until ip (record_call ip') m u h l =
    lookup-insert_elim (IsLockedUntil until) ip' ip _ m l
      (λ e. record_entry-IsLockedUntil now until (lookup ip' m) (rw e l))
perform-IsLockedUntil now until ip sweep_call m u h l =
    rw (lookup-retain (λ b. not (is_stale now b)) ip m u)
      (keep-IsLockedUntil now until (lookup ip m) h l)

perform_all-IsLockedUntil :
    (until : ℕ) (ip : String) (cs : List (ℕ × Call)) (m : Buckets)
    → IsMap m
    → AllBefore until cs
    → IsLockedUntil until (lookup ip m)
    → IsLockedUntil until (lookup ip (perform_all cs m))
unfolding perform_all
perform_all-IsLockedUntil until ip [] m u h l = l
perform_all-IsLockedUntil until ip ((now, c) ∷ cs) m u (h, hs) l =
    perform_all-IsLockedUntil until ip cs (perform now c m) (perform-IsMap now c m u) hs
      (perform-IsLockedUntil now until ip c m u h l)

-- A client that is locked out is refused, with the time that is left, until the lockout ends,
-- whatever calls for whatever clients come in between.
pub allow-perform_all :
    (until now : ℕ) (ip : String) (cs : List (ℕ × Call)) (m : Buckets)
    → IsMap m
    → IsLockedUntil until (lookup ip m)
    → AllBefore until cs
    → now < until
    → (allow now ip (perform_all cs m)).1 ≡ (false, until - now)
unfolding allow
allow-perform_all until now ip cs m u l hs h =
    (allow_entry-IsLockedUntil now until _ h (perform_all-IsLockedUntil until ip cs m u hs l)).1
