-- ===== src/Auth/RateLimit/Attempts.antt =====
-- How many wrong passwords a client can try, where its requests overlap.
use mailhook.Common.{
  ℕ, ◌+◌, ◌*◌, ◌≤◌, Bool, true, false, ◌||◌, String, List, [], ◌∷◌, Option, none, some, ◌≡◌, refl,
  arith, Bool-cases, inl, inr, leb, ltb, ◌==◌, ◌∙◌, ◌⊎◌, zero, suc, Option-cases,
}
use mailhook.Common.Dict.{lookup, lookup-insert_self}
use mailhook.Auth.RateLimit.{
  Bucket, Buckets, minute, allow, allow_entry, record_entry, record_failure, LoginStep, asks, fails,
  Logins, login_step, login_steps,
}

-- A step's time lies in the five minutes after the first.
abbrev time_of : LoginStep → ℕ
time_of (asks now) = now
time_of (fails now) = now

abbrev pub AllWithin : ℕ → List LoginStep → Type 0
AllWithin start [] = Unit
AllWithin start (step ∷ steps) =
    (start ≤ time_of step) × (time_of step ≤ start + 5 * minute) × AllWithin start steps

-- No request of the client so far.
abbrev pub fresh : Buckets → Logins
fresh m = record { buckets = m; in_flight = 0; tried = 0; refused = 0 }

abbrev is_unlocked : Option ℕ → Bool
is_unlocked none = true
is_unlocked (some _) = false

-- The client's bucket and the counts in the window that began at the time.
record IsWindow (limit start : ℕ) (b : Bucket) (in_flight tried refused : ℕ) : Type 0 where
  began : b.window_start ≡ start
  counted : tried ≡ b.count + in_flight
  bounded : tried ≤ 4 + limit
  flying : in_flight ≤ limit
  kept : ((refused == 0) || leb 5 b.count) ≡ true
  locked : (leb 5 b.count || is_unlocked b.locked_until) ≡ true

-- The window of the client in the limiter.
abbrev Window : ℕ → ℕ → String → Logins → Type 0
Window limit start ip s =
    (b : Bucket) × (lookup ip s.buckets ≡ some b)
    × IsWindow limit start b s.in_flight s.tried s.refused

after_kept : (c i t r : ℕ) → t ≡ c + i → ((r == 0) || leb 5 c) ≡ true → (r ≡ 0) ⊎ (5 + i ≤ t)
after_kept c i t zero h k = inl refl
after_kept c i t (suc r) h k = inr (ground arith)

-- What `Allow` does to the bucket in the window.
allow_entry-Window :
    (limit start now : ℕ) (b : Bucket) (i t r : ℕ)
    → now ≤ start + 5 * minute
    → IsWindow limit start b i t r
    → let (b', (allowed, _)) = allow_entry now (some b) in
      (b'.count ≡ b.count)
      × (b'.window_start ≡ start)
      × (allowed ≡ ltb b.count 5)
      × ((leb 5 b'.count || is_unlocked b'.locked_until) ≡ true)
unfolding allow_entry
allow_entry-Window limit start now b i t r h k = elim (Option-cases b.locked_until) [
  | inl e ↦ ground (arith, k.began, e)
  | inr (u, e) ↦ ground (arith, k.began, k.locked, e)
]

-- The first request of a client.
first-Window :
    (limit start : ℕ) (ip : String) (m : Buckets)
    → 1 ≤ limit
    → lookup ip m ≡ none
    → Window limit start ip (login_step limit ip (asks start) (fresh m))
unfolding login_step allow allow_entry
first-Window limit start ip m h e =
    let b : Bucket = record { count = 0; window_start = start; locked_until = none } in
    let free : ltb 0 limit ≡ true = ground arith in
    rw (free, e)
      (
        b,
        lookup-insert_self ip b m,
        record {
          began = refl;
          counted = refl;
          bounded = omega arith;
          flying = h;
          kept = refl;
          locked = refl;
        },
      )

asks-Window :
    (limit start now : ℕ) (ip : String) (s : Logins)
    → now ≤ start + 5 * minute
    → Window limit start ip s
    → Window limit start ip (login_step limit ip (asks now) s)
unfolding login_step allow
asks-Window limit start now ip s h (b, e, k) =
    let (count, began, allowed, locked) =
      allow_entry-Window limit start now b s.in_flight s.tried s.refused h k in
    let b' = (allow_entry now (some b)).0 in
    elim (Bool-cases (ltb s.in_flight limit)) [
      | inr full ↦ rw full (b, e, k)
      | inl free ↦ elim (Bool-cases (ltb b.count 5)) [
        | inl yes_ ↦
            rw (free, e, allowed ∙ yes_)
              (
                b',
                lookup-insert_self ip b' s.buckets,
                record {
                  began = began;
                  counted = ground (arith, k.counted, count);
                  bounded = ground (arith, k.counted, yes_, free);
                  flying = ground (arith, free);
                  kept = ground (arith, k.kept, count);
                  locked = locked;
                },
              )
        | inr no_ ↦
            rw (free, e, allowed ∙ no_)
              (
                b',
                lookup-insert_self ip b' s.buckets,
                record {
                  began = began;
                  counted = ground (arith, k.counted, count);
                  bounded = k.bounded;
                  flying = k.flying;
                  kept = ground (arith, no_, count);
                  locked = locked;
                },
              )
      ]
    ]

fails-Window :
    (limit start now : ℕ) (ip : String) (s : Logins)
    → Window limit start ip s
    → Window limit start ip (login_step limit ip (fails now) s)
unfolding login_step record_failure record_entry
fails-Window limit start now ip s (b, e, k) = elim (Bool-cases (ltb 0 s.in_flight)) [
  | inr none_ ↦ rw none_ (b, e, k)
  | inl some_ ↦
      rw (some_, e)
        (
          record b { count = b.count + 1 },
          lookup-insert_self ip (record b { count = b.count + 1 }) s.buckets,
          record {
            began = k.began;
            counted = ground (arith, k.counted, some_);
            bounded = k.bounded;
            flying = ground (arith, k.flying);
            kept = ground (arith, k.kept);
            locked = ground (arith, k.locked);
          },
        )
]

steps-Window :
    (limit start : ℕ) (ip : String) (steps : List LoginStep) (s : Logins)
    → AllWithin start steps
    → Window limit start ip s
    → Window limit start ip (login_steps limit ip steps s)
unfolding login_steps
steps-Window limit start ip [] s w k = k
steps-Window limit start ip (asks now ∷ steps) s (_, h, w) k =
    steps-Window limit start ip steps _ w (asks-Window limit start now ip s h k)
steps-Window limit start ip (fails now ∷ steps) s (_, h, w) k =
    steps-Window limit start ip steps _ w (fails-Window limit start now ip s k)

-- Where at most `limit` requests of a client are served at a time, each of them with a wrong password,
-- in any order of their steps, and all within five minutes of the first, which comes from a new
-- client, with no sweep between: at most `4 + limit` passwords are looked at, so five if the requests do not overlap; and
-- one is turned away only if five have failed.
pub tried-bounded :
    (limit start : ℕ) (ip : String) (steps : List LoginStep) (m : Buckets)
    → 1 ≤ limit
    → lookup ip m ≡ none
    → AllWithin start steps
    → let s = login_steps limit ip (asks start ∷ steps) (fresh m) in
      (s.tried ≤ 4 + limit) × ((s.refused ≡ 0) ⊎ (5 + s.in_flight ≤ s.tried))
unfolding login_steps
tried-bounded limit start ip steps m h e w =
    let (b, _, k) = steps-Window limit start ip steps _ w (first-Window limit start ip m h e) in
    (k.bounded, after_kept b.count _ _ _ k.counted k.kept)
