-- ===== src/Auth/RateLimit/Tests.antt =====
-- Wrong passwords in requests that overlap.
use mailhook.Common.{List, [], ◌∷◌, ◌≡◌, ◌≤◌, ◌+◌, ◌⊎◌, refl, arith}
use mailhook.Common.Dict.{lookup, insert}
use mailhook.Auth.RateLimit.{
  LoginStep, asks, fails, login_step, login_steps, allow, allow_entry, allow_bucket, record_failure,
  record_entry,
}
use mailhook.Auth.RateLimit.Attempts.{fresh, tried-bounded}

abbrev steps : List LoginStep
steps =
    asks 11
    ∷ fails 12
    ∷ asks 13
    ∷ fails 14
    ∷ fails 15
    ∷ asks 16
    ∷ fails 17
    ∷ asks 18
    ∷ asks 19
    ∷ asks 20
    ∷ fails 21
    ∷ fails 22
    ∷ asks 23
    ∷ []

tried-bounded_example :
    let s = login_steps 2 "1.2.3.4" (asks 10 ∷ steps) (fresh []) in
    (s.tried ≤ 6) × ((s.refused ≡ 0) ⊎ (5 + s.in_flight ≤ s.tried))
unfolding lookup
tried-bounded_example = tried-bounded 2 10 "1.2.3.4" steps [] (omega arith) refl (omega arith)

-- Six passwords are looked at where two requests overlap.
overlapping : (login_steps 2 "1.2.3.4" (asks 10 ∷ steps) (fresh [])).tried ≡ 6
unfolding login_steps login_step allow allow_entry allow_bucket record_failure record_entry lookup
    insert
overlapping = refl
